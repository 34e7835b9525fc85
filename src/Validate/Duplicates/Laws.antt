-- ===== src/Validate/Duplicates/Laws.antt =====
-- When duplicateBlockers names no blocker.
use aquila.Base.{
  ◌≡◌, refl, ◌∙◌, Str, Bool, not, ◌||◌, inl, inr, List, [], ◌∷◌, ◌++◌, all, is_empty,
  is_empty-append, arith, Bool-cases,
}
use aquila.Validate.{all-is_in, Input, block_if, duplicate_step, is_empty-sorted, is_in}
use aquila.Validate.Duplicates.{
  distinct_kinds, plan_kinds, result_kinds, repeats, duplicates_among, duplicate_blockers,
}

-- A kind stands at most once in the plan and in the result.
abbrev pub is_single : List Str → List Str → Str → Bool
is_single ps rs k = not (repeats ps k || repeats rs k)

duplicates_among-empty :
    (ps rs ks : List Str) → is_empty (duplicates_among ps rs ks) ≡ all (is_single ps rs) ks
unfolding duplicates_among
duplicates_among-empty ps rs [] = refl
duplicates_among-empty ps rs (k ∷ ks) =
    is_empty-append (block_if (repeats ps k || repeats rs k) duplicate_step k)
      (duplicates_among ps rs ks)
    ∙ rw (duplicates_among-empty ps rs ks) (ground arith)

module _ (ok : Str → Bool) where
  all-distinct : (ks : List Str) → all ok (distinct_kinds ks) ≡ all ok ks
  unfolding distinct_kinds
  all-distinct [] = refl
  all-distinct (k ∷ ks) = elim (Bool-cases (is_in k ks)) [
    | inl old ↦ let e = all-is_in ok ks k old in let ih = all-distinct ks in rw old (ground arith)
    | inr new ↦ rw new (ground (arith, all-distinct ks))
  ]

pub duplicate_blockers-empty :
    (i : Input)
    → is_empty (duplicate_blockers i)
      ≡ all (is_single (plan_kinds i) (result_kinds i)) (plan_kinds i ++ result_kinds i)
unfolding duplicate_blockers
duplicate_blockers-empty i =
    is_empty-sorted (
      duplicates_among (plan_kinds i) (result_kinds i)
        (distinct_kinds (plan_kinds i ++ result_kinds i)))
    ∙ (duplicates_among-empty (plan_kinds i) (result_kinds i)
          (distinct_kinds (plan_kinds i ++ result_kinds i))
        ∙ all-distinct (is_single (plan_kinds i) (result_kinds i)) (plan_kinds i ++ result_kinds i))
