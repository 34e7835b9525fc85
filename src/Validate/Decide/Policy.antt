-- ===== src/Validate/Decide/Policy.antt =====
-- internal/validate/decide.go: the validation policy that Decide enforces, apart from the order in
-- which it reports what is missing.
use aquila.Base.{
  ◌≡◌, ◌≢◌, refl, sym, Str, Bool, true, false, not, ◌&&◌, ◌⊎◌, ◌↔◌, inl, inr, List, [], ◌∷◌, ◌++◌,
  any, all, arith, Bool-cases, str_eq, str_eq→eq, str_eq_iff, str_eq-false, All, In, all→All,
  any→In, In→any, nonempty_iff, All-imp, trim_space, All-In, count_by,
}
use aquila.Url.{UrlPackage}
use aquila.Gitrev.{Revision, source_built}
use aquila.Replay.{Delta, verdict_match}
use aquila.Replay
use aquila.Plan
use aquila.Plan.{StepResult, kind_behavior}
use aquila.Impact.Routes.{route_matches}
use aquila.Validate.{Input, fold_text, is_in}
use aquila.Validate.Steps.{core_kinds, step_ok, is_extra}
use aquila.Validate.Steps.Laws.{kind_ok, extra_met}
use aquila.Validate.Duplicates.{plan_kinds, result_kinds, repeats}
use aquila.Validate.Duplicates.Laws.{is_single}
use aquila.Validate.Coverage.{covered, answered}
use aquila.Validate.Coverage.Laws.{is_covered}
use aquila.Validate.Targets.{norm_url}
use aquila.Validate.Decide.Blockers.{revision_ok}

-- A revision whose tree is known and which was read from the build itself.
pub record IsBuilt (rev : Revision) : Type 0 where
  pub tree_known : rev.tree ≢ []
  pub from_build : rev.source ≡ source_built

-- A kind of step has a result, and every result of it passes.
pub record KindPasses (results : List StepResult) (kind : Str) : Type 0 where
  pub present : (s : StepResult) × In s results × (s.kind ≡ kind)
  pub passes : All (λ (s : StepResult). (s.kind ≢ kind) ⊎ (step_ok kind s ≡ true)) results

-- A step of the workload that the behavior run got answered stands on the route.
pub record Reaches (i : Input) (route : Str) : Type 0 where
  pub step : Replay.Step
  pub in_workload : In step i.workload
  pub was_answered : is_in (step.method ++ (b' ' ∷ step.path)) (answered i.result.steps) ≡ true
  pub on_route : route_matches route step.method step.path ≡ true

abbrev pub NeverTwice : List Str → Type 0
NeverTwice kinds = All (λ k. repeats kinds k ≡ false) kinds

pub record Policy (urls : UrlPackage) (i : Input) : Type 0 where
  pub clean : i.baseline_rev.dirty ≡ false
  pub baseline_built : IsBuilt i.baseline_rev
  pub patch_built : IsBuilt i.patch_rev
  pub trees_differ : i.baseline_rev.tree ≢ i.patch_rev.tree
  pub baseline_given : trim_space i.baseline ≢ []
  pub patch_given : trim_space i.patch ≢ []
  pub targets_differ : norm_url urls i.baseline ≢ norm_url urls i.patch
  pub matched : fold_text i.result.overall ≡ verdict_match
  pub planned_once : NeverTwice (plan_kinds i)
  pub reported_once : NeverTwice (result_kinds i)
  pub core_pass : All (KindPasses i.result.steps) core_kinds
  pub extra_pass :
      All (λ (s : Plan.Step). (is_extra s ≡ false) ⊎ KindPasses i.result.steps s.kind) i.plan.steps
  pub analyzed : i.changes.unanalyzed ≡ []
  pub bound : i.changes.bound ≢ []
  pub impacted : i.impacted ≢ []
  pub reached : All (Reaches i) i.impacted

pub IsBuilt-iff : (rev : Revision) → (revision_ok rev ≡ true) ↔ IsBuilt rev
IsBuilt-iff rev = (
  λ h. record {
    tree_known = (nonempty_iff rev.tree).0 (ground arith);
    from_build = str_eq→eq rev.source source_built (ground arith);
  },
  λ p.
      let a = (nonempty_iff rev.tree).1 p.tree_known in
      let b = (str_eq_iff rev.source source_built).1 p.from_build in ground arith,
)

each-passes :
    (k : Str) (rs : List StepResult)
    → any (λ (s : StepResult). str_eq s.kind k && not (step_ok k s)) rs ≡ false
    → All (λ (s : StepResult). (s.kind ≢ k) ⊎ (step_ok k s ≡ true)) rs
each-passes k [] h = tt
each-passes k (s ∷ rs) h =
    let rest = each-passes k rs (ground arith) in
    elim (Bool-cases (str_eq s.kind k)) [
      | inl e ↦ (inr (ground arith), rest)
      | inr n ↦ (inl ((str_eq-false s.kind k).0 n), rest)
    ]

none-fails :
    (k : Str) (rs : List StepResult)
    → All (λ (s : StepResult). (s.kind ≢ k) ⊎ (step_ok k s ≡ true)) rs
    → any (λ (s : StepResult). str_eq s.kind k && not (step_ok k s)) rs ≡ false
none-fails k [] h = refl
none-fails k (s ∷ rs) h =
    let rest = none-fails k rs h.1 in
    elim h.0 [ inl n ↦ let e = (str_eq-false s.kind k).1 n in ground arith | inr y ↦ ground arith ]

pub KindPasses-iff : (rs : List StepResult) (k : Str) → (kind_ok rs k ≡ true) ↔ KindPasses rs k
KindPasses-iff rs k = (
  λ h.
      let (s, m, e) = any→In (λ (s : StepResult). str_eq s.kind k) rs (ground arith) in
      record { present = (s, m, str_eq→eq s.kind k e); passes = each-passes k rs (ground arith) },
  λ p.
      let (s, m, e) = p.present in
      let there = In→any (λ (s : StepResult). str_eq s.kind k) rs s m ((str_eq_iff s.kind k).1 e) in
      let fine = none-fails k rs p.passes in ground arith,
)

pub Reaches-iff : (i : Input) (r : Str) → (is_covered i r ≡ true) ↔ Reaches i r
unfolding covered
Reaches-iff i r = (
  λ h.
      let (s, m, e) =
        any→In
          (λ (st : Replay.Step).
            is_in (st.method ++ (b' ' ∷ st.path)) (answered i.result.steps)
            && any (λ route. route_matches route st.method st.path) (r ∷ []))
          i.workload h in
      record { step = s; in_workload = m; was_answered = ground arith; on_route = ground arith },
  λ p.
      let a = p.was_answered in
      let b = p.on_route in
      In→any
        (λ (st : Replay.Step).
          is_in (st.method ++ (b' ' ∷ st.path)) (answered i.result.steps)
          && any (λ route. route_matches route st.method st.path) (r ∷ []))
        i.workload p.step p.in_workload (ground arith),
)

count-absent : (k : Str) (ks : List Str) → is_in k ks ≡ false → count_by (λ s. str_eq s k) ks ≡ 0
count-absent k [] h = refl
count-absent k (l ∷ ks) h =
    let ih = count-absent k ks (ground arith) in
    let n = (str_eq-false l k).1 (λ e. (str_eq-false k l).0 (ground arith) (sym e)) in
    rw n (omega (arith, ih))

-- A kind outside the list is not repeated in it.
NeverTwice-all : (ks : List Str) (k : Str) → NeverTwice ks → repeats ks k ≡ false
NeverTwice-all ks k h = elim (Bool-cases (is_in k ks)) [
  | inl old ↦
      let (l, m, e) = any→In (λ s. str_eq k s) ks old in
      rw (str_eq→eq k l e) (All-In (λ k. repeats ks k ≡ false) ks l h m)
  | inr new ↦ let z = count-absent k ks new in ground arith
]

all-split : {A : Type 0} (p : A → Bool) (xs ys : List A) → all p (xs ++ ys) ≡ (all p xs && all p ys)
all-split p [] ys = refl
all-split p (x ∷ xs) ys = ground (arith, all-split p xs ys)

every : {A : Type 0} (p : A → Bool) → ((a : A) → p a ≡ true) → (xs : List A) → all p xs ≡ true
every p h [] = refl
every p h (x ∷ xs) = rw (h x) (every p h xs)

pub NeverTwice-iff :
    (ps rs : List Str) → (all (is_single ps rs) (ps ++ rs) ≡ true) ↔ (NeverTwice ps × NeverTwice rs)
NeverTwice-iff ps rs = (
  λ h.
      let split = all-split (is_single ps rs) ps rs in
      let a = all→All (is_single ps rs) ps (ground arith) in
      let b = all→All (is_single ps rs) rs (ground arith) in
      (
        All-imp (λ k. is_single ps rs k ≡ true) (λ k. repeats ps k ≡ false) (λ k e. ground arith) ps
            a,
        All-imp (λ k. is_single ps rs k ≡ true) (λ k. repeats rs k ≡ false) (λ k e. ground arith) rs
            b,
      ),
  λ p.
      every (is_single ps rs)
        (λ k. let a = NeverTwice-all ps k p.0 in let b = NeverTwice-all rs k p.1 in ground arith)
        (ps ++ rs),
)

pub extra_met_iff :
    (rs : List StepResult) (s : Plan.Step)
    → (extra_met rs s ≡ true) ↔ ((is_extra s ≡ false) ⊎ KindPasses rs s.kind)
extra_met_iff rs s = (
  λ h. elim (Bool-cases (is_extra s)) [
    | inl e ↦ inr ((KindPasses-iff rs s.kind).0 (ground arith))
    | inr n ↦ inl n
  ],
  λ p. elim p [
    | inl n ↦ ground arith
    | inr k ↦ let e = (KindPasses-iff rs s.kind).1 k in ground arith
  ],
)
