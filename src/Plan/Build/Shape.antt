-- ===== src/Plan/Build/Shape.antt =====
-- internal/plan/plan.go: how often the steps of a DAG are replayed.
use aquila.Base.{
  ◌≡◌, refl, ◌∙◌, Bool, true, false, not, ◌&&◌, ◌||◌, inl, inr, List, [], ◌∷◌, map, any,
  if◌then◌else◌, arith, Bool-cases, str_eq, str_eq→eq, ℤ, pos, negsuc, ltb_ℤ, ◌≤ℤ◌,
}
use aquila.Plan.{Step, Dag, kind_behavior, kind_latency}
use aquila.Plan.Build.{with_latency_n, repeats_from, replay_repeats}

-- A latency step that is no operator's.
abbrev pub samples_latency : Step → Bool
samples_latency s = not s.operator && str_eq s.kind kind_latency

abbrev is_replayed : Step → Bool
is_replayed s = not s.operator && (str_eq s.kind kind_behavior || str_eq s.kind kind_latency)

abbrev renumber : ℤ → Step → Step
renumber n s = if str_eq s.kind kind_latency then record s { n = n } else s

latency_no_behavior :
    (s : Step) → str_eq s.kind kind_latency ≡ true → str_eq s.kind kind_behavior ≡ false
unfolding str_eq
latency_no_behavior s h = rw (str_eq→eq s.kind kind_latency h) refl

no_less : (n : ℤ) → ltb_ℤ n n ≡ false
no_less (pos n) = ground arith
no_less (negsuc n) = ground arith

same_if_not_less : (m n : ℤ) → m ≤ℤ n → ltb_ℤ m n ≡ false → m ≡ n
same_if_not_less (pos m) (pos n) h k = ground arith
same_if_not_less (pos m) (negsuc n) h k = absurd (omega (arith, h))
same_if_not_less (negsuc m) (pos n) h k = absurd (ground arith)
same_if_not_less (negsuc m) (negsuc n) h k = ground arith

samples-replayed :
    (steps : List Step) → any samples_latency steps ≡ true → any is_replayed steps ≡ true
samples-replayed [] h = absurd (ground arith)
samples-replayed (s ∷ steps) h = ground (arith, samples-replayed steps)

module _ (n : ℤ) where
  repeats-renumbered :
      (m : ℤ) (need : Bool) (steps : List Step)
      → m ≤ℤ n
      → repeats_from m need (map (renumber n) steps)
        ≡ ((if any samples_latency steps then n else m), need || any is_replayed steps)
  unfolding repeats_from
  repeats-renumbered m need [] h = ground arith
  repeats-renumbered m need (s ∷ steps) h = elim (Bool-cases (str_eq s.kind kind_latency)) [
    | inr o ↦ elim (Bool-cases s.operator) [
      | inl p ↦ rw (o, p) (repeats-renumbered m need steps h)
      | inr p ↦ elim (Bool-cases (str_eq s.kind kind_behavior)) [
        | inl b ↦ rw (o, p, b) (repeats-renumbered m true steps h ∙ ground arith)
        | inr b ↦ rw (o, p, b) (rw o (repeats-renumbered m need steps h))
      ]
    ]
    | inl l ↦
        let b = latency_no_behavior s l in
        elim (Bool-cases s.operator) [
          | inl p ↦ rw (l, p) (repeats-renumbered m need steps h)
          | inr p ↦ elim (Bool-cases (ltb_ℤ m n)) [
            | inl k ↦
                rw (l, p, b, k)
                  (rw l (repeats-renumbered n true steps (omega arith) ∙ ground arith))
            | inr k ↦
                let e = same_if_not_less m n h k in
                rw (l, p, b, k) (rw l (repeats-renumbered m true steps h ∙ rw e (ground arith)))
          ]
        ]
  ]

-- After WithLatencyN with a count of 1 or more, replayRepeats asks for just that count, if the DAG
-- has a latency step that is no operator's.
pub replay_repeats-with_latency_n :
    (dag : Dag) (n : ℤ)
    → pos 1 ≤ℤ n
    → any samples_latency dag.steps ≡ true
    → replay_repeats (with_latency_n dag n) ≡ (n, true)
unfolding replay_repeats with_latency_n
replay_repeats-with_latency_n dag n h some_step =
    let low : ltb_ℤ n (pos 1) ≡ false = ground arith in
    let replayed = samples-replayed dag.steps some_step in
    rw low (repeats-renumbered n (pos 1) false dag.steps h ∙ rw (some_step, replayed) refl)
