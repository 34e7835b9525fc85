-- ===== src/Jobs/Quota/Pick.antt =====
-- internal/jobs/quota.go: which task pickReady chooses.
use mathlib.Core.Path.{subst}
use mathlib.Core.Bool.{false≢true}
use mathlib.Core.Option.{some-injective}
use native.Mathlib.Decide.{dec_lt}
use aquila.Base.{
  ℕ, zero, suc, ◌+◌, ◌≤◌, ◌<◌, ◌≡◌, refl, sym, ap, ◌∙◌, Str, Bool, true, false, ◌&&◌, ◌⊎◌, inl, inr,
  Option, none, some, List, [], ◌∷◌, any, length, get_elem?, arith, Bool-cases, Option-cases,
}
use aquila.Jobs.{Task, Job}
use aquila.Jobs.Quota.{
  Quota, Choice, normalized, leased_of, is_free, first_free, is_open, beats, consider, pick_from,
  pick_ready,
}

first_free-some :
    (ts : List Task) (i : ℕ)
    → first_free ts ≡ some i
    → (t : Task) × (get_elem? ts i ≡ some t) × (is_free t ≡ true)
unfolding first_free
first_free-some [] i e = absurd (ground arith)
first_free-some (t ∷ ts) i e = elim (Bool-cases (is_free t)) [
  | inl f ↦ let ei : i ≡ 0 = ground arith in rw ei (t, refl, f)
  | inr f ↦ elim (Option-cases (first_free ts)) [
    | inl n ↦ absurd (ground arith)
    | inr (k, n) ↦ let ei : i ≡ suc k = ground arith in rw ei (first_free-some ts k n)
  ]
]

first_free-none : (ts : List Task) → first_free ts ≡ none → any is_free ts ≡ false
unfolding first_free
first_free-none [] e = refl
first_free-none (t ∷ ts) e = ground (arith, first_free-none ts)

-- A job with a task that can be leased now, under a quota that is normalized.
abbrev pub is_candidate : List Job → Str → Quota → Job → Bool
is_candidate all want q j = is_open want q (leased_of j.service all) j && any is_free j.tasks

-- A choice is at an open job and a free task, and holds the load of the job's service.
abbrev pub IsSound : List Job → Str → Quota → Choice → Type 0
IsSound all want q c =
    (j : Job) × (t : Task) × (get_elem? all c.job ≡ some j)
    × (get_elem? j.tasks c.task ≡ some t)
    × (is_open want q c.load j ≡ true)
    × (is_free t ≡ true)
    × (c.load ≡ leased_of j.service all)

abbrev SoundOption : List Job → Str → Quota → Option Choice → Type 0
SoundOption all want q none = Unit
SoundOption all want q (some c) = IsSound all want q c

-- A lower load, or the same load and no later place.
abbrev Wins : Choice → ℕ → ℕ → Type 0
Wins c k load = (c.load < load) ⊎ ((c.load ≡ load) × (c.job ≤ k))

module _ (all : List Job) (want : Str) (q : Quota) where
  abbrev load_of : Job → ℕ
  load_of j = leased_of j.service all

  -- The invariant rule of the loop: `js` is what is left of `all` from place `ji` on.
  pick_from_inv :
      (Q : ℕ → Option Choice → Type 0)
      → ((ji : ℕ) (j : Job) (best : Option Choice)
          → get_elem? all ji ≡ some j
          → Q ji best
          → Q (suc ji) (consider want q (load_of j) ji j best))
      → (js : List Job) (ji : ℕ) (best : Option Choice)
      → ((k : ℕ) → get_elem? js k ≡ get_elem? all (ji + k))
      → Q ji best
      → Q (ji + length js) (pick_from all want q ji js best)
  unfolding pick_from
  pick_from_inv Q step [] ji best at h =
      let e : ji ≡ ji + 0 = omega arith in subst (λ n. Q n best) e h
  pick_from_inv Q step (j ∷ js) ji best at h =
      let e0 : ji ≡ ji + 0 = omega arith in
      let here : get_elem? all ji ≡ some j = ap (get_elem? all) e0 ∙ sym (at 0) in
      let next = λ (k : ℕ).
        let e : ji + suc k ≡ suc ji + k = omega arith in at (suc k) ∙ ap (get_elem? all) e in
      let e : suc ji + length js ≡ ji + suc (length js) = omega arith in
      subst (λ n. Q n (pick_from all want q (suc ji) js (consider want q (load_of j) ji j best))) e
        (pick_from_inv Q step js (suc ji) (consider want q (load_of j) ji j best) next
          (step ji j best here h))

  pick_all_inv :
      (Q : ℕ → Option Choice → Type 0)
      → ((ji : ℕ) (j : Job) (best : Option Choice)
          → get_elem? all ji ≡ some j
          → Q ji best
          → Q (suc ji) (consider want q (load_of j) ji j best))
      → Q 0 none
      → Q (length all) (pick_from all want q 0 all none)
  pick_all_inv Q step h =
      let e : 0 + length all ≡ length all = omega arith in
      subst (λ n. Q n (pick_from all want q 0 all none)) e
        (pick_from_inv Q step all 0 none
          (λ k. let e : k ≡ 0 + k = omega arith in ap (get_elem? all) e) h)

  consider_sound :
      (ji : ℕ) (j : Job) (best : Option Choice)
      → get_elem? all ji ≡ some j
      → SoundOption all want q best
      → SoundOption all want q (consider want q (load_of j) ji j best)
  unfolding consider
  consider_sound ji j best g h =
      elim (Bool-cases (is_open want q (load_of j) j && beats (load_of j) best)) [
        | inr n ↦ rw n h
        | inl y ↦ elim (Option-cases (first_free j.tasks)) [
          | inl n ↦ rw (y, n) h
          | inr (ti, n) ↦
              let f = first_free-some j.tasks ti n in
              rw (y, n) (j, f.0, g, f.1, ground arith, f.2, refl)
        ]
      ]

  -- A round keeps the best choice, the job being no better or no candidate; or it takes the job.
  consider_cases :
      (ji : ℕ) (j : Job) (best : Option Choice)
      → ((consider want q (load_of j) ji j best ≡ best)
          × ((beats (load_of j) best ≡ false) ⊎ (is_candidate all want q j ≡ false)))
        ⊎ ((ti : ℕ) × (beats (load_of j) best ≡ true)
            × (consider want q (load_of j) ji j best
                ≡ some (record { job = ji; task = ti; load = load_of j })))
  unfolding consider
  consider_cases ji j best = elim (Bool-cases (is_open want q (load_of j) j)) [
    | inr n ↦ inl (rw n, inr (rw n))
    | inl o ↦ elim (Bool-cases (beats (load_of j) best)) [
      | inr n ↦ inl (rw (o, n), inl n)
      | inl b ↦ elim (Option-cases (first_free j.tasks)) [
        | inl n ↦ inl (rw (o, b, n), inr (rw (o, first_free-none j.tasks n)))
        | inr (ti, n) ↦ inr (ti, b, rw (o, b, n))
      ]
    ]
  ]

  module _ (k : ℕ) (x : Job) (at_k : get_elem? all k ≡ some x) where
    -- The best choice lies among the jobs passed, and wins against place `k` once that is passed.
    abbrev Ahead : ℕ → Option Choice → Type 0
    Ahead ji none = ji ≤ k
    Ahead ji (some c) = (c.job < ji) × ((ji ≤ k) ⊎ Wins c k (load_of x))

    keep-Ahead :
        (ji : ℕ) (j : Job) (best : Option Choice)
        → is_candidate all want q x ≡ true
        → get_elem? all ji ≡ some j
        → Ahead ji best
        → (beats (load_of j) best ≡ false) ⊎ (is_candidate all want q j ≡ false)
        → Ahead (suc ji) best
    keep-Ahead ji j none cand g h (inl n) = absurd (ground arith)
    keep-Ahead ji j none cand g h (inr n) = elim (dec_lt ji k) [
      | yes l ↦ l
      | no l ↦
          let e : ji ≡ k = omega arith in
          let ex : j ≡ x = some-injective _ _ (sym g ∙ ap (get_elem? all) e ∙ at_k) in
          absurd (false≢true (sym n ∙ ap (is_candidate all want q) ex ∙ cand))
    ]
    keep-Ahead ji j (some c) cand g (b, inr w) r = (omega arith, inr w)
    keep-Ahead ji j (some c) cand g (b, inl s) r = elim (dec_lt ji k) [
      | yes l ↦ (omega arith, inl l)
      | no l ↦
          let e : ji ≡ k = omega arith in
          let ex : j ≡ x = some-injective _ _ (sym g ∙ ap (get_elem? all) e ∙ at_k) in
          let el : load_of j ≡ load_of x = ap load_of ex in
          elim r [
            | inl n ↦ (omega arith, inr (ground arith))
            | inr n ↦ absurd (false≢true (sym n ∙ ap (is_candidate all want q) ex ∙ cand))
          ]
    ]

    take-Ahead :
        (ji ti : ℕ) (j : Job) (best : Option Choice)
        → get_elem? all ji ≡ some j
        → Ahead ji best
        → beats (load_of j) best ≡ true
        → Ahead (suc ji) (some (record { job = ji; task = ti; load = load_of j }))
    take-Ahead ji ti j best g h b =
        (omega arith, elim (dec_lt ji k) [ yes l ↦ inl l | no l ↦ inr (over l best h b) ])
      where
        over :
            ¬ (ji < k)
            → (best : Option Choice) → Ahead ji best
            → beats (load_of j) best ≡ true
            → Wins (record { job = ji; task = ti; load = load_of j }) k (load_of x)
        over far none h b =
            let e : ji ≡ k = omega arith in
            let ex : j ≡ x = some-injective _ _ (sym g ∙ ap (get_elem? all) e ∙ at_k) in
            inr (ap load_of ex, omega arith)
        over far (some c) (l, inl s) b =
            let e : ji ≡ k = omega arith in
            let ex : j ≡ x = some-injective _ _ (sym g ∙ ap (get_elem? all) e ∙ at_k) in
            inr (ap load_of ex, omega arith)
        over far (some c) (l, inr w) b = inl (ground arith)

    consider-Ahead :
        is_candidate all want q x ≡ true
        → (ji : ℕ) (j : Job) (best : Option Choice) → get_elem? all ji ≡ some j
        → Ahead ji best
        → Ahead (suc ji) (consider want q (load_of j) ji j best)
    consider-Ahead cand ji j best g h = elim (consider_cases ji j best) [
      | inl (e, r) ↦ subst (Ahead (suc ji)) (sym e) (keep-Ahead ji j best cand g h r)
      | inr (ti, b, e) ↦ subst (Ahead (suc ji)) (sym e) (take-Ahead ji ti j best g h b)
    ]

get_elem?-lt {ℓ} :
    {A : Type ℓ} (xs : List A) (i : ℕ) (x : A) → get_elem? xs i ≡ some x → i < length xs
get_elem?-lt [] i x e = absurd (ground arith)
get_elem?-lt (y ∷ ys) zero x e = omega arith
get_elem?-lt (y ∷ ys) (suc i) x e = let ih = get_elem?-lt ys i x e in omega arith

-- A task that pickReady chooses stands in the jobs it was given, is ready and not an operator's; its
-- job is not canceled, is the one asked for, if one is, and its service is below its cap of leases.
pub pick_ready-IsSound :
    (all : List Job) (want : Str) (q : Quota) (c : Choice)
    → pick_ready all want q ≡ some c
    → IsSound all want (normalized q) c
unfolding pick_ready
pick_ready-IsSound all want q c e =
    let n = normalized q in
    subst (SoundOption all want n) e (
      pick_all_inv all want n (λ ji best. SoundOption all want n best) (consider_sound all want n)
        tt)

-- Where pickReady chooses a task, the service of the chosen job holds fewer leases than that of
-- every other job with a task to lease, or as many, and then the chosen job stands no later in the
-- list.
pub pick_ready-fair :
    (all : List Job) (want : Str) (q : Quota) (c : Choice) (k : ℕ) (x : Job)
    → pick_ready all want q ≡ some c
    → get_elem? all k ≡ some x
    → is_candidate all want (normalized q) x ≡ true
    → (j : Job) × (get_elem? all c.job ≡ some j)
      × ((leased_of j.service all < leased_of x.service all)
          ⊎ ((leased_of j.service all ≡ leased_of x.service all) × (c.job ≤ k)))
unfolding pick_ready
pick_ready-fair all want q c k x e at_k cand =
    let n = normalized q in
    let h = subst (Ahead all want n k x at_k (length all)) e (
      pick_all_inv all want n (Ahead all want n k x at_k) (consider-Ahead all want n k x at_k cand)
        (omega arith)) in
    let (j, t, g, placed, opened, free, load) = pick_ready-IsSound all want q c e in
    (
      j,
      g,
      elim (h.1) [
        | inl s ↦ absurd (let l = get_elem?-lt all k x at_k in omega arith)
        | inr w ↦
            subst
              (λ (load : ℕ).
                (load < leased_of x.service all) ⊎ ((load ≡ leased_of x.service all) × (c.job ≤ k)))
              load w
      ],
    )

-- Where pickReady chooses no task, no job of the list has one to lease.
pub pick_ready-none :
    (all : List Job) (want : Str) (q : Quota) (k : ℕ) (x : Job)
    → pick_ready all want q ≡ none
    → get_elem? all k ≡ some x
    → is_candidate all want (normalized q) x ≡ false
unfolding pick_ready
pick_ready-none all want q k x e at_k =
    let n = normalized q in
    elim (Bool-cases (is_candidate all want n x)) [
      | inr f ↦ f
      | inl cand ↦
          let h = subst (Ahead all want n k x at_k (length all)) e (
            pick_all_inv all want n (Ahead all want n k x at_k)
              (consider-Ahead all want n k x at_k cand) (omega arith)) in
          absurd (let l = get_elem?-lt all k x at_k in omega arith)
    ]
