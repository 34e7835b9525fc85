-- ===== src/Replay/Traffic/Spans.antt =====
-- internal/replay/workload.go: what FromSpans makes of a list of spans.
use aquila.Base.{
  ℕ, zero, suc, ◌≡◌, ◌≤◌, ◌≢◌, refl, sym, ap, Str, codes, true, false, not, ◌||◌, ◌⊎◌, inl, inr,
  none, some, List, [], ◌∷◌, any, map, length, arith, Bool-cases, Option-cases, All, All-imp,
  All-In, All-of-In, In, Distinct, any-absent, any→In, str_eq, str_eq→eq, has_prefix, contains,
  contains_any,
}
use mathlib.Core.Option.{some-injective}
use mathlib.Core.Path.{subst}
use aquila.Ingest.{Span}
use aquila.Replay.{Step}
use aquila.Replay.Traffic.{
  skip_kind, is_read, safe_path, safe_replay, route_parts, span_step, step_label, steps_from,
  from_spans, max_steps, provenance_span_route,
}

-- A request that reads, to a path below the root of the target, without a body and headers.
pub record IsReading (s : Step) : Type 0 where
  pub reads : (s.method ≡ codes "GET") ⊎ ((s.method ≡ codes "HEAD") ⊎ (s.method ≡ codes "OPTIONS"))
  pub rooted : has_prefix s.path (codes "/") ≡ true
  pub inside : contains s.path (codes "..") ≡ false
  pub no_backslash : contains s.path (codes "\\") ≡ false
  pub no_user : contains s.path (codes "@") ≡ false
  pub no_target : contains s.path (codes "://") ≡ false
  pub concrete : contains_any s.path (codes "{}*") ≡ false
  pub no_body : s.body ≡ []
  pub no_headers : s.headers ≡ []
  pub provenance : s.provenance ≡ provenance_span_route

-- The step is the route of one of the spans, which is no client hop.
abbrev pub Shows : List Span → Step → Type 0
Shows spans s =
    (x : Span) × In x spans
    × (skip_kind x.kind ≡ false)
    × (route_parts x ≡ some (s.method, s.path))
    × (s.service ≡ x.service_name)

-- The labels of the requests that a list of spans shows, repeats included.
abbrev pub labels : List Span → List Str
labels [] = []
labels (x ∷ xs) = elim (span_step x) [ none ↦ labels xs | some s ↦ step_label s ∷ labels xs ]

is_read-cases :
    (m : Str) → is_read m ≡ true → (m ≡ codes "GET") ⊎ ((m ≡ codes "HEAD") ⊎ (m ≡ codes "OPTIONS"))
is_read-cases m h = elim (Bool-cases (str_eq m (codes "GET"))) [
  | inl e ↦ inl (str_eq→eq m (codes "GET") e)
  | inr e ↦ elim (Bool-cases (str_eq m (codes "HEAD"))) [
    | inl f ↦ inr (inl (str_eq→eq m (codes "HEAD") f))
    | inr f ↦ inr (inr (str_eq→eq m (codes "OPTIONS") (ground arith)))
  ]
]

read_step : Str → Str → Str → Step
read_step method path service = record {
  method = method;
  path = path;
  body = [];
  headers = [];
  provenance = provenance_span_route;
  service = service;
}

read_step-IsReading :
    (m p service : Str) → safe_replay m p ≡ true → IsReading (read_step m p service)
unfolding read_step safe_replay safe_path
read_step-IsReading m p service h = record {
  reads = is_read-cases m (ground arith);
  rooted = ground arith;
  inside = ground arith;
  no_backslash = ground arith;
  no_user = ground arith;
  no_target = ground arith;
  concrete = ground arith;
  no_body = refl;
  no_headers = refl;
  provenance = refl;
}

Fits : Span → Step → Type 0
Fits x s =
    IsReading s
    × (skip_kind x.kind ≡ false)
    × (route_parts x ≡ some (s.method, s.path))
    × (s.service ≡ x.service_name)

span_step-Fits : (x : Span) (s : Step) → span_step x ≡ some s → Fits x s
unfolding span_step Fits read_step
span_step-Fits x s h = elim (Option-cases (route_parts x)) [
  | inl e ↦ absurd (let z = rw (e, span_step) at h in ground arith)
  | inr ((m, p), e) ↦ elim (Bool-cases (skip_kind x.kind || not (safe_replay m p))) [
    | inl b ↦ absurd (let z = rw (e, span_step, b) at h in ground arith)
    | inr b ↦
        let q : read_step m p x.service_name ≡ s = some-injective _ _ (rw (e, span_step, b) at h) in
        subst (Fits x) q
          (read_step-IsReading m p x.service_name (ground arith), ground arith, e, refl)
  ]
]

module _ (batch : List Span) where
  steps_from-Shows :
      (room : ℕ) (seen : List Str) (xs : List Span)
      → All (λ x. In x batch) xs
      → All (λ s. IsReading s × Shows batch s) (steps_from room seen xs)
  unfolding steps_from Fits
  steps_from-Shows zero seen xs h = tt
  steps_from-Shows (suc room) seen [] h = tt
  steps_from-Shows (suc room) seen (x ∷ xs) h = elim (Option-cases (span_step x)) [
    | inl e ↦ rw (e, steps_from) (steps_from-Shows (suc room) seen xs h.1)
    | inr (s, e) ↦ elim (Bool-cases (any (str_eq (step_label s)) seen)) [
      | inl b ↦ rw (e, b, steps_from) (steps_from-Shows (suc room) seen xs h.1)
      | inr b ↦
          let (reading, kind, route, service) = span_step-Fits x s e in
          rw (e, b, steps_from)
            (
              (reading, (x, h.0, kind, route, service)),
              steps_from-Shows room (step_label s ∷ seen) xs h.1,
            )
    ]
  ]

length-steps_from :
    (room : ℕ) (seen : List Str) (xs : List Span) → length (steps_from room seen xs) ≤ room
unfolding steps_from
length-steps_from zero seen xs = omega arith
length-steps_from (suc room) seen [] = omega arith
length-steps_from (suc room) seen (x ∷ xs) = elim (Option-cases (span_step x)) [
  | inl e ↦ rw (e, steps_from) (length-steps_from (suc room) seen xs)
  | inr (s, e) ↦ elim (Bool-cases (any (str_eq (step_label s)) seen)) [
    | inl b ↦ rw (e, b, steps_from) (length-steps_from (suc room) seen xs)
    | inr b ↦
        let ih = length-steps_from room (step_label s ∷ seen) xs in
        rw (e, b, steps_from) (omega (arith, ih))
  ]
]

-- A label that was seen is not appended.
steps_from-apart :
    (k : Str) (room : ℕ) (seen : List Str) (xs : List Span)
    → In k seen
    → All (λ (x : Str). k ≢ x) (map step_label (steps_from room seen xs))
unfolding steps_from
steps_from-apart k zero seen xs m = tt
steps_from-apart k (suc room) seen [] m = tt
steps_from-apart k (suc room) seen (x ∷ xs) m = elim (Option-cases (span_step x)) [
  | inl e ↦ rw (e, steps_from) (steps_from-apart k (suc room) seen xs m)
  | inr (s, e) ↦ elim (Bool-cases (any (str_eq (step_label s)) seen)) [
    | inl b ↦ rw (e, b, steps_from) (steps_from-apart k (suc room) seen xs m)
    | inr b ↦
        let new =
          All-In (λ (y : Str). step_label s ≢ y) seen k (any-absent (step_label s) seen b) m in
        rw (e, b, steps_from)
          (λ q. new (sym q), steps_from-apart k room (step_label s ∷ seen) xs (inr m))
  ]
]

steps_from-Distinct :
    (room : ℕ) (seen : List Str) (xs : List Span)
    → Distinct (map step_label (steps_from room seen xs))
unfolding steps_from
steps_from-Distinct zero seen xs = tt
steps_from-Distinct (suc room) seen [] = tt
steps_from-Distinct (suc room) seen (x ∷ xs) = elim (Option-cases (span_step x)) [
  | inl e ↦ rw (e, steps_from) (steps_from-Distinct (suc room) seen xs)
  | inr (s, e) ↦ elim (Bool-cases (any (str_eq (step_label s)) seen)) [
    | inl b ↦ rw (e, b, steps_from) (steps_from-Distinct (suc room) seen xs)
    | inr b ↦
        rw (e, b, steps_from)
          (
            steps_from-apart (step_label s) room (step_label s ∷ seen) xs (inl refl),
            steps_from-Distinct room (step_label s ∷ seen) xs,
          )
  ]
]

-- Each label is seen or appended, unless the room is used up.
Covered : ℕ → List Str → List Step → List Str → Type 0
Covered room seen out ks = (length out ≡ room) ⊎ All (λ k. In k (map step_label out) ⊎ In k seen) ks

Covered-repeat :
    (room : ℕ) (seen : List Str) (out : List Step) (ks : List Str) (s : Step)
    → any (str_eq (step_label s)) seen ≡ true
    → Covered room seen out ks
    → Covered room seen out (step_label s ∷ ks)
unfolding Covered
Covered-repeat room seen out ks s b (inl full) = inl full
Covered-repeat room seen out ks s b (inr all) =
    let (y, m, q) = any→In (str_eq (step_label s)) seen b in
    inr (inr (subst (λ z. In z seen) (sym (str_eq→eq (step_label s) y q)) m), all)

Covered-new :
    (room : ℕ) (seen : List Str) (out : List Step) (ks : List Str) (s : Step)
    → Covered room (step_label s ∷ seen) out ks
    → Covered (suc room) seen (s ∷ out) (step_label s ∷ ks)
unfolding Covered
Covered-new room seen out ks s (inl full) = inl (ap suc full)
Covered-new room seen out ks s (inr all) = inr (inl (inl refl), All-imp _ _ shift ks all)
  where
    shift :
        (k : Str)
        → In k (map step_label out) ⊎ In k (step_label s ∷ seen)
        → In k (map step_label (s ∷ out)) ⊎ In k seen
    shift k (inl m) = inl (inr m)
    shift k (inr (inl e)) = inl (inl e)
    shift k (inr (inr m)) = inr m

steps_from-none :
    (room : ℕ) (seen : List Str) (x : Span) (xs : List Span)
    → span_step x ≡ none
    → steps_from (suc room) seen (x ∷ xs) ≡ steps_from (suc room) seen xs
unfolding steps_from
steps_from-none room seen x xs e = rw (e, steps_from) refl

steps_from-repeat :
    (room : ℕ) (seen : List Str) (x : Span) (xs : List Span) (s : Step)
    → span_step x ≡ some s
    → any (str_eq (step_label s)) seen ≡ true
    → steps_from (suc room) seen (x ∷ xs) ≡ steps_from (suc room) seen xs
unfolding steps_from
steps_from-repeat room seen x xs s e b = rw (e, b, steps_from) refl

steps_from-new :
    (room : ℕ) (seen : List Str) (x : Span) (xs : List Span) (s : Step)
    → span_step x ≡ some s
    → any (str_eq (step_label s)) seen ≡ false
    → steps_from (suc room) seen (x ∷ xs) ≡ s ∷ steps_from room (step_label s ∷ seen) xs
unfolding steps_from
steps_from-new room seen x xs s e b = rw (e, b, steps_from) refl

Covered-full :
    (seen : List Str) (xs : List Span) → Covered zero seen (steps_from zero seen xs) (labels xs)
unfolding Covered steps_from
Covered-full seen xs = inl refl

Covered-nil : (room : ℕ) (seen : List Str) → Covered room seen (steps_from room seen []) (labels [])
unfolding Covered
Covered-nil room seen = inr tt

steps_from-Covered :
    (room : ℕ) (seen : List Str) (xs : List Span)
    → Covered room seen (steps_from room seen xs) (labels xs)
steps_from-Covered zero seen xs = Covered-full seen xs
steps_from-Covered (suc room) seen [] = Covered-nil (suc room) seen
steps_from-Covered (suc room) seen (x ∷ xs) = elim (Option-cases (span_step x)) [
  | inl e ↦ rw (steps_from-none room seen x xs e, labels, e) (steps_from-Covered (suc room) seen xs)
  | inr (s, e) ↦ elim (Bool-cases (any (str_eq (step_label s)) seen)) [
    | inl b ↦
        rw (steps_from-repeat room seen x xs s e b, labels, e)
          (Covered-repeat (suc room) seen (steps_from (suc room) seen xs) (labels xs) s b
            (steps_from-Covered (suc room) seen xs))
    | inr b ↦
        let seen' = step_label s ∷ seen in
        rw (steps_from-new room seen x xs s e b, labels, e)
          (Covered-new room seen (steps_from room seen' xs) (labels xs) s
            (steps_from-Covered room seen' xs))
  ]
]

-- FromSpans gives at most 20 steps. Each is a GET, HEAD or OPTIONS request without a body to a rooted
-- path without "..", "\", "@", "://", "{", "}" and "*", and is the route of a span of the batch that is
-- no client, producer, consumer or internal hop. No two have the same label, "METHOD path". If they
-- are fewer than 20, every request that a span of the batch shows is among them.
pub from_spans-Shows :
    (spans : List Span)
    → All (λ s. IsReading s × Shows spans s) (from_spans spans).steps
      × Distinct (map step_label (from_spans spans).steps)
      × (length (from_spans spans).steps ≤ 20)
      × ((length (from_spans spans).steps ≡ 20)
          ⊎ All (λ k. In k (map step_label (from_spans spans).steps)) (labels spans))
unfolding from_spans Covered
from_spans-Shows spans = (
  steps_from-Shows spans max_steps [] spans (All-of-In (λ x. In x spans) spans (λ x m. m)),
  steps_from-Distinct max_steps [] spans,
  length-steps_from max_steps [] spans,
  elim (steps_from-Covered max_steps [] spans) [
    | inl full ↦ inl full
    | inr all ↦
        inr (All-imp _ _ (λ k m. elim m [ inl i ↦ i | inr i ↦ absurd i ]) (labels spans) all)
  ],
)
