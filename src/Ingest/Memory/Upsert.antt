-- ===== src/Ingest/Memory/Upsert.antt =====
-- internal/ingest/memory.go: what UpsertSpans leaves in the store.
use mathlib.Core.Path.{subst}
use aquila.Base.{
  ◌≡◌, ◌≢◌, refl, sym, ap, ◌∙◌, Str, true, inl, inr, Option, none, some, List, [], ◌∷◌, ◌++◌,
  if◌then◌else◌, arith, Bool-cases, Option-cases, All, Distinct, Distinct-append, str_eq,
  str_eq_refl, str_eq→eq, find_key, put_key, keys, find_put-same, find_put-other, keys-put_found,
  keys-put_new, absent_keys,
}
use aquila.Ingest.{Span}
use aquila.Ingest.Memory.{Memory, span_key, upsert_span, upsert_spans}

-- The last span of a batch under a key.
unfoldable pub latest : Str → List Span → Option Span
latest k [] = none
latest k (s ∷ ss) =
    let rest = latest k ss in
    elim rest [ some x ↦ some x | none ↦ if str_eq (span_key s) k then some s else none ]

-- The order lists the keys of the map, each once.
pub record IsMemory (m : Memory) : Type 0 where
  pub listed : keys m.spans ≡ m.order
  pub distinct : Distinct m.order

find-upsert_span :
    (k : Str) (s : Span) (m : Memory)
    → find_key k (upsert_span s m).spans
      ≡ (if str_eq (span_key s) k then some s else find_key k m.spans)
unfolding upsert_span
find-upsert_span k s m = elim (Bool-cases (str_eq (span_key s) k)) [
  | inl q ↦
      let e = str_eq→eq (span_key s) k q in
      rw q (
        subst (λ (x : Str). find_key x (put_key (span_key s) s m.spans) ≡ some s) e
          (find_put-same (span_key s) s m.spans))
  | inr q ↦ rw q (
      find_put-other (span_key s) k s m.spans
        (λ e. absurd (let z : str_eq (span_key s) k ≡ true = rw e (str_eq_refl k) in ground arith)))
]

-- What the store holds under a key, once a batch is in.
abbrev pub or_held : Option Span → Option Span → Option Span
or_held none held = held
or_held (some s) held = some s

find-upsert_spans :
    (k : Str) (ss : List Span) (m : Memory)
    → find_key k (upsert_spans ss m).spans ≡ or_held (latest k ss) (find_key k m.spans)
unfolding upsert_spans latest
find-upsert_spans k [] m = refl
find-upsert_spans k (s ∷ ss) m =
    find-upsert_spans k ss (upsert_span s m) ∙ step (latest k ss) (find-upsert_span k s m)
  where
    step :
        (o : Option Span)
        → find_key k (upsert_span s m).spans
          ≡ (if str_eq (span_key s) k then some s else find_key k m.spans)
        → or_held o (find_key k (upsert_span s m).spans)
          ≡ or_held
              (elim o [ some x ↦ some x | none ↦ if str_eq (span_key s) k then some s else none ])
              (find_key k m.spans)
    step (some x) h = refl
    step none h = elim (Bool-cases (str_eq (span_key s) k)) [
      | inl q ↦ rw q (rw q at h)
      | inr q ↦ rw q (rw q at h)
    ]

upsert_span-IsMemory : (s : Span) (m : Memory) → IsMemory m → IsMemory (upsert_span s m)
unfolding upsert_span
upsert_span-IsMemory s m h = elim (Option-cases (find_key (span_key s) m.spans)) [
  | inr (x, e) ↦ record {
    listed = rw (e, upsert_span) (keys-put_found (span_key s) s x m.spans e ∙ h.listed);
    distinct = rw (e, upsert_span) (h.distinct);
  }
  | inl e ↦ record {
    listed =
        rw (e, upsert_span)
          (keys-put_new (span_key s) s m.spans e
            ∙ ap (λ (ks : List Str). ks ++ span_key s ∷ []) h.listed);
    distinct =
        rw (e, upsert_span)
          (Distinct-append m.order (span_key s) h.distinct (
            subst (All (λ (x : Str). x ≢ span_key s)) h.listed
              (absent_keys (span_key s) m.spans e)));
  }
]

upsert_spans-IsMemory : (ss : List Span) (m : Memory) → IsMemory m → IsMemory (upsert_spans ss m)
unfolding upsert_spans
upsert_spans-IsMemory [] m h = h
upsert_spans-IsMemory (s ∷ ss) m h =
    upsert_spans-IsMemory ss (upsert_span s m) (upsert_span-IsMemory s m h)

-- After a batch, the store lists each key once and holds under a key the last span of the batch
-- with that key, or what it held where the batch has none; so a batch sent twice changes nothing
-- that the store holds.
pub upsert_spans-latest :
    (k : Str) (ss : List Span) (m : Memory)
    → IsMemory m
    → let n = upsert_spans ss m in
      IsMemory n
      × (find_key k n.spans ≡ or_held (latest k ss) (find_key k m.spans))
      × (find_key k (upsert_spans ss n).spans ≡ find_key k n.spans)
upsert_spans-latest k ss m h =
    let n = upsert_spans ss m in
    let once = find-upsert_spans k ss m in
    (upsert_spans-IsMemory ss m h, once, again (latest k ss) (find-upsert_spans k ss n) once)
  where
    again :
        (o : Option Span)
        → find_key k (upsert_spans ss (upsert_spans ss m)).spans
          ≡ or_held o (find_key k (upsert_spans ss m).spans)
        → find_key k (upsert_spans ss m).spans ≡ or_held o (find_key k m.spans)
        → find_key k (upsert_spans ss (upsert_spans ss m)).spans
          ≡ find_key k (upsert_spans ss m).spans
    again none p q = p
    again (some s) p q = p ∙ sym q
