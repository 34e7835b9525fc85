-- ===== src/Graph/Entries/Lineage.antt =====
-- internal/graph/graph.go: traceEntries against its reading without a cache.
use mathlib.Core.Path.{subst}
use mathlib.Core.Option.{some-injective}
use aquila.Base.{
  ◌<◌, ◌≡◌, refl, sym, ap, ◌∙◌, Str, true, false, inl, inr, Option, none, some, List, [], ◌∷◌,
  length, if◌then◌else◌, is_empty, arith, In, find_key,
}
use aquila.Ingest.{Span}
use aquila.Graph.{EntryRoute, Nodes, routed_server}

-- The complete ancestry of a span: the spans from it up to one that has no parent.
pub data Lineage (nodes : Nodes) : Str → List (Str × Span) → Type 0 where
  root :
      {id : Str} {s : Span}
      → find_key id nodes ≡ some s
      → is_empty s.parent_span_id ≡ true
      → Lineage nodes id ((id, s) ∷ [])
  child :
      {id : Str} {s : Span} {l : List (Str × Span)}
      → find_key id nodes ≡ some s
      → is_empty s.parent_span_id ≡ false
      → Lineage nodes s.parent_span_id l
      → Lineage nodes id ((id, s) ∷ l)

-- The entry of an ancestry: its routed server nearest to the root.
unfoldable pub top_entry : Str → List (Str × Span) → Option EntryRoute
unfolding routed_server
top_entry trace [] = none
top_entry trace ((id, s) ∷ l) =
    let above = top_entry trace l in
    elim above [
      | some e ↦ some e
      | none ↦
          if routed_server s
          then some (record {
            trace_id = trace;
            span_id = id;
            method = s.http_method;
            route = s.http_route;
          })
          else none
    ]

module _ (nodes : Nodes) where
  pub node_unique :
      (id : Str) (s t : Span) → find_key id nodes ≡ some s → find_key id nodes ≡ some t → s ≡ t
  node_unique id s t e f = some-injective _ _ (sym e ∙ f)

  -- A span has one ancestry at most.
  pub Lineage-unique :
      (id : Str) (l k : List (Str × Span)) → Lineage nodes id l → Lineage nodes id k → l ≡ k
  Lineage-unique id l k (root {s} e p) (root {s = t} f q) = rw (node_unique id s t e f)
  Lineage-unique id l k (root {s} e p) (child {s = t} f q c) = absurd (
      let z = node_unique id s t e f in
      let y : is_empty t.parent_span_id ≡ true = rw (sym z) p in ground arith)
  Lineage-unique id l k (child {s} e p b) (root {s = t} f q) = absurd (
      let z = node_unique id s t e f in
      let y : is_empty t.parent_span_id ≡ false = rw (sym z) p in ground arith)
  Lineage-unique id l k (child {s} {l = l'} e p b) (child {s = t} {l = k'} f q c) =
      let z = node_unique id s t e f in
      let c' : Lineage nodes s.parent_span_id k' =
        subst (λ (x : Span). Lineage nodes x.parent_span_id k') (sym z) c in
      rw (z, Lineage-unique s.parent_span_id l' k' b c')

  -- An ancestry on a chain of parents is as long as the chain below it is.
  abbrev pub Linked : List Str → Str → Type 0
  Linked [] cursor = Unit
  Linked (c ∷ chain) cursor =
      (s : Span) × (find_key c nodes ≡ some s)
      × (is_empty s.parent_span_id ≡ false)
      × (s.parent_span_id ≡ cursor)
      × Linked chain c

  parent-Lineage :
      (c cursor x : Str) (chain : List Str) (l : List (Str × Span))
      → Linked (c ∷ chain) cursor
      → x ≡ c
      → Lineage nodes x l
      → (k : List (Str × Span)) × Lineage nodes cursor k × (length k < length l)
  parent-Lineage c cursor x chain l (t, ft, q, r, h) e (root {s} f p) =
      let z = node_unique x s t f (rw e ft) in
      absurd (let y : is_empty t.parent_span_id ≡ true = rw (sym z) p in ground arith)
  parent-Lineage c cursor x chain l (t, ft, q, r, h) e (child {s} {l = k} f p g) =
      let z = node_unique x s t f (rw e ft) in
      (
        k,
        subst (λ (y : Str). Lineage nodes y k) (ap (λ (y : Span). y.parent_span_id) z ∙ r) g,
        omega arith,
      )

  above-Linked :
      (chain : List Str) (cursor x : Str) (l : List (Str × Span))
      → Linked chain cursor
      → In x chain
      → Lineage nodes x l
      → (k : List (Str × Span)) × Lineage nodes cursor k × (length k < length l)
  above-Linked [] cursor x l h m g = absurd m
  above-Linked (c ∷ chain) cursor x l h (inl e) g = parent-Lineage c cursor x chain l h e g
  above-Linked (c ∷ chain) cursor x l h (inr m) g =
      let (k, gk, short) = above-Linked chain c x l h.4 m g in
      let (k', gk', short') = parent-Lineage c cursor c chain k h refl gk in
      (k', gk', omega (arith, short, short'))

  -- A span below itself has no complete ancestry.
  pub cycle_broken :
      (chain : List Str) (cursor : Str) (l : List (Str × Span))
      → Linked chain cursor
      → In cursor chain
      → Lineage nodes cursor l
      → ⊥
  cycle_broken chain cursor l h m g =
      let (k, gk, short) = above-Linked chain cursor cursor l h m g in
      let e = ap length (Lineage-unique cursor l k g gk) in absurd (omega (arith, short, e))
