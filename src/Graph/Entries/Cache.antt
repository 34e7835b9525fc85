-- ===== src/Graph/Entries/Cache.antt =====
-- internal/graph/graph.go: what traceEntries knows of the spans that it has resolved.
use mathlib.Core.Path.{subst}
use aquila.Base.{
  ℕ, zero, suc, ◌+◌, ◌≤◌, ◌≡◌, refl, sym, ◌∙◌, Str, true, false, ◌⊎◌, inl, inr, Option, none, some,
  List, [], ◌∷◌, any, length, if◌then◌else◌, is_empty, arith, Bool-cases, Option-cases, All, In,
  any→In, Distinct, Distinct-short, str_eq, str_eq→eq, Dict, find_key, keys, any-absent,
  find_key-In,
}
use aquila.Ingest.{Span}
use aquila.Graph.{EntryRoute, Nodes, routed_server}
use aquila.Graph.Entries.{Ancestry, broken, rooted, climb, below}
use aquila.Graph.Entries.Lineage.{
  Lineage, root, child, top_entry, node_unique, Linked, cycle_broken,
}

abbrev pub entry_of : Ancestry → Option EntryRoute
entry_of a = if is_empty a.entry.span_id then none else some a.entry

-- What a resolved ancestry says of a span.
abbrev pub IsGood : Str → Nodes → Str → Ancestry → Type 0
IsGood trace nodes id a =
    ((a.complete ≡ true)
      × (l : List (Str × Span)) × Lineage nodes id l
      × (entry_of a ≡ top_entry trace l))
    ⊎ ((a.complete ≡ false) × ((l : List (Str × Span)) → Lineage nodes id l → ⊥))

-- What an ancestry says of all that is above a span.
abbrev pub IsAbove : Str → Nodes → Span → Ancestry → Type 0
IsAbove trace nodes s a =
    ((is_empty s.parent_span_id ≡ true) × (a ≡ rooted))
    ⊎ ((is_empty s.parent_span_id ≡ false) × IsGood trace nodes s.parent_span_id a)

module _ (trace : Str) (nodes : Nodes) where
  below_entry :
      (id : Str) (s : Span) (a : Ancestry) (l : List (Str × Span))
      → is_empty id ≡ false
      → a.complete ≡ true
      → entry_of a ≡ top_entry trace l
      → ((below trace id s a).complete ≡ true)
        × (entry_of (below trace id s a) ≡ top_entry trace ((id, s) ∷ l))
  unfolding below top_entry
  below_entry id s a l n c e = elim (Bool-cases (is_empty a.entry.span_id)) [
    | inr f ↦
        let e' : some a.entry ≡ top_entry trace l = (rw f at e) in
        rw (sym e', c, f) (rw f (refl, refl))
    | inl f ↦
        let e' : none ≡ top_entry trace l = (rw f at e) in
        elim (Bool-cases (routed_server s)) [
          | inl r ↦ rw (sym e', c, f, r, n) (refl, refl)
          | inr r ↦ rw (sym e', c, f, r) (rw f (refl, refl))
        ]
  ]

  pub below-IsGood :
      (id : Str) (s : Span) (a : Ancestry)
      → is_empty id ≡ false
      → find_key id nodes ≡ some s
      → IsAbove trace nodes s a
      → IsGood trace nodes id (below trace id s a)
  unfolding below top_entry
  below-IsGood id s a n f (inl (p, e)) =
      let c : a.complete ≡ true = rw e refl in
      let q : entry_of a ≡ top_entry trace [] = rw e refl in
      let (bc, be) = below_entry id s a [] n c q in inl (bc, (id, s) ∷ [], root f p, be)
  below-IsGood id s a n f (inr (p, inl (c, l, g, e))) =
      let (bc, be) = below_entry id s a l n c e in inl (bc, (id, s) ∷ l, child f p g, be)
  below-IsGood id s a n f (inr (p, inr (c, h))) = inr (rw c refl, λ l g. no-Lineage l g)
    where
      no-Lineage : (l : List (Str × Span)) → Lineage nodes id l → ⊥
      no-Lineage l (root {s = t} ft q) = absurd (
          let z = node_unique nodes id s t f ft in
          let y : is_empty s.parent_span_id ≡ true = rw z q in ground arith)
      no-Lineage l (child {s = t} {l = k} ft q g) = h k (
          subst (λ (y : Span). Lineage nodes y.parent_span_id k)
            (sym (node_unique nodes id s t f ft)) g)

  -- The chain of climb is linked up to its first span, above which `a` is the ancestry.
  abbrev pub IsClimbed : List Str → Ancestry → Type 0
  IsClimbed [] a = Unit
  IsClimbed (c ∷ chain) a =
      (s : Span) × (find_key c nodes ≡ some s) × IsAbove trace nodes s a × Linked nodes chain c

  pub stop :
      (chain : List Str) (cursor : Str) (a : Ancestry)
      → Linked nodes chain cursor
      → IsGood trace nodes cursor a
      → IsClimbed chain a
  stop [] cursor a h g = tt
  stop (c ∷ chain) cursor a (s, f, p, e, h) g =
      (s, f, inr (p, subst (λ (y : Str). IsGood trace nodes y a) (sym e) g), h)

  abbrev pub ids : List Str
  ids = keys nodes

  pub climb-IsClimbed :
      (resolved : Dict Ancestry) (fuel : ℕ) (cursor : Str) (chain : List Str)
      → ((k : Str) (a : Ancestry) → find_key k resolved ≡ some a → IsGood trace nodes k a)
      → Linked nodes chain cursor
      → Distinct chain
      → All (λ (x : Str). In x ids) chain
      → suc (length ids) ≤ fuel + length chain
      → let up = climb nodes resolved fuel cursor chain in IsClimbed up.0 up.1
  unfolding climb
  climb-IsClimbed resolved zero cursor chain good h d m fuel =
      absurd (let short = Distinct-short chain ids d m in omega (arith, short, fuel))
  climb-IsClimbed resolved (suc n) cursor chain good h d m fuel =
      elim (Option-cases (find_key cursor resolved)) [
        | inr (a, e) ↦ rw (e, climb) (stop chain cursor a h (good cursor a e))
        | inl e ↦ elim (Option-cases (find_key cursor nodes)) [
          | inl f ↦
              rw (e, climb, f)
                (stop chain cursor broken h (inr (refl, λ l g. missing cursor l g f)))
          | inr (s, f) ↦ elim (Bool-cases (any (str_eq cursor) chain)) [
            | inl b ↦
                let (x, mx, q) = any→In (str_eq cursor) chain b in
                let mc = subst (λ (y : Str). In y chain) (sym (str_eq→eq cursor x q)) mx in
                rw (e, climb, f, b)
                  (stop chain cursor broken h
                    (inr (refl, λ l g. cycle_broken nodes chain cursor l h mc g)))
            | inr b ↦ elim (Bool-cases (is_empty s.parent_span_id)) [
              | inl p ↦ rw (e, climb, f, b, p) (s, f, inl (p, refl), h)
              | inr p ↦
                  let dn = any-absent cursor chain b in
                  let mn = find_key-In cursor s nodes f in
                  rw (e, climb, f, b, p)
                    (climb-IsClimbed resolved n s.parent_span_id (cursor ∷ chain) good
                      (s, f, p, refl, h) (dn, d) (mn, m) (omega (arith, fuel)))
            ]
          ]
        ]
      ]
    where
      missing :
          (cursor : Str) (l : List (Str × Span))
          → Lineage nodes cursor l
          → find_key cursor nodes ≡ none
          → ⊥
      missing cursor l (root f p) e = absurd (let z = sym e ∙ f in ground arith)
      missing cursor l (child f p g) e = absurd (let z = sym e ∙ f in ground arith)
