-- ===== src/Graph/Entries/Sound.antt =====
-- internal/graph/graph.go: the entries that traceEntries returns.
use mathlib.Core.Path.{subst}
use mathlib.Core.Option.{some-injective}
use aquila.Base.{
  ℕ, zero, suc, ◌≡◌, refl, sym, ap, ◌∙◌, Str, true, false, ◌⊎◌, inl, inr, none, some, List, [], ◌∷◌,
  any, length, is_empty, arith, Bool-cases, Option-cases, All, In, str_eq, str_eq_refl, str_eq→eq,
  ◌↔◌, Dict, find_key, keys, find_key-In,
}
use aquila.Ingest.{Span}
use aquila.Graph.{EntryRoute, Nodes}
use aquila.Graph.Entries.{
  Ancestry, climb, below, below_node, resolve, resolve_id, resolve_all, is_entry, entries_in,
  trace_entries,
}
use aquila.Graph.Entries.Lineage.{Lineage, root, child, top_entry, Lineage-unique}
use aquila.Graph.Entries.Cache.{entry_of, IsGood, IsClimbed, below-IsGood, stop, climb-IsClimbed}

length-ids : (nodes : Nodes) → length (keys nodes) ≡ length nodes
length-ids [] = refl
length-ids (n ∷ nodes) = ap suc (length-ids nodes)

module _ (trace : Str) (nodes : Nodes)
    (named : (k : Str) (s : Span) → find_key k nodes ≡ some s → is_empty k ≡ false) where
  abbrev AllGood : Dict Ancestry → Type 0
  AllGood = All (λ (e : Str × Ancestry). IsGood trace nodes e.0 e.1)

  found-IsGood :
      (resolved : Dict Ancestry) (k : Str) (a : Ancestry)
      → AllGood resolved
      → find_key k resolved ≡ some a
      → IsGood trace nodes k a
  unfolding find_key
  found-IsGood [] k a h e = absurd (ground arith)
  found-IsGood ((c, b) ∷ resolved) k a h e = elim (Bool-cases (str_eq c k)) [
    | inl q ↦
        let eb : b ≡ a = some-injective _ _ (rw q at e) in
        subst (λ (x : Ancestry). IsGood trace nodes k x) eb
          (subst (λ (y : Str). IsGood trace nodes y b) (str_eq→eq c k q) h.0)
    | inr q ↦ found-IsGood resolved k a h.1 (rw q at e)
  ]

  resolve-AllGood :
      (chain : List Str) (parent : Ancestry) (resolved : Dict Ancestry)
      → IsClimbed trace nodes chain parent
      → AllGood resolved
      → AllGood (resolve trace nodes chain parent resolved)
  unfolding resolve
  resolve-AllGood [] parent resolved h good = good
  resolve-AllGood (c ∷ chain) parent resolved (s, f, above, linked) good =
      let here = below trace c s parent in
      let g = below-IsGood trace nodes c s parent (named c s f) f above in
      rw (f, resolve)
        (resolve-AllGood chain here ((c, here) ∷ resolved) (stop trace nodes chain c here linked g)
          (g, good))

  -- A map that has a key keeps one under it.
  abbrev Has : Str → Dict Ancestry → Type 0
  Has k resolved = (a : Ancestry) × (find_key k resolved ≡ some a)

  Has-more :
      (k c : Str) (here : Ancestry) (resolved : Dict Ancestry)
      → Has k resolved
      → Has k ((c, here) ∷ resolved)
  unfolding find_key
  Has-more k c here resolved h = elim (Bool-cases (str_eq c k)) [
    | inl q ↦ (here, rw q refl)
    | inr q ↦ (h.0, rw q (h.1))
  ]

  resolve-Has :
      (k : Str) (chain : List Str) (parent : Ancestry) (resolved : Dict Ancestry)
      → Has k resolved ⊎ In k chain
      → Has k (resolve trace nodes chain parent resolved)
  unfolding resolve find_key
  resolve-Has k [] parent resolved (inl h) = h
  resolve-Has k [] parent resolved (inr m) = absurd m
  resolve-Has k (c ∷ chain) parent resolved (inl h) =
      let here = below_node trace c (find_key c nodes) parent in
      resolve-Has k chain here ((c, here) ∷ resolved) (inl (Has-more k c here resolved h))
  resolve-Has k (c ∷ chain) parent resolved (inr (inl e)) =
      let here = below_node trace c (find_key c nodes) parent in
      resolve-Has k chain here ((c, here) ∷ resolved) (inl (here, rw e (rw (str_eq_refl c))))
  resolve-Has k (c ∷ chain) parent resolved (inr (inr m)) =
      let here = below_node trace c (find_key c nodes) parent in
      resolve-Has k chain here ((c, here) ∷ resolved) (inr m)

  climb-keeps :
      (resolved : Dict Ancestry) (x : Str) (fuel : ℕ) (cursor : Str) (chain : List Str)
      → In x chain
      → In x (climb nodes resolved fuel cursor chain).0
  unfolding climb
  climb-keeps resolved x zero cursor chain m = m
  climb-keeps resolved x (suc n) cursor chain m = elim (Option-cases (find_key cursor resolved)) [
    | inr (a, e) ↦ rw (e, climb) m
    | inl e ↦ elim (Option-cases (find_key cursor nodes)) [
      | inl f ↦ rw (e, climb, f) m
      | inr (s, f) ↦ elim (Bool-cases (any (str_eq cursor) chain)) [
        | inl b ↦ rw (e, climb, f, b) m
        | inr b ↦ elim (Bool-cases (is_empty s.parent_span_id)) [
          | inl p ↦ rw (e, climb, f, b, p) (inr m)
          | inr p ↦
              rw (e, climb, f, b, p)
                (climb-keeps resolved x n s.parent_span_id (cursor ∷ chain) (inr m))
        ]
      ]
    ]
  ]

  climb-Has :
      (resolved : Dict Ancestry) (id : Str) (s : Span) (n : ℕ)
      → find_key id nodes ≡ some s
      → Has id resolved ⊎ In id (climb nodes resolved (suc n) id []).0
  unfolding climb
  climb-Has resolved id s n f = elim (Option-cases (find_key id resolved)) [
    | inr h ↦ inl h
    | inl e ↦ elim (Bool-cases (is_empty s.parent_span_id)) [
      | inl p ↦ inr (rw (e, climb, f, p) (inl refl))
      | inr p ↦
          inr
            (rw (e, climb, f, p) (climb-keeps resolved id n s.parent_span_id (id ∷ []) (inl refl)))
    ]
  ]

  resolve_id-AllGood :
      (id : Str) (resolved : Dict Ancestry)
      → AllGood resolved
      → AllGood (resolve_id trace nodes id resolved)
  unfolding resolve_id
  resolve_id-AllGood id resolved good =
      let up = climb nodes resolved (suc (length nodes)) id [] in
      let len = length-ids nodes in
      resolve-AllGood up.0 up.1 resolved
        (climb-IsClimbed trace nodes resolved (suc (length nodes)) id []
          (λ k a. found-IsGood resolved k a good) tt tt tt (omega (arith, len)))
        good

  resolve_id-Has :
      (k id : Str) (s : Span) (resolved : Dict Ancestry)
      → find_key id nodes ≡ some s
      → Has k resolved ⊎ (k ≡ id)
      → Has k (resolve_id trace nodes id resolved)
  unfolding resolve_id
  resolve_id-Has k id s resolved f (inl h) =
      let up = climb nodes resolved (suc (length nodes)) id [] in
      resolve-Has k up.0 up.1 resolved (inl h)
  resolve_id-Has k id s resolved f (inr e) =
      let up = climb nodes resolved (suc (length nodes)) id [] in
      rw e (resolve-Has id up.0 up.1 resolved (climb-Has resolved id s (length nodes) f))

  resolve_all-AllGood :
      (rest : Nodes) (resolved : Dict Ancestry)
      → AllGood resolved
      → AllGood (resolve_all trace nodes rest resolved)
  unfolding resolve_all
  resolve_all-AllGood [] resolved good = good
  resolve_all-AllGood ((id, s) ∷ rest) resolved good =
      resolve_all-AllGood rest (resolve_id trace nodes id resolved)
        (resolve_id-AllGood id resolved good)

  resolve_all-Has :
      (k : Str) (rest : Nodes) (resolved : Dict Ancestry)
      → All (λ (e : Str × Span). (s : Span) × (find_key e.0 nodes ≡ some s)) rest
      → Has k resolved ⊎ In k (keys rest)
      → Has k (resolve_all trace nodes rest resolved)
  unfolding resolve_all
  resolve_all-Has k [] resolved m (inl h) = h
  resolve_all-Has k [] resolved m (inr h) = absurd h
  resolve_all-Has k ((id, t) ∷ rest) resolved m h =
      resolve_all-Has k rest (resolve_id trace nodes id resolved) m.1 (elim h [
        | inl a ↦ inl (resolve_id-Has k id m.0.0 resolved m.0.1 (inl a))
        | inr (inl e) ↦ inl (resolve_id-Has k id m.0.0 resolved m.0.1 (inr e))
        | inr (inr b) ↦ inr b
      ])

  is_entry-none : (a : Ancestry) → a.complete ≡ true → is_entry a ≡ false → entry_of a ≡ none
  is_entry-none a c h = ground arith

  is_entry-some : (a : Ancestry) → is_entry a ≡ true → entry_of a ≡ some a.entry
  is_entry-some a h = ground arith

  entries-none :
      (resolved : Dict Ancestry) (id : Str)
      → AllGood resolved
      → ((l : List (Str × Span)) → Lineage nodes id l → top_entry trace l ≡ none)
      → find_key id (entries_in resolved) ≡ none
  unfolding find_key entries_in
  entries-none [] id good h = refl
  entries-none ((k, a) ∷ rest) id good h = elim (Bool-cases (is_entry a)) [
    | inr n ↦ rw n (entries-none rest id good.1 h)
    | inl y ↦ elim (Bool-cases (str_eq k id)) [
      | inr q ↦ rw (y, find_key) (rw q (entries-none rest id good.1 h))
      | inl q ↦
          let e = str_eq→eq k id q in
          elim (good.0) [
            | inl (c, l, g, t) ↦
                let z =
                  sym (is_entry-some a y) ∙ t ∙ h l (subst (λ (x : Str). Lineage nodes x l) e g) in
                absurd (ground arith)
            | inr (c, g) ↦ absurd (ground arith)
          ]
    ]
  ]

  entries-some :
      (resolved : Dict Ancestry) (id : Str) (l : List (Str × Span))
      → AllGood resolved
      → Lineage nodes id l
      → Has id resolved
      → find_key id (entries_in resolved) ≡ top_entry trace l
  unfolding find_key entries_in
  entries-some [] id l good g h = absurd (let z = h.1 in ground arith)
  entries-some ((k, a) ∷ rest) id l good g h = elim (Bool-cases (str_eq k id)) [
    | inr q ↦
        let ih = entries-some rest id l good.1 g (h.0, rw q at h.1) in
        elim (Bool-cases (is_entry a)) [ inl y ↦ rw (y, find_key) (rw q ih) | inr n ↦ rw n ih ]
    | inl q ↦
        let e = str_eq→eq k id q in
        elim (good.0) [
          | inr (c, none_l) ↦ absurd (none_l l (subst (λ (x : Str). Lineage nodes x l) (sym e) g))
          | inl (c, l', g', t) ↦
              let el =
                Lineage-unique nodes id l' l (subst (λ (x : Str). Lineage nodes x l') e g') g in
              let t' : entry_of a ≡ top_entry trace l = t ∙ ap (top_entry trace) el in
              elim (Bool-cases (is_entry a)) [
                | inl y ↦ rw (y, find_key) (rw q (sym (is_entry-some a y) ∙ t'))
                | inr n ↦
                    let z = sym (is_entry-none a c n) ∙ t' in
                    rw n (
                      entries-none rest id good.1
                        (λ k gk. ap (top_entry trace) (Lineage-unique nodes id k l gk g) ∙ sym z)
                      ∙ z)
              ]
        ]
  ]

all_found :
    (nodes : Nodes) → All (λ (e : Str × Span). (s : Span) × (find_key e.0 nodes ≡ some s)) nodes
unfolding find_key
all_found [] = tt
all_found ((k, s) ∷ nodes) = ((s, rw (str_eq_refl k)), weaken nodes (all_found nodes))
  where
    weaken :
        (rest : Nodes)
        → All (λ (e : Str × Span). (t : Span) × (find_key e.0 nodes ≡ some t)) rest
        → All (λ (e : Str × Span). (t : Span) × (find_key e.0 ((k, s) ∷ nodes) ≡ some t)) rest
    weaken [] h = tt
    weaken ((a, x) ∷ rest) h = (
      elim (Bool-cases (str_eq k a)) [ inl q ↦ (s, rw q refl) | inr q ↦ (h.0.0, rw q (h.0.1)) ],
      weaken rest h.1,
    )

-- In a trace whose spans have ids, traceEntries gives a span an entry exactly when the span has a
-- complete ancestry, up to a span without a parent, and the entry is the routed server of it that is
-- nearest to the root.
pub trace_entries-top :
    (trace id : Str) (nodes : Nodes) (e : EntryRoute)
    → ((k : Str) (x : Span) → find_key k nodes ≡ some x → is_empty k ≡ false)
    → (find_key id (trace_entries trace nodes) ≡ some e)
      ↔ ((l : List (Str × Span)) × Lineage nodes id l × (top_entry trace l ≡ some e))
unfolding trace_entries
trace_entries-top trace id nodes e named =
    let resolved = resolve_all trace nodes nodes [] in
    let good = resolve_all-AllGood trace nodes named nodes [] tt in
    let has = λ (s : Span) (f : find_key id nodes ≡ some s).
      resolve_all-Has trace nodes named id nodes [] (all_found nodes)
        (inr (find_key-In id s nodes f)) in
    (
      λ h. elim (Option-cases (find_key id nodes)) [
        | inl n ↦ absurd (
            let z =
              entries-none trace nodes named resolved id good (λ l g. absurd (missing l g n)) in
            let y = sym z ∙ h in ground arith)
        | inr (s, f) ↦
            elim (found-IsGood trace nodes named resolved id (has s f).0 good (has s f).1) [
              | inl (c, l, g, t) ↦
                  (l, g, sym (entries-some trace nodes named resolved id l good g (has s f)) ∙ h)
              | inr (c, n) ↦ absurd (
                  let z = entries-none trace nodes named resolved id good (λ l g. absurd (n l g)) in
                  let y = sym z ∙ h in ground arith)
            ]
      ],
      λ (l, g, t). elim (Option-cases (find_key id nodes)) [
        | inl n ↦ absurd (missing l g n)
        | inr (s, f) ↦ entries-some trace nodes named resolved id l good g (has s f) ∙ t
      ],
    )
  where
    missing : (l : List (Str × Span)) → Lineage nodes id l → find_key id nodes ≡ none → ⊥
    missing l (root f p) n = absurd (let z = sym n ∙ f in ground arith)
    missing l (child f p g) n = absurd (let z = sym n ∙ f in ground arith)
