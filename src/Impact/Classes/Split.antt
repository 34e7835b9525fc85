-- ===== src/Impact/Classes/Split.antt =====
-- internal/impact/files.go: how Classify divides the changed files.
use aquila.Base.{
  ◌≡◌, refl, sym, Str, true, false, inl, inr, List, [], ◌∷◌, any, Bool-cases, All, All-imp,
  All-of-In, In, str_eq, str_eq→eq, any→In, str_lt, sort_by, In-sort_by, sort_by-All,
}
use mathlib.Core.Path.{subst}
use aquila.Impact.{Finding, Report}
use aquila.Impact.Classes.{
  inert, add_text, add_texts, is_bound, source_ids, Sets, classify_from, classify,
}

In-add_text : (x : Str) (xs : List Str) → In x (add_text x xs)
unfolding add_text
In-add_text x xs = elim (Bool-cases (any (str_eq x) xs)) [
  | inl b ↦
      let (y, m, e) = any→In (str_eq x) xs b in
      rw b (subst (λ z. In z xs) (sym (str_eq→eq x y e)) m)
  | inr b ↦ rw b (inl refl)
]

In-add_text_old : (y x : Str) (xs : List Str) → In y xs → In y (add_text x xs)
unfolding add_text
In-add_text_old y x xs m = elim (Bool-cases (any (str_eq x) xs)) [
  | inl b ↦ rw b m
  | inr b ↦ rw b (inr m)
]

In-add_texts_old : (y : Str) (xs set : List Str) → In y set → In y (add_texts xs set)
unfolding add_texts
In-add_texts_old y [] set m = m
In-add_texts_old y (x ∷ xs) set m =
    In-add_texts_old y xs (add_text x set) (In-add_text_old y x set m)

In-add_texts : (xs set : List Str) → All (λ x. In x (add_texts xs set)) xs
unfolding add_texts
In-add_texts [] set = tt
In-add_texts (x ∷ xs) set =
    (In-add_texts_old x xs (add_text x set) (In-add_text x set), In-add_texts xs (add_text x set))

add_text-All : (P : Str → Type 0) (x : Str) (xs : List Str) → P x → All P xs → All P (add_text x xs)
unfolding add_text
add_text-All P x xs p h = elim (Bool-cases (any (str_eq x) xs)) [
  | inl b ↦ rw b h
  | inr b ↦ rw b (p, h)
]

add_texts-All :
    (P : Str → Type 0) (xs set : List Str) → All P xs → All P set → All P (add_texts xs set)
unfolding add_texts
add_texts-All P [] set p h = h
add_texts-All P (x ∷ xs) set p h =
    add_texts-All P xs (add_text x set) p.1 (add_text-All P x set p.0 h)

module _ (direct : List Finding) where
  -- A changed path is inert, or it is left unanalyzed, or all ids of its findings are bound.
  pub data Placed (bound unknown : List Str) (p : Str) : Type 0 where
    skipped : inert p ≡ true → Placed bound unknown p
    unbound : inert p ≡ false → is_bound direct p ≡ false → In p unknown → Placed bound unknown p
    binding :
        inert p ≡ false
        → is_bound direct p ≡ true
        → All (λ id. In id bound) (source_ids direct p)
        → Placed bound unknown p

  -- Where an id in the bound set comes from, and a path in the other.
  abbrev pub IsBinding : List Str → Str → Type 0
  IsBinding files id =
      (p : Str) × In p files
      × (inert p ≡ false)
      × (is_bound direct p ≡ true)
      × In id (source_ids direct p)

  abbrev pub IsUnbound : List Str → Str → Type 0
  IsUnbound files p = In p files × (inert p ≡ false) × (is_bound direct p ≡ false)

  module _ (files : List Str) where
    classify_from-Origins :
        (paths : List Str) (s : Sets)
        → All (λ p. In p files) paths
        → All (IsBinding files) s.bound
        → All (IsUnbound files) s.unknown
        → All (IsBinding files) (classify_from direct paths s).bound
          × All (IsUnbound files) (classify_from direct paths s).unknown
    unfolding classify_from
    classify_from-Origins [] s m b u = (b, u)
    classify_from-Origins (p ∷ paths) s m b u = elim (Bool-cases (inert p)) [
      | inl e ↦ rw (e, classify_from) (classify_from-Origins paths s m.1 b u)
      | inr e ↦ elim (Bool-cases (is_bound direct p)) [
        | inr f ↦
            rw (e, f, classify_from)
              (classify_from-Origins paths (record s { unknown = add_text p s.unknown }) m.1 b
                (add_text-All (IsUnbound files) p s.unknown (m.0, e, f) u))
        | inl f ↦
            let ids = source_ids direct p in
            let here : All (IsBinding files) ids =
              All-of-In (IsBinding files) ids (λ id k. (p, m.0, e, f, k)) in
            rw (e, f, classify_from)
              (classify_from-Origins paths (record s { bound = add_texts ids s.bound }) m.1
                (add_texts-All (IsBinding files) ids s.bound here b) u)
      ]
    ]

  -- What the loop has taken into a set stays there.
  classify_from-keeps :
      (paths : List Str) (s : Sets) (x : Str)
      → (In x s.bound → In x (classify_from direct paths s).bound)
        × (In x s.unknown → In x (classify_from direct paths s).unknown)
  unfolding classify_from
  classify_from-keeps [] s x = (λ m. m, λ m. m)
  classify_from-keeps (p ∷ paths) s x = elim (Bool-cases (inert p)) [
    | inl e ↦ rw (e, classify_from) (classify_from-keeps paths s x)
    | inr e ↦ elim (Bool-cases (is_bound direct p)) [
      | inr f ↦
          let (b, u) = classify_from-keeps paths (record s { unknown = add_text p s.unknown }) x in
          rw (e, f, classify_from) (b, λ m. u (In-add_text_old x p s.unknown m))
      | inl f ↦
          let ids = source_ids direct p in
          let (b, u) = classify_from-keeps paths (record s { bound = add_texts ids s.bound }) x in
          rw (e, f, classify_from) (λ m. b (In-add_texts_old x ids s.bound m), u)
    ]
  ]

  classify_from-Placed :
      (paths : List Str) (s : Sets)
      → All
          (Placed (classify_from direct paths s).bound (classify_from direct paths s).unknown)
          paths
  unfolding classify_from
  classify_from-Placed [] s = tt
  classify_from-Placed (p ∷ paths) s =
      let whole = λ (z : Sets). All (Placed z.bound z.unknown) (p ∷ paths) in
      elim (Bool-cases (inert p)) [
        | inl e ↦
            let q : classify_from direct (p ∷ paths) s ≡ classify_from direct paths s =
              rw (e, classify_from) refl in
            subst whole (sym q) (skipped e, classify_from-Placed paths s)
        | inr e ↦ elim (Bool-cases (is_bound direct p)) [
          | inr f ↦
              let t : Sets = record s { unknown = add_text p s.unknown } in
              let q : classify_from direct (p ∷ paths) s ≡ classify_from direct paths t =
                rw (e, f, classify_from) refl in
              let kept = (classify_from-keeps paths t p).1 (In-add_text p s.unknown) in
              subst whole (sym q) (unbound e f kept, classify_from-Placed paths t)
          | inl f ↦
              let ids = source_ids direct p in
              let t : Sets = record s { bound = add_texts ids s.bound } in
              let q : classify_from direct (p ∷ paths) s ≡ classify_from direct paths t =
                rw (e, f, classify_from) refl in
              let kept =
                All-imp (λ id. In id (add_texts ids s.bound))
                  (λ id. In id (classify_from direct paths t).bound)
                  (λ id m. (classify_from-keeps paths t id).0 m) ids (In-add_texts ids s.bound) in
              subst whole (sym q) (binding e f kept, classify_from-Placed paths t)
        ]
      ]

Placed-sorted :
    (direct : List Finding) (b u : List Str) (p : Str)
    → Placed direct b u p
    → Placed direct (sort_by str_lt b) (sort_by str_lt u) p
Placed-sorted direct b u p (skipped e) = skipped e
Placed-sorted direct b u p (unbound e f m) = unbound e f (In-sort_by str_lt p u m)
Placed-sorted direct b u p (binding e f m) =
    binding e f (All-imp _ _ (λ id k. In-sort_by str_lt id b k) (source_ids direct p) m)

-- Classify places every file of the report: it is inert; or some direct finding of it does not bind
-- changed lines to a function, or it has no direct finding, and it is unanalyzed; or all its direct
-- findings bind changed lines, and all ids of theirs are bound. And every bound id is one of a file
-- of the last kind, every unanalyzed path one of the second.
pub classify-Placed :
    (rep : Report)
    → All (Placed rep.direct (classify rep).bound (classify rep).unanalyzed) rep.files
      × All (IsBinding rep.direct rep.files) (classify rep).bound
      × All (IsUnbound rep.direct rep.files) (classify rep).unanalyzed
unfolding classify
classify-Placed rep =
    let none_yet : Sets = record { bound = []; unknown = [] } in
    let sets = classify_from rep.direct rep.files none_yet in
    let (b, u) =
      classify_from-Origins rep.direct rep.files rep.files none_yet
        (All-of-In (λ p. In p rep.files) rep.files (λ p m. m)) tt tt in
    (
      All-imp _ _ (Placed-sorted rep.direct sets.bound sets.unknown) rep.files
          (classify_from-Placed rep.direct rep.files none_yet),
      sort_by-All str_lt (IsBinding rep.direct rep.files) sets.bound b,
      sort_by-All str_lt (IsUnbound rep.direct rep.files) sets.unknown u,
    )
