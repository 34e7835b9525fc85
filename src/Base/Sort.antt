-- ===== src/Base/Sort.antt =====
-- Sorting by a test, as package sort does where the test leaves no ties.
use mathlib.Core.Path.{◌≡◌, refl}
use mathlib.Core.Logic.{inl, inr}
use mathlib.Core.Bool.{Bool, true, false}
use mathlib.Core.List.{List, [], ◌∷◌}
use aquila.Base.Tests.{Bool-cases, if◌then◌else◌}
use aquila.Base.Lists.{All, In}

module _ {A : Type 0} (before : A → A → Bool) where
  unfoldable pub insert_by : A → List A → List A
  insert_by x [] = x ∷ []
  insert_by x (y ∷ ys) = let rest = insert_by x ys in if before y x then y ∷ rest else x ∷ y ∷ ys

  unfoldable pub sort_by : List A → List A
  unfolding insert_by
  sort_by [] = []
  sort_by (x ∷ xs) = insert_by x (sort_by xs)

module _ {A : Type 0} (before : A → A → Bool) where
  In-insert_here : (r : A) (rows : List A) → In r (insert_by before r rows)
  unfolding insert_by
  In-insert_here r [] = inl refl
  In-insert_here r (q ∷ rows) = elim (Bool-cases (before q r)) [
    | inl b ↦ rw b (inr (In-insert_here r rows))
    | inr b ↦ rw b (inl refl)
  ]

  In-insert_there : (r x : A) (rows : List A) → In x rows → In x (insert_by before r rows)
  unfolding insert_by
  In-insert_there r x [] m = absurd m
  In-insert_there r x (q ∷ rows) m = elim (Bool-cases (before q r)) [
    | inl b ↦ rw b (elim m [ inl e ↦ inl e | inr k ↦ inr (In-insert_there r x rows k) ])
    | inr b ↦ rw b (inr m)
  ]

  insert-In : (r x : A) (rows : List A) → In x (insert_by before r rows) → In x (r ∷ rows)
  unfolding insert_by
  insert-In r x [] m = m
  insert-In r x (q ∷ rows) m = elim (Bool-cases (before q r)) [
    | inr b ↦ rw b at m
    | inl b ↦ elim (rw b at m) [
      | inl e ↦ inr (inl e)
      | inr k ↦ elim (insert-In r x rows k) [ inl e ↦ inl e | inr n ↦ inr (inr n) ]
    ]
  ]

  pub In-sort_by : (x : A) (rows : List A) → In x rows → In x (sort_by before rows)
  unfolding sort_by
  In-sort_by x [] m = absurd m
  In-sort_by x (r ∷ rows) (inl e) = rw e (In-insert_here r (sort_by before rows))
  In-sort_by x (r ∷ rows) (inr m) = In-insert_there r x (sort_by before rows) (In-sort_by x rows m)

  pub sort_by-In : (x : A) (rows : List A) → In x (sort_by before rows) → In x rows
  unfolding sort_by
  sort_by-In x [] m = m
  sort_by-In x (r ∷ rows) m = elim (insert-In r x (sort_by before rows) m) [
    | inl e ↦ inl e
    | inr k ↦ inr (sort_by-In x rows k)
  ]

  insert_by-All :
      (P : A → Type 0) (x : A) (xs : List A) → P x → All P xs → All P (insert_by before x xs)
  unfolding insert_by
  insert_by-All P x [] p h = (p, tt)
  insert_by-All P x (y ∷ ys) p h = elim (Bool-cases (before y x)) [
    | inl b ↦ rw b (h.0, insert_by-All P x ys p h.1)
    | inr b ↦ rw b (p, h)
  ]

  pub sort_by-All : (P : A → Type 0) (xs : List A) → All P xs → All P (sort_by before xs)
  unfolding sort_by
  sort_by-All P [] h = tt
  sort_by-All P (x ∷ xs) h = insert_by-All P x (sort_by before xs) h.0 (sort_by-All P xs h.1)

-- Every element comes before or with each that stands behind it.
abbrev pub Sorted : {A : Type 0} → (A → A → Type 0) → List A → Type 0
Sorted R [] = Unit
Sorted R (x ∷ xs) = All (R x) xs × Sorted R xs

module _ {A : Type 0} (before : A → A → Bool) (R : A → A → Type 0)
    (comes : (x y : A) → before y x ≡ true → R y x) (stays : (x y : A) → before y x ≡ false → R x y)
    (trans : (x y z : A) → R x y → R y z → R x z) where
  weaken : (x y : A) (zs : List A) → R x y → All (R y) zs → All (R x) zs
  weaken x y [] r h = tt
  weaken x y (z ∷ zs) r h = (trans x y z r h.0, weaken x y zs r h.1)

  insert_by-Sorted : (x : A) (ys : List A) → Sorted R ys → Sorted R (insert_by before x ys)
  unfolding insert_by
  insert_by-Sorted x [] h = (tt, tt)
  insert_by-Sorted x (y ∷ ys) h = elim (Bool-cases (before y x)) [
    | inl b ↦ rw b (insert_by-All before (R y) x ys (comes x y b) h.0, insert_by-Sorted x ys h.1)
    | inr b ↦ rw b ((stays x y b, weaken x y ys (stays x y b) h.0), h)
  ]

  pub sort_by-Sorted : (xs : List A) → Sorted R (sort_by before xs)
  unfolding sort_by
  sort_by-Sorted [] = tt
  sort_by-Sorted (x ∷ xs) = insert_by-Sorted x (sort_by before xs) (sort_by-Sorted xs)
