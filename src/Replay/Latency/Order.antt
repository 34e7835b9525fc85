-- ===== src/Replay/Latency/Order.antt =====
-- internal/replay/latency.go: the figures of a summary and their order.
use mathlib.Core.Path.{subst}
use aquila.Base.{
  ℕ, zero, suc, ◌+◌, ◌-◌, ◌*◌, ◌/◌, ◌≤◌, ◌<◌, ◌≡◌, refl, sym, Bool, true, false, ◌⊎◌, inl, inr,
  List, [], ◌∷◌, length, get_elem?, leb, if◌then◌else◌, is_empty, arith, Bool-cases, All, In, ℤ,
  pos, leb_ℤ, ◌≤ℤ◌,
}
use aquila.Replay.{Summary}
use aquila.Replay.Latency.{min_percentile_n, insert_sorted, sort_ℤ, nth_or_zero, rank, summarize}

abbrev IsSorted : List ℤ → Type 0
IsSorted [] = Unit
IsSorted (x ∷ xs) = All (λ y. x ≤ℤ y) xs × IsSorted xs

insert-All : (P : ℤ → Type 0) (x : ℤ) (ys : List ℤ) → P x → All P ys → All P (insert_sorted x ys)
unfolding insert_sorted
insert-All P x [] p h = (p, tt)
insert-All P x (y ∷ ys) p h = elim (Bool-cases (leb_ℤ x y)) [
  | inl e ↦ rw e (p, h)
  | inr e ↦ rw e (h.0, insert-All P x ys p h.1)
]

All-above : (x y : ℤ) (ys : List ℤ) → x ≤ℤ y → All (λ z. y ≤ℤ z) ys → All (λ z. x ≤ℤ z) ys
All-above x y [] h a = tt
All-above x y (z ∷ ys) h a = (omega (arith, h, a.0), All-above x y ys h a.1)

insert-IsSorted : (x : ℤ) (ys : List ℤ) → IsSorted ys → IsSorted (insert_sorted x ys)
unfolding insert_sorted
insert-IsSorted x [] h = (tt, tt)
insert-IsSorted x (y ∷ ys) h = elim (Bool-cases (leb_ℤ x y)) [
  | inl e ↦ let le : x ≤ℤ y = ground arith in rw e ((le, All-above x y ys le h.0), h)
  | inr e ↦
      let le : y ≤ℤ x = ground arith in
      rw e (insert-All (λ z. y ≤ℤ z) x ys le h.0, insert-IsSorted x ys h.1)
]

sort-IsSorted : (xs : List ℤ) → IsSorted (sort_ℤ xs)
unfolding sort_ℤ
sort-IsSorted [] = tt
sort-IsSorted (x ∷ xs) = insert-IsSorted x (sort_ℤ xs) (sort-IsSorted xs)

length-insert : (x : ℤ) (ys : List ℤ) → length (insert_sorted x ys) ≡ 1 + length ys
unfolding insert_sorted
length-insert x [] = omega arith
length-insert x (y ∷ ys) = elim (Bool-cases (leb_ℤ x y)) [
  | inl e ↦ rw e (omega arith)
  | inr e ↦ rw e (omega (arith, length-insert x ys))
]

length-sort : (xs : List ℤ) → length (sort_ℤ xs) ≡ length xs
unfolding sort_ℤ
length-sort [] = refl
length-sort (x ∷ xs) =
    let a = length-insert x (sort_ℤ xs) in let b = length-sort xs in omega (arith, a, b)

-- What stands in the sorted list was in the list.
insert-In : (x z : ℤ) (ys : List ℤ) → In z (insert_sorted x ys) → (z ≡ x) ⊎ In z ys
unfolding insert_sorted
insert-In x z [] m = m
insert-In x z (y ∷ ys) m = elim (Bool-cases (leb_ℤ x y)) [
  | inl e ↦ rw e at m
  | inr e ↦ elim (rw e at m) [
    | inl q ↦ inr (inl q)
    | inr q ↦ elim (insert-In x z ys q) [ inl a ↦ inl a | inr b ↦ inr (inr b) ]
  ]
]

sort-In : (z : ℤ) (xs : List ℤ) → In z (sort_ℤ xs) → In z xs
unfolding sort_ℤ
sort-In z [] m = m
sort-In z (x ∷ xs) m = elim (insert-In x z (sort_ℤ xs) m) [
  | inl e ↦ inl e
  | inr q ↦ inr (sort-In z xs q)
]

abbrev at_place : List ℤ → ℕ → ℤ
at_place xs i = nth_or_zero (get_elem? xs i)

refl_ℤ : (x : ℤ) → x ≤ℤ x
refl_ℤ x = omega arith

at_place-In : (xs : List ℤ) (i : ℕ) → i < length xs → In (at_place xs i) xs
at_place-In [] i h = absurd (omega (arith, h))
at_place-In (x ∷ xs) zero h = inl refl
at_place-In (x ∷ xs) (suc i) h = inr (at_place-In xs i (omega (arith, h)))

All-at_place : (P : ℤ → Type 0) (xs : List ℤ) (i : ℕ) → All P xs → i < length xs → P (at_place xs i)
All-at_place P [] i a h = absurd (omega (arith, h))
All-at_place P (x ∷ xs) zero a h = a.0
All-at_place P (x ∷ xs) (suc i) a h = All-at_place P xs i a.1 (omega (arith, h))

at_place-mono :
    (xs : List ℤ) (i j : ℕ) → IsSorted xs → i ≤ j → j < length xs → at_place xs i ≤ℤ at_place xs j
at_place-mono [] i j s h l = absurd (omega (arith, l))
at_place-mono (x ∷ xs) zero zero s h l = refl_ℤ x
at_place-mono (x ∷ xs) zero (suc j) s h l = All-at_place (λ z. x ≤ℤ z) xs j s.0 (omega (arith, l))
at_place-mono (x ∷ xs) (suc i) zero s h l = absurd (omega (arith, h))
at_place-mono (x ∷ xs) (suc i) (suc j) s h l =
    at_place-mono xs i j s.1 (omega (arith, h)) (omega (arith, l))

insert-back : (P : ℤ → Type 0) (x : ℤ) (ys : List ℤ) → All P (insert_sorted x ys) → P x × All P ys
unfolding insert_sorted
insert-back P x [] h = h
insert-back P x (y ∷ ys) h = elim (Bool-cases (leb_ℤ x y)) [
  | inl e ↦ rw e at h
  | inr e ↦
      let g : P y × All P (insert_sorted x ys) = rw e at h in
      let (p, q) = insert-back P x ys g.1 in (p, (g.0, q))
]

sort-back : (P : ℤ → Type 0) (xs : List ℤ) → All P (sort_ℤ xs) → All P xs
unfolding sort_ℤ
sort-back P [] h = tt
sort-back P (x ∷ xs) h = let (p, q) = insert-back P x (sort_ℤ xs) h in (p, sort-back P xs q)

-- The place of a percentile among `n` samples.
abbrev place : ℕ → ℕ → ℕ
place n percent = let idx = (percent * n + 99) / 100 - 1 in if leb n idx then n - 1 else idx

rank-place :
    (xs : List ℤ) (percent : ℕ)
    → is_empty xs ≡ false
    → rank xs percent ≡ at_place xs (place (length xs) percent)
unfolding rank
rank-place xs percent h = rw h refl

place-below : (n percent : ℕ) → 0 < n → place n percent < n
place-below n percent h = ground arith

places_mono : (n : ℕ) → (place n 50 ≤ place n 95) × (place n 95 ≤ place n 99)
places_mono n = ground arith

least-All : (xs : List ℤ) → IsSorted xs → All (λ z. at_place xs 0 ≤ℤ z) xs
least-All [] s = tt
least-All (x ∷ xs) s = (refl_ℤ x, s.0)

-- The figures of `s` are of the samples, and stand in their order.
pub record IsSummary (samples : List ℤ) (s : Summary) : Type 0 where
  pub counts : s.n ≡ pos (length samples)
  pub least : All (λ z. s.min_ns ≤ℤ z) samples
  pub min_taken : In s.min_ns samples
  pub med_taken : In s.med_ns samples
  pub min_med : s.min_ns ≤ℤ s.med_ns
  pub percentiles :
      (s.has_p95 ≡ s.has_p99)
      × ((s.has_p95 ≡ leb min_percentile_n (length samples))
          × ((s.has_p95 ≡ false)
              ⊎ ((s.med_ns ≤ℤ s.p95_ns)
                  × ((s.p95_ns ≤ℤ s.p99_ns) × (In s.p95_ns samples × In s.p99_ns samples)))))

module _ (x : ℤ) (xs : List ℤ) where
  abbrev sorted : List ℤ
  sorted = sort_ℤ (x ∷ xs)

  sorted-filled : is_empty sorted ≡ false
  sorted-filled = let n = length-sort (x ∷ xs) in filled sorted (omega (arith, n))
    where
      filled : (ys : List ℤ) → 0 < length ys → is_empty ys ≡ false
      filled [] h = absurd (omega (arith, h))
      filled (y ∷ ys) h = refl

  sorted-length : 0 < length sorted
  sorted-length = let n = length-sort (x ∷ xs) in omega (arith, n)

  rank-In : (percent : ℕ) → In (rank sorted percent) (x ∷ xs)
  rank-In percent =
      subst (λ (z : ℤ). In z (x ∷ xs)) (sym (rank-place sorted percent sorted-filled))
        (sort-In (at_place sorted (place (length sorted) percent)) (x ∷ xs) (
          at_place-In sorted (place (length sorted) percent)
            (place-below (length sorted) percent sorted-length)))

  rank-mono :
      (p q : ℕ) → place (length sorted) p ≤ place (length sorted) q → rank sorted p ≤ℤ rank sorted q
  rank-mono p q h =
      rw (rank-place sorted p sorted-filled, rank-place sorted q sorted-filled)
        (at_place-mono sorted (place (length sorted) p) (place (length sorted) q)
          (sort-IsSorted (x ∷ xs)) h (place-below (length sorted) q sorted-length))

  min-med : at_place sorted 0 ≤ℤ rank sorted 50
  min-med = rw (rank-place sorted 50 sorted-filled) (
      at_place-mono sorted 0 (place (length sorted) 50) (sort-IsSorted (x ∷ xs)) (omega arith)
        (place-below (length sorted) 50 sorted-length))

  high :
      (b : Bool)
      → b ≡ true
      → (rank sorted 50 ≤ℤ (if b then rank sorted 95 else pos 0))
        × (((if b then rank sorted 95 else pos 0) ≤ℤ (if b then rank sorted 99 else pos 0))
            × (In (if b then rank sorted 95 else pos 0) (x ∷ xs)
                × In (if b then rank sorted 99 else pos 0) (x ∷ xs)))
  high true h =
      let mono = places_mono (length sorted) in
      (rank-mono 50 95 mono.0, (rank-mono 95 99 mono.1, (rank-In 95, rank-In 99)))
  high false h = absurd (ground arith)

  -- The summary of one sample or more counts them; its minimum and median are samples, the first
  -- below every sample; the percentiles are there exactly from 20 samples on, and then are samples
  -- too, with the median at most the 95th and that at most the 99th.
  pub summarize-IsSummary : IsSummary (x ∷ xs) (summarize (x ∷ xs))
  unfolding summarize
  summarize-IsSummary = record {
    counts = refl;
    least =
        sort-back (λ z. at_place sorted 0 ≤ℤ z) (x ∷ xs)
          (least-All sorted (sort-IsSorted (x ∷ xs)));
    min_taken = sort-In (at_place sorted 0) (x ∷ xs) (at_place-In sorted 0 sorted-length);
    med_taken = rank-In 50;
    min_med = min-med;
    percentiles = (
      refl,
      (
        refl,
        elim (Bool-cases (leb min_percentile_n (length (x ∷ xs)))) [
          | inr n ↦ inl n
          | inl y ↦ inr (high (leb min_percentile_n (length (x ∷ xs))) y)
        ],
      ),
    );
  }
