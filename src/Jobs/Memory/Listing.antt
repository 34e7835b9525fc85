-- ===== src/Jobs/Memory/Listing.antt =====
-- internal/jobs/memory.go: what List returns.
use aquila.Base.{
  ℕ, zero, suc, ◌≤◌, ◌≡◌, refl, Str, Bool, true, ◌||◌, inl, inr, none, List, [], ◌∷◌, is_empty,
  length, take, filter_by, arith, Bool-cases, All, str_eq, ℤ, pos_part, length-take, All-take,
}
use aquila.Jobs.{Job, ok}
use aquila.Jobs.Create.{clip_limit, clip_service}
use aquila.Jobs.Memory.{Memory, jobs, comes_first, insert_listed, sort_listed, list}

clip_limit-bounded : (n : ℤ) → (1 ≤ pos_part (clip_limit n)) × (pos_part (clip_limit n) ≤ 50)
unfolding clip_limit
clip_limit-bounded n = ground arith

-- Newest first: no job was made before the one behind it.
abbrev pub NewestFirst : List Job → Type 0
NewestFirst [] = Unit
NewestFirst (j ∷ js) = All (λ (k : Job). k.created ≤ j.created) js × NewestFirst js

insert-All :
    (P : Job → Type 0) (j : Job) (ks : List Job) → P j → All P ks → All P (insert_listed j ks)
unfolding insert_listed
insert-All P j [] p h = (p, tt)
insert-All P j (k ∷ ks) p h = elim (Bool-cases (comes_first k j)) [
  | inl e ↦ rw e (h.0, insert-All P j ks p h.1)
  | inr e ↦ rw e (p, h)
]

All-before :
    (b c : ℕ) (ks : List Job)
    → b ≤ c
    → All (λ (k : Job). k.created ≤ b) ks
    → All (λ (k : Job). k.created ≤ c) ks
All-before b c [] h a = tt
All-before b c (k ∷ ks) h a = (omega (arith, a.0), All-before b c ks h a.1)

insert-NewestFirst : (j : Job) (ks : List Job) → NewestFirst ks → NewestFirst (insert_listed j ks)
unfolding insert_listed
insert-NewestFirst j [] h = (tt, tt)
insert-NewestFirst j (k ∷ ks) h = elim (Bool-cases (comes_first k j)) [
  | inl e ↦ rw e (
    insert-All (λ (x : Job). x.created ≤ k.created) j ks (ground arith) h.0,
    insert-NewestFirst j ks h.1,
  )
  | inr e ↦
      let le : k.created ≤ j.created = ground arith in
      rw e ((le, All-before k.created j.created ks le h.0), h)
]

sort-NewestFirst : (js : List Job) → NewestFirst (sort_listed js)
unfolding sort_listed
sort-NewestFirst [] = tt
sort-NewestFirst (j ∷ js) = insert-NewestFirst j (sort_listed js) (sort-NewestFirst js)

sort-All : (P : Job → Type 0) (js : List Job) → All P js → All P (sort_listed js)
unfolding sort_listed
sort-All P [] h = tt
sort-All P (j ∷ js) h = insert-All P j (sort_listed js) h.0 (sort-All P js h.1)

filter-All : {A : Type 0} (p : A → Bool) (xs : List A) → All (λ x. p x ≡ true) (filter_by p xs)
filter-All p [] = tt
filter-All p (x ∷ xs) = elim (Bool-cases (p x)) [
  | inl e ↦ rw e (e, filter-All p xs)
  | inr e ↦ rw e (filter-All p xs)
]

take-NewestFirst : (n : ℕ) (js : List Job) → NewestFirst js → NewestFirst (take n js)
take-NewestFirst zero js h = tt
take-NewestFirst (suc n) [] h = tt
take-NewestFirst (suc n) (j ∷ js) h =
    (All-take (λ (k : Job). k.created ≤ j.created) n js h.0, take-NewestFirst n js h.1)

-- A page of the list.
pub record IsPage (service : Str) (js : List Job) : Type 0 where
  pub bounded : length js ≤ 50
  pub newest_first : NewestFirst js
  pub of_service :
      All
        (λ (j : Job).
          (is_empty (clip_service service) || str_eq j.service (clip_service service)) ≡ true)
        js

-- Whatever the limit asked for, List returns at most 50 jobs, the newest first, all of the service
-- asked for, if one is.
pub list-IsPage :
    (limit : ℤ) (service : Str) (m : Memory)
    → (js : List Job) × (list none limit service m ≡ ok js) × IsPage service js
unfolding list
list-IsPage limit service m =
    let want = clip_service service in
    let test = λ (j : Job). is_empty want || str_eq j.service want in
    let n = pos_part (clip_limit limit) in
    let sorted = sort_listed (filter_by test (jobs m)) in
    let bound = (clip_limit-bounded limit).1 in
    let long = length-take n sorted in
    (
      take n sorted,
      refl,
      record {
        bounded = omega (arith, bound, long);
        newest_first = take-NewestFirst n sorted (sort-NewestFirst (filter_by test (jobs m)));
        of_service =
            All-take (λ j. test j ≡ true) n sorted
              (sort-All (λ j. test j ≡ true) (filter_by test (jobs m)) (filter-All test (jobs m)));
      },
    )
