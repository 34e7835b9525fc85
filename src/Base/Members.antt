-- ===== src/Base/Members.antt =====
-- Lists that append, take, map and filter make: their members, and what holds of all of them.
use mathlib.Core.Path.{ap, ◌∙◌, ◌≡◌, refl, sym}
use mathlib.Core.Logic.{inl, inr, ◌≢◌}
use mathlib.Core.Bool.{Bool, true, false}
use mathlib.Core.List.{List, [], ◌∷◌, ◌++◌, map}
use aquila.Base.Tests.{Bool-cases}
use aquila.Base.Text.{Str, str_eq, str_eq_refl}
use aquila.Base.Lists.{any, All, In, filter_by, length, take}
use Prim.Native.Nat.{ℕ, zero, suc, ◌≤◌}
use native.Mathlib.Omega.{arith}

pub In-filter :
    {A : Type 0} (p : A → Bool) (x : A) (xs : List A) → In x xs → p x ≡ true → In x (filter_by p xs)
In-filter p x [] m h = absurd m
In-filter p x (y ∷ ys) (inl e) h = let h' : p y ≡ true = ap p (sym e) ∙ h in rw h' (inl e)
In-filter p x (y ∷ ys) (inr m) h = elim (Bool-cases (p y)) [
  | inl b ↦ rw b (inr (In-filter p x ys m h))
  | inr b ↦ rw b (In-filter p x ys m h)
]

pub filter-In :
    {A : Type 0} (p : A → Bool) (x : A) (xs : List A)
    → In x (filter_by p xs)
    → In x xs × (p x ≡ true)
filter-In p x [] m = absurd m
filter-In p x (y ∷ ys) m = elim (Bool-cases (p y)) [
  | inl b ↦ elim (rw b at m) [
    | inl e ↦ (inl e, ap p e ∙ b)
    | inr k ↦ let r = filter-In p x ys k in (inr (r.0), r.1)
  ]
  | inr b ↦ let r = filter-In p x ys (rw b at m) in (inr (r.0), r.1)
]

pub In-map : {A B : Type 0} (f : A → B) (x : A) (xs : List A) → In x xs → In (f x) (map f xs)
In-map f x [] m = absurd m
In-map f x (y ∷ ys) (inl e) = inl (ap f e)
In-map f x (y ∷ ys) (inr m) = inr (In-map f x ys m)

pub map-In :
    {A B : Type 0} (f : A → B) (y : B) (xs : List A)
    → In y (map f xs)
    → (x : A) × In x xs × (y ≡ f x)
map-In f y [] m = absurd m
map-In f y (x ∷ xs) (inl e) = (x, inl refl, e)
map-In f y (x ∷ xs) (inr m) = let (z, k, e) = map-In f y xs m in (z, inr k, e)

pub All-append :
    {A : Type 0} (P : A → Type 0) (xs ys : List A) → All P xs → All P ys → All P (xs ++ ys)
All-append P [] ys h k = k
All-append P (x ∷ xs) ys h k = (h.0, All-append P xs ys h.1 k)

pub All-take : {A : Type 0} (P : A → Type 0) (n : ℕ) (xs : List A) → All P xs → All P (take n xs)
All-take P zero xs h = tt
All-take P (suc n) [] h = tt
All-take P (suc n) (x ∷ xs) h = (h.0, All-take P n xs h.1)

pub All-of-In : {A : Type 0} (P : A → Type 0) (xs : List A) → ((x : A) → In x xs → P x) → All P xs
All-of-In P [] f = tt
All-of-In P (x ∷ xs) f = (f x (inl refl), All-of-In P xs (λ y m. f y (inr m)))

pub length-take : {A : Type 0} (n : ℕ) (xs : List A) → length (take n xs) ≤ n
length-take zero xs = omega arith
length-take (suc n) [] = omega arith
length-take (suc n) (x ∷ xs) = let ih = length-take n xs in omega (arith, ih)

-- No key stands twice.
abbrev pub Distinct : List Str → Type 0
Distinct [] = Unit
Distinct (k ∷ ks) = All (λ (x : Str). k ≢ x) ks × Distinct ks

pub All-append-one :
    {A : Type 0} (P : A → Type 0) (xs : List A) (y : A) → All P xs → P y → All P (xs ++ y ∷ [])
All-append-one P [] y h p = (p, tt)
All-append-one P (x ∷ xs) y h p = (h.0, All-append-one P xs y h.1 p)

pub Distinct-append :
    (ks : List Str) (id : Str)
    → Distinct ks
    → All (λ (x : Str). x ≢ id) ks
    → Distinct (ks ++ id ∷ [])
Distinct-append [] id d n = (tt, tt)
Distinct-append (k ∷ ks) id d n =
    (All-append-one (λ (x : Str). k ≢ x) ks id d.0 n.0, Distinct-append ks id d.1 n.1)

-- A list without repeats is no longer than one that has all its members.
module _ {A : Type 0} where
  remove : (x : A) (ys : List A) → In x ys → List A
  remove x [] m = absurd m
  remove x (y ∷ ys) (inl e) = ys
  remove x (y ∷ ys) (inr m) = y ∷ remove x ys m

  length-remove : (x : A) (ys : List A) (m : In x ys) → suc (length (remove x ys m)) ≡ length ys
  unfolding remove
  length-remove x [] m = absurd m
  length-remove x (y ∷ ys) (inl e) = refl
  length-remove x (y ∷ ys) (inr m) = ap suc (length-remove x ys m)

  In-remove : (x z : A) (ys : List A) (m : In x ys) → x ≢ z → In z ys → In z (remove x ys m)
  unfolding remove
  In-remove x z [] m h n = absurd m
  In-remove x z (y ∷ ys) (inl e) h (inl f) = absurd (h (e ∙ sym f))
  In-remove x z (y ∷ ys) (inl e) h (inr n) = n
  In-remove x z (y ∷ ys) (inr m) h (inl f) = inl f
  In-remove x z (y ∷ ys) (inr m) h (inr n) = inr (In-remove x z ys m h n)

pub Distinct-short :
    (xs ys : List Str) → Distinct xs → All (λ (x : Str). In x ys) xs → length xs ≤ length ys
Distinct-short [] ys d h = omega arith
Distinct-short (x ∷ xs) ys d h =
    let shorter = Distinct-short xs (remove x ys h.0) d.1 (moved xs d.0 h.1) in
    let e = length-remove x ys h.0 in omega (arith, shorter, e)
  where
    moved :
        (zs : List Str)
        → All (λ (z : Str). x ≢ z) zs
        → All (λ (z : Str). In z ys) zs
        → All (λ (z : Str). In z (remove x ys h.0)) zs
    moved [] n m = tt
    moved (z ∷ zs) n m = (In-remove x z ys h.0 n.0 m.0, moved zs n.1 m.1)

pub any-absent : (c : Str) (xs : List Str) → any (str_eq c) xs ≡ false → All (λ (x : Str). c ≢ x) xs
any-absent c [] b = tt
any-absent c (x ∷ xs) b = (
  λ q. absurd (let z : str_eq c x ≡ true = rw (sym q) (str_eq_refl c) in ground arith),
  any-absent c xs (ground arith),
)
