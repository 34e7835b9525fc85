-- ===== src/Base/Lists.antt =====
-- Lists measured and indexed by native numbers, Boolean tests of lists, and predicates on them.
use Prim.Native.Nat.{ℕ, zero, suc, ◌+◌}
use mathlib.Core.Path.{ap, ◌∙◌, ◌≡◌, refl, sym, subst}
use mathlib.Core.Logic.{◌⊎◌, inl, inr, ◌↔◌, ◌≢◌}
use mathlib.Core.Bool.{Bool, true, false, ◌&&◌, ◌||◌}
use mathlib.Core.Option.{Option, none, some}
use mathlib.Core.List.{List, [], ◌∷◌, ◌++◌, map}
use native.Mathlib.Omega.{arith}
use aquila.Base.Tests.{if◌then◌else◌, Bool-cases}

module _ {ℓ} {A : Type ℓ} where
  abbrev pub length : List A → ℕ
  length [] = 0
  length (x ∷ xs) = suc (length xs)

  abbrev pub get_elem? : List A → ℕ → Option A
  get_elem? [] i = none
  get_elem? (x ∷ xs) zero = some x
  get_elem? (x ∷ xs) (suc i) = get_elem? xs i

  -- A write out of bounds changes nothing.
  abbrev pub set : List A → ℕ → A → List A
  set [] i v = []
  set (x ∷ xs) zero v = v ∷ xs
  set (x ∷ xs) (suc i) v = x ∷ set xs i v

  abbrev pub take : ℕ → List A → List A
  take zero xs = []
  take (suc n) [] = []
  take (suc n) (x ∷ xs) = x ∷ take n xs

  abbrev pub any : (A → Bool) → List A → Bool
  any p [] = false
  any p (x ∷ xs) = p x || any p xs

  abbrev pub all : (A → Bool) → List A → Bool
  all p [] = true
  all p (x ∷ xs) = p x && all p xs

  abbrev pub is_empty : List A → Bool
  is_empty [] = true
  is_empty (x ∷ xs) = false

  -- How many elements pass the test.
  abbrev pub count_by : (A → Bool) → List A → ℕ
  count_by p [] = 0
  count_by p (x ∷ xs) = (if p x then 1 else 0) + count_by p xs

  abbrev pub filter_by : (A → Bool) → List A → List A
  filter_by p [] = []
  filter_by p (x ∷ xs) = let rest = filter_by p xs in if p x then x ∷ rest else rest

  abbrev pub All {κ} : (A → Type κ) → List A → Type κ
  All P [] = Unit
  All P (x ∷ xs) = P x × All P xs

  pub length-append : (xs ys : List A) → length (xs ++ ys) ≡ length xs + length ys
  length-append [] ys = omega arith
  length-append (x ∷ xs) ys = omega (arith, length-append xs ys)

-- Membership by recursion: a sum, which a proof can take apart into data.
abbrev pub In : {A : Type 0} → A → List A → Type 0
In a [] = ⊥
In a (x ∷ xs) = (a ≡ x) ⊎ In a xs

pub All-In : {A : Type 0} (P : A → Type 0) (xs : List A) (a : A) → All P xs → In a xs → P a
All-In P [] a h m = absurd m
All-In P (x ∷ xs) a h (inl e) = subst P (sym e) h.0
All-In P (x ∷ xs) a h (inr m) = All-In P xs a h.1 m

-- `all` and `any` at the library's level of propositions.
pub all→All : {A : Type 0} (p : A → Bool) (xs : List A) → all p xs ≡ true → All (λ x. p x ≡ true) xs
all→All p [] h = tt
all→All p (x ∷ xs) h = elim (Bool-cases (p x)) [
  | inl e ↦ (e, all→All p xs (ground arith))
  | inr e ↦ absurd (ground arith)
]

pub All→all : {A : Type 0} (p : A → Bool) (xs : List A) → All (λ x. p x ≡ true) xs → all p xs ≡ true
All→all p [] h = refl
All→all p (x ∷ xs) h = rw h.0 (All→all p xs h.1)

pub All-map :
    {A B : Type 0} (P : B → Type 0) (f : A → B) (xs : List A)
    → All (λ x. P (f x)) xs
    → All P (map f xs)
All-map P f [] h = tt
All-map P f (x ∷ xs) h = (h.0, All-map P f xs h.1)

pub All-imp :
    {A : Type 0} (P Q : A → Type 0) → ((a : A) → P a → Q a) → (xs : List A) → All P xs → All Q xs
All-imp P Q f [] h = tt
All-imp P Q f (x ∷ xs) h = (f x h.0, All-imp P Q f xs h.1)

pub All-front :
    {A : Type 0} (P : A → Type 0) (xs : List A) (y : A) → All P (xs ++ y ∷ []) → All P xs
All-front P [] y h = tt
All-front P (x ∷ xs) y h = (h.0, All-front P xs y h.1)

-- Tests of a list at a place, and after a write there.
module _ {A : Type 0} (p : A → Bool) where
  pub any-get :
      (xs : List A) (i : ℕ) (x : A) → get_elem? xs i ≡ some x → p x ≡ true → any p xs ≡ true
  any-get [] i x e h = ground arith
  any-get (y ∷ ys) zero x e h = let e' : y ≡ x = cc in rw (e', h)
  any-get (y ∷ ys) (suc i) x e h = ground (arith, any-get ys i x e h)

  pub any-set_same :
      (xs : List A) (i : ℕ) (x y : A)
      → get_elem? xs i ≡ some x
      → p x ≡ p y
      → any p (set xs i y) ≡ any p xs
  any-set_same [] i x y e h = refl
  any-set_same (z ∷ zs) zero x y e h = let e' : z ≡ x = cc in rw (e', h)
  any-set_same (z ∷ zs) (suc i) x y e h = rw (any-set_same zs i x y e h)

  pub any-set_self :
      (xs : List A) (i : ℕ) (x y : A)
      → get_elem? xs i ≡ some x
      → p y ≡ true
      → any p (set xs i y) ≡ true
  any-set_self [] i x y e h = ground arith
  any-set_self (z ∷ zs) zero x y e h = rw h
  any-set_self (z ∷ zs) (suc i) x y e h = ground (arith, any-set_self zs i x y e h)

pub All-get :
    {A : Type 0} (P : A → Type 0) (xs : List A) (i : ℕ) (x : A)
    → All P xs
    → get_elem? xs i ≡ some x
    → P x
All-get P [] i x h e = absurd (ground arith)
All-get P (y ∷ ys) zero x h e = let e' : y ≡ x = cc in subst P e' h.0
All-get P (y ∷ ys) (suc i) x h e = All-get P ys i x h.1 e

pub All-set :
    {A : Type 0} (P : A → Type 0) (xs : List A) (i : ℕ) (y : A)
    → All P xs
    → P y
    → All P (set xs i y)
All-set P [] i y h k = tt
All-set P (x ∷ xs) zero y h k = (k, h.1)
All-set P (x ∷ xs) (suc i) y h k = (h.0, All-set P xs i y h.1 k)

pub get-map :
    {A B : Type 0} (f : A → B) (xs : List A) (i : ℕ) (x : A)
    → get_elem? xs i ≡ some x
    → get_elem? (map f xs) i ≡ some (f x)
get-map f [] i x e = absurd (ground arith)
get-map f (y ∷ ys) zero x e = let e' : y ≡ x = cc in ap (λ z. some (f z)) e'
get-map f (y ∷ ys) (suc i) x e = get-map f ys i x e

pub is_empty-append {ℓ} :
    {A : Type ℓ} (xs ys : List A) → is_empty (xs ++ ys) ≡ (is_empty xs && is_empty ys)
is_empty-append [] ys = refl
is_empty-append (x ∷ xs) ys = refl

pub is_empty_iff {ℓ} : {A : Type ℓ} (xs : List A) → (is_empty xs ≡ true) ↔ (xs ≡ [])
is_empty_iff [] = (λ h. refl, λ h. refl)
is_empty_iff (x ∷ xs) = (λ h. ground arith, λ h. ground arith)

pub nonempty_iff {ℓ} : {A : Type ℓ} (xs : List A) → (is_empty xs ≡ false) ↔ (xs ≢ [])
nonempty_iff [] = (λ h. ground arith, λ h. absurd (h refl))
nonempty_iff (x ∷ xs) = (λ h. ground arith, λ h. refl)

pub any→In :
    {A : Type 0} (p : A → Bool) (xs : List A) → any p xs ≡ true → (x : A) × In x xs × (p x ≡ true)
any→In p [] h = absurd (ground arith)
any→In p (x ∷ xs) h = elim (Bool-cases (p x)) [
  | inl e ↦ (x, inl refl, e)
  | inr e ↦ let (y, m, q) = any→In p xs (rw e at h) in (y, inr m, q)
]

pub In→any :
    {A : Type 0} (p : A → Bool) (xs : List A) (x : A) → In x xs → p x ≡ true → any p xs ≡ true
In→any p [] x m h = absurd m
In→any p (y ∷ ys) x (inl e) h = rw (ap p (sym e) ∙ h)
In→any p (y ∷ ys) x (inr m) h = let r = In→any p ys x m h in ground arith
