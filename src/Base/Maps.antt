-- ===== src/Base/Maps.antt =====
-- A map by a text as an association list, with one entry for a key.
use mathlib.Core.Path.{ap, ◌∙◌, ◌≡◌, refl, sym}
use mathlib.Core.Logic.{◌≢◌, inl, inr}
use mathlib.Core.Bool.{true, false}
use mathlib.Core.Option.{Option, none, some}
use mathlib.Core.List.{List, [], ◌∷◌, ◌++◌, map}
use native.Mathlib.Omega.{arith}
use aquila.Base.Tests.{Bool-cases, if◌then◌else◌}
use aquila.Base.Text.{Str, str_eq, str_eq_refl, str_eq→eq, str_ne}
use aquila.Base.Lists.{All, In}

abbrev pub Dict : Type 0 → Type 0
Dict A = List (Str × A)

module _ {A : Type 0} where
  unfoldable pub find_key : Str → Dict A → Option A
  find_key k [] = none
  find_key k ((a, x) ∷ rest) = let more = find_key k rest in if str_eq a k then some x else more

  unfoldable pub put_key : Str → A → Dict A → Dict A
  put_key k x [] = (k, x) ∷ []
  put_key k x ((a, y) ∷ rest) =
      let more = put_key k x rest in if str_eq a k then (k, x) ∷ rest else (a, y) ∷ more

abbrev pub keys : {A : Type 0} → Dict A → List Str
keys = map (λ e. e.0)

module _ {A : Type 0} where
  pub find_put-same : (k : Str) (s : A) (t : Dict A) → find_key k (put_key k s t) ≡ some s
  unfolding find_key put_key
  find_put-same k s [] = rw (str_eq_refl k)
  find_put-same k s ((a, x) ∷ t) = elim (Bool-cases (str_eq a k)) [
    | inl q ↦ rw (q, find_key) (rw (str_eq_refl k))
    | inr q ↦ rw (q, find_key) (rw q (find_put-same k s t))
  ]

  pub find_put-other :
      (k l : Str) (s : A) (t : Dict A) → k ≢ l → find_key l (put_key k s t) ≡ find_key l t
  unfolding find_key put_key
  find_put-other k l s [] h = rw (str_ne k l h)
  find_put-other k l s ((a, x) ∷ t) h = elim (Bool-cases (str_eq a k)) [
    | inl q ↦
        let e : str_eq a l ≡ false = str_ne a l (λ e. h (sym (str_eq→eq a k q) ∙ e)) in
        rw (q, find_key) (rw (str_ne k l h, e))
    | inr q ↦ elim (Bool-cases (str_eq a l)) [
      | inl p ↦ rw (q, find_key) (rw p)
      | inr p ↦ rw (q, find_key) (rw p (find_put-other k l s t h))
    ]
  ]

  pub keys-put_found :
      (k : Str) (s x : A) (t : Dict A) → find_key k t ≡ some x → keys (put_key k s t) ≡ keys t
  unfolding find_key put_key
  keys-put_found k s x [] e = absurd (ground arith)
  keys-put_found k s x ((a, y) ∷ t) e = elim (Bool-cases (str_eq a k)) [
    | inl q ↦ rw q (ap (λ (b : Str). b ∷ keys t) (sym (str_eq→eq a k q)))
    | inr q ↦ rw q (ap (λ (ks : List Str). a ∷ ks) (keys-put_found k s x t (rw q at e)))
  ]

  pub keys-put_new :
      (k : Str) (s : A) (t : Dict A) → find_key k t ≡ none → keys (put_key k s t) ≡ keys t ++ k ∷ []
  unfolding find_key put_key
  keys-put_new k s [] e = refl
  keys-put_new k s ((a, y) ∷ t) e = elim (Bool-cases (str_eq a k)) [
    | inl q ↦ absurd (let z = rw q at e in ground arith)
    | inr q ↦ rw q (ap (λ (ks : List Str). a ∷ ks) (keys-put_new k s t (rw q at e)))
  ]

  pub absent_keys : (k : Str) (t : Dict A) → find_key k t ≡ none → All (λ (x : Str). x ≢ k) (keys t)
  unfolding find_key
  absent_keys k [] e = tt
  absent_keys k ((a, y) ∷ t) e = elim (Bool-cases (str_eq a k)) [
    | inl q ↦ absurd (let z = rw q at e in ground arith)
    | inr q ↦ (
      λ p. absurd (let z : str_eq a k ≡ true = rw p (str_eq_refl k) in ground arith),
      absent_keys k t (rw q at e),
    )
  ]

  pub find_key-In : (k : Str) (x : A) (t : Dict A) → find_key k t ≡ some x → In k (keys t)
  unfolding find_key
  find_key-In k x [] e = absurd (ground arith)
  find_key-In k x ((a, y) ∷ t) e = elim (Bool-cases (str_eq a k)) [
    | inl q ↦ inl (sym (str_eq→eq a k q))
    | inr q ↦ inr (find_key-In k x t (rw q at e))
  ]
