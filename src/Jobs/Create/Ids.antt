-- ===== src/Jobs/Create/Ids.antt =====
-- internal/jobs/store.go: the ids that a request may name.
use mathlib.Core.List.{reverse-reverse, reverse-cons}
use mathlib.Core.Option.{some-injective}
use mathlib.Core.Path.{subst}
use aquila.Base.{
  ℕ, zero, suc, ◌+◌, ◌≤◌, ◌≡◌, refl, sym, ap, ◌∙◌, Str, Bool, true, false, not, ◌&&◌, ◌||◌, inl,
  inr, none, some, [], ◌∷◌, ◌++◌, reverse, all, leb, ltb, if◌then◌else◌, length, take, arith,
  Bool-cases, to_lower, trim_left, trim_right, trim, trim_space, is_space,
}
use aquila.Jobs.Create.{is_hex, normalize_id}

lower_hex : (s : Str) → all is_hex s ≡ true → to_lower s ≡ s
unfolding to_lower
lower_hex [] h = refl
lower_hex (c ∷ s) h =
    let ih = lower_hex s (ground arith) in
    let here : (if leb b'A' c && leb c b'Z' then c + 32 else c) ≡ c = ground arith in rw (here, ih)

left_hex : (s : Str) → all is_hex s ≡ true → trim_left is_space s ≡ s
unfolding trim_left
left_hex [] h = refl
left_hex (c ∷ s) h = let here : is_space c ≡ false = ground arith in rw here

all-append : (p : ℕ → Bool) (s t : Str) → all p (s ++ t) ≡ (all p s && all p t)
all-append p [] t = refl
all-append p (c ∷ s) t = ground (arith, all-append p s t)

all-reverse : (p : ℕ → Bool) (s : Str) → all p (reverse s) ≡ all p s
all-reverse p [] = refl
all-reverse p (c ∷ s) =
    ap (all p) (reverse-cons c s)
    ∙ (all-append p (reverse s) (c ∷ []) ∙ rw (all-reverse p s) (ground arith))

trim_hex : (s : Str) → all is_hex s ≡ true → trim_space s ≡ s
unfolding trim_space trim trim_right
trim_hex s h =
    let l = left_hex s h in
    let r = left_hex (reverse s) (all-reverse is_hex s ∙ h) in
    ap (λ (t : Str). reverse (trim_left is_space (reverse t))) l
    ∙ (ap reverse r ∙ reverse-reverse s)

all-take : (p : ℕ → Bool) (n : ℕ) (s : Str) → all p s ≡ true → all p (take n s) ≡ true
all-take p zero s h = refl
all-take p (suc n) [] h = refl
all-take p (suc n) (c ∷ s) h = ground (arith, all-take p n s)

length-take_of : (n : ℕ) (s : Str) → n ≤ length s → length (take n s) ≡ n
length-take_of zero s h = refl
length-take_of (suc n) [] h = absurd (omega (arith, h))
length-take_of (suc n) (c ∷ s) h =
    let ih = length-take_of n s (omega (arith, h)) in omega (arith, ih)

not_ltb : (m n : ℕ) → n ≤ m → ltb m n ≡ false
not_ltb m n h = ground arith

-- An id of 8 to 16 hex digits is its own normal form.
canonical : (s : Str) → all is_hex s ≡ true → 8 ≤ length s → length s ≤ 16 → normalize_id s ≡ some s
unfolding normalize_id
canonical s h lo hi =
    let e : to_lower (trim_space s) ≡ s = ap to_lower (trim_hex s h) ∙ lower_hex s h in
    let a : ltb (length s) 8 ≡ false = not_ltb (length s) 8 lo in
    let b : ltb 64 (length s) ≡ false = not_ltb 64 (length s) (omega (arith, hi)) in
    let c : ltb 16 (length s) ≡ false = not_ltb 16 (length s) hi in rw e (rw (a, b, h, c) refl)

-- The parts of a text that normalizeID accepts.
accepted :
    (s id : Str)
    → (if ltb (length s) 8 || ltb 64 (length s) || not (all is_hex s)
        then none
        else some (if ltb 16 (length s) then take 16 s else s))
      ≡ some id
    → (ltb (length s) 8 ≡ false)
      × ((all is_hex s ≡ true) × ((if ltb 16 (length s) then take 16 s else s) ≡ id))
accepted s id e = elim (Bool-cases (ltb (length s) 8 || ltb 64 (length s) || not (all is_hex s))) [
  | inl y ↦ absurd (let e' = rw y at e in ground arith)
  | inr n ↦ (ground arith, (ground arith, some-injective _ _ (rw n at e)))
]

-- Whatever text normalizeID accepts, the id that it gives has 8 to 16 hex digits in lower case, and
-- normalizeID gives that id back unchanged.
pub normalize_id-normal :
    (raw id : Str)
    → normalize_id raw ≡ some id
    → (all is_hex id ≡ true) × (8 ≤ length id) × (length id ≤ 16) × (normalize_id id ≡ some id)
unfolding normalize_id
normalize_id-normal raw id e =
    let s = to_lower (trim_space raw) in
    let (long, (hex, cut)) = accepted s id e in
    elim (Bool-cases (ltb 16 (length s))) [
      | inr n ↦
          let q : s ≡ id = sym (rw n) ∙ cut in
          let lo : 8 ≤ length s = ground arith in
          let hi : length s ≤ 16 = ground arith in
          subst
            (λ (t : Str).
              (all is_hex t ≡ true) × (8 ≤ length t) × (length t ≤ 16) × (normalize_id t ≡ some t))
            q (hex, lo, hi, canonical s hex lo hi)
      | inl y ↦
          let q : take 16 s ≡ id = sym (rw y) ∙ cut in
          let l : length (take 16 s) ≡ 16 = length-take_of 16 s (ground arith) in
          let h = all-take is_hex 16 s hex in
          let lo : 8 ≤ length (take 16 s) = omega (arith, l) in
          let hi : length (take 16 s) ≤ 16 = omega (arith, l) in
          subst
            (λ (t : Str).
              (all is_hex t ≡ true) × (8 ≤ length t) × (length t ≤ 16) × (normalize_id t ≡ some t))
            q (h, lo, hi, canonical (take 16 s) h lo hi)
    ]
