-- ===== src/Base/Text.antt =====
-- Go strings and byte slices as lists of bytes, with the functions of package strings that the
-- source calls. Case and blank space are those of ASCII.
use Prim.Native.Nat.{ℕ, ◌+◌, ◌-◌}
use Prim.Native.Char.{code}
use Prim.Native.String.{String}
use mathlib.Core.Path.{◌≡◌, refl, sym, ◌∙◌}
use mathlib.Core.Logic.{◌↔◌, ◌≢◌, inl, inr}
use mathlib.Core.Bool.{false≢true, Bool, true, false, ◌&&◌, ◌||◌}
use mathlib.Core.List.{List, [], ◌∷◌, map, reverse}
use native.Mathlib.Omega.{arith}
use aquila.Base.Tests.{Bool-cases, leb, ltb, ◌==◌, if◌then◌else◌}
use aquila.Base.Lists.{any}

abbrev pub Str : Type 0
Str = List ℕ

-- The bytes of an ASCII literal.
abbrev pub codes : String → Str
codes String.[] = []
codes (String.◌∷◌ c s) = code c ∷ codes s

unfoldable pub str_eq : Str → Str → Bool
str_eq [] [] = true
str_eq [] (b ∷ t) = false
str_eq (a ∷ s) [] = false
str_eq (a ∷ s) (b ∷ t) = a == b && str_eq s t

pub str_eq_refl : (s : Str) → str_eq s s ≡ true
unfolding str_eq
str_eq_refl [] = refl
str_eq_refl (a ∷ s) = ground (arith, str_eq_refl s)

pub str_eq→eq : (s t : Str) → str_eq s t ≡ true → s ≡ t
unfolding str_eq
str_eq→eq [] [] h = refl
str_eq→eq [] (b ∷ t) h = ground arith
str_eq→eq (a ∷ s) [] h = ground arith
str_eq→eq (a ∷ s) (b ∷ t) h = ground (arith, str_eq→eq s t)

pub str_eq_iff : (s t : Str) → (str_eq s t ≡ true) ↔ (s ≡ t)
str_eq_iff s t = (str_eq→eq s t, λ e. ground (arith, str_eq_refl s))

-- Byte order, as Go compares strings with `<`.
unfoldable pub str_lt : Str → Str → Bool
str_lt [] [] = false
str_lt [] (b ∷ t) = true
str_lt (a ∷ s) [] = false
str_lt (a ∷ s) (b ∷ t) = ltb a b || (a == b && str_lt s t)

-- strings.ToLower, strings.ToUpper.
unfoldable pub to_lower : Str → Str
to_lower = map λ c. if leb b'A' c && leb c b'Z' then c + 32 else c

unfoldable pub to_upper : Str → Str
to_upper = map λ c. if leb b'a' c && leb c b'z' then c - 32 else c

-- strings.TrimSpace: tab, newline, vertical tab, form feed, carriage return and blank.
abbrev pub is_space : ℕ → Bool
is_space c = (leb 9 c && leb c 13) || c == 32

-- strings.TrimLeft by a test.
unfoldable pub trim_left : (ℕ → Bool) → Str → Str
trim_left p [] = []
trim_left p (c ∷ s) = if p c then trim_left p s else c ∷ s

unfoldable pub trim_right : (ℕ → Bool) → Str → Str
unfolding trim_left
trim_right p s = reverse (trim_left p (reverse s))

unfoldable pub trim : (ℕ → Bool) → Str → Str
unfolding trim_left trim_right
trim p s = trim_right p (trim_left p s)

unfoldable pub trim_space : Str → Str
unfolding trim
trim_space = trim is_space

unfoldable pub has_prefix : Str → Str → Bool
has_prefix s [] = true
has_prefix [] (p ∷ ps) = false
has_prefix (c ∷ s) (p ∷ ps) = c == p && has_prefix s ps

unfoldable pub has_suffix : Str → Str → Bool
unfolding has_prefix
has_suffix s t = has_prefix (reverse s) (reverse t)

-- strings.ContainsAny with an ASCII set.
unfoldable pub contains_any : Str → Str → Bool
contains_any s set = any (λ c. any (λ d. c == d) set) s

-- `s[:strings.IndexByte(s, c)]`, and all of `s` where `c` does not occur.
unfoldable pub cut_at : ℕ → Str → Str
cut_at b [] = []
cut_at b (c ∷ s) = if c == b then [] else c ∷ cut_at b s

push_byte : ℕ → List Str → List Str
push_byte c [] = (c ∷ []) ∷ []
push_byte c (w ∷ ws) = (c ∷ w) ∷ ws

-- strings.Split on one byte: never empty.
unfoldable pub split : ℕ → Str → List Str
unfolding push_byte
split b [] = [] ∷ []
split b (c ∷ s) = let rest = split b s in if c == b then [] ∷ rest else push_byte c rest

pub str_eq-false : (s t : Str) → (str_eq s t ≡ false) ↔ (s ≢ t)
str_eq-false s t = (
  λ h e. false≢true (sym h ∙ (str_eq_iff s t).1 e),
  λ n. elim (Bool-cases (str_eq s t)) [ inl e ↦ absurd (n (str_eq→eq s t e)) | inr e ↦ e ],
)

pub str_ne : (a b : Str) → a ≢ b → str_eq a b ≡ false
str_ne a b h = elim (Bool-cases (str_eq a b)) [ inl e ↦ absurd (h (str_eq→eq a b e)) | inr e ↦ e ]
