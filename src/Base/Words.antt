-- ===== src/Base/Words.antt =====
-- More functions of packages strings, strconv and path on byte strings.
use Prim.Native.Nat.{ℕ, suc, zero, ◌+◌, ◌-◌, ◌*◌}
use mathlib.Core.Bool.{Bool, true, false, not, ◌&&◌, ◌||◌}
use mathlib.Core.Option.{Option, none, some}
use mathlib.Core.List.{List, [], ◌∷◌, ◌++◌, reverse}
use aquila.Base.Tests.{ltb, leb, ◌==◌, if◌then◌else◌}
use aquila.Base.Lists.{all, is_empty, length}
use aquila.Base.Text.{Str, codes, str_eq, has_prefix, is_space, split}
use aquila.Base.Int.{ℤ, pos, negsuc, two_63}

-- `s[n:]` for n up to the length of s.
abbrev pub drop : {A : Type 0} → ℕ → List A → List A
drop zero s = s
drop (suc n) [] = []
drop (suc n) (c ∷ s) = drop n s

-- strings.TrimPrefix.
unfoldable pub trim_prefix : Str → Str → Str
unfolding has_prefix
trim_prefix s p = if has_prefix s p then drop (length p) s else s

-- strings.Contains.
unfoldable pub contains : Str → Str → Bool
unfolding has_prefix
contains [] p = is_empty p
contains (c ∷ s) p = has_prefix (c ∷ s) p || contains s p

-- What follows the first occurrence of a text, as `s[strings.Index(s, p)+len(p):]`.
unfoldable pub after_text : Str → Str → Option Str
unfolding has_prefix
after_text [] p = if is_empty p then some [] else none
after_text (c ∷ s) p =
    let rest = after_text s p in
    if has_prefix (c ∷ s) p then some (drop (length p) (c ∷ s)) else rest

-- What stands before the first byte that passes a test; `none` where none does.
unfoldable pub before_byte : (ℕ → Bool) → Str → Option Str
before_byte p [] = none
before_byte p (c ∷ s) =
    let rest = before_byte p s in
    if p c then some [] else elim rest [ none ↦ none | some t ↦ some (c ∷ t) ]

-- What follows the first byte `b`, as `s[strings.IndexByte(s, b)+1:]`; `none` without one.
unfoldable pub after_byte : ℕ → Str → Option Str
after_byte b [] = none
after_byte b (c ∷ s) = let rest = after_byte b s in if c == b then some s else rest

abbrev pub or_text : Str → Option Str → Str
or_text s none = s
or_text s (some t) = t

keep_word : Str → List Str → List Str
keep_word [] ws = ws
keep_word (c ∷ w) ws = (c ∷ w) ∷ ws

fields_from : Str → Str → List Str
unfolding keep_word
fields_from word [] = keep_word (reverse word) []
fields_from word (c ∷ s) = elim (is_space c) [
  | true ↦ keep_word (reverse word) (fields_from [] s)
  | false ↦ fields_from (c ∷ word) s
]

-- strings.Fields.
unfoldable pub fields : Str → List Str
unfolding fields_from
fields s = fields_from [] s

abbrev pub is_digit : ℕ → Bool
is_digit c = leb b'0' c && leb c b'9'

number_from : ℕ → Str → ℕ
number_from n [] = n
number_from n (c ∷ s) = number_from (n * 10 + (c - b'0')) s

-- strconv.Atoi; `none` for an error.
unfoldable pub atoi : Str → Option ℤ
unfolding number_from
atoi s =
    let negative = has_sign b'-' s in
    let digits = if has_sign b'-' s || has_sign b'+' s then drop 1 s else s in
    let n = number_from 0 digits in
    if is_empty digits || not (all is_digit digits)
    then none
    else if negative
    then if leb n two_63 then some (minus n) else none
    else if ltb n two_63
    then some (pos n)
    else none
  where
    has_sign : ℕ → Str → Bool
    has_sign b [] = false
    has_sign b (c ∷ s) = c == b

    minus : ℕ → ℤ
    minus zero = pos 0
    minus (suc n) = negsuc n

-- The elements of a path that path.Clean keeps, last first.
clean_step : Bool → Str → List Str → List Str
unfolding str_eq
clean_step rooted seg [] =
    if is_empty seg || str_eq seg (codes ".")
    then []
    else if str_eq seg (codes "..") && rooted
    then []
    else seg ∷ []
clean_step rooted seg (top ∷ rest) =
    if is_empty seg || str_eq seg (codes ".")
    then top ∷ rest
    else if str_eq seg (codes "..")
    then if str_eq top (codes "..") then seg ∷ top ∷ rest else rest
    else seg ∷ top ∷ rest

clean_all : Bool → List Str → List Str → List Str
unfolding clean_step
clean_all rooted [] kept = kept
clean_all rooted (seg ∷ segs) kept = clean_all rooted segs (clean_step rooted seg kept)

-- The elements, last first, with slashes between.
join_back : List Str → Str → Str
join_back [] acc = acc
join_back (seg ∷ segs) acc =
    let more = join_back segs (b'/' ∷ seg ++ acc) in
    let last = seg ++ acc in elim segs [ [] ↦ last | t ∷ ts ↦ more ]

-- path.Clean.
unfoldable pub clean_path : Str → Str
unfolding clean_all join_back split has_prefix
clean_path s =
    let rooted = has_prefix s (b'/' ∷ []) in
    let body = join_back (clean_all rooted (split b'/' s) []) [] in
    if rooted then b'/' ∷ body else if is_empty body then codes "." else body

strip_cr : Str → Str
strip_cr s = drop_cr (reverse s)
  where
    drop_cr : Str → Str
    drop_cr [] = []
    drop_cr (c ∷ t) = if c == 13 then reverse t else reverse (c ∷ t)

lines_from : List Str → List Str
unfolding strip_cr
lines_from [] = []
lines_from (s ∷ []) = if is_empty s then [] else strip_cr s ∷ []
lines_from (s ∷ t ∷ ss) = strip_cr s ∷ lines_from (t ∷ ss)

-- The lines of a bufio.Scanner.
unfoldable pub scan_lines : Str → List Str
unfolding lines_from split
scan_lines s = lines_from (split 10 s)
