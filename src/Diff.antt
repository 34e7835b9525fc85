-- ===== src/Diff.antt =====
-- internal/diff: unified diffs. The paths and headers of parse.go here; Parse, the collecting pass of
-- apply.go and its writing pass in the modules below.
pub mod Parse
pub mod Collect
pub mod Apply
pub mod Examples
use aquila.Base.{
  ℕ, Str, codes, Bool, true, false, not, ◌&&◌, ◌||◌, Option, none, some, List, [], ◌∷◌, map,
  reverse, ◌==◌, if◌then◌else◌, is_empty, has_prefix, trim, trim_space, trim_prefix, cut_at,
  contains, after_text, before_byte, or_text, fields, atoi, clean_path, ℤ, pos, ltb_ℤ, Outcome,
  yields, fails,
}

-- File.
pub record File : Type 0 where
  pub path : Str
  pub status : Str
  pub binary : Bool
  pub lines : List ℤ

abbrev pub max_bytes : ℕ
max_bytes = 1048576

-- strings.ReplaceAll(s, "\\", "/").
unfoldable pub to_slashes : Str → Str
to_slashes = map λ c. if c == b'\\' then b'/' else c

abbrev pub escapes : Str → Bool
escapes s =
    is_dot_or_root s
    || has_prefix s (codes "../")
    || contains s (codes "/../")
    || contains s (codes "..")
  where
    is_dot_or_root : Str → Bool
    is_dot_or_root [] = false
    is_dot_or_root (c ∷ []) = c == b'.' || c == b'/'
    is_dot_or_root (c ∷ d ∷ s) = false

-- The path that CanonicalPath looks at once it is cleaned.
unfoldable pub cleaned : Str → Str
unfolding to_slashes trim_prefix clean_path trim_space
cleaned raw =
    clean_path (trim_prefix (trim_prefix (to_slashes (trim_space raw)) (codes "a/")) (codes "b/"))

-- CanonicalPath; `none` for ok = false.
unfoldable pub canonical_path : Str → Option Str
unfolding cleaned contains
canonical_path raw =
    let s = cleaned raw in
    if escapes s
    then none
    else (let t = trim_prefix (trim_prefix s (codes "/")) (codes "examples/shop/") in
        if is_empty t then none else some t)

-- headerPath.
unfoldable pub header_path : Str → Str
unfolding cut_at trim_space
header_path rest = cut_at b' ' (cut_at b'\t' (trim_space rest))

last_of : Str → List Str → Str
last_of d [] = d
last_of d (w ∷ ws) = last_of w ws

-- gitPaths, of which the callers take the second where it is not empty, and else the first.
unfoldable pub git_path : Str → Str
unfolding last_of fields
git_path rest = last_of [] (fields rest)

abbrev is_negative : ℤ → Bool
is_negative n = ltb_ℤ n (pos 0)

abbrev natural : Option ℤ → Outcome ℤ
natural none = fails (codes "diff: bad hunk header")
natural (some n) = if is_negative n then fails (codes "diff: bad hunk header") else yields n

-- What hunkNewStart reads as a number, of the text behind " +".
unfoldable pub new_start_text : Str → Str
unfolding before_byte cut_at trim contains
new_start_text rest =
    let upto = or_text (before_marks rest) (before_byte (λ c. c == b' ') rest) in
    cut_at b',' (trim (λ c. c == b' ' || c == b'@') upto)
  where
    before_marks : Str → Str
    before_marks [] = []
    before_marks (c ∷ s) =
        let more = before_marks s in if has_prefix (c ∷ s) (codes "@@") then [] else c ∷ more

-- hunkNewStart.
unfoldable pub hunk_new_start : Str → Outcome ℤ
unfolding after_text new_start_text atoi
hunk_new_start line = elim (after_text line (codes " +")) [
  | none ↦ fails (codes "diff: bad hunk header")
  | some rest ↦ natural (atoi (new_start_text rest))
]

-- hunkOldStart.
unfoldable pub hunk_old_start : Str → Outcome ℤ
unfolding after_text before_byte atoi
hunk_old_start line = elim (after_text line (codes "-")) [
  | none ↦ fails (codes "diff: bad hunk header")
  | some rest ↦ elim (before_byte (λ c. c == b' ' || c == b',') rest) [
    | none ↦ fails (codes "diff: bad hunk header")
    | some digits ↦ natural (atoi digits)
  ]
]

-- hunkBodyLine.
abbrev pub hunk_body_line : Str → Bool
hunk_body_line [] = true
hunk_body_line (c ∷ s) = c == b' ' || c == b'\t' || c == b'+' || c == b'-' || c == b'\\'
