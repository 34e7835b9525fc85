-- ===== src/Diff/Apply.antt =====
-- internal/diff/apply.go: the pass that writes, on the lines of a file and on a tree of files.
pub mod Patched
use aquila.Base.{
  ℕ, zero, suc, ◌-◌, ◌∷◌, ◌++◌, [], Str, codes, Bool, true, false, not, ◌&&◌, ◌||◌, Option, none,
  some, List, ltb, ◌==◌, if◌then◌else◌, is_empty, length, str_eq, has_prefix, split, clean_path,
  pos_part, Dict, find_key, put_key, filter_by, Outcome, yields, fails, ◌>>=◌,
}
use aquila.Diff.Parse.{parse}
use aquila.Diff.Collect.{ApplyHunk, ApplyFile, collect_apply}

-- The variables of applyToLines: orig[oi:] is `rest`.
pub record Cut : Type 0 where
  pub cursor : ℕ
  pub rest : List Str
  pub out : List Str

-- The loop that copies the lines before a hunk.
unfoldable pub copy_lines : ℕ → Cut → Outcome Cut
copy_lines zero st = yields st
copy_lines (suc k) st = elim st.rest [
  | [] ↦ fails (codes "hunk past end of file")
  | l ∷ ls ↦ copy_lines k (record { cursor = suc st.cursor; rest = ls; out = st.out ++ l ∷ [] })
]

-- A line that orig[oi] has to equal: it is kept or dropped.
unfoldable pub take_line : Bool → Str → Cut → Outcome Cut
take_line keep want st = elim st.rest [
  | [] ↦ fails (codes "context mismatch")
  | l ∷ ls ↦
      if str_eq l want
      then yields (record {
        cursor = suc st.cursor;
        rest = ls;
        out = if keep then st.out ++ l ∷ [] else st.out;
      })
      else fails (codes "context mismatch")
]

unfoldable pub apply_line : Str → Cut → Outcome Cut
unfolding take_line
apply_line [] st = take_line true [] st
apply_line (c ∷ s) st =
    if c == b' ' || c == b'\t'
    then take_line true s st
    else if c == b'-'
    then take_line false s st
    else if c == b'+'
    then yields (record st { out = st.out ++ s ∷ [] })
    else yields st

unfoldable pub apply_lines : List Str → Cut → Outcome Cut
unfolding apply_line
apply_lines [] st = yields st
apply_lines (line ∷ lines) st = apply_line line st >>= λ s. apply_lines lines s

-- Where a hunk starts; hunkOldStart gives no negative number.
abbrev pub start_of : ApplyHunk → ℕ
start_of h = let n = pos_part h.old_start in if n == 0 then 1 else n

unfoldable pub apply_hunk : ApplyHunk → Cut → Outcome Cut
unfolding copy_lines apply_lines
apply_hunk h st =
    if ltb (start_of h) st.cursor
    then fails (codes "hunks out of order")
    else copy_lines (start_of h - st.cursor) st >>= λ s. apply_lines h.lines s

unfoldable pub apply_hunks : List ApplyHunk → Cut → Outcome Cut
unfolding apply_hunk
apply_hunks [] st = yields st
apply_hunks (h ∷ hs) st = apply_hunk h st >>= λ s. apply_hunks hs s

-- strings.Join(lines, "\n").
unfoldable pub join_lines : List Str → Str
join_lines [] = []
join_lines (l ∷ []) = l
join_lines (l ∷ k ∷ ls) = l ++ 10 ∷ join_lines (k ∷ ls)

-- The text of a file of these lines; it has none where there are none, before and after.
unfoldable pub body_of : List Str → List Str → Str
unfolding join_lines
body_of orig out =
    if is_empty orig && is_empty out then join_lines out else join_lines out ++ 10 ∷ []

-- applyToLines.
unfoldable pub apply_to_lines : List Str → List ApplyHunk → Outcome Str
unfolding apply_hunks body_of
apply_to_lines orig hunks =
    apply_hunks hunks (record { cursor = 1; rest = orig; out = [] }) >>= λ (st : Cut).
    yields (body_of orig (st.out ++ st.rest))

drop_last_lf : Str → Str
drop_last_lf [] = []
drop_last_lf (c ∷ []) = if c == 10 then [] else c ∷ []
drop_last_lf (c ∷ d ∷ s) = c ∷ drop_last_lf (d ∷ s)

-- splitLines; a text of one line feed is one empty line, as it is for strings.Split.
unfoldable pub split_lines : Str → List Str
unfolding split drop_last_lf
split_lines bytes = if is_empty bytes then [] else split 10 (drop_last_lf bytes)

-- What os.Lstat finds at a path: a file with its content, a symbolic link, or something else.
pub data Entry : Type 0 where
  regular : Str → Entry
  symlink : Entry
  other : Entry

abbrev pub Tree : Type 0
Tree = Dict Entry

-- containedPath, for a root that is absolute and clean.
unfoldable pub contained_path : Str → Str → Outcome Str
unfolding clean_path
contained_path root rel =
    let dest = clean_path (root ++ b'/' ∷ rel) in
    if is_empty rel
    then fails (codes "diff: apply: empty path")
    else if not (str_eq dest root) && not (has_prefix dest (root ++ b'/' ∷ []))
    then fails (codes "diff: apply: path escapes root")
    else yields dest

abbrev pub max_apply_file : ℕ
max_apply_file = 2097152

-- os.WriteFile behind os.MkdirAll, or an error of either.
abbrev written : Option Str → Str → Tree → Str → Outcome Tree
written none dest tree out = yields (put_key dest (regular out) tree)
written (some e) dest tree out = fails e

apply_add : Option Str → ApplyFile → Str → Tree → Outcome Tree
apply_add io f dest tree = elim (find_key dest tree) [
  | some e ↦ fails (codes "diff: apply: already exists")
  | none ↦ apply_to_lines [] f.hunks >>= λ out. written io dest tree out
]

apply_delete : Option Str → Str → Tree → Outcome Tree
apply_delete (some e) dest tree = fails e
apply_delete none dest tree = elim (find_key dest tree) [
  | none ↦ fails (codes "diff: apply: no such file")
  | some e ↦ yields (filter_by (λ (p : Str × Entry). not (str_eq p.0 dest)) tree)
]

apply_modify : (Str → Bool) → Option Str → ApplyFile → Str → Tree → Outcome Tree
apply_modify valid io f dest tree = elim (find_key dest tree) [
  | none ↦ fails (codes "diff: apply: no such file")
  | some symlink ↦ fails (codes "diff: apply: refusing symlink")
  | some other ↦ fails (codes "diff: apply: is a directory")
  | some (regular raw) ↦
      if ltb max_apply_file (length raw)
      then fails (codes "diff: apply: too large")
      else if not (valid raw)
      then fails (codes "diff: apply: is not utf-8")
      else apply_to_lines (split_lines raw) f.hunks >>= λ out. written io dest tree out
]

-- applyOne; `io` is the error of the call that writes, if it has one.
unfoldable pub apply_one : (Str → Bool) → Str → Option Str → ApplyFile → Tree → Outcome Tree
unfolding contained_path apply_add apply_delete apply_modify
apply_one valid root io f tree =
    if f.binary
    then fails (codes "diff: apply: binary not supported")
    else contained_path root f.path >>= λ dest.
        if str_eq f.status (codes "add")
        then apply_add io f dest tree
        else if str_eq f.status (codes "delete")
        then apply_delete io dest tree
        else apply_modify valid io f dest tree

-- The loop of Apply over the files: a file that fails leaves those before it written.
unfoldable pub apply_files :
    (Str → Bool) → Str → (Str → Option Str) → List ApplyFile → Tree → Tree × Option Str
unfolding apply_one
apply_files valid root io [] tree = (tree, none)
apply_files valid root io (f ∷ fs) tree = elim (apply_one valid root (io f.path) f tree) [
  | fails e ↦ (tree, some e)
  | yields next ↦ apply_files valid root io fs next
]

apply_collected :
    (Str → Bool) → Str → (Str → Option Str) → List ApplyFile → Tree → Tree × Option Str
apply_collected valid root io [] tree = (tree, some (codes "diff: apply: no files"))
apply_collected valid root io (f ∷ fs) tree = apply_files valid root io (f ∷ fs) tree

-- Apply, for a root that is there. `io` gives the error of a write by the file's path.
unfoldable pub apply :
    (Str → Bool) → Option Str → Str → (Str → Option Str) → Str → Tree → Tree × Option Str
unfolding apply_collected
apply valid scan_error root io bytes tree = elim (parse valid scan_error bytes) [
  | fails e ↦ (tree, some e)
  | yields files ↦ elim (collect_apply scan_error bytes) [
    | fails e ↦ (tree, some e)
    | yields fs ↦ apply_collected valid root io fs tree
  ]
]
