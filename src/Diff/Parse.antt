-- ===== src/Diff/Parse.antt =====
-- internal/diff/parse.go: Parse, a pass over the lines.
pub mod Files
use aquila.Base.{
  ℕ, suc, ◌+◌, ◌∷◌, ◌++◌, [], Str, codes, Bool, true, false, not, ◌&&◌, ◌||◌, Option, none, some,
  List, any, ltb, ◌==◌, if◌then◌else◌, is_empty, length, str_eq, has_prefix, trim_space, drop,
  scan_lines, sort_by, ℤ, pos, ltb_ℤ, eqb_ℤ, ◌+ℤ◌, wrap_64, Outcome, yields, fails, ◌>>=◌,
}
use aquila.Diff.{
  File, max_bytes, canonical_path, header_path, git_path, hunk_new_start, hunk_body_line,
}

-- The variables of Parse.
pub record State : Type 0 where
  pub files : List File
  pub cur : Option File
  pub in_hunk : Bool
  pub new_line : ℤ
  pub hunks : ℕ

abbrev pub start : State
start = record { files = []; cur = none; in_hunk = false; new_line = pos 0; hunks = 0 }

abbrev pub new_file : File
new_file = record { path = []; status = codes "modify"; binary = false; lines = [] }

abbrev add_once : ℤ → List ℤ → List ℤ
add_once n ns = if any (eqb_ℤ n) ns then ns else n ∷ ns

distinct_positive : List ℤ → List ℤ
distinct_positive [] = []
distinct_positive (n ∷ ns) =
    let rest = distinct_positive ns in if ltb_ℤ (pos 0) n then add_once n rest else rest

-- uniqueInts.
unfoldable pub unique_ints : List ℤ → List ℤ
unfolding distinct_positive sort_by
unique_ints ns = sort_by ltb_ℤ (distinct_positive ns)

-- flush, for a file that is open.
unfoldable pub flush_file : File → State → Outcome State
unfolding canonical_path unique_ints
flush_file f st =
    if is_empty f.path
    then fails (codes "diff: file missing path")
    else elim (canonical_path f.path) [
      | none ↦ fails (codes "diff: invalid path")
      | some p ↦
          if ltb 500 (length st.files + 1)
          then fails (codes "diff: file cap 500 exceeded")
          else yields (record st {
            files = st.files ++ record f { path = p; lines = unique_ints f.lines } ∷ [];
            cur = none;
            in_hunk = false;
          })
    ]

-- flush.
unfoldable pub flush : State → Outcome State
unfolding flush_file
flush st = elim st.cur [ none ↦ yields st | some f ↦ flush_file f st ]

abbrev pub set_file : File → State → State
set_file f st = record st { cur = some f }

-- The cases "+++ " and "--- " for the file that is open, or that they open.
unfoldable pub plus_header : Str → File → File
unfolding header_path
plus_header line f =
    let p = header_path (drop 4 line) in
    if str_eq p (codes "/dev/null")
    then record f { status = codes "delete" }
    else if is_empty p
    then f
    else record f { path = p }

unfoldable pub minus_header : Str → File → File
unfolding header_path
minus_header line f =
    let p = header_path (drop 4 line) in
    if str_eq p (codes "/dev/null")
    then record f { status = codes "add" }
    else if is_empty f.path
    then record f { path = p }
    else f

-- The case "@@ ".
unfoldable pub hunk_header : Str → File → State → Outcome State
unfolding hunk_new_start
hunk_header line f st =
    if f.binary
    then yields st
    else hunk_new_start line >>= λ n.
        if ltb 4000 (suc st.hunks)
        then fails (codes "diff: hunk cap 4000 exceeded")
        else yields (record st { hunks = suc st.hunks; in_hunk = true; new_line = n })

abbrev next_line : State → State
next_line st = record st { new_line = wrap_64 (st.new_line +ℤ pos 1) }

abbrev mark : File → State → State
mark f st = record st { cur = some (record f { lines = f.lines ++ st.new_line ∷ [] }) }

-- The case of a line in a hunk.
unfoldable pub body_line : Str → File → State → State
unfolding wrap_64 ◌+ℤ◌
body_line [] f st = next_line st
body_line (c ∷ s) f st =
    if c == b'+'
    then next_line (mark f st)
    else if c == b'-'
    then mark f st
    else if c == b' ' || c == b'\t'
    then next_line st
    else if c == b'\\'
    then st
    else record st { in_hunk = false }

-- The cases of the switch while a file is open, behind "diff --git ".
unfoldable pub open_line : Str → File → State → Outcome State
unfolding plus_header minus_header hunk_header body_line
open_line line f st =
    if has_prefix line (codes "new file mode")
    then yields (set_file (record f { status = codes "add" }) st)
    else if has_prefix line (codes "deleted file mode")
    then yields (set_file (record f { status = codes "delete" }) st)
    else if has_prefix line (codes "rename from ")
    then yields (set_file (record f { status = codes "rename" }) st)
    else if has_prefix line (codes "rename to ")
    then yields
        (set_file (record f { status = codes "rename"; path = trim_space (drop 10 line) }) st)
    else if has_prefix line (codes "Binary files ") || str_eq line (codes "GIT binary patch")
    then yields (record st { cur = some (record f { binary = true }); in_hunk = false })
    else if has_prefix line (codes "+++ ")
    then yields (set_file (plus_header line f) st)
    else if has_prefix line (codes "--- ")
    then yields (set_file (minus_header line f) st)
    else if has_prefix line (codes "@@ ")
    then hunk_header line f st
    else if st.in_hunk && not f.binary
    then yields (body_line line f st)
    else yields st

-- The same cases while none is open.
unfoldable pub closed_line : Str → State → Outcome State
unfolding plus_header minus_header
closed_line line st =
    if has_prefix line (codes "+++ ")
    then yields (set_file (plus_header line new_file) st)
    else if has_prefix line (codes "--- ")
    then yields (set_file (minus_header line new_file) st)
    else if has_prefix line (codes "@@ ")
    then fails (codes "diff: hunk without file header")
    else yields st

abbrev left_hunk : Str → State → State
left_hunk line st =
    if st.in_hunk && not (hunk_body_line line) then record st { in_hunk = false } else st

-- The body of the loop.
unfoldable pub parse_line : Str → State → Outcome State
unfolding flush git_path open_line closed_line
parse_line line before =
    let st = left_hunk line before in
    if has_prefix line (codes "diff --git ")
    then (flush st >>= λ s.
        yields (set_file (record new_file { path = git_path (drop 11 line) }) s))
    else elim st.cur [ none ↦ closed_line line st | some f ↦ open_line line f st ]

unfoldable pub parse_lines : List Str → State → Outcome State
unfolding parse_line
parse_lines [] st = yields st
parse_lines (line ∷ lines) st = parse_line line st >>= λ s. parse_lines lines s

abbrev scanned : Option Str → State → Outcome State
scanned none st = yields st
scanned (some e) st = fails e

-- Parse. `valid` is utf8.Valid, and `scan_error` the error of the scanner, which refuses a line as
-- long as its buffer.
unfoldable pub parse : (Str → Bool) → Option Str → Str → Outcome (List File)
unfolding parse_lines flush scan_lines
parse valid scan_error bytes =
    if ltb max_bytes (length bytes)
    then fails (codes "diff: exceeds 1048576 bytes")
    else if is_empty bytes
    then yields []
    else if not (valid bytes)
    then fails (codes "diff: not utf-8")
    else (parse_lines (scan_lines bytes) start
        >>= (λ st. scanned scan_error st)
        >>= (λ st. flush st)
        >>= λ (st : State). yields st.files)
