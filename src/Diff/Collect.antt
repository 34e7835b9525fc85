-- ===== src/Diff/Collect.antt =====
-- internal/diff/apply.go: collectApply, the pass that gathers what is to be written.
use aquila.Base.{
  ◌∷◌, ◌++◌, [], Str, codes, Bool, true, false, not, ◌&&◌, ◌||◌, Option, none, some, List, ◌==◌,
  if◌then◌else◌, is_empty, str_eq, has_prefix, drop, scan_lines, ℤ, pos, Outcome, yields, fails,
  ◌>>=◌,
}
use aquila.Diff.{canonical_path, header_path, git_path, hunk_old_start, hunk_body_line}

pub record ApplyHunk : Type 0 where
  pub old_start : ℤ
  pub lines : List Str

pub record ApplyFile : Type 0 where
  pub path : Str
  pub status : Str
  pub binary : Bool
  pub hunks : List ApplyHunk

-- The variables of collectApply.
pub record Collected : Type 0 where
  pub files : List ApplyFile
  pub cur : Option ApplyFile
  pub in_hunk : Bool
  pub hunk : ApplyHunk

abbrev pub no_hunk : ApplyHunk
no_hunk = record { old_start = pos 0; lines = [] }

abbrev pub nothing : Collected
nothing = record { files = []; cur = none; in_hunk = false; hunk = no_hunk }

abbrev pub new_apply : ApplyFile
new_apply = record { path = []; status = codes "modify"; binary = false; hunks = [] }

-- flushHunk.
unfoldable pub flush_hunk : Collected → Collected
flush_hunk st = elim st.cur [
  | none ↦ st
  | some f ↦
      if st.in_hunk
      then record st {
        cur = some (record f { hunks = f.hunks ++ st.hunk ∷ [] });
        hunk = no_hunk;
        in_hunk = false;
      }
      else st
]

abbrev close_file : ApplyFile → Collected → Collected
close_file f st =
    if is_empty f.path then record st { cur = none } else elim (canonical_path f.path) [
      | none ↦ record st { cur = none }
      | some p ↦ record st { files = st.files ++ record f { path = p } ∷ []; cur = none }
    ]

close_open : Option ApplyFile → Collected → Collected
close_open none st = st
close_open (some f) st = close_file f st

-- flushFile.
unfoldable pub flush_apply : Collected → Collected
unfolding flush_hunk close_open
flush_apply before = let st = flush_hunk before in close_open st.cur st

abbrev pub set_apply : ApplyFile → Collected → Collected
set_apply f st = record st { cur = some f }

unfoldable pub plus_path : Str → ApplyFile → ApplyFile
unfolding header_path
plus_path line f =
    let p = header_path (drop 4 line) in
    if str_eq p (codes "/dev/null")
    then record f { status = codes "delete" }
    else if is_empty p
    then f
    else record f { path = p }

unfoldable pub minus_path : Str → ApplyFile → ApplyFile
unfolding header_path
minus_path line f =
    let p = header_path (drop 4 line) in
    if str_eq p (codes "/dev/null")
    then record f { status = codes "add" }
    else if is_empty f.path
    then record f { path = p }
    else f

-- The case "@@ ".
unfoldable pub open_hunk : Str → ApplyFile → Collected → Outcome Collected
unfolding hunk_old_start flush_hunk
open_hunk line f st =
    if f.binary
    then yields st
    else hunk_old_start line >>= λ n.
        yields
          (record (flush_hunk st) { in_hunk = true; hunk = record { old_start = n; lines = [] } })

abbrev more_of_hunk : Str → Collected → Collected
more_of_hunk line st =
    let h = st.hunk in record st { hunk = record h { lines = h.lines ++ line ∷ [] } }

-- The case of a line in a hunk.
unfoldable pub hunk_line : Str → Collected → Collected
unfolding flush_hunk
hunk_line [] st = more_of_hunk (codes " ") st
hunk_line (c ∷ s) st =
    if c == b'+' || c == b'-' || c == b' ' || c == b'\t'
    then more_of_hunk (c ∷ s) st
    else if c == b'\\'
    then st
    else flush_hunk st

-- The cases of the switch while a file is open, behind "diff --git ".
unfoldable pub collect_open : Str → ApplyFile → Collected → Outcome Collected
unfolding plus_path minus_path open_hunk hunk_line
collect_open line f st =
    if has_prefix line (codes "new file mode")
    then yields (set_apply (record f { status = codes "add" }) st)
    else if has_prefix line (codes "deleted file mode")
    then yields (set_apply (record f { status = codes "delete" }) st)
    else if has_prefix line (codes "rename from ") || has_prefix line (codes "rename to ")
    then fails (codes "diff: apply: rename not supported")
    else if has_prefix line (codes "Binary files ") || str_eq line (codes "GIT binary patch")
    then yields (record st { cur = some (record f { binary = true }); in_hunk = false })
    else if has_prefix line (codes "+++ ")
    then yields (set_apply (plus_path line f) st)
    else if has_prefix line (codes "--- ")
    then yields (set_apply (minus_path line f) st)
    else if has_prefix line (codes "@@ ")
    then open_hunk line f st
    else if st.in_hunk && not f.binary
    then yields (hunk_line line st)
    else yields st

unfoldable pub collect_closed : Str → Collected → Outcome Collected
unfolding plus_path minus_path
collect_closed line st =
    if has_prefix line (codes "+++ ")
    then yields (set_apply (plus_path line new_apply) (flush_apply st))
    else if has_prefix line (codes "--- ")
    then yields (set_apply (minus_path line new_apply) (flush_apply st))
    else if has_prefix line (codes "@@ ")
    then fails (codes "diff: apply: hunk without file header")
    else yields st

-- The body of the loop.
unfoldable pub collect_line : Str → Collected → Outcome Collected
unfolding flush_apply git_path collect_open collect_closed
collect_line line before =
    let st = if before.in_hunk && not (hunk_body_line line) then flush_hunk before else before in
    if has_prefix line (codes "diff --git ")
    then yields (set_apply (record new_apply { path = git_path (drop 11 line) }) (flush_apply st))
    else elim st.cur [ none ↦ collect_closed line st | some f ↦ collect_open line f st ]

unfoldable pub collect_lines : List Str → Collected → Outcome Collected
unfolding collect_line
collect_lines [] st = yields st
collect_lines (line ∷ lines) st = collect_line line st >>= λ s. collect_lines lines s

abbrev collected : Option Str → Collected → Outcome (List ApplyFile)
collected none st = yields (flush_apply st).files
collected (some e) st = fails e

-- collectApply, with the error of the scanner.
unfoldable pub collect_apply : Option Str → Str → Outcome (List ApplyFile)
unfolding collect_lines flush_apply scan_lines
collect_apply scan_error bytes =
    collect_lines (scan_lines bytes) nothing >>= λ st. collected scan_error st
