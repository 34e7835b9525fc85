-- ===== src/Diff/Examples.antt =====
-- A small diff, read and applied.
use aquila.Base.{
  inl, ℕ, ◌≡◌, ◌≤◌, refl, Str, codes, Bool, true, false, Option, none, some, List, [], ◌∷◌, ◌++◌,
  All, length, is_empty, contains, pos, find_key, Outcome, yields, fails,
}
use aquila.Diff.{File, canonical_path}
use aquila.Diff.Parse.{parse}
use aquila.Diff.Parse.Files.{IsFile, parse-IsFile}
use aquila.Diff.Apply.{Entry, regular, Tree, apply, apply_to_lines, body_of}
use aquila.Diff.Apply.Patched.{
  Change, keeps, takes_out, puts_in, old_lines, new_lines, hunks_from, apply_to_lines-change,
  insertion, apply_to_lines-insertion,
}

abbrev lf : Str
lf = 10 ∷ []

abbrev patch : Str
patch =
    codes "--- a/x.go"
    ++ lf
    ++ codes "+++ b/x.go"
    ++ lf
    ++ codes "@@ -2,2 +2,2 @@"
    ++ lf
    ++ codes " two"
    ++ lf
    ++ codes "-three"
    ++ lf
    ++ codes "+drei"
    ++ lf

abbrev any_text : Str → Bool
any_text s = true

abbrev changed : File
changed = record {
  path = codes "x.go";
  status = codes "modify";
  binary = false;
  lines = pos 3 ∷ [];
}

abbrev before : Tree
before =
    (codes "/r/x.go", regular (codes "one" ++ lf ++ codes "two" ++ lf ++ codes "three" ++ lf)) ∷ []

abbrev no_error : Str → Option Str
no_error s = none

runs :
    (parse any_text none patch ≡ yields (changed ∷ []))
    × (apply any_text none (codes "/r") no_error patch before ≡ (
      (codes "/r/x.go", regular (codes "one" ++ lf ++ codes "two" ++ lf ++ codes "drei" ++ lf))
          ∷ [],
      none,
    ))
    × (canonical_path (codes " b/examples/shop/./cmd//x.go") ≡ some (codes "cmd/x.go"))
    × (canonical_path (codes "b/../x.go") ≡ none)
unfolding parse apply canonical_path aquila.Base.str_eq aquila.Base.to_lower aquila.Base.trim_space
    aquila.Base.trim aquila.Base.trim_left aquila.Base.trim_right aquila.Base.has_prefix
    aquila.Base.cut_at aquila.Base.split aquila.Base.insert_by aquila.Base.sort_by
    aquila.Base.find_key aquila.Base.put_key aquila.Base.trim_prefix aquila.Base.contains
    aquila.Base.after_text aquila.Base.before_byte aquila.Base.fields aquila.Base.atoi
    aquila.Base.clean_path aquila.Base.scan_lines aquila.Base.wrap_64 aquila.Base.◌+ℤ◌
    aquila.Diff.to_slashes aquila.Diff.cleaned aquila.Diff.header_path aquila.Diff.git_path
    aquila.Diff.new_start_text aquila.Diff.hunk_new_start aquila.Diff.hunk_old_start
    aquila.Diff.Parse.unique_ints aquila.Diff.Parse.flush_file aquila.Diff.Parse.flush
    aquila.Diff.Parse.plus_header aquila.Diff.Parse.minus_header aquila.Diff.Parse.hunk_header
    aquila.Diff.Parse.body_line aquila.Diff.Parse.open_line aquila.Diff.Parse.closed_line
    aquila.Diff.Parse.parse_line aquila.Diff.Parse.parse_lines aquila.Diff.Collect.flush_hunk
    aquila.Diff.Collect.flush_apply aquila.Diff.Collect.plus_path aquila.Diff.Collect.minus_path
    aquila.Diff.Collect.open_hunk aquila.Diff.Collect.hunk_line aquila.Diff.Collect.collect_open
    aquila.Diff.Collect.collect_closed aquila.Diff.Collect.collect_line
    aquila.Diff.Collect.collect_lines aquila.Diff.Collect.collect_apply aquila.Diff.Apply.copy_lines
    aquila.Diff.Apply.take_line aquila.Diff.Apply.apply_line aquila.Diff.Apply.apply_lines
    aquila.Diff.Apply.apply_hunk aquila.Diff.Apply.apply_hunks aquila.Diff.Apply.join_lines
    aquila.Diff.Apply.body_of aquila.Diff.Apply.apply_to_lines aquila.Diff.Apply.split_lines
    aquila.Diff.Apply.contained_path aquila.Diff.Apply.apply_one aquila.Diff.Apply.apply_files
runs = (refl, refl, refl, refl)

parse-IsFile_example : All IsFile (changed ∷ []) × (length (changed ∷ []) ≤ 500)
parse-IsFile_example = parse-IsFile any_text none patch (changed ∷ []) runs.0

abbrev change : Change
change = record {
  pieces =
      record {
        skipped = codes "one" ∷ [];
        edits = keeps (codes "two") ∷ takes_out (codes "three") ∷ puts_in (codes "drei") ∷ [];
      }
      ∷ [];
  rest = codes "four" ∷ [];
}

apply_to_lines-change_example :
    apply_to_lines (old_lines change) (hunks_from 1 change.pieces)
    ≡ yields (body_of (old_lines change) (new_lines change))
apply_to_lines-change_example = apply_to_lines-change change (inl refl, tt)

-- A line put behind the second: it comes before it.
apply_to_lines-insertion_example :
    let c = insertion (codes "one" ∷ []) (codes "two") (codes "new" ∷ []) (codes "three" ∷ []) in
    (new_lines c ≡ codes "one" ∷ codes "two" ∷ codes "new" ∷ codes "three" ∷ [])
    × (apply_to_lines (old_lines c) (hunks_from 1 c.pieces)
        ≡ yields
            (body_of (old_lines c) (codes "one" ∷ codes "new" ∷ codes "two" ∷ codes "three" ∷ [])))
apply_to_lines-insertion_example =
    apply_to_lines-insertion (codes "one" ∷ []) (codes "two") (codes "new" ∷ [])
      (codes "three" ∷ [])
