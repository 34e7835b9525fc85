-- ===== src/Impact/Examples.antt =====
-- internal/impact: how Classify divides changed files, at a concrete input.
use aquila.Base.{
  ◌≡◌, refl, Str, codes, true, [], ◌∷◌, All, pos, str_eq, has_prefix, cut_at, has_suffix, str_lt,
}
use aquila.Impact.{Finding, Report}
use aquila.Impact.Classes.{inert, ext, base_name, classify}
use aquila.Impact.Classes.Split.{Placed, IsBinding, IsUnbound, classify-Placed}

abbrev finding : Str → Str → Str → Finding
finding file source reason = record {
  via = [];
  trace_id = [];
  span_id = [];
  entry_span_id = [];
  name = [];
  file = file;
  source_id = source;
  service = [];
  path = [];
  route = [];
  line = pos 0;
  reason = reason;
  provenance = codes "diff";
}

-- Two functions of a file, a file changed outside of functions, one without findings, and a text.
abbrev report : Report
report = record {
  route_trace_counts = [];
  files = codes "a.go" ∷ codes "b.go" ∷ codes "c.go" ∷ codes "docs/x.md" ∷ [];
  direct =
      finding (codes "a.go") (codes "g") (codes "changed_lines")
      ∷ finding (codes "a.go") (codes "f") (codes "changed_lines")
      ∷ finding (codes "b.go") (codes "h") (codes "changed_lines")
      ∷ finding (codes "b.go") (codes "b") (codes "changed_outside_func")
      ∷ [];
  likely = [];
  runtime = [];
  unobserved = [];
}

classified :
    classify report
    ≡ record { bound = codes "f" ∷ codes "g" ∷ []; unanalyzed = codes "b.go" ∷ codes "c.go" ∷ [] }
unfolding classify str_eq has_prefix cut_at has_suffix str_lt
classified = refl

tests_inert : inert (codes "pkg/a_test.go") ≡ true
unfolding inert str_eq has_prefix cut_at has_suffix
tests_inert = refl

base_of_root : base_name (codes "//") ≡ codes "/"
unfolding base_name
base_of_root = refl

ext_of_dotted_folder : ext (codes "a.d/b") ≡ []
unfolding ext
ext_of_dotted_folder = refl

classify-Placed_example :
    All (Placed report.direct (classify report).bound (classify report).unanalyzed) report.files
    × All (IsBinding report.direct report.files) (classify report).bound
    × All (IsUnbound report.direct report.files) (classify report).unanalyzed
classify-Placed_example = classify-Placed report
