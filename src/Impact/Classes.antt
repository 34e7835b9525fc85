-- ===== src/Impact/Classes.antt =====
-- internal/impact/files.go: which changed files the analysis binds to functions, and the report of a
-- diff without a source graph.
pub mod Split
use aquila.Base.{
  ℕ, Str, codes, Bool, true, false, not, ◌&&◌, ◌||◌, Option, none, some, List, [], ◌∷◌, ◌++◌, any,
  all, map, reverse, filter_by, ◌==◌, if◌then◌else◌, is_empty, str_eq, str_lt, has_prefix,
  has_suffix, cut_at, trim_right, trim_space, sort_by,
}
use aquila.Impact.{Finding, Report}
use aquila.Impact

-- path.Ext, on the reversed path.
ext_back : Str → Str → Str
ext_back [] acc = []
ext_back (c ∷ s) acc =
    let more = ext_back s (c ∷ acc) in if c == b'/' then [] else if c == b'.' then c ∷ acc else more

unfoldable pub ext : Str → Str
unfolding ext_back
ext p = ext_back (reverse p) []

-- path.Base.
unfoldable pub base_name : Str → Str
unfolding trim_right
base_name p =
    let s = trim_right (λ c. c == b'/') p in
    if is_empty p
    then codes "."
    else if is_empty s
    then codes "/"
    else reverse (cut_at b'/' (reverse s))

-- Inert.
unfoldable pub inert : Str → Bool
unfolding ext base_name
inert p =
    let b = base_name p in
    str_eq (ext p) (codes ".md")
    || str_eq (ext p) (codes ".rst")
    || has_prefix b (codes "LICENSE")
    || has_prefix b (codes "NOTICE")
    || has_prefix b (codes "AUTHORS")
    || has_prefix b (codes "CHANGELOG")
    || str_eq b (codes "CODEOWNERS")
    || has_suffix b (codes "_test.go")

-- A set of texts, as a map with the value true.
add_text : Str → List Str → List Str
add_text x xs = if any (str_eq x) xs then xs else x ∷ xs

add_texts : List Str → List Str → List Str
unfolding add_text
add_texts [] set = set
add_texts (x ∷ xs) set = add_texts xs (add_text x set)

abbrev pub binds : Finding → Bool
binds f = str_eq f.reason (codes "changed_lines") && not (is_empty f.source_id)

-- The direct findings of a path.
abbrev pub findings_of : Str → List Finding → List Finding
findings_of p = filter_by λ (f : Finding). str_eq f.file p

-- What the two inner loops of Classify leave of a path: whether its findings bind it.
abbrev pub is_bound : List Finding → Str → Bool
is_bound direct p = all binds (findings_of p direct) && not (is_empty (findings_of p direct))

abbrev pub source_ids : List Finding → Str → List Str
source_ids direct p = map (λ (f : Finding). f.source_id) (findings_of p direct)

pub record Sets : Type 0 where
  pub bound : List Str
  pub unknown : List Str

-- The loop of Classify.
unfoldable pub classify_from : List Finding → List Str → Sets → Sets
unfolding add_texts inert
classify_from direct [] sets = sets
classify_from direct (p ∷ paths) sets = elim (inert p) [
  | true ↦ classify_from direct paths sets
  | false ↦ elim (is_bound direct p) [
    | false ↦ classify_from direct paths (record sets { unknown = add_text p sets.unknown })
    | true ↦
        classify_from direct paths
          (record sets { bound = add_texts (source_ids direct p) sets.bound })
  ]
]

-- Classify.
unfoldable pub classify : Report → Impact.Changes
unfolding classify_from sort_by
classify rep =
    let sets = classify_from rep.direct rep.files (record { bound = []; unknown = [] }) in
    record { bound = sort_by str_lt sets.bound; unanalyzed = sort_by str_lt sets.unknown }
