-- ===== src/Impact/Routes.antt =====
-- internal/impact/routes.go: route labels, "METHOD /template".
use aquila.Base.{
  Str, codes, Bool, true, false, ◌&&◌, ◌||◌, not, Option, none, some, List, [], ◌∷◌, ◌==◌,
  if◌then◌else◌, is_empty, str_eq, to_lower, to_upper, trim, trim_space, has_prefix, has_suffix,
  cut_at, split, after_byte,
}

-- The path of a label: the query is cut, and a leading slash is supplied.
clean_path : Str → Str
clean_path raw =
    let path = cut_at b'?' (trim_space raw) in
    if has_prefix path (codes "/") then path else b'/' ∷ path

split_parts : Str → Str → Option (Str × Str)
unfolding clean_path
split_parts left right =
    let method = to_upper (trim_space left) in
    if is_empty method || is_empty (cut_at b'?' (trim_space right))
    then none
    else some (method, clean_path right)

-- splitRoute; `none` for ok = false.
unfoldable pub split_route : Str → Option (Str × Str)
unfolding after_byte split_parts
split_route raw =
    let s = trim_space raw in
    elim (after_byte b' ' s) [ none ↦ none | some right ↦ split_parts (cut_at b' ' s) right ]

-- {name} and :name match one segment that is not empty.
abbrev pub is_wild : Str → Bool
is_wild t = (has_prefix t (codes "{") && has_suffix t (codes "}")) || has_prefix t (codes ":")

abbrev pub segment_matches : Str → Str → Bool
segment_matches t p = (is_wild t && not (is_empty p)) || str_eq t p

unfoldable pub segments_match : List Str → List Str → Bool
segments_match [] [] = true
segments_match [] (p ∷ ps) = false
segments_match (t ∷ ts) [] = false
segments_match (t ∷ ts) (p ∷ ps) = segment_matches t p && segments_match ts ps

-- strings.Split(strings.Trim(s, "/"), "/").
abbrev pub segments : Str → List Str
segments s = split b'/' (trim (λ c. c == b'/') s)

-- RouteMatches; strings.EqualFold compares the lower case of ASCII texts.
unfoldable pub route_matches : Str → Str → Str → Bool
unfolding segments_match
route_matches route method path = elim (split_route route) [
  | none ↦ false
  | some (rm, tmpl) ↦
      str_eq (to_lower rm) (to_lower method)
      && segments_match (segments tmpl) (segments (cut_at b'?' path))
]
