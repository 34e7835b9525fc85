-- ===== src/Replay/Headers.antt =====
-- internal/replay/headers.go: the headers of a workload file.
pub mod Kept
use aquila.Base.{
  ℕ, zero, suc, ◌+◌, ◌-◌, Str, codes, Bool, true, false, not, ◌&&◌, ◌||◌, Option, none, some, List,
  [], ◌∷◌, ◌++◌, any, all, length, ltb, leb, ◌==◌, if◌then◌else◌, is_empty, str_eq, str_lt,
  has_prefix, trim_space, contains_any, before_byte, drop, is_digit, Dict, put_key, keys, sort_by,
  Checked, accepted, refused,
}
use aquila.Replay.{Step}

abbrev pub max_headers : ℕ
max_headers = 16

abbrev pub max_header_value : ℕ
max_header_value = 4096

pub data HeaderError : Type 0 where
  too_many : HeaderError
  invalid_name : Str → HeaderError
  not_allowed : Str → HeaderError
  unset_reference : Str → Str → HeaderError
  too_long : Str → HeaderError
  control_character : Str → HeaderError

abbrev pub forbidden_headers : List Str
forbidden_headers =
    codes "Host"
    ∷ codes "Content-Length"
    ∷ codes "Transfer-Encoding"
    ∷ codes "Connection"
    ∷ codes "Upgrade"
    ∷ codes "Te"
    ∷ codes "Trailer"
    ∷ codes "Keep-Alive"
    ∷ []

abbrev pub is_lower : ℕ → Bool
is_lower c = leb b'a' c && leb c b'z'

abbrev pub is_upper : ℕ → Bool
is_upper c = leb b'A' c && leb c b'Z'

-- The bytes of a token of HTTP.
abbrev pub is_token : ℕ → Bool
is_token c = is_digit c || is_lower c || is_upper c || any (λ d. c == d) (codes "!#$%&'*+-.^_`|~")

canonical_from : Bool → Str → Str
canonical_from upper [] = []
canonical_from upper (c ∷ s) =
    (if upper && is_lower c then c - 32 else if not upper && is_upper c then c + 32 else c)
    ∷ canonical_from (c == b'-') s

-- http.CanonicalHeaderKey: a key that is no token stays as it is.
unfoldable pub canonical_header_key : Str → Str
unfolding canonical_from
canonical_header_key s = if all is_token s then canonical_from true s else s

is_name : Str → Bool
is_name [] = false
is_name (c ∷ s) =
    (is_lower c || is_upper c || c == b'_')
    && all (λ d. is_lower d || is_upper d || is_digit d || d == b'_') s

-- A match of envRef at the head of a text: the name, where it is one up to the first brace.
env_ref : Str → Option Str
unfolding is_name has_prefix before_byte
env_ref s =
    if has_prefix s (codes "${")
    then elim (before_byte (λ c. c == b'}') (drop 2 s)) [
      | none ↦ none
      | some name ↦ if is_name name then some name else none
    ]
    else none

pub record Expanded : Type 0 where
  pub text : Str
  pub unset : Str

module _ (lookup_env : Str → Option Str) where
  -- The function that ReplaceAllStringFunc calls, before the rest of the text.
  replace_ref : Str → Expanded → Expanded
  replace_ref name rest = elim (lookup_env name) [
    | none ↦ record { text = rest.text; unset = name }
    | some v ↦ record { text = v ++ rest.text; unset = rest.unset }
  ]

  -- envRef.ReplaceAllStringFunc, with the number of bytes of a match that are still to be skipped.
  expand_from : ℕ → Str → Expanded
  unfolding env_ref replace_ref
  expand_from skip [] = record { text = []; unset = [] }
  expand_from (suc k) (c ∷ s) = expand_from k s
  expand_from zero (c ∷ s) = elim (env_ref (c ∷ s)) [
    | none ↦ let rest = expand_from 0 s in record { text = c ∷ rest.text; unset = rest.unset }
    | some name ↦ replace_ref name (expand_from (length name + 2) s)
  ]

  unfoldable pub expand : Str → Expanded
  unfolding expand_from
  expand s = expand_from 0 (trim_space s)

  -- The body of the loop of fileHeaders: the key and the value that it sets.
  unfoldable pub file_header : Str → Str → Checked HeaderError (Str × Str)
  unfolding canonical_header_key expand
  file_header name raw =
      let key = canonical_header_key (trim_space name) in
      let value = expand raw in
      if is_empty key || contains_any key (codes " \t\r\n:")
      then refused (invalid_name name)
      else if any (str_eq key) forbidden_headers || has_prefix key (codes "Proxy-")
      then refused (not_allowed key)
      else if not (is_empty value.unset)
      then refused (unset_reference key value.unset)
      else if ltb max_header_value (length value.text)
      then refused (too_long key)
      else if contains_any value.text (13 ∷ 10 ∷ 0 ∷ [])
      then refused (control_character key)
      else accepted (key, value.text)

  -- The loop of fileHeaders, over the entries of the map in some order.
  unfoldable pub headers_from :
      Dict (List Str) → List (Str × Str) → Checked HeaderError (Dict (List Str))
  unfolding file_header put_key
  headers_from out [] = accepted out
  headers_from out ((name, value) ∷ rest) = elim (file_header name value) [
    | refused e ↦ refused e
    | accepted (key, text) ↦ headers_from (put_key key (text ∷ []) out) rest
  ]

  -- fileHeaders; no headers for nil.
  unfoldable pub file_headers : List (Str × Str) → Checked HeaderError (Dict (List Str))
  unfolding headers_from
  file_headers raw = if ltb max_headers (length raw) then refused too_many else headers_from [] raw

-- HeaderNames.
unfoldable pub header_names : Step → List Str
unfolding sort_by str_lt
header_names s = sort_by str_lt (keys s.headers)
