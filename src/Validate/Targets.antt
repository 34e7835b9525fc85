-- ===== src/Validate/Targets.antt =====
-- internal/validate/decide.go: normURL and targetBlockers.
use aquila.Base.{
  Str, codes, Bool, not, ◌&&◌, ◌||◌, none, some, List, [], ◌∷◌, ◌++◌, if◌then◌else◌, is_empty, any,
  str_eq, to_lower, trim_space, trim_right, ◌==◌,
}
use aquila.Url.{Url, UrlPackage}
use aquila.Validate.{missing_target, same_target, Blocker, Input, block_if, sorted_blockers}

abbrev loopback : Str
loopback = codes "127.0.0.1"

abbrev fold_host : Str → Str
fold_host host =
    if str_eq host (codes "localhost") || str_eq host loopback || str_eq host (codes "::1")
    then loopback
    else host

abbrev is_default_port : Str → Str → Bool
is_default_port scheme port =
    (str_eq scheme (codes "http") && str_eq port (codes "80"))
    || (str_eq scheme (codes "https") && str_eq port (codes "443"))

-- A literal IPv6 address stands in brackets, as net.JoinHostPort writes it too.
abbrev bracket : Str → Str
bracket host = if any (λ c. c == b':') host then codes "[" ++ host ++ codes "]" else host

abbrev host_port : Str → Str → Str
host_port host port = if is_empty port then bracket host else bracket host ++ (b':' ∷ port)

module _ (urls : UrlPackage) where
  norm_parsed : Url → Str
  norm_parsed u =
      let scheme = to_lower u.scheme in
      let host = fold_host (to_lower (urls.hostname u)) in
      let port = if is_default_port scheme (urls.port u) then [] else urls.port u in
      trim_right (λ c. c == b'/')
        (urls.render (record u { scheme = scheme; host = host_port host port }))

  -- normURL.
  unfoldable pub norm_url : Str → Str
  unfolding norm_parsed
  norm_url raw = elim (urls.parse (trim_space raw)) [
    | none ↦ trim_right (λ c. c == b'/') raw
    | some u ↦ norm_parsed u
  ]

  -- targetBlockers.
  unfoldable pub target_blockers : Input → List Blocker
  unfolding sorted_blockers
  target_blockers i = sorted_blockers (
      block_if (is_empty (trim_space i.baseline)) missing_target (codes "baseline")
      ++ (block_if (is_empty (trim_space i.patch)) missing_target (codes "patch")
          ++ block_if
              (not (is_empty i.baseline)
                && not (is_empty i.patch)
                && str_eq (norm_url i.baseline) (norm_url i.patch))
              same_target (norm_url i.baseline)))
