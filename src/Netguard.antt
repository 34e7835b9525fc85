-- ===== src/Netguard.antt =====
-- internal/netguard/netguard.go: which addresses never receive experiment traffic. The dialer of
-- Transport, which asks Blocked once more, is not modelled.
pub mod Targets
use aquila.Base.{
  ℕ, ◌+◌, ◌*◌, ◌/◌, ◌%◌, ◌^◌, Str, codes, Bool, true, false, not, ◌&&◌, ◌||◌, Option, none, some,
  List, [], ◌∷◌, ◌++◌, reverse, any, ◌==◌, if◌then◌else◌, is_empty, str_eq, to_lower, trim_space,
  has_suffix,
}
use aquila.Url.{Url, UrlPackage, Addr, v4, v6}

-- netip.Addr.Unmap: ::ffff:a.b.c.d is a.b.c.d.
unfoldable pub unmap : Addr → Addr
unmap (v4 a) = v4 a
unmap (v6 a zone) = if a / 2 ^ 32 == 65535 then v4 (a % 2 ^ 32) else v6 a zone

-- The methods of netip.Addr that Blocked calls.
abbrev pub is_link_local_unicast : Addr → Bool
is_link_local_unicast (v4 a) = a / 2 ^ 16 == 169 * 256 + 254
is_link_local_unicast (v6 a zone) = a / 2 ^ 118 == 1018

abbrev pub is_multicast : Addr → Bool
is_multicast (v4 a) = a / 2 ^ 28 == 14
is_multicast (v6 a zone) = a / 2 ^ 120 == 255

abbrev pub is_link_local_multicast : Addr → Bool
is_link_local_multicast (v4 a) = a / 2 ^ 8 == 224 * 65536
is_link_local_multicast (v6 a zone) = a / 2 ^ 120 == 255 && (a / 2 ^ 112) % 16 == 2

abbrev pub is_interface_local_multicast : Addr → Bool
is_interface_local_multicast (v4 a) = false
is_interface_local_multicast (v6 a zone) = a / 2 ^ 120 == 255 && (a / 2 ^ 112) % 16 == 1

abbrev pub is_unspecified : Addr → Bool
is_unspecified (v4 a) = a == 0
is_unspecified (v6 a zone) = a == 0 && is_empty zone

-- Blocked.
unfoldable pub blocked : Addr → Bool
unfolding unmap
blocked addr =
    let a = unmap addr in
    is_link_local_unicast a
    || is_link_local_multicast a
    || is_multicast a
    || is_unspecified a
    || is_interface_local_multicast a

abbrev pub blocked_hosts : List Str
blocked_hosts = codes "metadata" ∷ codes "metadata.google.internal" ∷ codes "metadata.goog" ∷ []

drop_first : Str → Str
drop_first [] = []
drop_first (c ∷ s) = s

-- strings.TrimSuffix(s, ".").
pub trim_dot : Str → Str
unfolding drop_first
trim_dot s = if has_suffix s (codes ".") then reverse (drop_first (reverse s)) else s

abbrev pub err_blocked : Str
err_blocked = codes "netguard: address is not an experiment target"

abbrev blocked_literal : Option Addr → Bool
blocked_literal none = false
blocked_literal (some a) = blocked a

module _ (urls : UrlPackage) where
  check_host : Str → Option Str
  check_host host =
      if is_empty host
      then some (codes "netguard: target missing host")
      else if any (λ h. str_eq h host) blocked_hosts || blocked_literal (urls.parse_addr host)
      then some err_blocked
      else none

  check_parsed : Url → Option Str
  unfolding check_host trim_dot
  check_parsed u =
      if not (str_eq u.scheme (codes "http")) && not (str_eq u.scheme (codes "https"))
      then some (codes "netguard: target must be http or https")
      else if u.has_user
      then some (codes "netguard: target must not include userinfo")
      else check_host (to_lower (trim_dot (urls.hostname u)))

  -- CheckURL: the text of its error, if it returns one.
  unfoldable pub check_url : Str → Option Str
  unfolding check_parsed
  check_url raw = elim (urls.parse (trim_space raw)) [
    | none ↦ some (codes "netguard: parse")
    | some u ↦ check_parsed u
  ]
