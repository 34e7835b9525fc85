-- ===== src/Netguard/Targets.antt =====
-- internal/netguard/netguard.go: what CheckURL lets through.
use aquila.Base.{
  ℕ, ◌+◌, ◌*◌, ◌/◌, ◌%◌, ◌^◌, ◌<◌, ◌≡◌, refl, Str, codes, false, ◌⊎◌, inl, inr, none, some, any,
  is_empty, arith, Bool-cases, Option-cases, str_eq, to_lower, trim_space, str_eq→eq,
}
use aquila.Url.{Url, UrlPackage, v4, v6}
use aquila.Netguard.{
  unmap, blocked, blocked_hosts, blocked_literal, trim_dot, check_host, check_parsed, check_url,
}

-- An IPv4 address written as an IPv6 one is blocked exactly when the IPv4 address is.
pub blocked-mapped :
    (a : ℕ) (zone : Str) → a < 2 ^ 32 → blocked (v6 (65535 * 2 ^ 32 + a) zone) ≡ blocked (v4 a)
unfolding blocked unmap
blocked-mapped a zone h =
    let d : (65535 * 2 ^ 32 + a) / 2 ^ 32 ≡ 65535 = omega arith in
    let m : (65535 * 2 ^ 32 + a) % 2 ^ 32 ≡ a = omega arith in rw (d, m) refl

-- The host of a target, as it is compared.
abbrev pub host_of : UrlPackage → Url → Str
host_of urls u = to_lower (trim_dot (urls.hostname u))

-- A target that may be called.
pub record Allowed (urls : UrlPackage) (u : Url) : Type 0 where
  pub is_web : (u.scheme ≡ codes "http") ⊎ (u.scheme ≡ codes "https")
  pub no_user : u.has_user ≡ false
  pub has_host : is_empty (host_of urls u) ≡ false
  pub not_named : any (λ h. str_eq h (host_of urls u)) blocked_hosts ≡ false
  pub not_blocked : blocked_literal (urls.parse_addr (host_of urls u)) ≡ false

allowed : (urls : UrlPackage) (u : Url) → check_parsed urls u ≡ none → Allowed urls u
unfolding check_parsed check_host
allowed urls u h = record {
  is_web = elim (Bool-cases (str_eq u.scheme (codes "http"))) [
    | inl e ↦ inl (str_eq→eq u.scheme (codes "http") e)
    | inr n ↦ inr (str_eq→eq u.scheme (codes "https") (ground arith))
  ];
  no_user = ground arith;
  has_host = ground arith;
  not_named = ground arith;
  not_blocked = ground arith;
}

-- A URL that passes the check parses to one with scheme http or https, without userinfo, with a
-- host that is no metadata service's name and no literal address that is blocked.
pub check_url-Allowed :
    (urls : UrlPackage) (raw : Str)
    → check_url urls raw ≡ none
    → (u : Url) × (urls.parse (trim_space raw) ≡ some u) × Allowed urls u
unfolding check_url
check_url-Allowed urls raw h = elim (Option-cases (urls.parse (trim_space raw))) [
  | inl n ↦ absurd (let e = rw (n, check_url) at h in ground arith)
  | inr (u, n) ↦ (u, n, allowed urls u (rw (n, check_url) at h))
]
