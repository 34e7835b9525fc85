-- ===== src/Replay/Headers/Kept.antt =====
-- internal/replay/headers.go: which headers fileHeaders lets through.
use mathlib.Core.Path.{subst}
use aquila.Base.{
  suc, ◌≡◌, ◌≤◌, refl, ap, Str, codes, false, inl, inr, Option, List, [], ◌∷◌, any, length, arith,
  Bool-cases, All, is_empty, str_eq, has_prefix, contains_any, Dict, put_key, trim_space,
  guard-accepted, or-false, ltb-false, ◌+◌, accepted, Checked-cases, accepted-injective,
}
use aquila.Replay.Headers.{
  canonical_header_key, expand, file_header, headers_from, file_headers, forbidden_headers,
}

-- A header that does not touch framing, routing or proxies, with one value on one line.
pub record IsSafe (h : Str × List Str) : Type 0 where
  pub value : Str
  pub single : h.1 ≡ value ∷ []
  pub short : length value ≤ 4096
  pub one_line : contains_any value (13 ∷ 10 ∷ 0 ∷ []) ≡ false
  pub named : is_empty h.0 ≡ false
  pub word : contains_any h.0 (codes " \t\r\n:") ≡ false
  pub allowed : any (str_eq h.0) forbidden_headers ≡ false
  pub no_proxy : has_prefix h.0 (codes "Proxy-") ≡ false

put_key-IsSafe :
    (k : Str) (v : List Str) (out : Dict (List Str))
    → IsSafe (k, v)
    → All IsSafe out
    → All IsSafe (put_key k v out)
unfolding put_key
put_key-IsSafe k v [] h r = (h, tt)
put_key-IsSafe k v ((a, y) ∷ rest) h r = elim (Bool-cases (str_eq a k)) [
  | inl q ↦ rw q (h, r.1)
  | inr q ↦ rw q (r.0, put_key-IsSafe k v rest h r.1)
]

length-put_key :
    (k : Str) (v : List Str) (out : Dict (List Str)) → length (put_key k v out) ≤ suc (length out)
unfolding put_key
length-put_key k v [] = omega arith
length-put_key k v ((a, y) ∷ rest) = elim (Bool-cases (str_eq a k)) [
  | inl q ↦ rw q (omega arith)
  | inr q ↦ let ih = length-put_key k v rest in rw q (omega (arith, ih))
]

module _ (lookup_env : Str → Option Str) where
  file_header-IsSafe :
      (name raw key value : Str)
      → file_header lookup_env name raw ≡ accepted (key, value)
      → IsSafe (key, value ∷ [])
  unfolding file_header
  file_header-IsSafe name raw key value h =
      let (word, h1) = guard-accepted _ _ _ _ h in
      let (allowed, h2) = guard-accepted _ _ _ _ h1 in
      let (known, h3) = guard-accepted _ _ _ _ h2 in
      let (short, h4) = guard-accepted _ _ _ _ h3 in
      let (one_line, h5) = guard-accepted _ _ _ _ h4 in
      let (named, spelled) = or-false _ _ word in
      let (fixed, proxy) = or-false _ _ allowed in
      let e = accepted-injective _ _ h5 in
      let k = canonical_header_key (trim_space name) in
      let v = (expand lookup_env raw).text in
      subst (λ (p : Str × Str). IsSafe (p.0, p.1 ∷ [])) e
        (record {
          value = v;
          single = refl;
          short = ltb-false _ _ short;
          one_line = one_line;
          named = named;
          word = spelled;
          allowed = fixed;
          no_proxy = proxy;
        })

  headers_from-IsSafe :
      (out : Dict (List Str)) (raw : List (Str × Str)) (hs : Dict (List Str))
      → headers_from lookup_env out raw ≡ accepted hs
      → All IsSafe out
      → All IsSafe hs
  unfolding headers_from
  headers_from-IsSafe out [] hs h s = subst (All IsSafe) (accepted-injective _ _ h) s
  headers_from-IsSafe out ((name, value) ∷ rest) hs h s =
      elim (Checked-cases (file_header lookup_env name value)) [
        | inl ((k, v), e) ↦
            headers_from-IsSafe (put_key k (v ∷ []) out) rest hs (rw (e, headers_from) at h)
              (put_key-IsSafe k (v ∷ []) out (file_header-IsSafe name value k v e) s)
        | inr (x, e) ↦ absurd (let z = rw (e, headers_from) at h in ground arith)
      ]

  length-headers_from :
      (out : Dict (List Str)) (raw : List (Str × Str)) (hs : Dict (List Str))
      → headers_from lookup_env out raw ≡ accepted hs
      → length hs ≤ length out + length raw
  unfolding headers_from
  length-headers_from out [] hs h = let e = ap length (accepted-injective _ _ h) in omega (arith, e)
  length-headers_from out ((name, value) ∷ rest) hs h =
      elim (Checked-cases (file_header lookup_env name value)) [
        | inl ((k, v), e) ↦
            let more =
              length-headers_from (put_key k (v ∷ []) out) rest hs (rw (e, headers_from) at h) in
            let here = length-put_key k (v ∷ []) out in omega (arith, more, here)
        | inr (x, e) ↦ absurd (let z = rw (e, headers_from) at h in ground arith)
      ]

  pub file_headers-IsSafe :
      (raw : List (Str × Str)) (hs : Dict (List Str))
      → file_headers lookup_env raw ≡ accepted hs
      → All IsSafe hs × (length hs ≤ 16)
  unfolding file_headers
  file_headers-IsSafe raw hs h =
      let (few, r) = guard-accepted _ _ _ _ h in
      let most = length-headers_from [] raw hs r in
      (headers_from-IsSafe [] raw hs r tt, let n = ltb-false _ _ few in omega (arith, most, n))
