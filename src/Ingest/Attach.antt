-- ===== src/Ingest/Attach.antt =====
-- internal/ingest/attach.go: the services seen in the store.
use aquila.Base.{
  ℕ, suc, Str, Bool, List, [], ◌∷◌, ltb, ◌==◌, if◌then◌else◌, is_empty, length, take, str_eq,
  str_lt, sort_by, ℤ, pos, pos_part, leb_ℤ, ltb_ℤ,
}
use aquila.Ingest.{Instant, Span, clip_service}

pub record Attach : Type 0 where
  pub service : Str
  pub spans : ℕ
  pub last_seen : Instant

-- clipAttaches, with DefaultAttachList = 20 and maxAttaches = 50.
unfoldable pub clip_attaches : ℤ → ℤ
clip_attaches n = if leb_ℤ n (pos 0) then pos 20 else if ltb_ℤ (pos 50) n then pos 50 else n

abbrev pub seen_again : Span → Attach → Attach
seen_again s a = record a {
  spans = suc a.spans;
  last_seen = if ltb a.last_seen s.start_time then s.start_time else a.last_seen;
}

-- a.n++ and a.last of the entry of a service, which starts at 0 spans and the zero time.
unfoldable pub count_span : Str → Span → List Attach → List Attach
count_span name s [] = seen_again s (record { service = name; spans = 0; last_seen = 0 }) ∷ []
count_span name s (a ∷ more) =
    let rest = count_span name s more in
    if str_eq a.service name then seen_again s a ∷ more else a ∷ rest

unfoldable pub counts_from : List Span → List Attach → List Attach
unfolding count_span
counts_from [] out = out
counts_from (s ∷ ss) out =
    let name = clip_service s.service_name in
    counts_from ss (if is_empty name then out else count_span name s out)

abbrev pub seen_later : Attach → Attach → Bool
seen_later a b =
    if a.last_seen == b.last_seen then str_lt a.service b.service else ltb b.last_seen a.last_seen

-- attachesFrom.
unfoldable pub attaches_from : List Span → ℤ → List Attach
unfolding counts_from sort_by clip_attaches
attaches_from spans limit =
    let out = sort_by seen_later (counts_from spans []) in
    let n = pos_part (clip_attaches limit) in if ltb n (length out) then take n out else out
