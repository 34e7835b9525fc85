-- ===== src/Replay/Traffic.antt =====
-- internal/replay/workload.go: the requests that server spans show, and the paths that file.go lets
-- through.
pub mod Spans
use aquila.Base.{
  ℕ, zero, suc, Str, codes, Bool, true, false, not, ◌&&◌, ◌||◌, Option, none, some, List, [], ◌∷◌,
  ◌++◌, any, map, filter_by, if◌then◌else◌, is_empty, str_eq, to_lower, to_upper, trim_space,
  has_prefix, cut_at, after_byte, contains, contains_any,
}
use aquila.Ingest.{Span}
use aquila.Replay.{Step}
use aquila.Replay

abbrev pub provenance_span_route : Str
provenance_span_route = codes "span_route"

abbrev pub provenance_shop_fixture : Str
provenance_shop_fixture = codes "shop_fixture"

abbrev pub max_steps : ℕ
max_steps = 20

unfoldable pub skip_kind : Str → Bool
skip_kind kind =
    let k = to_lower (trim_space kind) in
    str_eq k (codes "client")
    || str_eq k (codes "producer")
    || str_eq k (codes "consumer")
    || str_eq k (codes "internal")

-- The methods that safeReplay lets through.
abbrev pub is_read : Str → Bool
is_read m = str_eq m (codes "GET") || str_eq m (codes "HEAD") || str_eq m (codes "OPTIONS")

-- isHTTPMethod.
unfoldable pub is_http_method : Str → Bool
is_http_method m =
    is_read m
    || str_eq m (codes "POST")
    || str_eq m (codes "PUT")
    || str_eq m (codes "PATCH")
    || str_eq m (codes "DELETE")

-- safePath (file.go).
unfoldable pub safe_path : Str → Bool
safe_path path =
    has_prefix path (codes "/")
    && not (contains path (codes "..") || contains path (codes "\\") || contains path (codes "@"))
    && not (contains_any path (codes "{}*"))
    && not (contains path (codes "://"))

-- safeReplay (file.go).
unfoldable pub safe_replay : Str → Str → Bool
unfolding safe_path
safe_replay method path = is_read method && safe_path path

-- A route that begins with a method gives the path, and the method where the span names none.
split_method : Str → Str → Str × Str
unfolding is_http_method after_byte
split_method method path = elim (after_byte b' ' path) [
  | none ↦ (method, path)
  | some right ↦
      let left = to_upper (cut_at b' ' path) in
      if is_http_method left
      then (if is_empty method then left else method, right)
      else (method, path)
]

rooted_route : Str × Str → Option (Str × Str)
rooted_route (method, path) =
    if is_empty method || is_empty path
    then none
    else some (method, if has_prefix path (codes "/") then path else b'/' ∷ path)

-- routeParts; `none` for ok = false.
unfoldable pub route_parts : Span → Option (Str × Str)
unfolding split_method rooted_route
route_parts s =
    rooted_route
      (split_method (to_upper (trim_space s.http_method)) (cut_at b'?' (trim_space s.http_route)))

abbrev pub route_label : Str → Str → Str
route_label method path = method ++ (b' ' ∷ path)

-- The first half of the loop of FromSpans: the step of a span, if it gives one.
unfoldable pub span_step : Span → Option Step
unfolding skip_kind route_parts safe_replay
span_step s = elim (route_parts s) [
  | none ↦ none
  | some (method, path) ↦
      if skip_kind s.kind || not (safe_replay method path)
      then none
      else some (record {
        method = method;
        path = path;
        body = [];
        headers = [];
        provenance = provenance_span_route;
        service = s.service_name;
      })
]

abbrev pub step_label : Step → Str
step_label s = route_label s.method s.path

-- The loop of FromSpans, with the labels seen and the number of steps that it may still append.
unfoldable pub steps_from : ℕ → List Str → List Span → List Step
unfolding span_step
steps_from zero seen spans = []
steps_from (suc room) seen [] = []
steps_from (suc room) seen (s ∷ spans) = elim (span_step s) [
  | none ↦ steps_from (suc room) seen spans
  | some step ↦ elim (any (str_eq (step_label step)) seen) [
    | true ↦ steps_from (suc room) seen spans
    | false ↦ step ∷ steps_from room (step_label step ∷ seen) spans
  ]
]

-- FromSpans.
unfoldable pub from_spans : List Span → Replay.Workload
unfolding steps_from
from_spans spans = record { steps = steps_from max_steps [] spans }

-- ShopFixture.
abbrev pub shop_fixture : Replay.Workload
shop_fixture = record {
  steps =
      fixture (codes "GET") (codes "/healthz") []
      ∷ fixture (codes "GET") (codes "/users/user-1") []
      ∷ fixture (codes "POST") (codes "/checkout") checkout_body
      ∷ [];
}
  where
    checkout_body : Str
    checkout_body = codes "{\"user_id\":\"user-1\",\"items\":[{\"sku\":\"sku-widget\",\"qty\":1}]}"

    fixture : Str → Str → Str → Step
    fixture method path body = record {
      method = method;
      path = path;
      body = body;
      headers = [];
      provenance = provenance_shop_fixture;
      service = [];
    }

-- The labels that RestrictToRoutes looks for.
abbrev wanted_labels : List Str → List Str
wanted_labels labels = filter_by (λ l. not (is_empty l)) (map trim_space labels)

abbrev relabelled : Str → Step → Step
relabelled provenance s = if is_empty provenance then s else record s { provenance = provenance }

-- RestrictToRoutes.
unfoldable pub restrict_to_routes : Replay.Workload → List Str → Str → Replay.Workload
restrict_to_routes w labels provenance =
    let keep = wanted_labels labels in
    let out =
      map (relabelled provenance) (filter_by (λ s. any (str_eq (step_label s)) keep) w.steps) in
    if is_empty labels || is_empty w.steps || is_empty keep || is_empty out
    then w
    else record { steps = out }
