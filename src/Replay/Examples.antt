-- ===== src/Replay/Examples.antt =====
-- internal/replay: requests from spans and from a file, at concrete inputs.
use aquila.Base.{
  ◌≡◌, ◌≤◌, refl, Str, codes, Option, none, some, List, [], ◌∷◌, ◌++◌, length, arith, map, ◌⊎◌, All,
  In, Distinct, ap, yields, yields-injective, accepted, refused, pos, cut_at, trim_space, to_upper,
  to_lower, has_prefix, contains, contains_any, str_eq, if◌then◌else◌,
}
use aquila.Ingest.{Span}
use aquila.Replay
use aquila.Replay.{Step}
use aquila.Replay.Traffic.{from_spans, step_label, restrict_to_routes}
use aquila.Replay.Traffic.Spans.{IsReading, Shows, labels, from_spans-Shows}
use aquila.Replay.Headers.{unset_reference}
use aquila.Replay.Files.{Host, FileDoc, read_file, bad_header, not_replayable}
use aquila.Replay.Files.Read.{IsFileStep, read_file-IsFileStep}

abbrev span : Str → Str → Str → Span
span kind method route = record {
  trace_id = codes "t";
  span_id = codes "s";
  parent_span_id = [];
  service_name = codes "shop";
  name = codes "n";
  kind = kind;
  status_code = [];
  http_method = method;
  http_route = route;
  http_status = pos 200;
  code_function = [];
  code_file = [];
  start_time = 0;
  duration_ns = pos 1;
}

-- A route with a query, its repeat that names the method itself, a template, a write and a client hop.
abbrev batch : List Span
batch =
    span (codes "server") (codes "get") (codes "/users?id=1")
    ∷ span (codes "SERVER") [] (codes "GET /users")
    ∷ span (codes "server") (codes "GET") (codes "/users/{id}")
    ∷ span (codes "server") (codes "POST") (codes "/checkout")
    ∷ span (codes "client") (codes "GET") (codes "/remote")
    ∷ span (codes "server") (codes "HEAD") (codes "carts")
    ∷ []

labels_of_batch :
    map step_label (from_spans batch).steps ≡ codes "GET /users" ∷ codes "HEAD /carts" ∷ []
unfolding from_spans cut_at trim_space to_upper str_eq to_lower has_prefix contains contains_any
labels_of_batch = refl

restricted :
    map step_label (restrict_to_routes (from_spans batch) (codes " HEAD /carts " ∷ []) []).steps
    ≡ codes "HEAD /carts" ∷ []
unfolding from_spans restrict_to_routes cut_at trim_space to_upper str_eq to_lower has_prefix
    contains contains_any
restricted = refl

not_restricted :
    restrict_to_routes (from_spans batch) (codes "GET /none" ∷ []) [] ≡ from_spans batch
unfolding from_spans restrict_to_routes cut_at trim_space to_upper str_eq to_lower has_prefix
    contains contains_any
not_restricted = refl

from_spans-Shows_example :
    All (λ s. IsReading s × Shows batch s) (from_spans batch).steps
    × Distinct (map step_label (from_spans batch).steps)
    × (length (from_spans batch).steps ≤ 20)
    × ((length (from_spans batch).steps ≡ 20)
        ⊎ All (λ k. In k (map step_label (from_spans batch).steps)) (labels batch))
from_spans-Shows_example = from_spans-Shows batch

abbrev env : Str → Option Str
env name = if str_eq name (codes "TOKEN") then some (codes "abc") else none

abbrev doc : Str → List (Str × Str) → FileDoc
doc path headers = record {
  steps = record { method = codes " post"; path = path; body = codes "{}"; headers = headers } ∷ [];
}

abbrev host : FileDoc → Host
host d = record {
  read_file = λ p. yields (codes "text");
  lookup_env = env;
  unmarshal_doc = λ s. yields d;
  unmarshal_text = λ s. yields s;
  compact = λ s. yields s;
}

abbrev bearer : Str → List (Str × Str)
bearer token = (codes "authorization", codes "Bearer ${" ++ token ++ codes "}") ∷ []

abbrev posted : Replay.Workload
posted = record {
  steps =
      record {
        method = codes "POST";
        path = codes "/cart";
        body = codes "{}";
        headers = (codes "Authorization", codes "Bearer abc" ∷ []) ∷ [];
        provenance = codes "workload_file";
        service = [];
      }
      ∷ [];
}

accepted_file :
    read_file (host (doc (codes "/cart") (bearer (codes "TOKEN")))) (codes "w.json")
    ≡ accepted posted
unfolding read_file trim_space contains str_eq to_upper contains_any
accepted_file = refl

unset_token :
    read_file (host (doc (codes "/cart") (bearer (codes "NONE")))) (codes "w.json")
    ≡ refused (bad_header 0 (unset_reference (codes "Authorization") (codes "NONE")))
unfolding read_file trim_space contains str_eq to_upper contains_any
unset_token = refl

climbing_path :
    read_file (host (doc (codes "/a/../b") [])) (codes "w.json") ≡ refused (not_replayable 0)
unfolding read_file trim_space contains str_eq to_upper contains_any
climbing_path = refl

read_file-IsFileStep_example :
    All IsFileStep posted.steps × (1 ≤ length posted.steps) × (length posted.steps ≤ 20)
read_file-IsFileStep_example =
    read_file-IsFileStep (host (doc (codes "/cart") (bearer (codes "TOKEN"))))
      (λ s t e. let q = ap length (yields-injective s t e) in omega (arith, q)) (codes "w.json")
      posted accepted_file
