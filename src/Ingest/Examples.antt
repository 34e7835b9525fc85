-- ===== src/Ingest/Examples.antt =====
-- A batch of spans: a request that crosses two services, and a probe.
use aquila.Base.{
  ◌≡◌, ◌≤◌, refl, Str, codes, List, [], ◌∷◌, Option, some, All, length, ℤ, pos, find_key,
}
use aquila.Ingest.{Instant, Span, clip_service, max_window_spans}
use aquila.Ingest.Window.{select_window}
use aquila.Ingest.Window.Kept.{Belongs, select_window-Belongs}
use aquila.Ingest.Memory.{new_memory, span_key, upsert_spans}
use aquila.Ingest.Memory.Upsert.{IsMemory, latest, or_held, upsert_spans-latest}

abbrev pub span : Str → Str → Str → Str → Str → Instant → Span
span trace id parent service route at = record {
  trace_id = trace;
  span_id = id;
  parent_span_id = parent;
  service_name = service;
  name = codes "GET ";
  kind = codes "server";
  status_code = codes "ok";
  http_method = codes "GET";
  http_route = route;
  http_status = pos 200;
  code_function = [];
  code_file = [];
  start_time = at;
  duration_ns = pos 5;
}

abbrev pub entry : Span
entry = span (codes "t1") (codes "a") [] (codes "shop") (codes "/cart") 10

abbrev pub inner : Span
inner = span (codes "t1") (codes "b") (codes "a") (codes "stock") (codes "/items") 11

abbrev probe : Span
probe = span (codes "t2") (codes "c") [] (codes "shop") (codes "/healthz") 20

abbrev pub batch : List Span
batch = inner ∷ probe ∷ entry ∷ []

-- The window of the service leaves the probe out and orders the trace by time.
window_of_shop : select_window batch (pos 5) (codes "shop") ≡ entry ∷ inner ∷ []
unfolding select_window aquila.Base.str_eq aquila.Base.str_lt aquila.Base.to_lower
    aquila.Base.trim_space aquila.Base.trim aquila.Base.trim_left aquila.Base.trim_right
    aquila.Base.insert_by aquila.Base.sort_by aquila.Ingest.normalize_trace_window
    aquila.Ingest.clip_service aquila.Ingest.Window.probe_route aquila.Ingest.Window.probe_only
    aquila.Ingest.Window.add_span aquila.Ingest.Window.group_from aquila.Ingest.Window.group_traces
    aquila.Ingest.Window.sort_trace_spans aquila.Ingest.Window.trace_touches
    aquila.Ingest.Window.select_from
window_of_shop = refl

select_window-Belongs_example :
    let out = select_window batch (pos 5) (codes "shop") in
    (length out ≤ max_window_spans) × All (Belongs batch (clip_service (codes "shop"))) out
select_window-Belongs_example = select_window-Belongs batch (pos 5) (codes "shop")

new_memory-IsMemory : IsMemory new_memory
new_memory-IsMemory = record { listed = refl; distinct = tt }

upsert_spans-latest_example :
    let n = upsert_spans batch new_memory in
    IsMemory n
    × (find_key (span_key entry) n.spans
        ≡ or_held (latest (span_key entry) batch) (find_key (span_key entry) new_memory.spans))
    × (find_key (span_key entry) (upsert_spans batch n).spans ≡ find_key (span_key entry) n.spans)
upsert_spans-latest_example =
    upsert_spans-latest (span_key entry) batch new_memory new_memory-IsMemory
