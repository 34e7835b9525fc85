-- ===== src/Ingest/Window.antt =====
-- internal/ingest/window.go: the newest traces of a service.
pub mod Kept
use aquila.Base.{
  ℕ, suc, Str, codes, Bool, true, false, not, ◌&&◌, ◌||◌, List, [], ◌∷◌, ◌++◌, any, all, length,
  take, leb, ltb, ◌==◌, if◌then◌else◌, is_empty, str_eq, str_lt, to_lower, trim_space, sort_by, ℤ,
  pos_part,
}
use aquila.Ingest.{Instant, Span, normalize_trace_window, max_window_spans, clip_service}

-- traceInfo.
pub record TraceInfo : Type 0 where
  pub id : Str
  pub last : Instant
  pub spans : List Span

-- probeRoute.
unfoldable pub probe_route : Span → Bool
probe_route s =
    let route = to_lower (trim_space s.http_route) in
    let name = to_lower (trim_space s.name) in
    any (str_eq route) (codes "/healthz" ∷ codes "/livez" ∷ codes "/readyz" ∷ codes "/health" ∷ [])
    || any (str_eq name) (
        codes "get /healthz"
        ∷ codes "head /healthz"
        ∷ codes "/healthz"
        ∷ codes "get /readyz"
        ∷ codes "get /livez"
        ∷ [])

-- probeOnly.
unfoldable pub probe_only : List Span → Bool
unfolding probe_route
probe_only = all probe_route

-- What a span does to the entry of its trace.
abbrev pub join_trace : Span → TraceInfo → TraceInfo
join_trace s t = record t {
  spans = t.spans ++ s ∷ [];
  last = if ltb t.last s.start_time then s.start_time else t.last;
}

unfoldable pub add_span : Span → List TraceInfo → List TraceInfo
add_span s [] = record { id = s.trace_id; last = s.start_time; spans = s ∷ [] } ∷ []
add_span s (t ∷ ts) =
    let rest = add_span s ts in if str_eq t.id s.trace_id then join_trace s t ∷ ts else t ∷ rest

-- The loop of groupTraces over the spans, the map being a list in some order.
unfoldable pub group_from : List Span → List TraceInfo → List TraceInfo
unfolding add_span
group_from [] ts = ts
group_from (s ∷ ss) ts = group_from ss (if is_empty s.trace_id then ts else add_span s ts)

-- Newest first, then the greater id.
abbrev pub newer : TraceInfo → TraceInfo → Bool
newer a b = if a.last == b.last then str_lt b.id a.id else ltb b.last a.last

-- groupTraces.
unfoldable pub group_traces : List Span → List TraceInfo
unfolding group_from sort_by
group_traces spans = sort_by newer (group_from spans [])

abbrev pub starts_before : Span → Span → Bool
starts_before a b =
    if a.start_time == b.start_time
    then str_lt a.span_id b.span_id
    else ltb a.start_time b.start_time

-- sortTraceSpans.
unfoldable pub sort_trace_spans : List Span → List Span
unfolding sort_by
sort_trace_spans = sort_by starts_before

-- traceTouches.
unfoldable pub trace_touches : List Span → Str → Bool
trace_touches spans service =
    is_empty service || any (λ (s : Span). str_eq s.service_name service) spans

abbrev insert_name : Str → List Str → List Str
insert_name n names = if any (str_eq n) names then names else n ∷ names

name_set : List Span → List Str
name_set [] = []
name_set (s ∷ ss) =
    let n = trim_space s.service_name in
    let rest = name_set ss in if is_empty n then rest else insert_name n rest

-- UniqueServices.
unfoldable pub unique_services : List Span → List Str
unfolding name_set sort_by
unique_services spans = sort_by str_lt (name_set spans)

-- The traces that the loop of SelectWindow does not pass over.
abbrev pub is_kept : Str → TraceInfo → Bool
is_kept service t = not (probe_only t.spans) && trace_touches t.spans service

-- The loop of SelectWindow from `kept` traces and the spans `out` on.
unfoldable pub select_from : Str → ℕ → List TraceInfo → ℕ → List Span → List Span
unfolding sort_trace_spans probe_only trace_touches
select_from service n [] kept out = out
select_from service n (t ∷ ts) kept out = elim (is_kept service t) [
  | false ↦ select_from service n ts kept out
  | true ↦
      let more = out ++ sort_trace_spans t.spans in
      elim (leb n (suc kept) || leb max_window_spans (length more)) [
        | true ↦ more
        | false ↦ select_from service n ts (suc kept) more
      ]
]

-- SelectWindow.
unfoldable pub select_window : List Span → ℤ → Str → List Span
unfolding select_from group_traces
select_window spans max_traces service =
    let out =
      select_from (clip_service service) (pos_part (normalize_trace_window max_traces))
        (group_traces spans) 0 [] in
    if ltb max_window_spans (length out) then take max_window_spans out else out
