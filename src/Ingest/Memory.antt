-- ===== src/Ingest/Memory.antt =====
-- internal/ingest/memory.go: the in-process store of spans. Its mutex makes the methods one at a time,
-- and none returns an error.
pub mod Upsert
use aquila.Base.{
  Str, Bool, ◌&&◌, ◌||◌, Option, none, some, List, [], ◌∷◌, ◌++◌, reverse, filter_by, take,
  if◌then◌else◌, is_empty, str_eq, ℤ, pos_part, Dict, find_key, put_key,
}
use aquila.Ingest.{Span, ListQuery, normalize_limit}
use aquila.Ingest.Window.{select_window}
use aquila.Ingest.Attach.{Attach, attaches_from}

-- spans as an association list; order holds each key once, in the order of arrival.
pub record Memory : Type 0 where
  pub spans : Dict Span
  pub order : List Str

abbrev pub new_memory : Memory
new_memory = record { spans = []; order = [] }

-- spanKey.
unfoldable pub span_key : Span → Str
span_key s = s.trace_id ++ b'/' ∷ s.span_id

-- The body of the loop of UpsertSpans.
unfoldable pub upsert_span : Span → Memory → Memory
unfolding span_key find_key put_key
upsert_span s m =
    let k = span_key s in
    record {
      spans = put_key k s m.spans;
      order = elim (find_key k m.spans) [ none ↦ m.order ++ k ∷ [] | some t ↦ m.order ];
    }

-- UpsertSpans.
unfoldable pub upsert_spans : List Span → Memory → Memory
unfolding upsert_span
upsert_spans [] m = m
upsert_spans (s ∷ ss) m = upsert_spans ss (upsert_span s m)

abbrev pub cons_found : Option Span → List Span → List Span
cons_found none ss = ss
cons_found (some s) ss = s ∷ ss

-- The spans in the order of arrival, as ListTraceWindow and ListAttaches gather them. The order
-- holds only keys of the map.
unfoldable pub in_order : List Str → Dict Span → List Span
unfolding find_key
in_order [] spans = []
in_order (k ∷ ks) spans = cons_found (find_key k spans) (in_order ks spans)

abbrev pub wanted : ListQuery → Span → Bool
wanted q s =
    (is_empty q.trace_id || str_eq s.trace_id q.trace_id)
    && (is_empty q.service || str_eq s.service_name q.service)

-- ListSpans: newest first, until the limit, which is 1 or more.
unfoldable pub list_spans : ListQuery → Memory → List Span
unfolding in_order
list_spans q m =
    take (pos_part (normalize_limit q.limit))
      (filter_by (wanted q) (reverse (in_order m.order m.spans)))

-- ListTraceWindow.
unfoldable pub list_trace_window : ℤ → Str → Memory → List Span
unfolding in_order
list_trace_window max_traces service m = select_window (in_order m.order m.spans) max_traces service

-- ListAttaches.
unfoldable pub list_attaches : ℤ → Memory → List Attach
unfolding in_order
list_attaches limit m = attaches_from (in_order m.order m.spans) limit
