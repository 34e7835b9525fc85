-- ===== src/Graph/Build.antt =====
-- internal/graph/graph.go: Build, and the lists that it sorts.
pub mod Lookup
use aquila.Base.{
  ℕ, suc, ◌+◌, Str, Bool, ◌&&◌, ◌||◌, not, Option, none, some, List, [], ◌∷◌, ◌++◌, map, length,
  take, if◌then◌else◌, is_empty, str_eq, str_lt, ltb, ◌==◌, split, cut_at, sort_by, Dict, find_key,
  put_key,
}
use aquila.Ingest.{Span}
use aquila.Graph.{Service, Edge, ServicePath, EntryRoute, observed_parent, Nodes}
use aquila.Graph.Entries.{trace_entries}
use aquila.Graph.Paths.{join, walk_roots, add_trace}

pub record Snapshot : Type 0 where
  pub entry_by_span : Dict (Dict EntryRoute)
  pub entry_routes : List EntryRoute
  pub services : List Service
  pub edges : List Edge
  pub paths : List ServicePath
  pub span_count : ℕ
  pub trace_count : ℕ

-- A span that Build takes.
abbrev pub has_ids : Span → Bool
has_ids s = not (is_empty s.trace_id || is_empty s.span_id)

abbrev pub nodes_or_none : Option Nodes → Nodes
nodes_or_none none = []
nodes_or_none (some nodes) = nodes

-- The map `traces`: a span that comes again replaces the one of its ids.
unfoldable pub group_spans : List Span → Dict Nodes → Dict Nodes
unfolding find_key put_key
group_spans [] traces = traces
group_spans (s ∷ ss) traces = group_spans ss (
    if has_ids s
    then put_key s.trace_id (put_key s.span_id s (nodes_or_none (find_key s.trace_id traces)))
        traces
    else traces)

abbrev pub count_of : Option ℕ → ℕ
count_of none = 0
count_of (some n) = n

-- count[key]++.
unfoldable pub count_key : Str → Dict ℕ → Dict ℕ
unfolding find_key put_key
count_key k counts = put_key k (suc (count_of (find_key k counts))) counts

unfoldable pub count_services : List Span → Dict ℕ → Dict ℕ
unfolding count_key
count_services [] counts = counts
count_services (s ∷ ss) counts =
    count_services ss (
      if has_ids s && not (is_empty s.service_name)
      then count_key s.service_name counts
      else counts)

-- The key of the edge above a span: two services, both named and not the same.
unfoldable pub edge_key : Nodes → Span → Option Str
unfolding find_key
edge_key nodes s =
    if is_empty s.parent_span_id then none else elim (find_key s.parent_span_id nodes) [
      | none ↦ none
      | some p ↦
          if is_empty p.service_name
            || is_empty s.service_name
            || str_eq p.service_name s.service_name
          then none
          else some (p.service_name ++ 0 ∷ s.service_name)
    ]

abbrev pub count_edge : Option Str → Dict ℕ → Dict ℕ
count_edge none counts = counts
count_edge (some k) counts = count_key k counts

unfoldable pub count_edges : Nodes → Nodes → Dict ℕ → Dict ℕ
unfolding edge_key count_key
count_edges nodes [] counts = counts
count_edges nodes ((id, s) ∷ rest) counts =
    count_edges nodes rest (count_edge (edge_key nodes s) counts)

unfoldable pub edges_of_traces : Dict Nodes → Dict ℕ → Dict ℕ
unfolding count_edges
edges_of_traces [] counts = counts
edges_of_traces ((trace, nodes) ∷ rest) counts =
    edges_of_traces rest (count_edges nodes nodes counts)

add_traces : Str → List Str → Dict (List Str) → Dict (List Str)
unfolding add_trace
add_traces trace [] paths = paths
add_traces trace (k ∷ ks) paths = add_traces trace ks (add_trace trace paths k)

unfoldable pub paths_of_traces : Dict Nodes → Dict (List Str) → Dict (List Str)
unfolding add_traces walk_roots
paths_of_traces [] paths = paths
paths_of_traces ((trace, nodes) ∷ rest) paths =
    paths_of_traces rest (add_traces trace (walk_roots nodes nodes) paths)

-- entryBySpan, by trace and span.
unfoldable pub entries_of_traces : Dict Nodes → Dict (Dict EntryRoute)
unfolding trace_entries
entries_of_traces [] = []
entries_of_traces ((trace, nodes) ∷ rest) =
    (trace, trace_entries trace nodes) ∷ entries_of_traces rest

own_entries : Dict EntryRoute → List EntryRoute
own_entries [] = []
own_entries ((id, e) ∷ rest) =
    let more = own_entries rest in if str_eq e.span_id id then e ∷ more else more

unfoldable pub entry_routes_of : Dict (Dict EntryRoute) → List EntryRoute
unfolding own_entries
entry_routes_of [] = []
entry_routes_of ((trace, entries) ∷ rest) = own_entries entries ++ entry_routes_of rest

abbrev pub route_before : EntryRoute → EntryRoute → Bool
route_before a b =
    if not (str_eq a.trace_id b.trace_id)
    then str_lt a.trace_id b.trace_id
    else str_lt a.span_id b.span_id

abbrev pub clip : {A : Type 0} → ℕ → List A → List A
clip n xs = if ltb n (length xs) then take n xs else xs

abbrev pub service_before : Service → Service → Bool
service_before a b =
    if a.span_count == b.span_count then str_lt a.name b.name else ltb b.span_count a.span_count

-- servicesFromCount, with maxServices = 500.
unfoldable pub services_from_count : Dict ℕ → List Service
unfolding sort_by
services_from_count counts =
    clip 500 (
      sort_by service_before
        (map (λ (e : Str × ℕ). record { name = e.0; span_count = e.1 }) counts))

abbrev pub edge_before : Edge → Edge → Bool
edge_before a b =
    if a.count == b.count
    then if str_eq a.from b.from then str_lt a.to b.to else str_lt a.from b.from
    else ltb b.count a.count

-- What strings.Cut leaves after the first byte `b`; `none` where it finds none.
unfoldable pub after_cut : ℕ → Str → Option Str
after_cut b [] = none
after_cut b (c ∷ s) = let rest = after_cut b s in if c == b then some s else rest

unfoldable pub edges_of_counts : Dict ℕ → List Edge
unfolding after_cut cut_at
edges_of_counts [] = []
edges_of_counts ((key, n) ∷ rest) =
    let more = edges_of_counts rest in
    elim (after_cut 0 key) [
      | none ↦ more
      | some to ↦
          record { from = cut_at 0 key; to = to; count = n; provenance = observed_parent } ∷ more
    ]

-- edgesFromCount, with maxEdges = 2000.
unfoldable pub edges_from_count : Dict ℕ → List Edge
unfolding edges_of_counts sort_by
edges_from_count counts = clip 2000 (sort_by edge_before (edges_of_counts counts))

abbrev pub path_of : Str → List Str → ServicePath
path_of key set = record {
  services = if is_empty key then [] else split 0 key;
  traces = length set;
  provenance = observed_parent;
}

abbrev pub path_before : ServicePath → ServicePath → Bool
path_before a b =
    if a.traces == b.traces
    then str_lt (join b'/' a.services) (join b'/' b.services)
    else ltb b.traces a.traces

-- pathsFromTraces, with maxPaths = 100.
unfoldable pub paths_from_traces : Dict (List Str) → List ServicePath
unfolding sort_by split
paths_from_traces paths =
    clip 100 (sort_by path_before (map (λ (e : Str × List Str). path_of e.0 e.1) paths))

spans_taken : List Span → ℕ
spans_taken [] = 0
spans_taken (s ∷ ss) = (if has_ids s then 1 else 0) + spans_taken ss

-- Build.
unfoldable pub build : List Span → Snapshot
unfolding group_spans count_services edges_of_traces paths_of_traces entries_of_traces
    entry_routes_of services_from_count edges_from_count paths_from_traces spans_taken sort_by
build spans =
    let traces = group_spans spans [] in
    let entries = entries_of_traces traces in
    record {
      entry_by_span = entries;
      entry_routes = sort_by route_before (entry_routes_of entries);
      services = services_from_count (count_services spans []);
      edges = edges_from_count (edges_of_traces traces []);
      paths = paths_from_traces (paths_of_traces traces []);
      span_count = spans_taken spans;
      trace_count = length traces;
    }

abbrev entry_in : Str → Option (Dict EntryRoute) → Option EntryRoute
entry_in span none = none
entry_in span (some entries) = find_key span entries

-- EntryForSpan.
unfoldable pub entry_for_span : Str → Str → Snapshot → Option EntryRoute
unfolding find_key
entry_for_span trace span s = entry_in span (find_key trace s.entry_by_span)
