-- ===== src/Graph/Examples.antt =====
-- The snapshot of a trace of two services, and of two spans that name each other as parents.
use aquila.Base.{
  ℕ, suc, ◌+◌, ◌≡◌, ◌↔◌, refl, Str, codes, List, [], ◌∷◌, Option, none, some, length, find_key,
}
use aquila.Ingest.{Span}
use aquila.Ingest.Examples.{span, batch}
use aquila.Graph.{EntryRoute, Edge, ServicePath, Nodes, observed_parent}
use aquila.Graph.Entries.Lineage.{Lineage, top_entry}
use aquila.Graph.Paths.{walk}
use aquila.Graph.Paths.Enough.{walk-enough}
use aquila.Graph.Build.{Snapshot, build, entry_for_span}
use aquila.Graph.Build.Lookup.{trace_nodes, latest, entry_for_span-build}

abbrev cart : EntryRoute
cart = record {
  trace_id = codes "t1";
  span_id = codes "a";
  method = codes "GET";
  route = codes "/cart";
}

-- Two spans in a cycle.
abbrev loop : List Span
loop =
    span (codes "t3") (codes "x") (codes "y") (codes "shop") (codes "/x") 1
    ∷ span (codes "t3") (codes "y") (codes "x") (codes "stock") (codes "/y") 2
    ∷ []

runs :
    (entry_for_span (codes "t1") (codes "b") (build batch) ≡ some cart)
    × (entry_for_span (codes "t3") (codes "x") (build loop) ≡ none)
    × ((build batch).edges
        ≡ record {
          from = codes "shop";
          to = codes "stock";
          count = 1;
          provenance = observed_parent;
        }
          ∷ [])
unfolding build entry_for_span aquila.Base.str_eq aquila.Base.str_lt aquila.Base.to_lower
    aquila.Base.trim_space aquila.Base.trim aquila.Base.trim_left aquila.Base.trim_right
    aquila.Base.cut_at aquila.Base.split aquila.Base.insert_by aquila.Base.sort_by
    aquila.Base.find_key aquila.Base.put_key aquila.Graph.routed_server aquila.Graph.Entries.climb
    aquila.Graph.Entries.below aquila.Graph.Entries.resolve aquila.Graph.Entries.resolve_id
    aquila.Graph.Entries.resolve_all aquila.Graph.Entries.entries_in
    aquila.Graph.Entries.trace_entries aquila.Graph.Build.group_spans aquila.Graph.Build.count_key
    aquila.Graph.Build.edge_key aquila.Graph.Build.count_edges aquila.Graph.Build.edges_of_traces
    aquila.Graph.Build.entries_of_traces aquila.Graph.Build.after_cut
    aquila.Graph.Build.edges_of_counts aquila.Graph.Build.edges_from_count
runs = (refl, refl, refl)

entry_for_span-build_example :
    (find_key (codes "b") (trace_nodes (codes "t1") batch) ≡ latest (codes "t1") (codes "b") batch)
    × ((entry_for_span (codes "t1") (codes "b") (build batch) ≡ some cart) ↔ (
        (l : List (Str × Span)) × Lineage (trace_nodes (codes "t1") batch) (codes "b") l
        × (top_entry (codes "t1") l ≡ some cart)))
entry_for_span-build_example = entry_for_span-build (codes "t1") (codes "b") batch cart

walk-enough_example :
    walk
      (trace_nodes (codes "t3") loop)
      (suc (length (trace_nodes (codes "t3") loop)) + 7)
      (codes "x")
      []
      []
    ≡ walk
        (trace_nodes (codes "t3") loop)
        (suc (length (trace_nodes (codes "t3") loop)))
        (codes "x")
        []
        []
walk-enough_example = walk-enough (trace_nodes (codes "t3") loop) 7 (codes "x") []
