-- ===== src/Graph/Entries.antt =====
-- internal/graph/graph.go: traceEntries, the root-most routed server above each span of a trace.
pub mod Lineage
pub mod Cache
pub mod Sound
use aquila.Base.{
  ℕ, zero, suc, Str, Bool, true, false, ◌&&◌, not, Option, none, some, List, [], ◌∷◌, any, length,
  if◌then◌else◌, is_empty, str_eq, Dict, find_key,
}
use aquila.Ingest.{Span}
use aquila.Graph.{EntryRoute, Nodes, routed_server}

-- The struct `ancestry` of traceEntries. An entry without a span id is none.
pub record Ancestry : Type 0 where
  pub complete : Bool
  pub entry : EntryRoute

abbrev pub no_entry : EntryRoute
no_entry = record { trace_id = []; span_id = []; method = []; route = [] }

abbrev pub broken : Ancestry
broken = record { complete = false; entry = no_entry }

abbrev pub rooted : Ancestry
rooted = record { complete = true; entry = no_entry }

-- The inner loop: from `cursor` up, until a span whose ancestry is known, one without a parent, or
-- one that is missing or on the chain already. The chain, last found first, also serves as `seen`. Each turn puts
-- a span of the trace on it that was not there, so one turn more than there are spans is enough.
unfoldable pub climb : Nodes → Dict Ancestry → ℕ → Str → List Str → List Str × Ancestry
unfolding find_key
climb nodes resolved zero cursor chain = (chain, broken)
climb nodes resolved (suc fuel) cursor chain = elim (find_key cursor resolved) [
  | some cached ↦ (chain, cached)
  | none ↦ elim (find_key cursor nodes) [
    | none ↦ (chain, broken)
    | some s ↦ elim (any (str_eq cursor) chain) [
      | true ↦ (chain, broken)
      | false ↦ elim (is_empty s.parent_span_id) [
        | true ↦ (cursor ∷ chain, rooted)
        | false ↦ climb nodes resolved fuel s.parent_span_id (cursor ∷ chain)
      ]
    ]
  ]
]

-- The ancestry of a span below one with ancestry `parent`.
unfoldable pub below : Str → Str → Span → Ancestry → Ancestry
unfolding routed_server
below trace id s parent =
    if parent.complete && is_empty parent.entry.span_id && routed_server s
    then record parent {
      entry = record {
        trace_id = trace;
        span_id = id;
        method = s.http_method;
        route = s.http_route;
      };
    }
    else parent

abbrev pub below_node : Str → Str → Option Span → Ancestry → Ancestry
below_node trace id none parent = parent
below_node trace id (some s) parent = below trace id s parent

-- The loop over the chain, from its end. The chain holds ids of the trace that are not resolved.
unfoldable pub resolve : Str → Nodes → List Str → Ancestry → Dict Ancestry → Dict Ancestry
unfolding below
resolve trace nodes [] parent resolved = resolved
resolve trace nodes (id ∷ chain) parent resolved =
    let here = below_node trace id (find_key id nodes) parent in
    resolve trace nodes chain here ((id, here) ∷ resolved)

-- The body of the outer loop.
unfoldable pub resolve_id : Str → Nodes → Str → Dict Ancestry → Dict Ancestry
unfolding climb resolve
resolve_id trace nodes id resolved =
    let up = climb nodes resolved (suc (length nodes)) id [] in
    resolve trace nodes up.0 up.1 resolved

unfoldable pub resolve_all : Str → Nodes → Nodes → Dict Ancestry → Dict Ancestry
unfolding resolve_id
resolve_all trace nodes [] resolved = resolved
resolve_all trace nodes ((id, s) ∷ rest) resolved =
    resolve_all trace nodes rest (resolve_id trace nodes id resolved)

abbrev pub is_entry : Ancestry → Bool
is_entry a = a.complete && not (is_empty a.entry.span_id)

unfoldable pub entries_in : Dict Ancestry → Dict EntryRoute
entries_in [] = []
entries_in ((id, a) ∷ rest) =
    let more = entries_in rest in if is_entry a then (id, a.entry) ∷ more else more

-- traceEntries.
unfoldable pub trace_entries : Str → Nodes → Dict EntryRoute
unfolding entries_in resolve_all
trace_entries trace nodes = entries_in (resolve_all trace nodes nodes [])
