-- ===== src/Graph/Paths.antt =====
-- internal/graph/graph.go: walkPaths, the sequences of services from the roots of a trace to its leaves.
pub mod Enough
use aquila.Base.{
  ℕ, zero, suc, Str, Bool, true, false, ◌&&◌, not, Option, none, some, List, [], ◌∷◌, ◌++◌, any,
  map, length, filter_by, reverse, if◌then◌else◌, is_empty, str_eq, ◌||◌, Dict, find_key, put_key,
}
use aquila.Ingest.{Span}
use aquila.Graph.{Nodes}

-- strings.Join with one byte between.
unfoldable pub join : ℕ → List Str → Str
join b [] = []
join b (s ∷ []) = s
join b (s ∷ t ∷ ss) = s ++ b ∷ join b (t ∷ ss)

-- The children of a span: the ids that name it as their parent, in the order of the range over byID.
unfoldable pub children : Nodes → Str → List Str
children [] id = []
children ((k, s) ∷ rest) id =
    let more = children rest id in
    if not (is_empty s.parent_span_id) && str_eq s.parent_span_id id then k ∷ more else more

abbrev pub ends_with : Str → List Str → Bool
ends_with name [] = false
ends_with name (s ∷ []) = str_eq s name
ends_with name (s ∷ t ∷ ss) = ends_with name (t ∷ ss)

-- `next` of walkPaths: a service is added where it is named and not the last one.
unfoldable pub next_services : Str → List Str → List Str
next_services name services =
    if is_empty name || ends_with name services then services else services ++ name ∷ []

-- The loop over the children.
unfoldable pub walk_each : (Str → List Str) → List Str → List Str
walk_each visit [] = []
walk_each visit (c ∷ cs) = visit c ++ walk_each visit cs

-- The leaves that walkPaths reaches from `id`, each with the sequence of services above it: the
-- keys of the map at which the trace is set. `visiting` grows with each level, and one level more
-- than there are spans is enough, as the code does not visit a span that is being visited.
unfoldable pub walk : Nodes → ℕ → Str → List Str → List Str → List Str
unfolding find_key children next_services join walk_each
walk nodes zero id services visiting = []
walk nodes (suc fuel) id services visiting = elim (find_key id nodes) [
  | none ↦ []
  | some s ↦ elim (any (str_eq id) visiting) [
    | true ↦ []
    | false ↦
        let next = next_services s.service_name services in
        elim (children nodes id) [
          | [] ↦ if is_empty next then [] else join 0 next ∷ []
          | c ∷ cs ↦ walk_each (λ child. walk nodes fuel child next (id ∷ visiting)) (c ∷ cs)
        ]
  ]
]

-- A span without a parent in the trace.
abbrev pub is_root : Nodes → Span → Bool
is_root nodes s =
    is_empty s.parent_span_id
    || elim (find_key s.parent_span_id nodes) [ none ↦ true | some p ↦ false ]

unfoldable pub walk_roots : Nodes → Nodes → List Str
unfolding walk
walk_roots nodes [] = []
walk_roots nodes ((id, s) ∷ rest) =
    let more = walk_roots nodes rest in
    if is_root nodes s then walk nodes (suc (length nodes)) id [] [] ++ more else more

-- pathTraces, each set as a list without repeats.
unfoldable pub add_trace : Str → Dict (List Str) → Str → Dict (List Str)
unfolding find_key put_key
add_trace trace paths key = elim (find_key key paths) [
  | none ↦ put_key key (trace ∷ []) paths
  | some set ↦ put_key key (if any (str_eq trace) set then set else trace ∷ set) paths
]
