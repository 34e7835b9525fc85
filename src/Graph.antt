-- ===== src/Graph.antt =====
-- internal/graph/graph.go: the snapshot that is derived from a batch of spans. The maps are
-- association lists, and a loop over one runs in the order of the list.
pub mod Entries
pub mod Paths
pub mod Build
pub mod Examples
use aquila.Base.{
  ℕ, Str, Bool, Option, none, some, List, [], ◌∷◌, not, ◌&&◌, if◌then◌else◌, is_empty, str_eq,
  to_lower, trim_space, codes, Dict,
}
use aquila.Ingest.{Span}

pub record Service : Type 0 where
  pub name : Str
  pub span_count : ℕ

pub record Edge : Type 0 where
  pub from : Str
  pub to : Str
  pub count : ℕ
  pub provenance : Str

-- Path.
pub record ServicePath : Type 0 where
  pub services : List Str
  pub traces : ℕ
  pub provenance : Str

pub record EntryRoute : Type 0 where
  pub trace_id : Str
  pub span_id : Str
  pub method : Str
  pub route : Str

abbrev pub observed_parent : Str
observed_parent = codes "observed_parent"

-- The spans of a trace by their ids: spanNode without its children.
abbrev pub Nodes : Type 0
Nodes = Dict Span

-- routedServer.
unfoldable pub routed_server : Span → Bool
routed_server s =
    str_eq (to_lower (trim_space s.kind)) (codes "server")
    && not (is_empty (trim_space s.http_method))
    && not (is_empty (trim_space s.http_route))
