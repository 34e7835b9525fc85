-- ===== src/Impact.antt =====
-- internal/impact: what a change touches. The analysis that finds it is not modelled; the route
-- labels that the policy compares are in Routes.
pub mod Routes
pub mod Classes
pub mod Examples
use aquila.Base.{ℤ, Str, codes, List}

-- Changes (files.go).
pub record Changes : Type 0 where
  pub bound : List Str
  pub unanalyzed : List Str

-- RouteAttribution (routes.go).
pub record RouteAttribution : Type 0 where
  pub route : Str
  pub provenance : Str
  pub via : Str

abbrev pub provenance_trace_entry : Str
provenance_trace_entry = codes "trace_entry"

abbrev pub provenance_code_attrs : Str
provenance_code_attrs = codes "code_attrs"

abbrev pub provenance_trace_entry_caller : Str
provenance_trace_entry_caller = codes "trace_entry_caller"

-- RouteTraceCount (routes.go), Finding and Report (analyze.go).
pub record RouteTraceCount : Type 0 where
  pub route : Str
  pub traces : ℤ

pub record Finding : Type 0 where
  pub via : Str
  pub trace_id : Str
  pub span_id : Str
  pub entry_span_id : Str
  pub name : Str
  pub file : Str
  pub source_id : Str
  pub service : Str
  pub path : Str
  pub route : Str
  pub line : ℤ
  pub reason : Str
  pub provenance : Str

pub record Report : Type 0 where
  pub route_trace_counts : List RouteTraceCount
  pub files : List Str
  pub direct : List Finding
  pub likely : List Finding
  pub runtime : List Finding
  pub unobserved : List Finding
