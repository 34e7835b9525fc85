-- ===== src/Ingest.antt =====
-- internal/ingest: the spans that the code retains of an OTLP export, and their stores. span.go here;
-- memory.go, window.go and attach.go in the modules below.
pub mod Window
pub mod Memory
pub mod Attach
pub mod Examples
use aquila.Base.{ℕ, Str, Bool, if◌then◌else◌, length, take, ltb, trim_space, ℤ, pos, leb_ℤ, ltb_ℤ}

-- Times are nanoseconds since Go's zero time.
abbrev pub Instant : Type 0
Instant = ℕ

pub record Span : Type 0 where
  pub trace_id : Str
  pub span_id : Str
  pub parent_span_id : Str
  pub service_name : Str
  pub name : Str
  pub kind : Str
  pub status_code : Str
  pub http_method : Str
  pub http_route : Str
  pub http_status : ℤ
  pub code_function : Str
  pub code_file : Str
  pub start_time : Instant
  pub duration_ns : ℤ

pub record ListQuery : Type 0 where
  pub trace_id : Str
  pub service : Str
  pub limit : ℤ

-- normalizeLimit, with defaultList = 50 and maxList = 200.
unfoldable pub normalize_limit : ℤ → ℤ
normalize_limit n = if leb_ℤ n (pos 0) then pos 50 else if ltb_ℤ (pos 200) n then pos 200 else n

-- normalizeTraceWindow, with defaultTraceWindow = 50 and maxTraceWindow = 200.
unfoldable pub normalize_trace_window : ℤ → ℤ
normalize_trace_window n =
    if leb_ℤ n (pos 0) then pos 50 else if ltb_ℤ (pos 200) n then pos 200 else n

abbrev pub max_window_spans : ℕ
max_window_spans = 10000

-- ClipService, with maxServiceName = 128.
unfoldable pub clip_service : Str → Str
clip_service raw = let s = trim_space raw in if ltb 128 (length s) then take 128 s else s
