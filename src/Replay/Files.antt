-- ===== src/Replay/Files.antt =====
-- internal/replay/file.go: workload files. What the operating system and package json answer is a
-- parameter.
pub mod Read
use aquila.Base.{
  ℕ, suc, Str, codes, Bool, true, false, not, ◌&&◌, List, [], ◌∷◌, ◌++◌, Option, length, ltb, ◌==◌,
  if◌then◌else◌, is_empty, str_eq, to_upper, trim_space, contains, Dict, Outcome, yields, fails,
  Checked, accepted, refused,
}
use aquila.Replay.{Step}
use aquila.Replay
use aquila.Replay.Traffic.{is_http_method, safe_path, max_steps}
use aquila.Replay.Headers.{HeaderError, file_headers}

abbrev pub max_file_bytes : ℕ
max_file_bytes = 65536

abbrev pub max_body_bytes : ℕ
max_body_bytes = 8192

abbrev pub provenance_file : Str
provenance_file = codes "workload_file"

-- fileStep and fileDoc; the map of the headers in the order in which a range loop visits it.
pub record FileStep : Type 0 where
  pub method : Str
  pub path : Str
  pub body : Str
  pub headers : List (Str × Str)

pub record FileDoc : Type 0 where
  pub steps : List FileStep

pub data BodyError : Type 0 where
  body_too_long : BodyError
  body_unread : Str → BodyError

pub data FileError : Type 0 where
  empty_path : FileError
  not_local : FileError
  unread : Str → FileError
  too_large : FileError
  unparsed : Str → FileError
  no_steps : FileError
  too_many_steps : FileError
  not_replayable : ℕ → FileError
  bad_body : ℕ → BodyError → FileError
  bad_header : ℕ → HeaderError → FileError

-- os.ReadFile and os.LookupEnv; json.Unmarshal into a fileDoc and into a string, and json.Compact.
pub record Host : Type 0 where
  pub read_file : Str → Outcome Str
  pub lookup_env : Str → Option Str
  pub unmarshal_doc : Str → Outcome FileDoc
  pub unmarshal_text : Str → Outcome Str
  pub compact : Str → Outcome Str

abbrev starts_quoted : Str → Bool
starts_quoted [] = false
starts_quoted (c ∷ s) = c == b'"'

-- safeFileStep.
unfoldable pub safe_file_step : Str → Str → Bool
unfolding is_http_method safe_path
safe_file_step method path = is_http_method method && safe_path path

abbrev or_unread : Outcome Str → Checked BodyError Str
or_unread (yields s) = accepted s
or_unread (fails e) = refused (body_unread e)

-- The body that a quoted text stands for.
short_text : Outcome Str → Checked BodyError Str
short_text (fails e) = refused (body_unread e)
short_text (yields s) = if ltb max_body_bytes (length s) then refused body_too_long else accepted s

-- The step with its body and headers, where both are accepted.
complete_step :
    ℕ
    → Str
    → Str
    → Checked BodyError Str
    → Checked HeaderError (Dict (List Str))
    → Checked FileError Step
complete_step i method path (refused e) hs = refused (bad_body i e)
complete_step i method path (accepted body) (refused e) = refused (bad_header i e)
complete_step i method path (accepted body) (accepted hs) = accepted (record {
  method = method;
  path = path;
  body = body;
  headers = hs;
  provenance = provenance_file;
  service = [];
})

module _ (host : Host) where
  -- decodeBody; no bytes for nil.
  unfoldable pub decode_body : Str → Checked BodyError Str
  unfolding short_text
  decode_body raw =
      let s = trim_space raw in
      if is_empty s
      then accepted []
      else if str_eq s (codes "null")
      then accepted []
      else if starts_quoted s
      then short_text (host.unmarshal_text s)
      else if ltb max_body_bytes (length s)
      then refused body_too_long
      else or_unread (host.compact s)

  -- The body of the loop of ReadFile.
  unfoldable pub file_step : ℕ → FileStep → Checked FileError Step
  unfolding complete_step decode_body file_headers safe_file_step
  file_step i st =
      let method = to_upper (trim_space st.method) in
      let path = trim_space st.path in
      if not (safe_file_step method path)
      then refused (not_replayable i)
      else complete_step i method path (decode_body st.body)
          (file_headers host.lookup_env st.headers)

  -- The loop of ReadFile, from the step with index `i`.
  unfoldable pub file_steps : ℕ → List FileStep → Checked FileError (List Step)
  unfolding file_step
  file_steps i [] = accepted []
  file_steps i (st ∷ rest) =
      let more = file_steps (suc i) rest in
      elim (file_step i st) [
        | refused e ↦ refused e
        | accepted s ↦ elim more [ refused e ↦ refused e | accepted ss ↦ accepted (s ∷ ss) ]
      ]

  file_workload : FileDoc → Checked FileError Replay.Workload
  unfolding file_steps
  file_workload doc =
      if is_empty doc.steps
      then refused no_steps
      else if ltb max_steps (length doc.steps)
      then refused too_many_steps
      else elim (file_steps 0 doc.steps) [
        | refused e ↦ refused e
        | accepted ss ↦ accepted (record { steps = ss })
      ]

  file_doc : Outcome FileDoc → Checked FileError Replay.Workload
  unfolding file_workload
  file_doc (fails e) = refused (unparsed e)
  file_doc (yields doc) = file_workload doc

  file_text : Outcome Str → Checked FileError Replay.Workload
  unfolding file_doc
  file_text (fails e) = refused (unread e)
  file_text (yields raw) =
      if ltb max_file_bytes (length raw)
      then refused too_large
      else file_doc (host.unmarshal_doc raw)

  -- ReadFile.
  unfoldable pub read_file : Str → Checked FileError Replay.Workload
  unfolding file_text
  read_file path =
      if is_empty (trim_space path)
      then refused empty_path
      else if contains path (codes "://")
      then refused not_local
      else file_text (host.read_file path)
