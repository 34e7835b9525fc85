-- ===== src/Replay/Compare.antt =====
-- internal/replay/compare.go: the comparison of two replays of a workload.
pub mod Same
use aquila.Base.{
  ℕ, Str, codes, Bool, true, false, not, ◌&&◌, ◌||◌, Option, none, some, List, [], ◌∷◌, ◌++◌, any,
  ◌==◌, length, if◌then◌else◌, is_empty, str_eq, has_prefix, trim_space, ℤ, pos, eqb_ℤ,
}
use aquila.Replay.{
  Delta, Report, Observation, Run, verdict_match, verdict_differ, verdict_incomplete,
  note_auth_rejected,
}
use aquila.Replay.Json.{Json, strip_volatile, json_eq}

-- authStatus.
abbrev pub auth_status : ℤ → Bool
auth_status code = eqb_ℤ code (pos 401) || eqb_ℤ code (pos 403)

-- json.Unmarshal of a text: `none` for an error.
abbrev pub Decoder : Type 0
Decoder = Str → Option Json

abbrev pub new_delta : Observation → Delta
new_delta a = record {
  method = a.method;
  path = a.path;
  status = verdict_match;
  baseline_status = pos 0;
  patch_status = pos 0;
  notes = [];
}

abbrev error_note : Str → Str → List Str
error_note side e = if is_empty e then [] else (side ++ e) ∷ []

abbrev pub cuts : Delta → Bool
cuts d =
    any (λ note. has_prefix note (codes "error:")) d.notes || str_eq d.status verdict_incomplete

abbrev pub changes : Delta → Bool
changes d = str_eq d.status verdict_differ

module _ (unmarshal : Decoder) where
  -- decodeJSON; `none` for ok = false.
  unfoldable pub decode_json : Str → Option Json
  decode_json raw = let s = trim_space raw in if is_empty s then none else unmarshal s

  compare_values : Str → Str → Option Json → Option Json → List Str
  compare_values a b none none =
      if str_eq (trim_space a) (trim_space b) then [] else codes "opaque body" ∷ []
  compare_values a b none (some w) = codes "json vs opaque" ∷ []
  compare_values a b (some v) none = codes "json vs opaque" ∷ []
  compare_values a b (some v) (some w) =
      if json_eq (strip_volatile v) (strip_volatile w) then [] else codes "json" ∷ []

  -- jsonNotes.
  unfoldable pub json_notes : Str → Str → List Str
  unfolding decode_json compare_values
  json_notes a b = compare_values a b (decode_json a) (decode_json b)

  -- The end of compareObs: the statuses and the bodies, where a handler answered on both sides.
  compare_answers : Observation → Observation → Delta → Delta
  compare_answers a b d =
      let notes = json_notes a.body b.body in
      let status_differs = not (eqb_ℤ a.status b.status) in
      record d {
        status =
            if not (is_empty notes)
            then verdict_differ
            else if status_differs
            then verdict_differ
            else d.status;
        notes = (if status_differs then codes "status" ∷ [] else []) ++ notes;
      }

  -- compareObs.
  unfoldable pub compare_obs : Observation → Observation → Delta
  unfolding compare_answers
  compare_obs a b =
      let d = new_delta a in
      if not (str_eq a.path b.path) || not (str_eq a.method b.method)
      then record d { status = verdict_incomplete; notes = codes "step mismatch" ∷ [] }
      else if not (is_empty a.err) || not (is_empty b.err)
      then record d {
        status = verdict_incomplete;
        notes =
            error_note (codes "error:baseline:") a.err ++ error_note (codes "error:patch:") b.err;
      }
      else if auth_status a.status && auth_status b.status
      then record d {
        baseline_status = a.status;
        patch_status = b.status;
        status = verdict_incomplete;
        notes = note_auth_rejected ∷ [];
      }
      else compare_answers a b (record d { baseline_status = a.status; patch_status = b.status })

  -- The steps that both replays have.
  unfoldable pub deltas : List Observation → List Observation → List Delta
  unfolding compare_obs
  deltas [] bs = []
  deltas (a ∷ rest) [] = []
  deltas (a ∷ rest) (b ∷ bs) = compare_obs a b ∷ deltas rest bs

  -- Compare.
  unfoldable pub compare : Run → Run → Report
  unfolding deltas
  compare base patch =
      let ds = deltas base.steps patch.steps in
      record {
        steps = ds;
        verdict =
            if not (length base.steps == length patch.steps) || any cuts ds
            then verdict_incomplete
            else if any changes ds
            then verdict_differ
            else verdict_match;
      }
