-- ===== src/Validate.antt =====
-- internal/validate/decide.go: blockers, and the input and the result of the validation policy. The
-- blockers of each requirement, and their proofs, are in the modules below.
pub mod Steps
pub mod Duplicates
pub mod Coverage
pub mod Targets
pub mod Decide
use aquila.Base.{
  inl, inr, Bool-cases, all, str_eq→eq, ◌≡◌, refl, arith, ℕ, zero, suc, ◌+◌, Str, codes, Bool, true,
  false, not, ◌&&◌, ◌||◌, Option, none, some, List, [], ◌∷◌, ◌++◌, map, ltb, if◌then◌else◌,
  is_empty, any, all, count_by, str_eq, str_lt, to_lower, trim_space, trim_right, ◌==◌, itoa, ℤ,
  pos, ltb_ℤ, eqb_ℤ,
}
use aquila.Url.{Url, UrlPackage}
use aquila.Gitrev.{Revision, source_built}
use aquila.Replay.{Delta, StepLatency, verdict_match, auth_rejected}
use aquila.Replay
use aquila.Plan
use aquila.Plan.{
  Dag, StepResult, Evidence, kind_env, kind_behavior, kind_latency, kind_concurrency, kind_tests,
  verdict_samples, verdict_prepared,
}
use aquila.Impact.{
  Changes, RouteAttribution, provenance_trace_entry, provenance_code_attrs,
  provenance_trace_entry_caller,
}
use aquila.Impact.Routes.{route_matches}

pub data Code : Type 0 where
  legacy_schema dirty_baseline unverified_revision missing_target same_target not_match : Code
  step_missing step_failed duplicate_step latency_n latency_shift unanalyzed_change : Code
  no_function_binding no_runtime_route route_missed : Code

-- The text of a code, by which blockers are ordered.
abbrev pub code_text : Code → Str
code_text legacy_schema = codes "legacy_schema"
code_text dirty_baseline = codes "dirty_baseline"
code_text unverified_revision = codes "unverified_revision"
code_text missing_target = codes "missing_target"
code_text same_target = codes "same_target"
code_text not_match = codes "not_match"
code_text step_missing = codes "step_missing"
code_text step_failed = codes "step_failed"
code_text duplicate_step = codes "duplicate_step"
code_text latency_n = codes "latency_n"
code_text latency_shift = codes "latency_shift"
code_text unanalyzed_change = codes "unanalyzed_change"
code_text no_function_binding = codes "no_function_binding"
code_text no_runtime_route = codes "no_runtime_route"
code_text route_missed = codes "route_missed"

pub record Blocker : Type 0 where
  pub code : Code
  pub subject : Str

pub record Decision : Type 0 where
  pub coverage_basis : Str
  pub validated : Bool
  pub blockers : List Blocker

pub record Input : Type 0 where
  pub attributions : List RouteAttribution
  pub baseline_rev : Revision
  pub patch_rev : Revision
  pub baseline : Str
  pub patch : Str
  pub plan : Dag
  pub result : Evidence
  pub impacted : List Str
  pub workload : List Replay.Step
  pub changes : Changes

-- Blocker{Code: c, Subject: s} appended where the test holds.
abbrev pub block_if : Bool → Code → Str → List Blocker
block_if b c s = if b then record { code = c; subject = s } ∷ [] else []

blocker_lt : Blocker → Blocker → Bool
blocker_lt a b =
    if str_eq a.subject b.subject
    then str_lt (code_text a.code) (code_text b.code)
    else str_lt a.subject b.subject

insert_blocker : Blocker → List Blocker → List Blocker
insert_blocker b [] = b ∷ []
insert_blocker b (c ∷ cs) = if blocker_lt c b then c ∷ insert_blocker b cs else b ∷ c ∷ cs

-- sortedBlockers; blockers that the order does not tell apart are equal, so any sort does.
unfoldable pub sorted_blockers : List Blocker → List Blocker
unfolding insert_blocker blocker_lt
sorted_blockers [] = []
sorted_blockers (b ∷ bs) = insert_blocker b (sorted_blockers bs)

abbrev pub is_in : Str → List Str → Bool
is_in k = any λ s. str_eq k s

-- strings.ToLower(strings.TrimSpace(v)).
abbrev pub fold_text : Str → Str
fold_text v = to_lower (trim_space v)

insert_blocker-filled : (b : Blocker) (bs : List Blocker) → is_empty (insert_blocker b bs) ≡ false
unfolding insert_blocker
insert_blocker-filled b [] = refl
insert_blocker-filled b (c ∷ cs) = ground arith

-- Sorting neither drops the last blocker nor makes one up.
pub is_empty-sorted : (bs : List Blocker) → is_empty (sorted_blockers bs) ≡ is_empty bs
unfolding sorted_blockers
is_empty-sorted [] = refl
is_empty-sorted (b ∷ bs) = insert_blocker-filled b (sorted_blockers bs)

-- A test that holds of a whole list holds of each text in it.
pub all-is_in :
    (ok : Str → Bool) (ks : List Str) (k : Str)
    → is_in k ks ≡ true
    → all ok ks ≡ (all ok ks && ok k)
all-is_in ok [] k h = absurd (ground arith)
all-is_in ok (l ∷ ks) k h = elim (Bool-cases (str_eq k l)) [
  | inl e ↦ rw (str_eq→eq k l e) (ground arith)
  | inr n ↦ let ih = all-is_in ok ks k (ground arith) in ground arith
]
