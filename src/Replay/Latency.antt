-- ===== src/Replay/Latency.antt =====
-- internal/replay/latency.go: nearest-rank summaries of successful samples, and the shift bounds.
pub mod Order
use aquila.Base.{
  ℕ, zero, suc, ◌+◌, ◌-◌, ◌*◌, ◌/◌, Str, Bool, false, ◌&&◌, ◌||◌, Option, none, some, List, [], ◌∷◌,
  ltb, leb, if◌then◌else◌, length, get_elem?, is_empty, ℤ, pos, ◌+ℤ◌, ◌-ℤ◌, ltb_ℤ, leb_ℤ, eqb_ℤ,
  wrap_64,
}
use aquila.Replay.{Observation, Run, Summary, StepLatency}

abbrev pub min_percentile_n : ℕ
min_percentile_n = 20

-- ShiftRatio * b, in int64.
abbrev pub twice_64 : ℤ → ℤ
twice_64 b = wrap_64 (b +ℤ b)

abbrev pub shift_min_ns : ℤ
shift_min_ns = pos 5000000

-- Shifted.
unfoldable pub shifted : StepLatency → Bool
shifted l =
    let b = l.baseline.med_ns in
    let p = l.patch.med_ns in
    if eqb_ℤ l.baseline.n (pos 0) || eqb_ℤ l.patch.n (pos 0)
    then false
    else (ltb_ℤ (twice_64 b) p && leb_ℤ shift_min_ns (wrap_64 (p -ℤ b)))

insert_sorted : ℤ → List ℤ → List ℤ
insert_sorted x [] = x ∷ []
insert_sorted x (y ∷ ys) = if leb_ℤ x y then x ∷ y ∷ ys else y ∷ insert_sorted x ys

-- sort.Slice by `<`: which of two equal numbers comes first cannot be told.
unfoldable pub sort_ℤ : List ℤ → List ℤ
unfolding insert_sorted
sort_ℤ [] = []
sort_ℤ (x ∷ xs) = insert_sorted x (sort_ℤ xs)

abbrev nth_or_zero : Option ℤ → ℤ
nth_or_zero none = pos 0
nth_or_zero (some v) = v

-- rank at the percentile `percent / 100`. The source computes the ceiling in float64; up to
-- maxRepeats = 100 samples, the most that a replay takes, that is the exact ceiling written here.
unfoldable pub rank : List ℤ → ℕ → ℤ
rank sorted percent =
    let n = length sorted in
    let idx = (percent * n + 99) / 100 - 1 in
    if is_empty sorted
    then pos 0
    else nth_or_zero (get_elem? sorted (if leb n idx then n - 1 else idx))

abbrev pub empty_summary : Summary
empty_summary = record {
  n = pos 0;
  min_ns = pos 0;
  med_ns = pos 0;
  p95_ns = pos 0;
  p99_ns = pos 0;
  has_p95 = false;
  has_p99 = false;
}

-- Summarize.
unfoldable pub summarize : List ℤ → Summary
unfolding sort_ℤ rank
summarize samples =
    let cp = sort_ℤ samples in
    let enough = leb min_percentile_n (length samples) in
    if is_empty samples then empty_summary else record {
      n = pos (length samples);
      min_ns = nth_or_zero (get_elem? cp 0);
      med_ns = rank cp 50;
      p95_ns = if enough then rank cp 95 else pos 0;
      p99_ns = if enough then rank cp 99 else pos 0;
      has_p95 = enough;
      has_p99 = enough;
    }

abbrev is_sample : Observation → Bool
is_sample s = is_empty s.err && ltb_ℤ (pos 0) s.status && ltb_ℤ (pos 0) s.duration_ns

abbrev sample_of : Option Observation → List ℤ → List ℤ
sample_of none rest = rest
sample_of (some s) rest = if is_sample s then s.duration_ns ∷ rest else rest

-- successfulDurations, at a step number that is not negative.
unfoldable pub successful_durations : List Run → ℕ → List ℤ
successful_durations [] step = []
successful_durations (r ∷ runs) step =
    sample_of (get_elem? r.steps step) (successful_durations runs step)

-- How many steps are compared: those of the first baseline run, or of the first patch run if fewer.
step_count : List Run → List Run → ℕ
step_count [] patch = 0
step_count (b ∷ base) [] = length b.steps
step_count (b ∷ base) (p ∷ patch) =
    if ltb (length p.steps) (length b.steps) then length p.steps else length b.steps

label_of : List Run → ℕ → Str × Str
label_of [] i = ([], [])
label_of (b ∷ base) i = elim (get_elem? b.steps i) [ none ↦ ([], []) | some s ↦ (s.method, s.path) ]

latency_from : ℕ → ℕ → List Run → List Run → List StepLatency
latency_from zero i base patch = []
latency_from (suc rounds) i base patch =
    record {
      method = (label_of base i).0;
      path = (label_of base i).1;
      baseline = summarize (successful_durations base i);
      patch = summarize (successful_durations patch i);
    }
    ∷ latency_from rounds (i + 1) base patch

-- Latency.
unfoldable pub latency : List Run → List Run → List StepLatency
unfolding step_count label_of latency_from summarize successful_durations
latency base patch = latency_from (step_count base patch) 0 base patch
