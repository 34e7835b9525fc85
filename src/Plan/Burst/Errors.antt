-- ===== src/Plan/Burst/Errors.antt =====
-- internal/plan/fault.go: when two bursts match.
use aquila.Base.{ℕ, ◌<◌, ◌≡◌, ◌↔◌, List, [], ◌∷◌, arith}
use aquila.Replay.{Run, verdict_match}
use aquila.Plan.Burst.{burst_errors, compare_counts, compare_burst}

counts-match :
    (be bn pe pn : ℕ)
    → ((compare_counts (be, bn) (pe, pn)).verdict ≡ verdict_match)
      ↔ ((0 < bn) × (0 < pn) × (be ≡ pe))
unfolding compare_counts
counts-match be bn pe pn = (λ h. ground arith, λ p. ground arith)

-- compareBurst says match exactly when both bursts hold an observation and as many of the one as of
-- the other are errors.
pub compare_burst-match :
    (base patch : List Run)
    → ((compare_burst base patch).verdict ≡ verdict_match) ↔ (
        (0 < (burst_errors base).1)
        × (0 < (burst_errors patch).1)
        × ((burst_errors base).0 ≡ (burst_errors patch).0))
unfolding compare_burst burst_errors
compare_burst-match [] patch = (λ h. absurd (ground arith), λ p. absurd (omega (arith, p.0)))
compare_burst-match (b ∷ base) [] = (λ h. absurd (ground arith), λ p. absurd (omega (arith, p.1)))
compare_burst-match (b ∷ base) (p ∷ patch) =
    counts-match (burst_errors (b ∷ base)).0 (burst_errors (b ∷ base)).1
      (burst_errors (p ∷ patch)).0 (burst_errors (p ∷ patch)).1
