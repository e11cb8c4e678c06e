-- ===== src/Retention/Cutoffs.antt =====
-- internal/domain/model/retention.go: which instants a policy's durations lead to.
use vuhive_cloud.Common.{ℕ, ◌*◌, ◌-◌, ◌≡◌, ◌≤◌, none, arith}
use vuhive_cloud.Common.Int.{pos, negsuc, ◌≤ℤ◌, ◌+ℤ◌}
use vuhive_cloud.Common.Time.{Time}
use vuhive_cloud.Retention.{
  days_duration, cutoff, validate, logs_duration, default_retention_policy,
}

-- A day is 86,400,000,000,000 ns. The largest number of whole days that an `int64` of nanoseconds
-- holds is 106,751.
abbrev pub day : ℕ
day = 86400000000000

days_duration_exact : (d : ℕ) → d ≤ 106751 → days_duration (pos d) ≡ pos (d * day)
unfolding days_duration
days_duration_exact d h = ground arith

days_duration_wraps :
    (d : ℕ)
    → 106752 ≤ d
    → d ≤ 213503
    → days_duration (pos d) ≡ negsuc (18446744073709551615 - d * day)
unfolding days_duration
days_duration_wraps d lo hi = ground arith

cutoff_lem : (now : Time) (n : ℕ) → n ≤ 9223372036854775807 → cutoff now (pos n) +ℤ pos n ≡ now
unfolding cutoff
cutoff_lem now n h = ground arith

-- Up to 106,751 days the cut-off lies exactly that many days in the past.
pub cutoff_exact :
    (now : Time) (d : ℕ) → d ≤ 106751 → cutoff now (days_duration (pos d)) +ℤ pos (d * day) ≡ now
cutoff_exact now d h = rw (days_duration_exact d h) (cutoff_lem now (d * day) (omega arith))

cutoff_negative :
    (now : Time) (n : ℕ) → n ≤ 9223372036854775806 → now +ℤ pos 1 ≤ℤ cutoff now (negsuc n)
unfolding cutoff
cutoff_negative now n h = ground arith

-- From 106,752 to 213,503 days the product overflows: the policy is valid, and its cut-off for logs
-- lies in the future, so that logs of every age count as expired.
pub long_retention_expires_all :
    (now : Time) (d : ℕ)
    → 106752 ≤ d
    → d ≤ 213503
    → let p = record default_retention_policy { logs_ttl_days = pos d } in
      (validate p ≡ none) × (now +ℤ pos 1 ≤ℤ cutoff now (logs_duration p))
unfolding validate logs_duration
long_retention_expires_all now d lo hi = (
  ground arith,
  rw (days_duration_wraps d lo hi)
      (cutoff_negative now (18446744073709551615 - d * day) (omega arith)),
)
