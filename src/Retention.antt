-- ===== src/Retention.antt =====
-- internal/domain/model/retention.go: the retention policy, and the cut-off times that
-- internal/application/service/housekeeping_service.go derives from it.
mod Cutoffs
mod Merging
mod Tests
use vuhive_cloud.Common.{
  ℕ, ◌≡◌, Bool, true, false, ◌||◌, ◌&&◌, Option, none, some, if◌then◌else◌, Error, validation,
}
use vuhive_cloud.Common.Int.{ℤ, pos, ltb_ℤ, mul64, neg64, ◌+ℤ◌}
use vuhive_cloud.Common.Time.{Time, Duration, add, hour}

pub record RetentionPolicy : Type 0 where
  pub logs_ttl_days : ℤ
  pub reports_ttl_days : ℤ
  pub sources_ttl_days : ℤ
  pub binaries_ttl_days : ℤ
  pub runs_ttl_days : ℤ
  pub archive_only : Bool

abbrev pub default_retention_policy : RetentionPolicy
default_retention_policy = record {
  logs_ttl_days = pos 14;
  reports_ttl_days = pos 90;
  sources_ttl_days = pos 30;
  binaries_ttl_days = pos 30;
  runs_ttl_days = pos 180;
  archive_only = false;
}

-- `time.Duration(days) * 24 * time.Hour`, on `int64`.
unfoldable pub days_duration : ℤ → Duration
unfolding mul64
days_duration days = mul64 (mul64 days 24) hour

unfoldable pub logs_duration : RetentionPolicy → Duration
unfolding days_duration
logs_duration p = days_duration p.logs_ttl_days

unfoldable pub reports_duration : RetentionPolicy → Duration
unfolding days_duration
reports_duration p = days_duration p.reports_ttl_days

unfoldable pub sources_duration : RetentionPolicy → Duration
unfolding days_duration
sources_duration p = days_duration p.sources_ttl_days

unfoldable pub binaries_duration : RetentionPolicy → Duration
unfolding days_duration
binaries_duration p = days_duration p.binaries_ttl_days

unfoldable pub runs_duration : RetentionPolicy → Duration
unfolding days_duration
runs_duration p = days_duration p.runs_ttl_days

-- `now.Add(-d)`.
unfoldable pub cutoff : Time → Duration → Time
unfolding neg64 ◌+ℤ◌
cutoff now d = add now (neg64 d)

abbrev pub is_negative : ℤ → Bool
is_negative a = ltb_ℤ a (pos 0)

abbrev pub is_positive : ℤ → Bool
is_positive a = ltb_ℤ (pos 0) a

unfoldable pub validate : RetentionPolicy → Option Error
validate p =
    if is_negative p.logs_ttl_days
    then some validation
    else if is_negative p.reports_ttl_days
    then some validation
    else if is_negative p.sources_ttl_days
    then some validation
    else if is_negative p.binaries_ttl_days
    then some validation
    else if is_negative p.runs_ttl_days
    then some validation
    else if is_positive p.runs_ttl_days
        && (is_positive p.reports_ttl_days && ltb_ℤ p.runs_ttl_days p.reports_ttl_days)
    then some validation
    else none

abbrev pub overriding : ℤ → ℤ → ℤ
overriding base over = if is_positive over then over else base

unfoldable pub merge : RetentionPolicy → RetentionPolicy → RetentionPolicy
merge p over = record {
  logs_ttl_days = overriding p.logs_ttl_days over.logs_ttl_days;
  reports_ttl_days = overriding p.reports_ttl_days over.reports_ttl_days;
  sources_ttl_days = overriding p.sources_ttl_days over.sources_ttl_days;
  binaries_ttl_days = overriding p.binaries_ttl_days over.binaries_ttl_days;
  runs_ttl_days = overriding p.runs_ttl_days over.runs_ttl_days;
  archive_only = if over.archive_only then true else p.archive_only;
}
