-- ===== src/Retention/Tests.antt =====
-- internal/domain/model/retention.go on concrete policies.
use vuhive_cloud.Common.{◌≡◌, refl, true, none, some, arith, validation}
use vuhive_cloud.Common.Int.{pos, negsuc, ◌≤ℤ◌, ◌+ℤ◌}
use vuhive_cloud.Retention.{
  RetentionPolicy, default_retention_policy, validate, merge, days_duration, cutoff, logs_duration,
}
use vuhive_cloud.Retention.Cutoffs.{long_retention_expires_all}
use vuhive_cloud.Retention.Merging.{merge_breaks}

default_valid : validate default_retention_policy ≡ none
unfolding validate
default_valid = refl

-- "For ever" as 999,999 days is a negative duration.
for_ever : days_duration (pos 999999) ≡ negsuc 5833806768547758079
unfolding days_duration
for_ever = refl

abbrev short_runs : RetentionPolicy
short_runs = record {
  logs_ttl_days = pos 0;
  reports_ttl_days = pos 0;
  sources_ttl_days = pos 0;
  binaries_ttl_days = pos 0;
  runs_ttl_days = pos 30;
  archive_only = true;
}

merge_breaks_example : validate (merge default_retention_policy short_runs) ≡ some validation
unfolding validate ◌+ℤ◌
merge_breaks_example =
    merge_breaks default_retention_policy short_runs refl refl refl (omega arith) (omega arith)

long_retention_expires_all_example :
    (validate (record default_retention_policy { logs_ttl_days = pos 120000 }) ≡ none)
    × (pos 1800000000000000000 +ℤ pos 1
        ≤ℤ cutoff
            (pos 1800000000000000000)
            (logs_duration (record default_retention_policy { logs_ttl_days = pos 120000 })))
long_retention_expires_all_example =
    long_retention_expires_all (pos 1800000000000000000) 120000 (omega arith) (omega arith)
