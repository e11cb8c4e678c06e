-- ===== src/Housekeeping.antt =====
-- internal/application/service/housekeeping_service.go: the housekeeping cycle over its ports. Logging
-- is left out; an entry of the result's errors is the step that failed, the identifier it concerned
-- and the error. A pointer to a port that may be nil is a flag of the service.
pub mod Cycle
pub mod Bucket
mod Safety
mod Tests
use vuhive_cloud.Common.{
  ℕ, ◌+◌, ◌≡◌, Bool, true, false, not, ◌&&◌, Option, none, some, List, [], ◌∷◌, ◌++◌, map, length,
  Text, is_empty, if◌then◌else◌, Error, Result, ok, err,
}
use vuhive_cloud.Common.Int.{ℤ, pos}
use vuhive_cloud.Common.Time.{Time, add, hour}
use vuhive_cloud.Retention.{
  RetentionPolicy, default_retention_policy, validate, merge, cutoff, logs_duration,
  reports_duration, runs_duration, binaries_duration,
}
use vuhive_cloud.Run.{TestRun}
use vuhive_cloud.Artifact.{Artifact}

pub data Failure : Type 0 where
  listing_logs listing_reports listing_runs listing_orphans listing_binaries deleting_runs :
      Error → Failure
  clearing_logs archiving deleting_artifact clearing_binary : Text → Error → Failure

pub record HousekeepingResult : Type 0 where
  pub purged_logs_count : ℕ
  pub purged_reports_count : ℕ
  pub purged_sources_count : ℕ
  pub purged_binaries_count : ℕ
  pub pruned_runs_count : ℕ
  pub archived_runs_count : ℕ
  pub purged_artifacts_count : ℕ
  pub duration_ms : ℤ
  pub errors : List Failure

abbrev pub empty_result : HousekeepingResult
empty_result = record {
  purged_logs_count = 0;
  purged_reports_count = 0;
  purged_sources_count = 0;
  purged_binaries_count = 0;
  pruned_runs_count = 0;
  archived_runs_count = 0;
  purged_artifacts_count = 0;
  duration_ms = pos 0;
  errors = [];
}

-- The driven ports. `find_policy` is the retention policy of a suite that is found and has one.
pub record Ports (S : Type 0) : Type 0 where
  pub find_policy : Text → S → Option RetentionPolicy
  pub list_for_logs : Time → Option Text → ℕ → S → Result (List TestRun)
  pub list_for_reports : Time → Option Text → ℕ → S → Result (List TestRun)
  pub list_for_prune : Time → Option Text → ℕ → S → Result (List TestRun)
  pub list_orphans : Time → ℕ → S → Result (List Artifact)
  pub list_expired : Time → Option Text → ℕ → S → Result (List Artifact)
  pub delete_object : Text → S → S × Option Error
  pub clear_logs_key : Text → S → S × Option Error
  pub archive_run : Text → S → S × Option Error
  pub delete_batch : List Text → S → S × Option Error
  pub delete_artifact : Text → S → S × Option Error
  pub clear_binary_keys : Text → S → S × Option Error

pub record HousekeepingService : Type 0 where
  pub has_suites : Bool
  pub has_artifacts : Bool
  pub has_runs : Bool
  pub has_storage : Bool
  pub global_policy : RetentionPolicy

pub record HousekeepingCommand : Type 0 where
  pub suite_id : Option Text
  pub dry_run : Bool

-- `NewHousekeepingService`: a policy that is not valid is replaced by the default.
unfoldable pub initial_policy : RetentionPolicy → RetentionPolicy
unfolding validate
initial_policy p = elim (validate p) [ none ↦ p | some e ↦ default_retention_policy ]

abbrev pub failed_with : (Error → Failure) → Option Error → List Failure → List Failure
failed_with f none fs = fs
failed_with f (some e) fs = fs ++ (f e ∷ [])

abbrev pub with_failure : Failure → HousekeepingResult → HousekeepingResult
with_failure f r = record r { errors = r.errors ++ (f ∷ []) }

module _ {S : Type 0} (ports : Ports S) (service : HousekeepingService) where
  -- A deletion in the bucket, where there is one and the key is set; its error is dropped.
  unfoldable pub drop_object : Text → S → S
  drop_object key s =
      if service.has_storage && not (is_empty key) then (ports.delete_object key s).0 else s

  -- One turn of the loop of each step, after the count.
  unfoldable pub purge_logs : TestRun → S × List Failure → S × List Failure
  purge_logs run (s, fs) =
      let (s', e) = ports.clear_logs_key run.id (drop_object run.s3_logs_key s) in
      (s', failed_with (clearing_logs run.id) e fs)

  unfoldable pub purge_report : TestRun → S × List Failure → S × List Failure
  purge_report run (s, fs) =
      let (s', e) = ports.archive_run run.id (drop_object run.s3_report_key s) in
      (s', failed_with (archiving run.id) e fs)

  unfoldable pub purge_orphan : Artifact → S × List Failure → S × List Failure
  purge_orphan a (s, fs) =
      let (s', e) =
        ports.delete_artifact a.id
          (drop_object a.s3_binary_key (drop_object a.build_logs_s3_key s)) in
      (s', failed_with (deleting_artifact a.id) e fs)

  unfoldable pub purge_binary : Artifact → S × List Failure → S × List Failure
  purge_binary a (s, fs) =
      let (s', e) = ports.clear_binary_keys a.id (drop_object a.s3_binary_key s) in
      (s', failed_with (clearing_binary a.id) e fs)

-- `for _, x := range xs`.
unfoldable pub each {ℓ κ} : {A : Type ℓ} {B : Type κ} → (A → B → B) → List A → B → B
each f [] b = b
each f (x ∷ xs) b = each f xs (f x b)
