-- ===== src/Housekeeping/Cycle.antt =====
-- internal/application/service/housekeeping_service.go: RunHousekeeping, step by step.
use vuhive_cloud.Common.{
  ◌+◌, ◌*◌, not, ◌&&◌, Option, none, some, List, [], ◌∷◌, map, length, Text, is_empty,
  if◌then◌else◌, ok, err,
}
use vuhive_cloud.Common.Int.{ℤ, pos}
use vuhive_cloud.Common.Time.{Time, hour}
use vuhive_cloud.Retention.{
  RetentionPolicy, merge, cutoff, logs_duration, reports_duration, runs_duration, binaries_duration,
}
use vuhive_cloud.Run.{TestRun}
use vuhive_cloud.Housekeeping.{
  Ports, HousekeepingService, HousekeepingCommand, HousekeepingResult, empty_result, Failure,
  listing_logs, listing_reports, listing_runs, listing_orphans, listing_binaries, deleting_runs,
  with_failure, failed_with, each, purge_logs, purge_report, purge_orphan, purge_binary,
}

-- The state and the result so far.
pub record Progress (S : Type 0) : Type 0 where
  pub state : S
  pub result : HousekeepingResult

module _ {S : Type 0} (ports : Ports S) (service : HousekeepingService)
    (cmd : HousekeepingCommand) where
  abbrev merged : RetentionPolicy → Option RetentionPolicy → RetentionPolicy
  merged p none = p
  merged p (some q) = merge p q

  unfoldable pub effective_policy : S → RetentionPolicy
  effective_policy s = elim cmd.suite_id [
    | none ↦ service.global_policy
    | some id ↦
        if not (is_empty id) && service.has_suites
        then merged service.global_policy (ports.find_policy id s)
        else service.global_policy
  ]

  -- The loop of a step, which a dry run leaves out.
  unfoldable pub sweep {ℓ} :
      {A : Type ℓ} → (A → S × List Failure → S × List Failure) → List A → Progress S → Progress S
  sweep f xs p =
      if cmd.dry_run
      then p
      else (let (s, fs) = each f xs (p.state, p.result.errors) in
          record { state = s; result = record p.result { errors = fs } })

  abbrev pub noted : Failure → Progress S → Progress S
  noted f p = record p { result = with_failure f p.result }

  unfoldable pub logs_step : Time → RetentionPolicy → Progress S → Progress S
  logs_step now policy p =
      if not service.has_runs
      then p
      else elim (ports.list_for_logs (cutoff now (logs_duration policy)) cmd.suite_id 500 p.state) [
        | err e ↦ noted (listing_logs e) p
        | ok runs ↦ sweep (purge_logs ports service) runs (record p {
          result = record p.result { purged_logs_count = p.result.purged_logs_count + length runs };
        })
      ]

  unfoldable pub reports_step : Time → RetentionPolicy → Progress S → Progress S
  reports_step now policy p =
      if not service.has_runs
      then p
      else elim (ports.list_for_reports (cutoff now (reports_duration policy)) cmd.suite_id 500
          p.state) [
            | err e ↦ noted (listing_reports e) p
            | ok runs ↦ sweep (purge_report ports service) runs (record p {
              result = record p.result {
                purged_reports_count = p.result.purged_reports_count + length runs;
                archived_runs_count = p.result.archived_runs_count + length runs;
              };
            })
          ]

  abbrev run_id : TestRun → Text
  run_id r = r.id

  -- An empty list is not passed to the database.
  unfoldable pub prune_batch : List TestRun → Progress S → Progress S
  prune_batch [] p = p
  prune_batch (r ∷ rs) p =
      let ids = map run_id (r ∷ rs) in
      let counted : HousekeepingResult = record p.result {
        pruned_runs_count = p.result.pruned_runs_count + length ids;
      } in
      if cmd.dry_run
      then record p { result = counted }
      else (let (s, e) = ports.delete_batch ids p.state in
          record {
            state = s;
            result = record counted { errors = failed_with deleting_runs e counted.errors };
          })

  unfoldable pub prune_step : Time → RetentionPolicy → Progress S → Progress S
  prune_step now policy p =
      if not (service.has_runs && not policy.archive_only)
      then p
      else elim (ports.list_for_prune (cutoff now (runs_duration policy)) cmd.suite_id 500
          p.state) [ err e ↦ noted (listing_runs e) p | ok runs ↦ prune_batch runs p ]

  unfoldable pub orphans_step : Time → Progress S → Progress S
  orphans_step now p =
      if not service.has_artifacts
      then p
      else elim (ports.list_orphans (cutoff now (pos (24 * hour))) 200 p.state) [
        | err e ↦ noted (listing_orphans e) p
        | ok arts ↦ sweep (purge_orphan ports service) arts (record p {
          result = record p.result {
            purged_artifacts_count = p.result.purged_artifacts_count + length arts;
          };
        })
      ]

  unfoldable pub binaries_step : Time → RetentionPolicy → Progress S → Progress S
  binaries_step now policy p =
      if not service.has_artifacts
      then p
      else elim (ports.list_expired (cutoff now (binaries_duration policy)) cmd.suite_id 200
          p.state) [
            | err e ↦ noted (listing_binaries e) p
            | ok arts ↦ sweep (purge_binary ports service) arts (record p {
              result = record p.result {
                purged_binaries_count = p.result.purged_binaries_count + length arts;
              };
            })
          ]

  -- `elapsed` is `time.Since(start).Milliseconds()`.
  unfoldable pub run_housekeeping : Time → ℤ → S → S × HousekeepingResult
  run_housekeeping now elapsed s =
      let policy = effective_policy s in
      let begun : Progress S = record { state = s; result = empty_result } in
      let done = binaries_step now policy (
        orphans_step now
          (prune_step now policy (reports_step now policy (logs_step now policy begun)))) in
      (done.state, record done.result { duration_ms = elapsed })
