-- ===== src/Housekeeping/Tests.antt =====
-- internal/application/service/housekeeping_service.go on a small database.
use vuhive_cloud.Common.{Bool, ◌&&◌, is_some}
use vuhive_cloud.Secrets.Template.{strip_prefix}
use vuhive_cloud.Storage.{key_summary_report, key_configuration}
use vuhive_cloud.Housekeeping.Bucket.{
  LifecycleRule, bucket_rules, expirations, rule_days, rules_cover_too_much,
}
use vuhive_cloud.Common.{
  trim_space, trim_left, trim_right, is_space, ℕ, suc, ◌≡◌, refl, true, false, none, some, List, [],
  ◌∷◌, Text, codes, ok,
}
use vuhive_cloud.Common.Int.{pos}
use vuhive_cloud.Retention.{default_retention_policy}
use vuhive_cloud.Run.{TestRun, completed, no_metrics}
use vuhive_cloud.Housekeeping.{
  Ports, HousekeepingService, HousekeepingCommand, each, drop_object, purge_logs,
}
use vuhive_cloud.Housekeeping.Cycle.{
  run_housekeeping, effective_policy, logs_step, sweep, reports_step, prune_step, prune_batch,
  orphans_step, binaries_step,
}
use vuhive_cloud.Housekeeping.Safety.{dry_run_untouched}

abbrev old_run : TestRun
old_run = record {
  id = codes "r1";
  suite_id = codes "s1";
  artifact_id = codes "a1";
  configuration_id = none;
  runner_profile_id = codes "p1";
  schedule_id = none;
  status = completed;
  k8s_job_name = [];
  k8s_namespace = codes "runners";
  started_at = some (pos 2);
  finished_at = some (pos 3);
  exit_code = some (pos 0);
  sla_passed = some true;
  metrics = no_metrics;
  s3_report_key = [];
  s3_logs_key = codes "log";
  summary_json = [];
  abort_reason = [];
  created_at = pos 1;
}

-- The rows of the runs, and how many writes the other ports have seen.
abbrev small : Ports (List Text × ℕ)
small = record {
  find_policy = λ id s. none;
  list_for_logs = λ t suite n s. ok (old_run ∷ []);
  list_for_reports = λ t suite n s. ok [];
  list_for_prune = λ t suite n s. ok (old_run ∷ []);
  list_orphans = λ t n s. ok [];
  list_expired = λ t suite n s. ok [];
  delete_object = λ key s. ((s.0, suc s.1), none);
  clear_logs_key = λ id s. ((s.0, suc s.1), none);
  archive_run = λ id s. ((s.0, suc s.1), none);
  delete_batch = λ ids s. (([], s.1), none);
  delete_artifact = λ id s. ((s.0, suc s.1), none);
  clear_binary_keys = λ id s. ((s.0, suc s.1), none);
}

abbrev archiving_service : HousekeepingService
archiving_service = record {
  has_suites = true;
  has_artifacts = true;
  has_runs = true;
  has_storage = true;
  global_policy = record default_retention_policy { archive_only = true };
}

abbrev pruning_service : HousekeepingService
pruning_service = record archiving_service { global_policy = default_retention_policy }

abbrev for_real : HousekeepingCommand
for_real = record { suite_id = none; dry_run = false }

abbrev rehearsal : HousekeepingCommand
rehearsal = record { suite_id = none; dry_run = true }

prunes :
    (run_housekeeping small pruning_service for_real (pos 9) (pos 0) (codes "r1" ∷ [], 0)).0
    ≡ ([], 2)
unfolding run_housekeeping logs_step reports_step prune_step prune_batch orphans_step binaries_step
    sweep each purge_logs drop_object effective_policy
prunes = refl

counts_rehearsal :
    (run_housekeeping small pruning_service rehearsal
      (pos 9)
      (pos 0)
      (codes "r1" ∷ [], 0)).1.pruned_runs_count
    ≡ 1
unfolding run_housekeeping logs_step reports_step prune_step prune_batch orphans_step binaries_step
    sweep effective_policy
counts_rehearsal = refl

only_archives :
    (effective_policy small archiving_service for_real (codes "r1" ∷ [], 0)).archive_only ≡ true
unfolding effective_policy
only_archives = refl

dry_run_untouched_example :
    (run_housekeeping small pruning_service rehearsal (pos 9) (pos 0) (codes "r1" ∷ [], 0)).0
    ≡ (codes "r1" ∷ [], 0)
dry_run_untouched_example =
    dry_run_untouched small pruning_service rehearsal refl (pos 9) (pos 0) (codes "r1" ∷ [], 0)

report_of_r1 : key_summary_report (codes "r1") ≡ ok (codes "runs/r1/summary.json")
unfolding key_summary_report trim_space trim_left trim_right is_space
report_of_r1 = refl

config_of_s1 : key_configuration (codes "s1") (codes "c1") ≡ ok (codes "suites/s1/configs/c1.yaml")
unfolding key_configuration trim_space trim_left trim_right is_space
config_of_s1 = refl

-- A storage that reads the rules as documented.
abbrev prefix_covers : LifecycleRule → Text → Bool
prefix_covers rule key = rule.enabled && is_some (strip_prefix rule.prefix key)

rules_cover_too_much_example :
    (expirations prefix_covers
        (codes "runs/r1/summary.json")
        (bucket_rules default_retention_policy)
      ≡ rule_days (pos 14) ∷ [])
    × (expirations prefix_covers
          (codes "suites/s1/configs/c1.yaml")
          (bucket_rules default_retention_policy)
        ≡ rule_days (pos 30) ∷ [])
rules_cover_too_much_example =
    rules_cover_too_much prefix_covers default_retention_policy (codes "r1") (codes "s1")
      (codes "c1") (codes "runs/r1/summary.json") (codes "suites/s1/configs/c1.yaml")
      (λ rule key. refl) report_of_r1 config_of_s1
