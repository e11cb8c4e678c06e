-- ===== src/RunService/Memory.antt =====
-- Ports for the service of internal/application/service/run_service.go that keep the runs in a list,
-- and the values that the tests use.
use vuhive_cloud.Common.{
  ◌≡◌, refl, ◌∙◌, inl, inr, true, false, none, some, List, [], ◌∷◌, Text, codes, text_eq,
  text_eq_iff, text_eq_refl, if◌then◌else◌, not_found, timeout, Result, ok, err, arith, Bool-cases,
}
use vuhive_cloud.Common.Int.{pos}
use vuhive_cloud.Suite.{TestSuite, active}
use vuhive_cloud.Artifact.{Artifact, ArtifactStatus, linux_amd64}
use vuhive_cloud.Run.{TestRun, queued, failed, aborted, no_metrics}
use vuhive_cloud.RunService.{
  Ports, RunService, RunnerJobOptions, ParsedReport, TriggerRunCommand, CompleteRunCommand,
}
use vuhive_cloud.RunService.Laws.{IsLawful}

unfoldable pub find_in : Text → List TestRun → Result TestRun
find_in j [] = err not_found
find_in j (r ∷ rs) = if text_eq r.id j then ok r else find_in j rs

unfoldable pub remove : Text → List TestRun → List TestRun
remove j [] = []
remove j (r ∷ rs) = if text_eq r.id j then remove j rs else r ∷ remove j rs

abbrev pub suite : TestSuite
suite = record {
  id = codes "s1";
  name = codes "checkout";
  description = [];
  state = active;
  retention_policy = none;
  created_at = pos 1;
  updated_at = pos 1;
}

abbrev pub artifact : Artifact
artifact = record {
  id = codes "a1";
  suite_id = codes "s1";
  platform = linux_amd64;
  description = [];
  s3_binary_key = codes "bin";
  sha256_checksum = [];
  build_logs_s3_key = [];
  status = ArtifactStatus.ready;
  error_message = [];
  created_at = pos 1;
}

-- One suite, one artifact, one profile, a cluster that answers `job`, and a bucket without objects.
abbrev pub memory : Result Text → Ports (List TestRun)
memory job = record {
  find_suite = λ id s. ok suite;
  find_artifact = λ id s. ok artifact;
  find_configuration = λ id s. err not_found;
  find_profile = λ id s. ok id;
  find_run = find_in;
  find_run_by_job = λ name s. err not_found;
  save_run = λ r s. (r ∷ s, none);
  delete_run = λ id s. (remove id s, none);
  dispatch_job = λ r profile o s. (s, job);
  abort_job = λ name namespace s. (s, none);
  delete_object = λ key s. (s, none);
  download = λ key s. none;
  publish_aborted = λ id suite reason now s. (s, none);
}

find_in_id : (j : Text) (s : List TestRun) (r : TestRun) → find_in j s ≡ ok r → r.id ≡ j
unfolding find_in
find_in_id j [] r h = cc
find_in_id j (q ∷ s) r h = elim (Bool-cases (text_eq q.id j)) [
  | inl e ↦ ground (arith, e, h, text_eq_iff q.id j)
  | inr e ↦ find_in_id j s r (ground (arith, e, h))
]

find_in-remove :
    (k : Text) (s : List TestRun) (j : Text)
    → find_in j (remove k s) ≡ (if text_eq k j then err not_found else find_in j s)
unfolding find_in remove
find_in-remove k [] j = ground arith
find_in-remove k (q ∷ s) j =
    ground (arith, text_eq_iff k j, text_eq_iff q.id k, text_eq_iff q.id j, find_in-remove k s j)

pub memory-IsLawful : (job : Result Text) → IsLawful (memory job)
unfolding find_in
memory-IsLawful job = record {
  save_found = λ r s h. rw (text_eq_refl r.id) refl;
  save_other = λ r s j h. rw h refl;
  found_id = find_in_id;
  found_by_job = λ j s r h. cc;
  delete_gone = λ j s h. find_in-remove j s j ∙ rw (text_eq_refl j) refl;
  delete_other = λ k s j h. find_in-remove k s j ∙ rw h refl;
  dispatch_keeps = λ r profile o s j. refl;
  abort_job_keeps = λ name namespace s j. refl;
  delete_object_keeps = λ key s j. refl;
  publish_keeps = λ id suite reason now s j. refl;
}

abbrev pub service : RunService
service = record { has_storage = true; has_publisher = true; runner_namespace = codes "runners" }

-- No report parses.
abbrev pub no_report : Text → Result ParsedReport
no_report summary = err timeout

abbrev pub command : TriggerRunCommand
command = record {
  suite_id = codes "s1";
  artifact_id = codes " a1";
  configuration_id = none;
  runner_profile_id = codes "p1";
  runner_namespace = none;
  active_deadline_seconds = none;
}

abbrev pub completion : CompleteRunCommand
completion = record {
  run_id = codes "r1";
  exit_code = some (pos 2);
  report_key = [];
  logs_key = [];
  finished_at = none;
  summary_json = [];
}

abbrev pub waiting : TestRun
waiting = record {
  id = codes "r1";
  suite_id = codes "s1";
  artifact_id = codes "a1";
  configuration_id = none;
  runner_profile_id = codes "p1";
  schedule_id = none;
  status = queued;
  k8s_job_name = [];
  k8s_namespace = codes "runners";
  started_at = none;
  finished_at = none;
  exit_code = none;
  sla_passed = none;
  metrics = no_metrics;
  s3_report_key = [];
  s3_logs_key = [];
  summary_json = [];
  abort_reason = [];
  created_at = pos 10;
}

abbrev pub dispatched : TestRun
dispatched = record waiting { k8s_job_name = codes "job" }

abbrev pub stopped : TestRun
stopped = record dispatched {
  status = aborted;
  finished_at = some (pos 30);
  abort_reason = codes "manual cancellation";
}

abbrev pub missed : TestRun
missed = record dispatched {
  status = failed;
  started_at = some (pos 40);
  finished_at = some (pos 40);
  exit_code = some (pos 2);
  sla_passed = some false;
  s3_logs_key = codes "runs/r1/run.log";
}

abbrev pub options : RunnerJobOptions
options = record { s3_binary_key = codes "bin"; s3_config_key = []; active_deadline_seconds = none }

abbrev pub good : Ports (List TestRun)
good = memory (ok (codes "job"))

abbrev pub broken : Ports (List TestRun)
broken = memory (err timeout)
