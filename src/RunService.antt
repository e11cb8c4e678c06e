-- ===== src/RunService.antt =====
-- internal/application/service/run_service.go over its ports. Operations has TriggerRun, AbortRun,
-- CompleteRun, CleanupRun and DeleteRun, Queries the rest. Logging is left out. The ports' state, the
-- database, the bucket and the cluster, is of any type; a pointer to an optional port that may be nil
-- is a flag of the service.
pub mod Operations
mod Laws
pub mod Queries
mod Storing
mod Completion
mod Triggering
mod Keeping
mod Calls
mod Finality
pub mod Memory
mod Tests
use vuhive_cloud.Common.{
  ℕ, ◌*◌, ◌^◌, ◌-◌, ◌≡◌, ◌||◌, ◌&&◌, Bool, true, false, not, Option, none, some, List, [], ◌∷◌,
  ◌++◌, Text, codes, trim_space, is_empty, is_blank, text_eq, ◌==◌, if◌then◌else◌, Error, not_found,
  conflict, validation, terminal_state, invalid_state_transition, Result, ok, err, reject_if, ◌>>=◌,
  ◌>>◌,
}
use vuhive_cloud.Common.Int.{ℤ, pos, negsuc}
use vuhive_cloud.Common.Time.{Time}
use vuhive_cloud.Suite.{TestSuite, is_active}
use vuhive_cloud.Artifact.{Artifact, ArtifactStatus}
use vuhive_cloud.Run.{
  TestRun, RunMetrics, is_terminal, is_queued, new_test_run, start, complete, fail, abort,
  set_exit_code, set_k8s_job_name,
}

-- What the service passes to the orchestrator beside the run and the profile.
pub record RunnerJobOptions : Type 0 where
  pub s3_binary_key : Text
  pub s3_config_key : Text
  pub active_deadline_seconds : Option ℤ

-- The driven ports. A configuration is read for its suite and its key, a profile for its identifier.
pub record Ports (S : Type 0) : Type 0 where
  pub find_suite : Text → S → Result TestSuite
  pub find_artifact : Text → S → Result Artifact
  pub find_configuration : Text → S → Result (Text × Text)
  pub find_profile : Text → S → Result Text
  pub find_run : Text → S → Result TestRun
  pub find_run_by_job : Text → S → Result TestRun
  pub save_run : TestRun → S → S × Option Error
  pub delete_run : Text → S → S × Option Error
  pub dispatch_job : TestRun → Text → RunnerJobOptions → S → S × Result Text
  pub abort_job : Text → Text → S → S × Option Error
  pub delete_object : Text → S → S × Option Error
  pub download : Text → S → Option Text
  pub publish_aborted : Text → Text → Text → Time → S → S × Option Error

pub record ParsedReport : Type 0 where
  pub metrics : RunMetrics
  pub raw_json : Text
  pub sla_passed : Bool

pub record TriggerRunCommand : Type 0 where
  pub suite_id : Text
  pub artifact_id : Text
  pub configuration_id : Option Text
  pub runner_profile_id : Text
  pub runner_namespace : Option Text
  pub active_deadline_seconds : Option ℤ

pub record CompleteRunCommand : Type 0 where
  pub run_id : Text
  pub exit_code : Option ℤ
  pub report_key : Text
  pub logs_key : Text
  pub finished_at : Option Time
  pub summary_json : Text

-- `errors.Is(err, ErrNotFound)`.
abbrev pub is_not_found : Error → Bool
is_not_found not_found = true
is_not_found _ = false

abbrev pub is_ready : Artifact → Bool
is_ready a = elim a.status [ ArtifactStatus.ready ↦ true | _ ↦ false ]

-- `time.Time{}`, the first of January of year 1, and `IsZero`.
abbrev is_zero : Time → Bool
is_zero (pos n) = false
is_zero (negsuc n) = n == 62135596800000000000 - 1

abbrev pub finish_time_of : Time → Option Time → Time
finish_time_of now none = now
finish_time_of now (some t) = if is_zero t then now else t

-- The first text that is not empty.
abbrev pub first_key : Text → Text → Text → Text
first_key given stored default =
    if not (is_blank given)
    then trim_space given
    else if not (is_empty stored)
    then stored
    else default

-- The run as `Complete` sees it: started, where it was queued.
abbrev pub started : Time → TestRun → TestRun
started t r = if is_queued r.status then (start r.k8s_job_name t r).0 else r

abbrev pub exit_code_or_zero : Option ℤ → ℤ
exit_code_or_zero none = pos 0
exit_code_or_zero (some c) = c

abbrev pub with_exit_code : Option ℤ → TestRun → TestRun
with_exit_code none r = r
with_exit_code (some c) r = set_exit_code c r

-- The configured optional parts of the service.
pub record RunService : Type 0 where
  pub has_storage : Bool
  pub has_publisher : Bool
  pub runner_namespace : Text

abbrev pub is_none : Option Error → Bool
is_none none = true
is_none (some e) = false
