-- ===== src/Schedule/Service.antt =====
-- internal/application/service/schedule_service.go over its ports. Logging is left out.
use vuhive_cloud.Common.{
  Bool, true, false, not, ◌&&◌, ◌||◌, Option, none, some, List, [], Text, trim_space, is_blank,
  text_eq, if◌then◌else◌, Error, Result, ok, err, reject_if, ◌>>◌, ◌>>=◌, validation, empty_name,
  invalid_state_transition,
}
use vuhive_cloud.Common.Time.{Time}
use vuhive_cloud.Suite.{TestSuite, is_active}
use vuhive_cloud.Artifact.{Artifact}
use vuhive_cloud.RunService.{is_ready}
use vuhive_cloud.Schedule.{
  Schedule, validate_cron_expression, new_schedule, update_cron_expression, activate, deactivate,
}

-- What is passed to the orchestrator beside the schedule and the profile: the keys of the binary and of
-- the configuration.
pub record JobKeys : Type 0 where
  pub s3_binary_key : Text
  pub s3_config_key : Text

-- The driven ports. A configuration is read for its suite and its key, a profile for its identifier.
pub record Ports (S : Type 0) : Type 0 where
  pub find_suite : Text → S → Result TestSuite
  pub find_artifact : Text → S → Result Artifact
  pub find_configuration : Text → S → Result (Text × Text)
  pub find_profile : Text → S → Result Text
  pub find_schedule : Text → S → Result Schedule
  pub list_all : S → Result (List Schedule)
  pub save_schedule : Schedule → S → S × Option Error
  pub delete_row : Text → S → S × Option Error
  pub create_cron_job : Schedule → Text → JobKeys → S → S × Result Text
  pub update_cron_job : Schedule → S → S × Option Error
  pub delete_cron_job : Text → Text → S → S × Option Error

pub record CreateScheduleRequest : Type 0 where
  pub suite_id : Text
  pub artifact_id : Text
  pub config_id : Option Text
  pub runner_profile_id : Text
  pub name : Text
  pub cron_expr : Text

module _ {S : Type 0} (ports : Ports S) (parses : Text → Bool) where
  unfoldable pub config_key : Option Text → TestSuite → S → Result Text
  config_key none suite s = ok []
  config_key (some c) suite s = if is_blank c then ok [] else (do
    found ← ports.find_configuration (trim_space c) s
    reject_if (not (text_eq found.0 suite.id)) validation
    ok found.1)

  -- The steps of `CreateSchedule` before the save: the schedule, the profile, the keys.
  unfoldable pub prepare :
      Text → Time → CreateScheduleRequest → S → Result (Schedule × Text × JobKeys)
  prepare uuid now req s = do
    reject_if
        (is_blank req.suite_id || (is_blank req.artifact_id || is_blank req.runner_profile_id))
        validation
    reject_if (is_blank req.name) empty_name
    validate_cron_expression parses (trim_space req.cron_expr)
    suite ← ports.find_suite (trim_space req.suite_id) s
    reject_if (not (is_active suite.state)) invalid_state_transition
    artifact ← ports.find_artifact (trim_space req.artifact_id) s
    reject_if (not (text_eq artifact.suite_id suite.id)) validation
    reject_if (not (is_ready artifact)) invalid_state_transition
    key ← config_key req.config_id suite s
    profile ← ports.find_profile (trim_space req.runner_profile_id) s
    schedule ←
        new_schedule parses uuid now suite.id artifact.id req.config_id profile
          (trim_space req.name) (trim_space req.cron_expr)
    ok (schedule, profile, record { s3_binary_key = artifact.s3_binary_key; s3_config_key = key })

  -- After `CreateCronJob`: a schedule without its job is deleted again.
  unfoldable pub settle_job : Schedule → Result Text → S → S × Result Schedule
  settle_job schedule (ok job) s = (s, ok schedule)
  settle_job schedule (err e) s = ((ports.delete_row schedule.id s).0, err e)

  unfoldable pub provision : Schedule → Text → JobKeys → S → S × Result Schedule
  provision schedule profile keys s =
      let (s1, saved) = ports.save_schedule schedule s in
      elim saved [
        | some e ↦ (s1, err e)
        | none ↦
            (let (s2, job) = ports.create_cron_job schedule profile keys s1 in
              settle_job schedule job s2)
      ]

  unfoldable pub create_schedule : Text → Time → CreateScheduleRequest → S → S × Result Schedule
  create_schedule uuid now req s = elim (prepare uuid now req s) [
    | err e ↦ (s, err e)
    | ok prepared ↦ provision prepared.0 prepared.1 prepared.2 s
  ]

  unfoldable pub get_schedule : Text → S → Result Schedule
  get_schedule id s = reject_if (is_blank id) validation >> ports.find_schedule (trim_space id) s

  unfoldable pub list_schedules : S → Result (List Schedule)
  list_schedules s = ports.list_all s

  -- `cronExpr == nil || strings.TrimSpace(*cronExpr) == ""`.
  abbrev pub no_expression : Option Text → Bool
  no_expression none = true
  no_expression (some e) = is_blank e

  abbrev pub no_flag : Option Bool → Bool
  no_flag none = true
  no_flag (some b) = false

  abbrev pub with_expression : Time → Option Text → Schedule → Result Schedule
  with_expression now none x = ok x
  with_expression now (some e) x =
      if is_blank e then ok x else update_cron_expression parses now (trim_space e) x

  abbrev pub with_flag : Time → Option Bool → Schedule → Result Schedule
  with_flag now none x = ok x
  with_flag now (some true) x = if x.is_active then ok x else activate now x
  with_flag now (some false) x = if x.is_active then deactivate now x else ok x

  -- The steps of `UpdateSchedule` before the orchestrator is called.
  unfoldable pub revise : Time → Text → Option Text → Option Bool → S → Result Schedule
  revise now id cron active s = do
    reject_if (is_blank id) validation
    reject_if (no_expression cron && no_flag active) validation
    found ← ports.find_schedule (trim_space id) s
    x ← with_expression now cron found
    with_flag now active x

  abbrev pub saved_or : Schedule → Option Error → Result Schedule
  saved_or x none = ok x
  saved_or x (some e) = err e

  unfoldable pub synchronize : Schedule → S → S × Result Schedule
  synchronize x s =
      let (s1, failed) = ports.update_cron_job x s in
      elim failed [
        | some e ↦ (s1, err e)
        | none ↦ (let (s2, e) = ports.save_schedule x s1 in (s2, saved_or x e))
      ]

  unfoldable pub update_schedule : Time → Text → Option Text → Option Bool → S → S × Result Schedule
  update_schedule now id cron active s = elim (revise now id cron active s) [
    | err e ↦ (s, err e)
    | ok x ↦ synchronize x s
  ]

  -- The error of `DeleteCronJob` is only logged.
  unfoldable pub delete_schedule : Text → S → S × Option Error
  delete_schedule id s =
      elim (reject_if (is_blank id) validation >> ports.find_schedule (trim_space id) s) [
        | err e ↦ (s, some e)
        | ok x ↦ ports.delete_row (trim_space id) (ports.delete_cron_job x.k8s_cron_job_name [] s).0
      ]
