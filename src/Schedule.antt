-- ===== src/Schedule.antt =====
-- internal/domain/model/schedule.go: the recurring schedules. The parser of robfig/cron is a parameter,
-- `parses`: whether it accepts an expression. `uuid` is what `uuid.NewString` returns.
pub mod Service
mod Syncing
mod Tests
use vuhive_cloud.Common.{
  ℕ, zero, suc, ◌≡◌, Bool, true, false, not, ◌||◌, Option, none, some, List, [], ◌∷◌, ◌++◌, Text,
  codes, trim_space, is_blank, if◌then◌else◌, Error, Result, ok, err, reject_if, ◌>>◌, validation,
  empty_name, invalid_cron_expression, invalid_state_transition,
}
use vuhive_cloud.Common.Time.{Time}

pub record Schedule : Type 0 where
  pub id : Text
  pub suite_id : Text
  pub artifact_id : Text
  pub configuration_id : Option Text
  pub runner_profile_id : Text
  pub name : Text
  pub cron_expression : Text
  pub k8s_cron_job_name : Text
  pub is_active : Bool
  pub created_at : Time
  pub updated_at : Time

-- The configuration that is asked for, if it is not blank.
abbrev pub optional_id : Option Text → Option Text
optional_id none = none
optional_id (some c) = if is_blank c then none else some (trim_space c)

-- `id[:8]`.
abbrev pub first_chars : ℕ → Text → Text
first_chars zero t = []
first_chars (suc n) [] = []
first_chars (suc n) (c ∷ t) = c ∷ first_chars n t

module _ (parses : Text → Bool) where
  unfoldable pub validate_cron_expression : Text → Result (Unit {0})
  validate_cron_expression expr =
      reject_if (is_blank expr) invalid_cron_expression
      >> reject_if (not (parses (trim_space expr))) invalid_cron_expression

  unfoldable pub new_schedule :
      Text → Time → Text → Text → Option Text → Text → Text → Text → Result Schedule
  new_schedule uuid now suite artifact configuration profile title cron =
      reject_if (is_blank suite || (is_blank artifact || is_blank profile)) validation
      >> (reject_if (is_blank title) empty_name
          >> (validate_cron_expression cron
              >> ok (record {
                id = uuid;
                suite_id = trim_space suite;
                artifact_id = trim_space artifact;
                configuration_id = optional_id configuration;
                runner_profile_id = trim_space profile;
                name = trim_space title;
                cron_expression = trim_space cron;
                k8s_cron_job_name = codes "vuhive-sched-" ++ first_chars 8 uuid;
                is_active = true;
                created_at = now;
                updated_at = now;
              })))

  unfoldable pub new_schedule_with_id :
      Text
      → Text
      → Text
      → Option Text
      → Text
      → Text
      → Text
      → Text
      → Bool
      → Time
      → Time
      → Result Schedule
  new_schedule_with_id given suite artifact configuration profile title cron job active created
        updated =
      reject_if (is_blank suite || (is_blank artifact || is_blank profile)) validation
      >> (reject_if (is_blank title) empty_name
          >> (validate_cron_expression cron
              >> ok (record {
                id = given;
                suite_id = suite;
                artifact_id = artifact;
                configuration_id = configuration;
                runner_profile_id = profile;
                name = title;
                cron_expression = cron;
                k8s_cron_job_name = job;
                is_active = active;
                created_at = created;
                updated_at = updated;
              })))

  unfoldable pub update_cron_expression : Time → Text → Schedule → Result Schedule
  update_cron_expression now expr s =
      validate_cron_expression expr
      >> ok (record s { cron_expression = trim_space expr; updated_at = now })

unfoldable pub activate : Time → Schedule → Result Schedule
activate now s =
    reject_if s.is_active invalid_state_transition
    >> ok (record s { is_active = true; updated_at = now })

unfoldable pub deactivate : Time → Schedule → Result Schedule
deactivate now s =
    reject_if (not s.is_active) invalid_state_transition
    >> ok (record s { is_active = false; updated_at = now })
