-- ===== src/Schedule/Tests.antt =====
-- internal/application/service/schedule_service.go: a database and a cluster as two association lists.
use vuhive_cloud.Common.{
  ◌≡◌, refl, true, false, Bool, none, some, Option, [], ◌∷◌, Text, codes, trim_space, trim_left,
  trim_right, is_space, Result, ok, err, not_found, conflict, text_eq_refl,
}
use vuhive_cloud.Common.Int.{pos}
use vuhive_cloud.Common.Dict.{Dict, lookup, insert, delete, lookup-insert, lookup-delete}
use vuhive_cloud.RunService.Memory.{suite, artifact}
use vuhive_cloud.Schedule.{Schedule, new_schedule, validate_cron_expression, deactivate}
use vuhive_cloud.Schedule.Service.{
  Ports, CreateScheduleRequest, create_schedule, prepare, config_key, provision, settle_job,
  update_schedule, revise, synchronize, delete_schedule,
}
use vuhive_cloud.Schedule.Syncing.{
  creating, updating, IsLawful, InStep, returned-InStep, deleted_without_job,
}

abbrev World : Type 0
World = Dict Schedule × Dict Schedule

abbrev found_in : Option Schedule → Result Schedule
found_in none = err not_found
found_in (some x) = ok x

abbrev memory : Ports World
memory = record {
  find_suite = λ id s. ok suite;
  find_artifact = λ id s. ok artifact;
  find_configuration = λ id s. err not_found;
  find_profile = λ id s. ok (codes "p1");
  find_schedule = λ id s. found_in (lookup id s.0);
  list_all = λ s. ok [];
  save_schedule = λ x s. ((insert x.id x s.0, s.1), none);
  delete_row = λ id s. ((delete id s.0, s.1), none);
  create_cron_job = λ x p keys s. ((s.0, insert x.id x s.1), ok x.k8s_cron_job_name);
  update_cron_job = λ x s. ((s.0, insert x.id x s.1), none);
  delete_cron_job = λ name namespace s. (s, some conflict);
}

abbrev rows : World → Text → Option Schedule
rows s j = lookup j s.0

abbrev jobs : World → Text → Option Schedule
jobs s j = lookup j s.1

inserted : (x : Schedule) (m : Dict Schedule) → lookup x.id (insert x.id x m) ≡ some x
inserted x m = rw (lookup-insert x.id x.id x m, text_eq_refl x.id) refl

memory-IsLawful : IsLawful memory rows jobs
memory-IsLawful = record {
  saved_row = λ x s j h. lookup-insert x.id j x s.0;
  saved_job = λ x s j. refl;
  deleted_row = λ k s j h. lookup-delete k j s.0;
  deleted_job = λ k s j. refl;
  created_job = λ x p keys s name h. inserted x s.1;
  not_created = λ x p keys s e j h. cc;
  created_row = λ x p keys s j. refl;
  updated_job = λ x s h. inserted x s.1;
  kept_job = λ name namespace s e h. refl;
}

abbrev any_cron : Text → Bool
any_cron t = true

abbrev nightly : CreateScheduleRequest
nightly = record {
  suite_id = codes "s1";
  artifact_id = codes "a1";
  config_id = none;
  runner_profile_id = codes "p1";
  name = codes "nightly";
  cron_expr = codes " @daily ";
}

abbrev made : Schedule
made = record {
  id = codes "12345678-9";
  suite_id = suite.id;
  artifact_id = artifact.id;
  configuration_id = none;
  runner_profile_id = codes "p1";
  name = codes "nightly";
  cron_expression = codes "@daily";
  k8s_cron_job_name = codes "vuhive-sched-12345678";
  is_active = true;
  created_at = pos 5;
  updated_at = pos 5;
}

abbrev held : World
held = ((codes "12345678-9", made) ∷ [], (codes "12345678-9", made) ∷ [])

creates :
    (create_schedule memory any_cron (codes "12345678-9") (pos 5) nightly ([], [])).1 ≡ ok made
unfolding create_schedule prepare config_key validate_cron_expression new_schedule provision
    settle_job insert trim_space trim_left trim_right is_space
creates = refl

pauses :
    (update_schedule memory any_cron (pos 6) (codes "12345678-9") none (some false) held).1
    ≡ ok (record made { is_active = false; updated_at = pos 6 })
unfolding update_schedule revise synchronize deactivate lookup insert trim_space trim_left
    trim_right is_space
pauses = refl

returned-InStep_example :
    InStep memory any_cron memory-IsLawful made
      (create_schedule memory any_cron (codes "12345678-9") (pos 5) nightly ([], [])).0
returned-InStep_example =
    returned-InStep memory any_cron memory-IsLawful (creating (codes "12345678-9") nightly) (pos 5)
      ([], []) made creates

paused-InStep :
    InStep memory any_cron memory-IsLawful
      (record made { is_active = false; updated_at = pos 6 })
      (update_schedule memory any_cron (pos 6) (codes "12345678-9") none (some false) held).0
paused-InStep =
    returned-InStep memory any_cron memory-IsLawful
      (updating (codes "12345678-9") none (some false)) (pos 6) held
      (record made { is_active = false; updated_at = pos 6 }) pauses

finds_made : memory.find_schedule (trim_space (codes "12345678-9")) held ≡ ok made
unfolding lookup trim_space trim_left trim_right is_space
finds_made = refl

deleted_without_job_example :
    ((delete_schedule memory any_cron (codes "12345678-9") held).1 ≡ none)
    × (rows
          (delete_schedule memory any_cron (codes "12345678-9") held).0
          (trim_space (codes "12345678-9"))
        ≡ none)
    × ((j : Text)
        → jobs (delete_schedule memory any_cron (codes "12345678-9") held).0 j ≡ jobs held j)
unfolding trim_space trim_left trim_right is_space
deleted_without_job_example =
    deleted_without_job memory any_cron memory-IsLawful (codes "12345678-9") held made conflict refl
      finds_made refl refl
