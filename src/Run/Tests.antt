-- ===== src/Run/Tests.antt =====
-- internal/domain/model/run.go on concrete runs.
use vuhive_cloud.Common.{
  ◌≡◌, refl, ◌↔◌, true, none, some, List, [], ◌∷◌, codes, trim_space, Result, ok, terminal_state,
}
use vuhive_cloud.Common.Int.{pos}
use vuhive_cloud.Run.{
  queued, running, archived, TestRun, Call, starts, completes, aborts, archives, sets_namespace,
  no_metrics, new_test_run, step, run, duration_ms,
}
use vuhive_cloud.Run.Invariant.{IsConsistent, created_run-IsConsistent}
use vuhive_cloud.Run.Graph.{◌⟶◌, Moves, Leads, target, lifecycle_exact}

abbrev created : Result TestRun
created =
    new_test_run (codes "u1") (pos 10) (codes " s1 ") (codes "a1") none (codes "p1")
      (some (codes " ")) []

abbrev fresh : TestRun
fresh = record {
  id = codes "u1";
  suite_id = codes "s1";
  artifact_id = codes "a1";
  configuration_id = none;
  runner_profile_id = codes "p1";
  schedule_id = none;
  status = queued;
  k8s_job_name = [];
  k8s_namespace = codes "vuhive-runners";
  started_at = none;
  finished_at = none;
  exit_code = none;
  sla_passed = none;
  metrics = no_metrics;
  s3_report_key = [];
  s3_logs_key = [];
  summary_json = [];
  abort_reason = [];
  created_at = pos 10;
}

created-fresh : created ≡ ok fresh
unfolding new_test_run trim_space
created-fresh = refl

abbrev life : List Call
life =
    sets_namespace (codes " ns ")
    ∷ starts (codes "job-1") (pos 2000000000)
    ∷ completes no_metrics (codes "r") (codes "l") (7 ∷ []) true (pos 5500000000)
    ∷ aborts (codes "late") (pos 6000000000)
    ∷ archives (pos 7000000000)
    ∷ []

life_ends : (run life fresh).status ≡ archived
unfolding run step trim_space
life_ends = refl

life_took : duration_ms (pos 0) (run life fresh) ≡ some (pos 3500)
unfolding run step trim_space duration_ms
life_took = refl

late_abort : (step (aborts [] (pos 0)) (run life fresh)).1 ≡ some terminal_state
unfolding run step trim_space
late_abort = refl

created_run-IsConsistent_example : IsConsistent (run life fresh)
created_run-IsConsistent_example =
    created_run-IsConsistent (codes "u1") (pos 10) (codes " s1 ") (codes "a1") none (codes "p1")
      (some (codes " ")) [] fresh life created-fresh

abbrev start_fresh : Call
start_fresh = starts (codes "job-1") (pos 20)

lifecycle_exact_example :
    ((fresh.status ⟶ running) ↔ Moves fresh running)
    × (Leads start_fresh fresh running
        ↔ ((target start_fresh ≡ running) × (fresh.status ⟶ running)))
lifecycle_exact_example = lifecycle_exact fresh running start_fresh refl refl
