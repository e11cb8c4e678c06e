-- ===== src/RunService/Tests.antt =====
-- internal/application/service/run_service.go on concrete calls.
use vuhive_cloud.Common.{
  ◌≡◌, refl, true, none, some, List, [], ◌∷◌, codes, trim_space, Result, ok, is_ok, All,
}
use vuhive_cloud.Common.Int.{pos}
use vuhive_cloud.Suite.{TestSuite, active}
use vuhive_cloud.Artifact.{Artifact}
use vuhive_cloud.Run.{
  TestRun, no_metrics, queued, completed, aborted, abort, fail, start, set_k8s_job_name,
  new_test_run,
}
use vuhive_cloud.RunService.{is_ready}
use vuhive_cloud.RunService.Operations.{
  prepare_run, trigger_run, launch_run, settle_dispatch, abort_run, abort_and_save, announce,
  stop_job, save_and_return, complete_run, find_for_completion, save_unless, ingest, summary_data,
  delete_run, configuration_key,
}
use vuhive_cloud.RunService.Calls.{
  Operation, triggers, aborts, cleans, completes, deletes, Spares, perform_all,
}
use vuhive_cloud.RunService.Finality.{terminal_final}
use vuhive_cloud.RunService.Storing.{stale_abort_overwrites}
use vuhive_cloud.RunService.Completion.{complete_run_succeeds}
use vuhive_cloud.RunService.Triggering.{trigger_run_stores}
use vuhive_cloud.RunService.Memory.{
  find_in, suite, artifact, memory-IsLawful, service, no_report, command, completion, waiting,
  dispatched, stopped, missed, options, good, broken,
}

prepared :
    prepare_run broken service (codes "r1") (pos 10) command [] ≡ ok (waiting, codes "p1", options)
unfolding prepare_run configuration_key new_test_run trim_space
prepared = refl

triggered : (trigger_run good service (codes "r1") (pos 10) (pos 11) command []).1 ≡ ok dispatched
unfolding trigger_run prepare_run configuration_key new_test_run launch_run settle_dispatch
    save_and_return set_k8s_job_name trim_space
triggered = refl

aborts_waiting : (abort_run good service (pos 30) (codes " r1") [] (dispatched ∷ [])).1 ≡ ok stopped
unfolding abort_run find_in abort_and_save announce stop_job save_and_return abort trim_space
aborts_waiting = refl

completes_missed :
    (complete_run good service no_report (pos 40) completion (dispatched ∷ [])).1 ≡ ok missed
unfolding complete_run find_for_completion find_in start ingest fail summary_data save_unless
    save_and_return trim_space
completes_missed = refl

deletes_stopped : (delete_run good service (codes "r1") (stopped ∷ [])).1 ≡ none
unfolding delete_run find_in trim_space
deletes_stopped = refl

found_stopped : find_in (codes "r1") (stopped ∷ []) ≡ ok stopped
unfolding find_in
found_stopped = refl

found_waiting : find_for_completion good service (codes "r1") (dispatched ∷ []) ≡ ok dispatched
unfolding find_for_completion find_in
found_waiting = refl

id_trimmed : trim_space (codes "r1") ≡ codes "r1"
unfolding trim_space
id_trimmed = refl

abbrev calls : List Operation
calls =
    completes (pos 50) completion
    ∷ aborts (pos 51) (codes "r1") []
    ∷ deletes (codes "r2")
    ∷ triggers (codes "r3") (pos 52) (pos 53) command
    ∷ cleans (pos 54) (codes "r1")
    ∷ []

calls_spare : All (Spares (codes "r1")) calls
unfolding trim_space
calls_spare = (tt, (tt, (refl, (refl, (tt, tt)))))

abbrev finished : TestRun
finished = record dispatched {
  status = completed;
  sla_passed = some true;
  finished_at = some (pos 25);
}

found_finished : find_in (codes "r1") (finished ∷ []) ≡ ok finished
unfolding find_in
found_finished = refl

terminal_final_example :
    find_in (codes "r1") (perform_all good service no_report calls (stopped ∷ [])) ≡ ok stopped
terminal_final_example =
    terminal_final good service no_report (memory-IsLawful (ok (codes "job"))) calls (codes "r1")
      (stopped ∷ []) stopped found_stopped refl calls_spare

complete_run_succeeds_example :
    is_ok (complete_run good service no_report (pos 40) completion (dispatched ∷ [])).1 ≡ true
unfolding trim_space
complete_run_succeeds_example =
    complete_run_succeeds good service no_report (pos 40) completion (dispatched ∷ []) dispatched
      refl found_waiting refl refl (λ r. refl)

trigger_run_stores_example :
    (codes "r1" ≡ codes "r1")
    × (queued ≡ queued)
    × (find_in (codes "r1") (trigger_run good service (codes "r1") (pos 10) (pos 11) command []).0
        ≡ ok dispatched)
    × ((t : TestSuite) × (Result.ok suite ≡ ok t)
        × (t.state ≡ active)
        × ((a : Artifact) × (Result.ok artifact ≡ ok a)
            × (a.suite_id ≡ t.id)
            × (is_ready a ≡ true)))
trigger_run_stores_example =
    trigger_run_stores good service (memory-IsLawful (ok (codes "job"))) (codes "r1") (pos 10)
      (pos 11) command [] dispatched triggered

stale_abort_overwrites_example :
    (x : TestRun) × (find_in
        (codes "r1")
        (abort_and_save good service [] (pos 30) dispatched (finished ∷ [])).0
      ≡ ok x)
    × (x.status ≡ aborted)
    × (x.sla_passed ≡ none)
    × (x.metrics ≡ no_metrics)
stale_abort_overwrites_example =
    stale_abort_overwrites good service (memory-IsLawful (ok (codes "job"))) (pos 30) [] dispatched
      finished (finished ∷ []) refl found_finished refl (λ r s. refl)
