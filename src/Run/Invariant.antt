-- ===== src/Run/Invariant.antt =====
-- internal/domain/model/run.go: what holds of a run whatever methods were called on it.
use vuhive_cloud.Common.{
  ◌≡◌, ◌≢◌, true, false, Option, none, some, List, [], ◌∷◌, Text, Error, ok, arith,
}
use vuhive_cloud.Run.{
  queued, running, completed, failed, archived, is_valid, is_terminal, TestRun, new_test_run, step,
  run, Call,
}
use vuhive_cloud.Common.Time.{Time}

-- The timestamps and results that a status promises.
pub record IsConsistent (r : TestRun) : Type 0 where
  pub known : is_valid r.status ≡ true
  pub queued_fresh : r.status ≡ queued → (r.started_at ≡ none) × (r.finished_at ≡ none)
  pub running_started : r.status ≡ running → (r.started_at ≢ none) × (r.finished_at ≡ none)
  pub completed_started : r.status ≡ completed → r.started_at ≢ none
  pub terminal_finished : is_terminal r.status ≡ true → r.finished_at ≢ none
  pub completed_judged : r.status ≡ completed → (r.exit_code ≢ none) × (r.sla_passed ≢ none)
  pub failed_judged : r.status ≡ failed → (r.exit_code ≢ none) × (r.sla_passed ≡ some false)
  pub archived_light : r.status ≡ archived → r.summary_json ≡ []

-- Every call, accepted or refused, keeps a consistent run consistent.
pub step-IsConsistent : (c : Call) (r : TestRun) → IsConsistent r → IsConsistent (step c r).0
unfolding step
step-IsConsistent c r v = ground arith

-- A refused call changes nothing: whatever the method and the status, an error comes with the run
-- as it was.
pub step_error_unchanged :
    (c : Call) (r : TestRun) {e : Error} → (step c r).1 ≡ some e → (step c r).0 ≡ r
unfolding step
step_error_unchanged c r h = ground arith

run-IsConsistent : (cs : List Call) (r : TestRun) → IsConsistent r → IsConsistent (run cs r)
unfolding run
run-IsConsistent [] r v = v
run-IsConsistent (c ∷ cs) r v = run-IsConsistent cs (step c r).0 (step-IsConsistent c r v)

pub new_test_run-IsConsistent :
    (uuid : Text) (now : Time) (suite artifact : Text) (configuration : Option Text)
    (profile : Text) (schedule : Option Text) (namespaces : List Text) (r : TestRun)
    → new_test_run uuid now suite artifact configuration profile schedule namespaces ≡ ok r
    → IsConsistent r
unfolding new_test_run
new_test_run-IsConsistent uuid now suite artifact configuration profile schedule namespaces r h =
    ground arith

-- A run that `NewTestRun` made is consistent after any sequence of method calls, refused ones among
-- them: a queued run has no timestamps, a running one has its start and no finish, a completed one
-- was started and carries exit code and SLA verdict, a failed one carries an exit code and a failed
-- SLA, every terminal one has its finish, and an archived one has dropped its summary.
pub created_run-IsConsistent :
    (uuid : Text) (now : Time) (suite artifact : Text) (configuration : Option Text)
    (profile : Text) (schedule : Option Text) (namespaces : List Text) (r : TestRun)
    (cs : List Call)
    → new_test_run uuid now suite artifact configuration profile schedule namespaces ≡ ok r
    → IsConsistent (run cs r)
created_run-IsConsistent uuid now suite artifact configuration profile schedule namespaces r cs h =
    run-IsConsistent cs r (
      new_test_run-IsConsistent uuid now suite artifact configuration profile schedule namespaces r
        h)
