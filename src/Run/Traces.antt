-- ===== src/Run/Traces.antt =====
-- internal/domain/model/run.go: what holds along any sequence of calls.
use vuhive_cloud.Common.{◌≡◌, true, List, [], ◌∷◌, arith}
use vuhive_cloud.Run.{is_terminal, TestRun, step, run, Call}

-- What a later reader of a run keeps from an earlier one.
pub record Extends (r s : TestRun) : Type 0 where
  pub still_terminal : is_terminal s.status ≡ true
  pub same_id : s.id ≡ r.id
  pub same_suite : s.suite_id ≡ r.suite_id
  pub same_start : s.started_at ≡ r.started_at
  pub same_finish : s.finished_at ≡ r.finished_at
  pub same_verdict : s.sla_passed ≡ r.sla_passed
  pub same_metrics : s.metrics ≡ r.metrics
  pub same_reason : s.abort_reason ≡ r.abort_reason

step-Extends : (c : Call) (r : TestRun) → is_terminal r.status ≡ true → Extends r (step c r).0
unfolding step
step-Extends c r h = ground arith

-- A run that reached a terminal status keeps a terminal status under any further calls, and its
-- identity, suite, start, finish, SLA verdict, KPI metrics and abort reason stay as they were.
pub terminal_frozen :
    (cs : List Call) (r : TestRun) → is_terminal r.status ≡ true → Extends r (run cs r)
unfolding run
terminal_frozen [] r h = ground arith
terminal_frozen (c ∷ cs) r h =
    let first = step-Extends c r h in
    let rest = terminal_frozen cs (step c r).0 first.still_terminal in ground arith
