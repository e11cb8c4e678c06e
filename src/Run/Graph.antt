-- ===== src/Run/Graph.antt =====
-- internal/domain/model/run.go: the lifecycle of a run as a graph of statuses.
use vuhive_cloud.Common.{Bool, false, none, ◌≡◌, refl, sym, ◌∙◌, subst, ◌↔◌, true, [], arith}
use vuhive_cloud.Run.{
  RunStatus, queued, running, completed, failed, aborted, archived, is_valid, TestRun, step, Call,
  starts, completes, fails, aborts, archives, no_metrics, sets_job_name, sets_namespace,
  sets_exit_code, fails_with_metrics, clears_logs_key, clears_report_key,
}
use vuhive_cloud.Common.Int.{pos}

-- The states in which a run still occupies the cluster.
pub data IsActive : RunStatus → Type 0 where
  waits : IsActive queued
  executes : IsActive running

-- The states that `Archive` accepts.
pub data IsArchivable : RunStatus → Type 0 where
  was_completed : IsArchivable completed
  was_failed : IsArchivable failed
  was_aborted : IsArchivable aborted

infix 40 ◌⟶◌
pub data ◌⟶◌ : RunStatus → RunStatus → Type 0 where
  begin : queued ⟶ running
  succeed : running ⟶ completed
  break : {s : RunStatus} → IsActive s → s ⟶ failed
  cancel : {s : RunStatus} → IsActive s → s ⟶ aborted
  retire : {s : RunStatus} → IsArchivable s → s ⟶ archived

ruleset edges =
    (begin, succeed, break, cancel, retire, waits, executes, was_completed, was_failed, was_aborted)

-- The calls of the lifecycle, as against the setters.
abbrev pub is_transition : Call → Bool
is_transition (sets_job_name name) = false
is_transition (sets_namespace namespace) = false
is_transition (sets_exit_code code) = false
is_transition clears_logs_key = false
is_transition clears_report_key = false
is_transition _ = true

step-⟶ :
    (c : Call) (r : TestRun)
    → is_valid r.status ≡ true
    → is_transition c ≡ true
    → (step c r).1 ≡ none
    → r.status ⟶ (step c r).0.status
unfolding step
step-⟶ c r h t e = grind (arith, edges)

-- A call of the lifecycle that succeeds on a run and leaves it in status `t`.
abbrev pub Moves : TestRun → RunStatus → Type 0
Moves r t =
    (c : Call) × (is_transition c ≡ true) × ((step c r).1 ≡ none) × ((step c r).0.status ≡ t)

⟶-call : {s t : RunStatus} → s ⟶ t → (r : TestRun) → r.status ≡ s → Moves r t
unfolding step
⟶-call begin r e = (starts [] (pos 0), refl, ground arith, ground arith)
⟶-call succeed r e = (completes no_metrics [] [] [] true (pos 0), refl, ground arith, ground arith)
⟶-call (break waits) r e = (fails (pos 1) [] (pos 0), refl, ground arith, ground arith)
⟶-call (break executes) r e = (fails (pos 1) [] (pos 0), refl, ground arith, ground arith)
⟶-call (cancel waits) r e = (aborts [] (pos 0), refl, ground arith, ground arith)
⟶-call (cancel executes) r e = (aborts [] (pos 0), refl, ground arith, ground arith)
⟶-call (retire was_completed) r e = (archives (pos 0), refl, ground arith, ground arith)
⟶-call (retire was_failed) r e = (archives (pos 0), refl, ground arith, ground arith)
⟶-call (retire was_aborted) r e = (archives (pos 0), refl, ground arith, ground arith)

-- The status that each call of the lifecycle leads to.
abbrev pub target : Call → RunStatus
target (starts job_name time) = running
target (completes metrics report logs summary passed time) = completed
target (fails code logs time) = failed
target (fails_with_metrics code metrics report logs summary time) = failed
target (aborts reason time) = aborted
target (archives time) = archived
target _ = queued

-- The call succeeds on a run and leaves it in status `t`.
abbrev pub Leads : Call → TestRun → RunStatus → Type 0
Leads c r t = ((step c r).1 ≡ none) × ((step c r).0.status ≡ t)

leads-target :
    (c : Call) (r : TestRun)
    → is_transition c ≡ true
    → (step c r).1 ≡ none
    → (step c r).0.status ≡ target c
unfolding step
leads-target c r transits e = grind arith

edge-succeeds :
    {s : RunStatus} (c : Call) (r : TestRun)
    → is_transition c ≡ true
    → s ⟶ target c
    → r.status ≡ s
    → (step c r).1 ≡ none
unfolding step
edge-succeeds (sets_job_name name) r transits edge e = cc
edge-succeeds (sets_namespace namespace) r transits edge e = cc
edge-succeeds (sets_exit_code code) r transits edge e = cc
edge-succeeds clears_logs_key r transits edge e = cc
edge-succeeds clears_report_key r transits edge e = cc
edge-succeeds (starts job_name time) r transits begin e = ground arith
edge-succeeds (completes metrics report logs summary passed time) r transits succeed e =
    ground arith
edge-succeeds (fails code logs time) r transits (break waits) e = ground arith
edge-succeeds (fails code logs time) r transits (break executes) e = ground arith
edge-succeeds (fails_with_metrics code metrics report logs summary time) r transits (break waits)
      e =
    ground arith
edge-succeeds (fails_with_metrics code metrics report logs summary time) r transits (break executes)
      e =
    ground arith
edge-succeeds (aborts reason time) r transits (cancel waits) e = ground arith
edge-succeeds (aborts reason time) r transits (cancel executes) e = ground arith
edge-succeeds (archives time) r transits (retire was_completed) e = ground arith
edge-succeeds (archives time) r transits (retire was_failed) e = ground arith
edge-succeeds (archives time) r transits (retire was_aborted) e = ground arith

-- The methods realise the graph exactly: from a run of a known status a call of the lifecycle
-- succeeds and ends in a status just when the graph has that edge. Each single call succeeds and ends in
-- a status just when that status is the one its method leads to and the graph has the edge.
pub lifecycle_exact :
    (r : TestRun) (t : RunStatus) (c : Call)
    → is_valid r.status ≡ true
    → is_transition c ≡ true
    → ((r.status ⟶ t) ↔ Moves r t) × (Leads c r t ↔ ((target c ≡ t) × (r.status ⟶ t)))
lifecycle_exact r t c h transition = (
  (
    λ e. ⟶-call e r refl,
    λ (d, transits, succeeds, e). subst (λ u. r.status ⟶ u) e (step-⟶ d r h transits succeeds),
  ),
  (
    λ (succeeds, e). (
      sym (leads-target c r transition succeeds) ∙ e,
      subst (λ u. r.status ⟶ u) e (step-⟶ c r h transition succeeds),
    ),
    λ (same, edge).
        (let succeeds =
            edge-succeeds c r transition (subst (λ u. r.status ⟶ u) (sym same) edge) refl in
          (succeeds, leads-target c r transition succeeds ∙ same)),
  ),
)
