-- ===== src/Barrier/Invariant.antt =====
-- internal/domain/model/barrier.go: what the methods keep.
use vuhive_cloud.Common.{
  ◌≡◌, refl, ◌≢◌, ◌⊎◌, inl, inr, Bool, true, false, Option, none, some, Text, arith, ok, is_blank,
  Error, trim_space, trim_space_idem, ◌+◌, if◌then◌else◌, Option-cases,
}
use vuhive_cloud.Common.Int.{ℤ, pos, ◌≤ℤ◌}
use vuhive_cloud.Common.Time.{Time, Duration, add}
use vuhive_cloud.Common.Dict.{lookup, count-insert}
use vuhive_cloud.Barrier.{
  pending, ready, released, aborted, timed_out, WorkerParticipant, BarrierSession,
  max_barrier_workers, new_barrier_session, ready_count, register_worker, mark_worker_ready,
  mark_worker_aborted, release, timeout_session, is_prepared, default_abort_reason, prepare, settle,
  refusal, prepared, fresh_worker,
}

-- What holds of a session between two calls.
pub record IsSound (s : BarrierSession) : Type 0 where
  pub peopled : pos 1 ≤ℤ s.total_workers
  pub capped : s.total_workers ≤ℤ pos max_barrier_workers
  pub patient : pos 1 ≤ℤ s.timeout
  pub delayed : pos 1 ≤ℤ s.release_delay
  pub ready_full : s.status ≡ ready → s.total_workers ≤ℤ pos (ready_count s)
  pub released_target : s.status ≡ released → s.target_start_time ≢ none
  pub target_settled : s.target_start_time ≢ none → (s.status ≡ released) ⊎ (s.status ≡ aborted)
  pub aborted_reason : s.status ≡ aborted → is_blank s.abort_reason ≡ false

pub new_barrier_session-IsSound :
    (now : Time) (run_id : Text) (total : ℤ) (timeout delay : Duration) (s : BarrierSession)
    → new_barrier_session now run_id total timeout delay ≡ ok s
    → IsSound s
unfolding new_barrier_session
new_barrier_session-IsSound now run_id total timeout delay s h = ground arith

pub register_worker-IsSound :
    (now : Time) (worker_id : Text) (s : BarrierSession)
    → IsSound s
    → IsSound (register_worker now worker_id s).0
unfolding register_worker ready_count
register_worker-IsSound now worker_id s v = ground (
  arith,
  count-insert is_prepared (trim_space worker_id) (fresh_worker now worker_id) s.participants,
)

-- Preparing a known worker never lowers the ready count, and raises it if the worker was not ready.
pub ready_count-prepare :
    (now : Time) (key : Text) (p : WorkerParticipant) (s : BarrierSession)
    → lookup key s.participants ≡ some p
    → ready_count (prepare now key p s) ≡ ready_count s + (if is_prepared p then 0 else 1)
unfolding ready_count prepare
ready_count-prepare now key p s h = ground (
  arith,
  count-insert is_prepared key (record p { status = prepared; ready_at = some now }) s.participants,
)

settle-IsSound :
    (now : Time) (key : Text) (p : WorkerParticipant) (s : BarrierSession)
    → lookup key s.participants ≡ some p
    → refusal s.status ≡ none
    → IsSound s
    → IsSound (settle (prepare now key p s)).0
unfolding settle ready_count prepare
settle-IsSound now key p s h e v = ground (
  arith,
  count-insert is_prepared key (record p { status = prepared; ready_at = some now }) s.participants,
)

pub mark_worker_ready-IsSound :
    (now : Time) (worker_id : Text) (s : BarrierSession)
    → IsSound s
    → IsSound (mark_worker_ready now worker_id s).0
unfolding mark_worker_ready
mark_worker_ready-IsSound now worker_id s v =
    elim (Option-cases (lookup (trim_space worker_id) s.participants)) [
      | inl e ↦ ground arith
      | inr (p, e) ↦ ground (arith, settle-IsSound now (trim_space worker_id) p s)
    ]

default_reason_ink : is_blank default_abort_reason ≡ false
unfolding trim_space
default_reason_ink = refl

pub mark_worker_aborted-IsSound :
    (worker_id reason : Text) (s : BarrierSession)
    → IsSound s
    → IsSound (mark_worker_aborted worker_id reason s)
unfolding mark_worker_aborted
mark_worker_aborted-IsSound worker_id reason s v =
    ground (arith, trim_space_idem reason, default_reason_ink)

pub release-IsSound : (now : Time) (s : BarrierSession) → IsSound s → IsSound (release now s).0
unfolding release
release-IsSound now s v = ground arith

pub timeout_session-IsSound : (s : BarrierSession) → IsSound s → IsSound (timeout_session s).0
unfolding timeout_session
timeout_session-IsSound s v = ground arith

pub register_worker-status :
    (now : Time) (worker_id : Text) (s : BarrierSession)
    → (register_worker now worker_id s).0.status ≡ s.status
unfolding register_worker
register_worker-status now worker_id s = ground arith

-- A session that takes workers still takes them after one got ready, and when it says that all are
-- ready they are.
pub record IsMarked (r : BarrierSession × Bool × Option Error) : Type 0 where
  pub still_open : refusal r.0.status ≡ none
  pub full : r.1 ≡ true → r.0.total_workers ≤ℤ pos (ready_count r.0)
  pub not_full : r.1 ≡ false → r.2 ≡ none → pos (ready_count r.0 + 1) ≤ℤ r.0.total_workers

settle-IsMarked : (s : BarrierSession) → refusal s.status ≡ none → IsMarked (settle s)
unfolding settle ready_count
settle-IsMarked s h = ground arith

prepare-status :
    (now : Time) (key : Text) (p : WorkerParticipant) (s : BarrierSession)
    → (prepare now key p s).status ≡ s.status
unfolding prepare
prepare-status now key p s = refl

pub mark_worker_ready-IsMarked :
    (now : Time) (worker_id : Text) (s : BarrierSession)
    → refusal s.status ≡ none
    → IsMarked (mark_worker_ready now worker_id s)
unfolding mark_worker_ready
mark_worker_ready-IsMarked now worker_id s h =
    elim (Option-cases (lookup (trim_space worker_id) s.participants)) [
      | inl e ↦ ground arith
      | inr (p, e) ↦ ground (
        arith,
        settle-IsMarked (prepare now (trim_space worker_id) p s),
        prepare-status now (trim_space worker_id) p s,
      )
    ]

-- What `Release` does to a session that takes workers.
pub release_lem :
    (now : Time) (s : BarrierSession)
    → refusal s.status ≡ none
    → ((release now s).0.status ≡ released)
      × ((release now s).0.target_start_time ≡ some (add now s.release_delay))
      × ((release now s).0.total_workers ≡ s.total_workers)
      × (ready_count (release now s).0 ≡ ready_count s)
unfolding release ready_count
release_lem now s h = ground arith

-- A new session waits for its workers.
pub new_barrier_session-status :
    (now : Time) (run_id : Text) (total : ℤ) (timeout delay : Duration) (s : BarrierSession)
    → new_barrier_session now run_id total timeout delay ≡ ok s
    → (s.status ≡ pending) × (s.target_start_time ≡ none)
unfolding new_barrier_session
new_barrier_session-status now run_id total timeout delay s h = ground arith

-- A timeout changes an open session alone.
pub timeout_session_lem :
    (s : BarrierSession)
    → ((timeout_session s).0 ≡ s)
      ⊎ (((timeout_session s).0.status ≡ timed_out) × (refusal s.status ≡ none))
unfolding timeout_session
timeout_session_lem s = ground arith

pub mark_worker_aborted_lem :
    (worker_id reason : Text) (s : BarrierSession)
    → ((mark_worker_aborted worker_id reason s).status ≡ aborted)
      × ((mark_worker_aborted worker_id reason s).target_start_time ≡ s.target_start_time)
unfolding mark_worker_aborted
mark_worker_aborted_lem worker_id reason s = (refl, refl)
