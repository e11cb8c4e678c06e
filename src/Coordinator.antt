-- ===== src/Coordinator.antt =====
-- internal/adapters/outbound/coordinator/memory_coordinator.go: the coordinator that blocks workers
-- until all of them have arrived. `Await` is two steps of the program: `enter`, up to the `select`,
-- and `wake`, the case that the `select` takes. A session is never taken out of the map, so the
-- pointer that `Await` returns is the session's key, and its reader sees the session as it then is.
pub mod Invariant
pub mod Safety
mod Rendezvous
mod Gathering
mod Faults
pub mod Tests
use vuhive_cloud.Common.{
  ℕ, ◌≡◌, Bool, true, false, Option, none, some, List, [], Text, trim_space, if◌then◌else◌, Error,
  Result, ok, err, barrier_aborted, barrier_timeout, barrier_not_found, context_canceled,
}
use vuhive_cloud.Common.Int.{ℤ}
use vuhive_cloud.Common.Time.{Time, Duration}
use vuhive_cloud.Common.Dict.{Dict, lookup, insert}
use vuhive_cloud.Barrier.{
  BarrierStatus, pending, ready, released, aborted, timed_out, BarrierSession, new_barrier_session,
  register_worker, mark_worker_ready, mark_worker_aborted, release, timeout_session,
}

-- `session` is nil after a failed construction. `locked` says that a call has panicked while it held
-- the session's mutex, which is then never released.
pub record ActiveSession : Type 0 where
  pub session : Option BarrierSession
  pub release_closed : Bool
  pub abort_closed : Bool
  pub locked : Bool

abbrev pub Coordinator : Type 0
Coordinator = Dict ActiveSession

abbrev pub new_coordinator : Coordinator
new_coordinator = []

-- How a call ends: it returns, waits in the `select` of `Await`, panics on a nil session, or waits
-- for a mutex that nobody will release.
pub data Outcome : Type 0 where
  returns : Result Text → Outcome
  blocks panics deadlocks : Outcome

abbrev constructed : Result BarrierSession → Option BarrierSession
constructed (ok s) = some s
constructed (err e) = none

-- The session that `getOrCreate` puts under a new key: a failed construction leaves nil.
abbrev pub created : Time → Text → ℤ → Duration → Duration → ActiveSession
created now run_id total timeout delay = record {
  session = constructed (new_barrier_session now run_id total timeout delay);
  release_closed = false;
  abort_closed = false;
  locked = false;
}

unfoldable pub get_or_create : Time → Text → ℤ → Duration → Duration → Coordinator → ActiveSession
get_or_create now run_id total timeout delay c = elim (lookup run_id c) [
  | some act ↦ act
  | none ↦ created now run_id total timeout delay
]

-- After `MarkWorkerReady` has succeeded: the last worker releases the barrier.
unfoldable pub release_if :
    Time → Text → Bool → BarrierSession → ActiveSession → ActiveSession × Outcome
release_if now key false s act = (record act { session = some s }, blocks)
release_if now key true s act =
    (record act { session = some (release now s).0; release_closed = true }, returns (ok key))

unfoldable pub arrived :
    Time → Text → BarrierSession × Bool × Option Error → ActiveSession → ActiveSession × Outcome
arrived now key (s, all_ready, some e) act = (record act { session = some s }, returns (err e))
arrived now key (s, all_ready, none) act = release_if now key all_ready s act

-- The part of `Await` under the session's mutex. The registration's error is dropped.
unfoldable pub join : Time → Text → Text → BarrierSession → ActiveSession → ActiveSession × Outcome
join now key worker_id s act = elim s.status [
  | aborted ↦ (act, returns (err barrier_aborted))
  | timed_out ↦ (act, returns (err barrier_timeout))
  | released ↦ (act, returns (ok key))
  | _ ↦ arrived now key (mark_worker_ready now worker_id (register_worker now worker_id s).0) act
]

-- `sess.Status()` on nil panics, and no deferred call unlocks the mutex.
unfoldable pub admit : Time → Text → Text → ActiveSession → ActiveSession × Outcome
admit now key worker_id act = if act.locked then (act, deadlocks) else elim act.session [
  | none ↦ (record act { locked = true }, panics)
  | some s ↦ join now key worker_id s act
]

-- `Await` up to its `select`.
unfoldable pub enter :
    Time → Text → Text → ℤ → Duration → Duration → Coordinator → Coordinator × Outcome
enter now run_id worker_id total timeout delay c =
    let key = trim_space run_id in
    let (act, outcome) =
      admit now key (trim_space worker_id) (get_or_create now key total timeout delay c) in
    (insert key act c, outcome)

-- The cases of the `select`.
pub data Cause : Type 0 where
  by_release by_abort by_timer by_cancel : Cause

-- Whether the case can be taken: the channels are ready when closed, and the timer and the context
-- may fire at any moment.
abbrev pub may_wake : Cause → ActiveSession → Bool
may_wake by_release act = act.release_closed
may_wake by_abort act = act.abort_closed
may_wake by_timer act = true
may_wake by_cancel act = true

abbrev expire : Option BarrierSession → Option BarrierSession
expire none = none
expire (some s) = some (timeout_session s).0

-- The end of `Await`, for a worker that waits under `key`.
unfoldable pub wake : Text → Cause → ActiveSession → ActiveSession × Outcome
wake key by_release act = if act.locked then (act, deadlocks) else (act, returns (ok key))
wake key by_abort act = (act, returns (err barrier_aborted))
wake key by_timer act =
    if act.locked
    then (act, deadlocks)
    else (record act { session = expire act.session }, returns (err barrier_timeout))
wake key by_cancel act = (act, returns (err context_canceled))

-- `Abort` on a session that exists; its deferred call unlocks the mutex also when it panics.
unfoldable pub abort_session : Text → Text → Text → ActiveSession → ActiveSession × Outcome
abort_session key worker_id reason act = if act.locked then (act, deadlocks) else elim act.session [
  | none ↦ (act, panics)
  | some s ↦ (
    record act { session = some (mark_worker_aborted worker_id reason s); abort_closed = true },
    returns (ok key),
  )
]

-- `Abort` returns an error alone: its success is the key.
unfoldable pub abort : Text → Text → Text → Coordinator → Coordinator × Outcome
abort run_id worker_id reason c =
    let key = trim_space run_id in
    elim (lookup key c) [
      | none ↦ (c, returns (err barrier_not_found))
      | some act ↦
          let (act', outcome) = abort_session key worker_id reason act in
          (insert key act' c, outcome)
    ]

unfoldable pub get : Text → Coordinator → Outcome
get run_id c =
    let key = trim_space run_id in
    elim (lookup key c) [
      | none ↦ returns (err barrier_not_found)
      | some act ↦ if act.locked then deadlocks else returns (ok key)
    ]

-- One step of the program: a call comes in, or a waiting worker wakes up.
pub data Step : Coordinator → Coordinator → Type 0 where
  enters :
      (now : Time) (run_id worker_id : Text) (total : ℤ) (timeout delay : Duration)
      (c : Coordinator)
      → Step c (enter now run_id worker_id total timeout delay c).0
  aborts :
      (run_id worker_id reason : Text) (c : Coordinator)
      → Step c (abort run_id worker_id reason c).0
  wakes :
      (key : Text) (cause : Cause) (act : ActiveSession) (c : Coordinator)
      → lookup key c ≡ some act
      → may_wake cause act ≡ true
      → Step c (insert key (wake key cause act).0 c)

-- What can be reached by any interleaving of steps.
pub data Reach (c : Coordinator) : Coordinator → Type 0 where
  here : Reach c c
  next : {d e : Coordinator} → Reach c d → Step d e → Reach c e
