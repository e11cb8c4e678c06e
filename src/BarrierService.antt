-- ===== src/BarrierService.antt =====
-- internal/application/service/barrier_service.go: the use cases of the barrier over the coordinator.
-- `AwaitRendezvous` calls `Await`, which may wait: `request` is the part up to that call, and `report`
-- the part after it returned the session's key. Logging is left out.
mod Laws
mod Tests
use vuhive_cloud.Common.{
  ℕ, ◌≡◌, Bool, true, false, Option, none, some, List, [], Text, trim_space, is_blank,
  if◌then◌else◌, Error, Result, ok, err, validation, invalid_worker_count,
}
use vuhive_cloud.Common.Int.{ℤ, pos, ltb_ℤ, ◌-ℤ◌}
use vuhive_cloud.Common.Time.{Time, Duration, sub}
use vuhive_cloud.Barrier.{BarrierStatus, BarrierSession}
use vuhive_cloud.Coordinator.{Coordinator, Outcome, returns, enter, abort, get}

pub record AwaitRendezvousCommand : Type 0 where
  pub run_id : Text
  pub worker_id : Text
  pub total_workers : ℤ
  pub timeout : Duration
  pub release_delay : Duration

pub record RendezvousResult : Type 0 where
  pub status : BarrierStatus
  pub run_id : Text
  pub worker_id : Text
  pub total_workers : ℤ
  pub target_start_time : Time
  pub start_in : Duration

-- The checks of `AwaitRendezvous`, and its call of `Await`.
unfoldable pub request : Time → AwaitRendezvousCommand → Coordinator → Coordinator × Outcome
request now cmd c =
    if is_blank cmd.run_id
    then (c, returns (err validation))
    else if is_blank cmd.worker_id
    then (c, returns (err validation))
    else if ltb_ℤ cmd.total_workers (pos 1)
    then (c, returns (err invalid_worker_count))
    else enter now (trim_space cmd.run_id) (trim_space cmd.worker_id) cmd.total_workers cmd.timeout
        cmd.release_delay c

abbrev target_or : Time → Option Time → Time
target_or now none = now
target_or now (some t) = t

-- `time.Until`, not below 0: `now` is the time of the first reading of the clock, and `later` that of
-- the second.
unfoldable pub start_in : Time → Time → Duration
unfolding sub ◌-ℤ◌
start_in later target = let d = sub target later in if ltb_ℤ d (pos 0) then pos 0 else d

unfoldable pub report : Time → Time → Text → BarrierSession → RendezvousResult
report now later worker_id s =
    let target = target_or now s.target_start_time in
    record {
      status = s.status;
      run_id = s.run_id;
      worker_id = trim_space worker_id;
      total_workers = s.total_workers;
      target_start_time = target;
      start_in = start_in later target;
    }

unfoldable pub signal_abort : Text → Text → Text → Coordinator → Coordinator × Outcome
signal_abort run_id worker_id reason c =
    if is_blank run_id
    then (c, returns (err validation))
    else abort (trim_space run_id) (trim_space worker_id) (trim_space reason) c

unfoldable pub get_barrier_status : Text → Coordinator → Outcome
get_barrier_status run_id c =
    if is_blank run_id then returns (err validation) else get (trim_space run_id) c
