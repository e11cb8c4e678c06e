-- ===== src/BarrierService/Laws.antt =====
-- internal/application/service/barrier_service.go: every worker of a released run is told one start.
use vuhive_cloud.Common.{◌≡◌, ◌⊎◌, inl, inr, true, some, Text, arith}
use vuhive_cloud.Common.Int.{pos, ◌≤ℤ◌, ◌+ℤ◌, ◌-ℤ◌, ≤ℤ_total}
use vuhive_cloud.Common.Time.{Time}
use vuhive_cloud.Barrier.{BarrierSession}
use vuhive_cloud.Coordinator.{
  Coordinator, new_coordinator, ActiveSession, Reach, by_release, may_wake,
}
use vuhive_cloud.Coordinator.Safety.{Stores, woken_has_target}
use vuhive_cloud.BarrierService.{report, start_in}

-- Two workers that a release has woken are told the same start time and the same status, whatever
-- their ids and the times at which they ask.
pub same_start :
    {c : Coordinator} (key : Text) (act : ActiveSession) (s : BarrierSession)
    (now later now' later' : Time) (w w' : Text)
    → Reach new_coordinator c
    → Stores c key act s
    → may_wake by_release act ≡ true
    → ((report now later w s).target_start_time ≡ (report now' later' w' s).target_start_time)
      × ((report now later w s).status ≡ (report now' later' w' s).status)
unfolding report
same_start key act s now later now' later' w w' r st h =
    ground (arith, woken_has_target key act s r st h)

start_in_exact :
    (later target : Time)
    → later ≤ℤ target
    → target -ℤ later ≤ℤ pos 9223372036854775807
    → later +ℤ start_in later target ≡ target
unfolding start_in ◌+ℤ◌
start_in_exact later target h range = ground arith

start_in_late : (later target : Time) → target ≤ℤ later → start_in later target ≡ pos 0
unfolding start_in
start_in_late later target h = ground arith

-- A worker that reads its answer at or before the session's target, at most an `int64` of nanoseconds
-- ahead, is told to wait exactly until the target; one that reads it at or after the target is told
-- to start at once.
pub waits_until_start :
    (s : BarrierSession) (now later target : Time) (w : Text)
    → s.target_start_time ≡ some target
    → target -ℤ later ≤ℤ pos 9223372036854775807
    → ((later ≤ℤ target) × (later +ℤ (report now later w s).start_in ≡ target))
      ⊎ ((target ≤ℤ later) × ((report now later w s).start_in ≡ pos 0))
unfolding report
waits_until_start s now later target w e range = elim (≤ℤ_total later target) [
  | inl h ↦ inl (h, rw e (start_in_exact later target h range))
  | inr h ↦ inr (h, rw e (start_in_late later target h))
]
