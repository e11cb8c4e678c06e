-- ===== src/Coordinator/Tests.antt =====
-- internal/adapters/outbound/coordinator/memory_coordinator.go on concrete runs.
use vuhive_cloud.Common.{
  ◌≡◌, ◌≢◌, ◌⊎◌, ◌↔◌, refl, true, false, none, some, List, [], ◌∷◌, Text, codes, trim_space, ok,
  arith,
}
use vuhive_cloud.Common.Int.{ℤ, pos, ◌≤ℤ◌, ◌+ℤ◌}
use vuhive_cloud.Common.Dict.{lookup, insert, count}
use vuhive_cloud.Barrier.{
  BarrierSession, BarrierStatus, released, aborted, ready_count, register_worker, mark_worker_ready,
  release, new_barrier_session, mark_worker_aborted,
}
use vuhive_cloud.Coordinator.{
  ActiveSession, Coordinator, new_coordinator, returns, panics, deadlocks, enter, admit, join,
  arrived, release_if, get_or_create, abort, get, wake, may_wake, by_release, by_abort, Reach, here,
  next, enters, aborts,
}
use vuhive_cloud.Coordinator.Safety.{Stores, no_early_start, no_lost_wakeup}
use vuhive_cloud.Coordinator.Gathering.{enter_all, rendezvous, IsReleased, all_arrive}
use vuhive_cloud.Coordinator.Faults.{too_many_workers, late_abort}

abbrev pub run_id : Text
run_id = codes "run-1"

abbrev pub alone : Coordinator
alone = (enter (pos 5) run_id (codes "w0") (pos 1) (pos 0) (pos 0) new_coordinator).0

abbrev pub alone_session : BarrierSession
alone_session = record {
  run_id = run_id;
  total_workers = pos 1;
  status = released;
  timeout = pos 60000000000;
  release_delay = pos 300000000;
  target_start_time = some (pos 300000005);
  abort_reason = [];
  created_at = pos 5;
  participants =
      (
        codes "w0",
        record {
          worker_id = codes "w0";
          status = vuhive_cloud.Barrier.prepared;
          joined_at = pos 5;
          ready_at = some (pos 5);
          error_reason = [];
        },
      )
      ∷ [];
}

abbrev pub alone_act : ActiveSession
alone_act = record {
  session = some alone_session;
  release_closed = true;
  abort_closed = false;
  locked = false;
}

alone_stored : lookup run_id alone ≡ some alone_act
unfolding enter admit join arrived release_if get_or_create lookup insert count trim_space
    ready_count register_worker mark_worker_ready release new_barrier_session ◌+ℤ◌
alone_stored = refl

pub alone-Stores : Stores alone run_id alone_act alone_session
alone-Stores = record { stored = alone_stored; held = refl }

pub alone-Reach : Reach new_coordinator alone
alone-Reach = next here (enters (pos 5) run_id (codes "w0") (pos 1) (pos 0) (pos 0) new_coordinator)

no_early_start_example :
    (alone_session.total_workers ≤ℤ pos (ready_count alone_session))
    × (alone_session.target_start_time ≢ none)
no_early_start_example = no_early_start run_id alone_act alone_session alone-Reach alone-Stores refl

no_lost_wakeup_example :
    ((may_wake by_abort alone_act ≡ true) ↔ (alone_session.status ≡ aborted))
    × ((alone_session.status ≢ released) ⊎ (may_wake by_release alone_act ≡ true))
no_lost_wakeup_example = no_lost_wakeup run_id alone_act alone_session alone-Reach alone-Stores

abbrev trio : List (ℤ × Text)
trio = (pos 2, codes "w1") ∷ (pos 3, codes "w2") ∷ []

all_arrive_example :
    ((enter_all
        (codes "run-1 ")
        (pos 3)
        (pos 0)
        (pos 0)
        ((pos 1, codes "w0") ∷ trio)
        new_coordinator).1
      ≡ rendezvous (trim_space (codes "run-1 ")) ((pos 1, codes "w0") ∷ trio))
    × IsReleased
        (enter_all
          (codes "run-1 ")
          (pos 3)
          (pos 0)
          (pos 0)
          ((pos 1, codes "w0") ∷ trio)
          new_coordinator).0
        (trim_space (codes "run-1 "))
unfolding trim_space lookup
all_arrive_example =
    all_arrive (codes "run-1 ") (pos 0) (pos 0) new_coordinator (pos 1) (codes "w0") trio refl refl
      (omega arith) ((refl, refl), ((refl, refl), ((refl, refl), tt)))
      ((refl, (refl, tt)), ((refl, tt), (tt, tt)))

abbrev crowded : Coordinator
crowded = (enter (pos 0) run_id (codes "w0") (pos 10001) (pos 0) (pos 0) new_coordinator).0

-- Two more calls of the run, an `Await` and an `Abort`, come in between.
abbrev later_on : Coordinator
later_on =
    (abort run_id (codes "w2") (codes "oom")
      (enter (pos 1) run_id (codes "w1") (pos 2) (pos 0) (pos 0) crowded).0).0

too_many_workers_example :
    ((enter (pos 0) run_id (codes "w0") (pos 10001) (pos 0) (pos 0) new_coordinator).1 ≡ panics)
    × ((enter (pos 2) run_id (codes "w1") (pos 2) (pos 0) (pos 0) later_on).1 ≡ deadlocks)
    × ((abort run_id (codes "w1") [] later_on).1 ≡ deadlocks)
    × (get run_id later_on ≡ deadlocks)
unfolding lookup
too_many_workers_example =
    too_many_workers (pos 0) (pos 2) run_id (codes "w0") (codes "w1") [] (pos 10001) (pos 2) (pos 0)
      (pos 0) new_coordinator later_on (omega arith) refl
      (next (next here (enters (pos 1) run_id (codes "w1") (pos 2) (pos 0) (pos 0) crowded)) (
        aborts run_id (codes "w2") (codes "oom")
          (enter (pos 1) run_id (codes "w1") (pos 2) (pos 0) (pos 0) crowded).0))

late_abort_example :
    (act' : ActiveSession) × (t : BarrierSession) × (lookup
        (trim_space run_id)
        (abort run_id (codes "w0") (codes "oom") alone).0
      ≡ some act')
    × (act'.session ≡ some t)
    × (t.status ≡ aborted)
    × (may_wake by_release act' ≡ true)
    × ((wake (trim_space run_id) by_release act').1 ≡ returns (ok (trim_space run_id)))
unfolding trim_space
late_abort_example =
    late_abort run_id (codes "w0") (codes "oom") alone_act alone_session alone alone_stored refl
      refl refl
