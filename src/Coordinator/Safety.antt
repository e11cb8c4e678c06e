-- ===== src/Coordinator/Safety.antt =====
-- internal/adapters/outbound/coordinator/memory_coordinator.go: what no interleaving of `Await`,
-- `Abort` and wake-ups can break.
use vuhive_cloud.Common.{◌≡◌, ◌≢◌, ◌⊎◌, ◌↔◌, subst, true, none, some, Text, arith}
use vuhive_cloud.Common.Int.{pos, ◌≤ℤ◌}
use vuhive_cloud.Common.Dict.{lookup, AllValues-lookup}
use vuhive_cloud.Barrier.{BarrierSession, released, aborted, ready_count}
use vuhive_cloud.Coordinator.{
  ActiveSession, Coordinator, new_coordinator, by_release, by_abort, may_wake, Reach,
}
use vuhive_cloud.Coordinator.Invariant.{IsCoherent, IsMatched, MatchedOrNil, Reach-IsCoherent}

-- A session that is stored under a key.
pub record Stores (c : Coordinator) (key : Text) (act : ActiveSession) (s : BarrierSession)
    : Type 0 where
  pub stored : lookup key c ≡ some act
  pub held : act.session ≡ some s

pub matched :
    {c : Coordinator} (key : Text) (act : ActiveSession) (s : BarrierSession)
    → Reach new_coordinator c
    → Stores c key act s
    → IsMatched act s
matched {c} key act s r st =
    subst (MatchedOrNil act) st.held
      (AllValues-lookup IsCoherent key c (Reach-IsCoherent tt r) st.stored)

-- No early start: after any interleaving, a session that is RELEASED has at least as many ready
-- workers as it expects, and has a target start time.
pub no_early_start :
    {c : Coordinator} (key : Text) (act : ActiveSession) (s : BarrierSession)
    → Reach new_coordinator c
    → Stores c key act s
    → s.status ≡ released
    → (s.total_workers ≤ℤ pos (ready_count s)) × (s.target_start_time ≢ none)
no_early_start key act s r st h =
    let m = matched key act s r st in (m.released_full h, m.sound.released_target h)

-- A worker that wakes by the release finds a session with a target start time, which is RELEASED, or
-- ABORTED if an abort came after the release.
pub woken_has_target :
    {c : Coordinator} (key : Text) (act : ActiveSession) (s : BarrierSession)
    → Reach new_coordinator c
    → Stores c key act s
    → may_wake by_release act ≡ true
    → ((s.status ≡ released) ⊎ (s.status ≡ aborted)) × (s.target_start_time ≢ none)
woken_has_target key act s r st h =
    let m = matched key act s r st in (m.signalled_released h, m.signalled_target h)

-- No lost wake-up: after any interleaving, a worker that waits on a RELEASED session can wake by the
-- release, and one that waits on a session can wake by the abort just when the session is ABORTED.
pub no_lost_wakeup :
    {c : Coordinator} (key : Text) (act : ActiveSession) (s : BarrierSession)
    → Reach new_coordinator c
    → Stores c key act s
    → ((may_wake by_abort act ≡ true) ↔ (s.status ≡ aborted))
      × ((s.status ≢ released) ⊎ (may_wake by_release act ≡ true))
no_lost_wakeup key act s r st =
    let m = matched key act s r st in ((m.signalled_aborted, m.aborted_signalled), ground arith)
