-- ===== src/Coordinator/Invariant.antt =====
-- internal/adapters/outbound/coordinator/memory_coordinator.go: what every session satisfies after any
-- interleaving of calls and wake-ups.
use vuhive_cloud.Common.{
  ◌≡◌, refl, ◌≢◌, subst, ◌⊎◌, inl, inr, Bool, true, false, Option, none, some, Text, arith, Result,
  ok, err, Error, trim_space, Option-cases,
}
use vuhive_cloud.Common.Int.{ℤ, pos, ◌≤ℤ◌}
use vuhive_cloud.Common.Time.{Time, Duration}
use vuhive_cloud.Common.Dict.{lookup, AllValues, AllValues-insert, AllValues-lookup}
use vuhive_cloud.Barrier.{
  released, aborted, BarrierSession, ready_count, new_barrier_session, register_worker,
  mark_worker_ready, refusal,
}
use vuhive_cloud.Barrier.Invariant.{
  IsSound, new_barrier_session-IsSound, register_worker-IsSound, mark_worker_ready-IsSound,
  mark_worker_aborted-IsSound, release-IsSound, timeout_session-IsSound, IsMarked,
  register_worker-status, mark_worker_ready-IsMarked, release_lem, new_barrier_session-status,
  timeout_session_lem, mark_worker_aborted_lem,
}
use vuhive_cloud.Coordinator.{
  ActiveSession, Coordinator, created, get_or_create, arrived, release_if, join, admit, enter,
  Cause, by_release, by_abort, by_timer, by_cancel, wake, abort_session, abort, Step, enters,
  aborts, wakes, Reach, here, next,
}

-- The channels tell what the status tells, and a released session is full.
pub record IsMatched (act : ActiveSession) (s : BarrierSession) : Type 0 where
  pub sound : IsSound s
  pub released_full : s.status ≡ released → s.total_workers ≤ℤ pos (ready_count s)
  pub released_signalled : s.status ≡ released → act.release_closed ≡ true
  pub signalled_released : act.release_closed ≡ true → (s.status ≡ released) ⊎ (s.status ≡ aborted)
  pub signalled_target : act.release_closed ≡ true → s.target_start_time ≢ none
  pub aborted_signalled : s.status ≡ aborted → act.abort_closed ≡ true
  pub signalled_aborted : act.abort_closed ≡ true → s.status ≡ aborted

abbrev pub MatchedOrNil : ActiveSession → Option BarrierSession → Type 0
MatchedOrNil act none = (act.release_closed ≡ false) × (act.abort_closed ≡ false)
MatchedOrNil act (some s) = IsMatched act s

abbrev pub IsCoherent : ActiveSession → Type 0
IsCoherent act = MatchedOrNil act act.session

release_if-IsCoherent :
    (now : Time) (key : Text) (all_ready : Bool) (s : BarrierSession) (act : ActiveSession)
    → IsSound s
    → refusal s.status ≡ none
    → act.release_closed ≡ false
    → act.abort_closed ≡ false
    → (all_ready ≡ true → s.total_workers ≤ℤ pos (ready_count s))
    → IsCoherent (release_if now key all_ready s act).0
unfolding release_if
release_if-IsCoherent now key false s act v o r a f = ground arith
release_if-IsCoherent now key true s act v o r a f =
    ground (arith, release-IsSound now s, release_lem now s o)

arrived-IsCoherent :
    (now : Time) (key : Text) (r : BarrierSession × Bool × Option Error) (act : ActiveSession)
    → IsSound r.0
    → IsMarked r
    → act.release_closed ≡ false
    → act.abort_closed ≡ false
    → IsCoherent (arrived now key r act).0
unfolding arrived
arrived-IsCoherent now key (s, all_ready, some e) act v m r a = ground arith
arrived-IsCoherent now key (s, all_ready, none) act v m r a =
    release_if-IsCoherent now key all_ready s act v m.still_open r a m.full

join-IsCoherent :
    (now : Time) (key worker_id : Text) (s : BarrierSession) (act : ActiveSession)
    → act.session ≡ some s
    → IsMatched act s
    → IsCoherent (join now key worker_id s act).0
unfolding join
join-IsCoherent now key worker_id s act e v = ground (
  arith,
  arrived-IsCoherent now key (mark_worker_ready now worker_id (register_worker now worker_id s).0)
      act,
  register_worker-status now worker_id s,
  register_worker-IsSound now worker_id s,
  mark_worker_ready-IsSound now worker_id (register_worker now worker_id s).0,
  mark_worker_ready-IsMarked now worker_id (register_worker now worker_id s).0,
)

IsMatched-of_some :
    (act : ActiveSession) (s : BarrierSession)
    → act.session ≡ some s
    → IsCoherent act
    → IsMatched act s
IsMatched-of_some act s e v = subst (MatchedOrNil act) e v

admit-IsCoherent :
    (now : Time) (key worker_id : Text) (act : ActiveSession)
    → IsCoherent act
    → IsCoherent (admit now key worker_id act).0
unfolding admit
admit-IsCoherent now key worker_id act v = elim (Option-cases act.session) [
  | inl e ↦ ground arith
  | inr (s, e) ↦
      ground (arith, join-IsCoherent now key worker_id s act e (IsMatched-of_some act s e v))
]

created-IsCoherent :
    (now : Time) (key : Text) (total : ℤ) (timeout delay : Duration)
    → IsCoherent (created now key total timeout delay)
created-IsCoherent now key total timeout delay =
    cases (new_barrier_session now key total timeout delay) refl
  where
    cases :
        (r : Result BarrierSession)
        → new_barrier_session now key total timeout delay ≡ r
        → IsCoherent (created now key total timeout delay)
    cases (ok s) e = ground (
      arith,
      new_barrier_session-IsSound now key total timeout delay s,
      new_barrier_session-status now key total timeout delay s,
    )
    cases (err x) e = ground arith

get_or_create-IsCoherent :
    (now : Time) (key : Text) (total : ℤ) (timeout delay : Duration) (c : Coordinator)
    → AllValues IsCoherent c
    → IsCoherent (get_or_create now key total timeout delay c)
unfolding get_or_create
get_or_create-IsCoherent now key total timeout delay c v = cases (lookup key c) refl
  where
    cases :
        (o : Option ActiveSession)
        → lookup key c ≡ o
        → IsCoherent (get_or_create now key total timeout delay c)
    cases none e = rw (e, get_or_create) (created-IsCoherent now key total timeout delay)
    cases (some act) e = rw (e, get_or_create) (AllValues-lookup IsCoherent key c v e)

wake-IsCoherent :
    (key : Text) (cause : Cause) (act : ActiveSession)
    → IsCoherent act
    → IsCoherent (wake key cause act).0
unfolding wake
wake-IsCoherent key by_timer act v = elim (Option-cases act.session) [
  | inl e ↦ ground arith
  | inr (s, e) ↦
      ground (arith, IsMatched-of_some act s e v, timeout_session-IsSound s, timeout_session_lem s)
]
wake-IsCoherent key by_release act v = ground arith
wake-IsCoherent key by_abort act v = v
wake-IsCoherent key by_cancel act v = v

abort_session-IsCoherent :
    (key worker_id reason : Text) (act : ActiveSession)
    → IsCoherent act
    → IsCoherent (abort_session key worker_id reason act).0
unfolding abort_session
abort_session-IsCoherent key worker_id reason act v = elim (Option-cases act.session) [
  | inl e ↦ ground arith
  | inr (s, e) ↦ ground (
    arith,
    IsMatched-of_some act s e v,
    mark_worker_aborted-IsSound worker_id reason s,
    mark_worker_aborted_lem worker_id reason s,
  )
]

Step-IsCoherent : {c d : Coordinator} → Step c d → AllValues IsCoherent c → AllValues IsCoherent d
unfolding enter abort
Step-IsCoherent (enters now run_id worker_id total timeout delay c) v =
    AllValues-insert IsCoherent _ _ c
      (admit-IsCoherent now (trim_space run_id) (trim_space worker_id)
        (get_or_create now (trim_space run_id) total timeout delay c)
        (get_or_create-IsCoherent now (trim_space run_id) total timeout delay c v))
      v
Step-IsCoherent (aborts run_id worker_id reason c) v = cases (lookup (trim_space run_id) c) refl
  where
    cases :
        (o : Option ActiveSession)
        → lookup (trim_space run_id) c ≡ o
        → AllValues IsCoherent (abort run_id worker_id reason c).0
    cases none e = rw (e, abort) v
    cases (some act) e =
        rw (e, abort)
          (AllValues-insert IsCoherent _ _ c
            (abort_session-IsCoherent (trim_space run_id) worker_id reason act
              (AllValues-lookup IsCoherent (trim_space run_id) c v e))
            v)
Step-IsCoherent (wakes key cause act c e w) v =
    AllValues-insert IsCoherent key _ c
      (wake-IsCoherent key cause act (AllValues-lookup IsCoherent key c v e)) v

pub Reach-IsCoherent :
    {c d : Coordinator} → AllValues IsCoherent c → Reach c d → AllValues IsCoherent d
Reach-IsCoherent v here = v
Reach-IsCoherent v (next r st) = Step-IsCoherent st (Reach-IsCoherent v r)
