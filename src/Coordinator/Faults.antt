-- ===== src/Coordinator/Faults.antt =====
-- internal/adapters/outbound/coordinator/memory_coordinator.go: where the coordinator does not do what
-- its callers expect.
use vuhive_cloud.Common.{
  ◌+◌, ◌≡◌, refl, ap, inl, inr, true, false, none, some, Text, text_eq, text_eq_refl, text_eq→≡,
  subst, Option-cases, trim_space, is_blank, Error, ok, err, arith, Bool-cases,
}
use vuhive_cloud.Common.Int.{ℤ, pos, ◌≤ℤ◌}
use vuhive_cloud.Common.Time.{Time, Duration}
use vuhive_cloud.Common.Dict.{lookup, insert, lookup-insert}
use vuhive_cloud.Barrier.{
  BarrierSession, aborted, new_barrier_session, max_barrier_workers, mark_worker_aborted,
}
use vuhive_cloud.Barrier.Invariant.{mark_worker_aborted_lem}
use vuhive_cloud.Coordinator.{
  ActiveSession, Coordinator, returns, panics, deadlocks, enter, admit, get_or_create, created,
  constructed, abort, abort_session, get, wake, Cause, by_release, by_abort, by_timer, by_cancel,
  may_wake, Step, enters, aborts, wakes, Reach, here, next,
}

-- What is left of a run whose first call panicked.
abbrev poisoned : ActiveSession
poisoned = record { session = none; release_closed = false; abort_closed = false; locked = true }

refused_session :
    (now : Time) (key : Text) (total : ℤ) (timeout delay : Duration)
    → pos (max_barrier_workers + 1) ≤ℤ total
    → (e : Error) × (new_barrier_session now key total timeout delay ≡ err e)
unfolding new_barrier_session
refused_session now key total timeout delay h = elim (Bool-cases (is_blank key)) [
  | inl b ↦ (Error.validation, rw b)
  | inr b ↦ (Error.invalid_worker_count, ground arith)
]

Finds-created :
    (now : Time) (key : Text) (total : ℤ) (timeout delay : Duration) (c : Coordinator)
    → lookup key c ≡ none
    → get_or_create now key total timeout delay c ≡ created now key total timeout delay
unfolding get_or_create
Finds-created now key total timeout delay c h = rw (h, get_or_create)

admit_panics :
    (now later : Time) (key worker_id : Text) (total : ℤ) (timeout delay : Duration) (e : Error)
    → new_barrier_session now key total timeout delay ≡ err e
    → admit later key worker_id (created now key total timeout delay) ≡ (poisoned, panics)
unfolding admit
admit_panics now later key worker_id total timeout delay e h =
    ap
      (λ r. admit later key worker_id (record {
        session = constructed r;
        release_closed = false;
        abort_closed = false;
        locked = false;
      }))
      h

first_panics :
    (now : Time) (run_id worker_id : Text) (total : ℤ) (timeout delay : Duration) (c : Coordinator)
    → pos (max_barrier_workers + 1) ≤ℤ total
    → lookup (trim_space run_id) c ≡ none
    → enter now run_id worker_id total timeout delay c
      ≡ (insert (trim_space run_id) poisoned c, panics)
unfolding enter
first_panics now run_id worker_id total timeout delay c h free =
    let key = trim_space run_id in
    let (e, refused) = refused_session now key total timeout delay h in
    rw (
      Finds-created now key total timeout delay c free,
      admit_panics now now key (trim_space worker_id) total timeout delay e refused,
    )

poisoned-enter :
    (now : Time) (run_id worker_id : Text) (total : ℤ) (timeout delay : Duration) (d : Coordinator)
    → lookup (trim_space run_id) d ≡ some poisoned
    → (enter now run_id worker_id total timeout delay d).1 ≡ deadlocks
unfolding enter admit get_or_create
poisoned-enter now run_id worker_id total timeout delay d h = rw (h, get_or_create)

poisoned-abort :
    (run_id worker_id reason : Text) (d : Coordinator)
    → lookup (trim_space run_id) d ≡ some poisoned
    → (abort run_id worker_id reason d).1 ≡ deadlocks
unfolding abort abort_session
poisoned-abort run_id worker_id reason d h = rw (h, abort)

poisoned-get :
    (run_id : Text) (d : Coordinator)
    → lookup (trim_space run_id) d ≡ some poisoned
    → get run_id d ≡ deadlocks
unfolding get
poisoned-get run_id d h = rw (h, get)

-- The run is poisoned: all that is left of it is the nil session behind its locked mutex.
abbrev IsPoisoned : Text → Coordinator → Type 0
IsPoisoned key c = lookup key c ≡ some poisoned

poisoned-inserted :
    (key other : Text) (act : ActiveSession) (c : Coordinator)
    → IsPoisoned key c
    → (text_eq other key ≡ true → act ≡ poisoned)
    → IsPoisoned key (insert other act c)
poisoned-inserted key other act c h same = elim (Bool-cases (text_eq other key)) [
  | inl e ↦ rw (lookup-insert other key act c, e) (ap some (same e))
  | inr e ↦ rw (lookup-insert other key act c, e) h
]

found_at :
    (key other : Text) (act : ActiveSession) (c : Coordinator)
    → IsPoisoned key c
    → lookup other c ≡ some act
    → text_eq other key ≡ true
    → act ≡ poisoned
found_at key other act c h found e =
    let same = text_eq→≡ other key e in let there : lookup other c ≡ some poisoned = rw same h in cc

admit_kept :
    (now : Time) (key worker_id other : Text) (total : ℤ) (timeout delay : Duration)
    (c : Coordinator)
    → IsPoisoned key c
    → text_eq other key ≡ true
    → (admit now other worker_id (get_or_create now other total timeout delay c)).0 ≡ poisoned
unfolding admit get_or_create
admit_kept now key worker_id other total timeout delay c h e =
    rw (get_or_create, text_eq→≡ other key e, h) refl

abort_kept :
    (key worker_id reason other : Text) (c : Coordinator)
    → IsPoisoned key c
    → IsPoisoned key (abort other worker_id reason c).0
unfolding abort abort_session
abort_kept key worker_id reason other c h = elim (Option-cases (lookup (trim_space other) c)) [
  | inl e ↦ rw (abort, e) h
  | inr (act, e) ↦
      rw (abort, e)
        (poisoned-inserted key (trim_space other)
          (abort_session (trim_space other) worker_id reason act).0 c h
          (λ same. rw (found_at key (trim_space other) act c h e same) refl))
]

wake_kept : (key : Text) (cause : Cause) → (wake key cause poisoned).0 ≡ poisoned
unfolding wake
wake_kept key by_release = refl
wake_kept key by_abort = refl
wake_kept key by_timer = refl
wake_kept key by_cancel = refl

Step-IsPoisoned : {c d : Coordinator} (key : Text) → Step c d → IsPoisoned key c → IsPoisoned key d
unfolding enter
Step-IsPoisoned key (enters now run_id worker_id total timeout delay c) h =
    let other = trim_space run_id in
    poisoned-inserted key other
      (admit now other (trim_space worker_id) (get_or_create now other total timeout delay c)).0 c h
      (admit_kept now key (trim_space worker_id) other total timeout delay c h)
Step-IsPoisoned key (aborts run_id worker_id reason c) h =
    abort_kept key worker_id reason run_id c h
Step-IsPoisoned key (wakes other cause act c found ready) h =
    poisoned-inserted key other (wake other cause act).0 c h
      (λ same. rw (found_at key other act c h found same) (wake_kept other cause))

Reach-IsPoisoned :
    {c d : Coordinator} (key : Text) → Reach c d → IsPoisoned key c → IsPoisoned key d
Reach-IsPoisoned key here h = h
Reach-IsPoisoned key (next way step) h = Step-IsPoisoned key step (Reach-IsPoisoned key way h)

-- With more workers than the domain allows, the first `Await` of a run that has no session panics on
-- the nil session. From then on, whatever calls and wake-ups of any runs come in between, every
-- `Await`, `Abort` or `Get` of that run waits for ever, since the mutex stays locked.
pub too_many_workers :
    (now later : Time) (run_id first second reason : Text) (total other : ℤ)
    (timeout delay : Duration) (c d : Coordinator)
    → pos (max_barrier_workers + 1) ≤ℤ total
    → lookup (trim_space run_id) c ≡ none
    → Reach (enter now run_id first total timeout delay c).0 d
    → ((enter now run_id first total timeout delay c).1 ≡ panics)
      × ((enter later run_id second other timeout delay d).1 ≡ deadlocks)
      × ((abort run_id second reason d).1 ≡ deadlocks)
      × (get run_id d ≡ deadlocks)
too_many_workers now later run_id first second reason total other timeout delay c d h free way =
    let key = trim_space run_id in
    let call = first_panics now run_id first total timeout delay c h free in
    let stored : IsPoisoned key (insert key poisoned c) =
      rw (lookup-insert key key poisoned c, text_eq_refl key) in
    let kept = Reach-IsPoisoned key (subst (λ z. Reach z d) (ap (λ r. r.0) call) way) stored in
    (
      ap (λ r. r.1) call,
      poisoned-enter later run_id second other timeout delay d kept,
      poisoned-abort run_id second reason d kept,
      poisoned-get run_id d kept,
    )

aborted_act :
    (key worker_id reason : Text) (act : ActiveSession) (s : BarrierSession)
    → act.locked ≡ false
    → act.session ≡ some s
    → abort_session key worker_id reason act ≡ (
      record act { session = some (mark_worker_aborted worker_id reason s); abort_closed = true },
      returns (ok key),
    )
unfolding abort_session
aborted_act key worker_id reason act s u e = ground arith

-- An abort that comes after the release turns the RELEASED session into an ABORTED one, though workers
-- can still wake by the release, and `Await` then returns that session with no error.
pub late_abort :
    (run_id worker_id reason : Text) (act : ActiveSession) (s : BarrierSession) (c : Coordinator)
    → lookup (trim_space run_id) c ≡ some act
    → act.locked ≡ false
    → act.session ≡ some s
    → may_wake by_release act ≡ true
    → let key = trim_space run_id in
      (act' : ActiveSession) × (t : BarrierSession) × (lookup key
          (abort run_id worker_id reason c).0
        ≡ some act')
      × (act'.session ≡ some t)
      × (t.status ≡ aborted)
      × (may_wake by_release act' ≡ true)
      × ((wake key by_release act').1 ≡ returns (ok key))
unfolding abort wake
late_abort run_id worker_id reason act s c h u e r =
    let key = trim_space run_id in
    let t = mark_worker_aborted worker_id reason s in
    let act' : ActiveSession = record act { session = some t; abort_closed = true } in
    (
      act',
      t,
      rw (h, abort)
          (rw (aborted_act key worker_id reason act s u e)
            (rw (lookup-insert key key act' c, text_eq_refl key))),
      refl,
      (mark_worker_aborted_lem worker_id reason s).0,
      r,
      rw u,
    )
