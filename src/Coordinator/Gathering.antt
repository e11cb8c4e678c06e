-- ===== src/Coordinator/Gathering.antt =====
-- internal/adapters/outbound/coordinator/memory_coordinator.go: the arrival of all workers of a run,
-- one after the other.
use vuhive_cloud.Common.{
  ℕ, ◌+◌, ◌≡◌, refl, ap, ◌∙◌, ◌≤◌, true, false, none, some, List, [], ◌∷◌, Text, text_eq,
  text_eq_refl, trim_space, trimmed_ink, is_blank, ok, arith, All, length,
}
use vuhive_cloud.Common.Int.{ℤ, pos}
use vuhive_cloud.Common.Time.{Time, Duration}
use vuhive_cloud.Common.Dict.{lookup, insert, lookup-insert, count}
use vuhive_cloud.Barrier.{
  BarrierSession, released, ready_count, prepare, ready, new_barrier_session, max_barrier_workers,
  fresh_session,
}
use vuhive_cloud.Barrier.Invariant.{release_lem}
use vuhive_cloud.Coordinator.{
  ActiveSession, Coordinator, Outcome, returns, blocks, enter, admit, get_or_create, created,
}
use vuhive_cloud.Coordinator.Safety.{Stores}
use vuhive_cloud.Coordinator.Rendezvous.{
  IsWorker, Joined, seated, seated-Joined, IsOpen, admit_waits, admit_releases, opened,
}

abbrev pub Arrivals : Type 0
Arrivals = List (Time × Text)

-- No two of the workers have the same id.
abbrev pub Distinct : Arrivals → Type 0
Distinct [] = Unit {0}
Distinct ((now, w) ∷ ws) = All (λ v. text_eq w v.1 ≡ false) ws × Distinct ws

abbrev pub Workers : Arrivals → Type 0
Workers = All (λ v. IsWorker v.1)

abbrev Absent : BarrierSession → Arrivals → Type 0
Absent s = All (λ v. lookup v.1 s.participants ≡ none)

-- The session is RELEASED and its waiters are told.
abbrev pub IsReleased : Coordinator → Text → Type 0
IsReleased c key =
    (act : ActiveSession) × (s : BarrierSession) × Stores c key act s
    × (s.status ≡ released)
    × (act.release_closed ≡ true)

Absent-seated :
    (w : Text) (s t : BarrierSession) (ws : Arrivals)
    → Joined w s t
    → All (λ v. text_eq w v.1 ≡ false) ws
    → Absent s ws
    → Absent t ws
Absent-seated w s t [] j ne h = tt
Absent-seated w s t ((now, v) ∷ ws) j ne h =
    (j.absent_kept v ne.0 h.0, Absent-seated w s t ws j ne.1 h.1)

seated-IsOpen :
    (now : Time) (w : Text) (act : ActiveSession) (s : BarrierSession) (n k : ℕ)
    → lookup w s.participants ≡ none
    → IsOpen act s n k
    → IsOpen (record act { session = some (seated now w s) }) (seated now w s) n (k + 1)
unfolding prepare
seated-IsOpen now w act s n k h o =
    let j = seated-Joined now w s h in
    record {
      unlocked = o.unlocked;
      held = refl;
      accepts = o.accepts;
      expects = o.expects;
      arrived_so_far = j.counted ∙ ap (λ m. m + 1) o.arrived_so_far;
    }

-- All but the last wait; the last returns the session.
pub rendezvous : Text → Arrivals → List Outcome
rendezvous key [] = []
rendezvous key (w ∷ []) = returns (ok key) ∷ []
rendezvous key (w ∷ v ∷ ws) = blocks ∷ rendezvous key (v ∷ ws)

module _ (run_id : Text) (total : ℤ) (timeout delay : Duration) where
  -- The calls of `Await` in the order of their arrival, and how each proceeds.
  pub enter_all : Arrivals → Coordinator → Coordinator × List Outcome
  enter_all [] c = (c, [])
  enter_all ((now, w) ∷ ws) c =
      let (d, outcome) = enter now run_id w total timeout delay c in
      let (e, outcomes) = enter_all ws d in (e, outcome ∷ outcomes)

  -- The worker's session when its call comes in.
  abbrev Finds : Time → Coordinator → ActiveSession → Type 0
  Finds now c act = get_or_create now (trim_space run_id) total timeout delay c ≡ act

  enter_lem :
      (now : Time) (w : Text) (c : Coordinator) (act : ActiveSession)
      → Finds now c act
      → IsWorker w
      → enter now run_id w total timeout delay c ≡ (
        insert (trim_space run_id) (admit now (trim_space run_id) w act).0 c,
        (admit now (trim_space run_id) w act).1,
      )
  unfolding enter
  enter_lem now w c act f v = rw (f, v.0)

  stored_inserted :
      (c : Coordinator) (act : ActiveSession)
      → lookup (trim_space run_id) (insert (trim_space run_id) act c) ≡ some act
  stored_inserted c act = rw (
    lookup-insert (trim_space run_id) (trim_space run_id) act c,
    text_eq_refl (trim_space run_id),
  )

  Finds-inserted :
      (now : Time) (c : Coordinator) (act : ActiveSession)
      → Finds now (insert (trim_space run_id) act c) act
  unfolding get_or_create
  Finds-inserted now c act = rw (stored_inserted c act, get_or_create)

  last_IsReleased :
      (now : Time) (w : Text) (c : Coordinator) (act : ActiveSession) (s : BarrierSession)
      → IsReleased
          (insert
            (trim_space run_id)
            (record act { session = some (opened now w s); release_closed = true })
            c)
          (trim_space run_id)
  last_IsReleased now w c act s = (
    record act { session = some (opened now w s); release_closed = true },
    opened now w s,
    record { stored = stored_inserted c _; held = refl },
    (release_lem now (record (seated now w s) { status = ready }) refl).0,
    refl,
  )

  gather :
      (ws : Arrivals) (c : Coordinator) (act : ActiveSession) (s : BarrierSession) (n k : ℕ)
      (now : Time) (w : Text)
      → Finds now c act
      → IsOpen act s n k
      → k + length ((now, w) ∷ ws) ≡ n
      → Workers ((now, w) ∷ ws)
      → Distinct ((now, w) ∷ ws)
      → Absent s ((now, w) ∷ ws)
      → ((enter_all ((now, w) ∷ ws) c).1 ≡ rendezvous (trim_space run_id) ((now, w) ∷ ws))
        × IsReleased (enter_all ((now, w) ∷ ws) c).0 (trim_space run_id)
  unfolding enter_all rendezvous
  gather [] c act s n k now w f o e v d h =
      rw
        (
          enter_lem now w c act f v.0,
          admit_releases now (trim_space run_id) w s act n k v.0 o h.0 (omega (arith, e)),
        )
        (refl, last_IsReleased now w c act s)
  gather ((later, u) ∷ ws) c act s n k now w f o e v d h =
      let act' : ActiveSession = record act { session = some (seated now w s) } in
      let c' : Coordinator = insert (trim_space run_id) act' c in
      let ih =
        gather ws c' act' (seated now w s) n (k + 1) later u (Finds-inserted later c act')
          (seated-IsOpen now w act s n k h.0 o) (omega (arith, e)) v.1 d.1
          (Absent-seated w s (seated now w s) ((later, u) ∷ ws) (seated-Joined now w s h.0) d.0
            h.1) in
      rw
        (
          enter_lem now w c act f v.0,
          admit_waits now (trim_space run_id) w s act n k v.0 o h.0 (omega (arith, e)),
        )
        (ap (λ os. blocks ∷ os) ih.0, ih.1)

Absent-fresh :
    (now : Time) (key : Text) (total : ℤ) (timeout delay : Duration) (ws : Arrivals)
    → Absent (fresh_session now key total timeout delay) ws
unfolding lookup
Absent-fresh now key total timeout delay [] = tt
Absent-fresh now key total timeout delay (v ∷ ws) =
    (refl, Absent-fresh now key total timeout delay ws)

new_session_ok :
    (now : Time) (key : Text) (n : ℕ) (timeout delay : Duration)
    → is_blank key ≡ false
    → 1 ≤ n
    → n ≤ max_barrier_workers
    → new_barrier_session now key (pos n) timeout delay
      ≡ ok (fresh_session now key (pos n) timeout delay)
unfolding new_barrier_session
new_session_ok now key n timeout delay b lo hi = ground arith

created-IsOpen :
    (now : Time) (key : Text) (n : ℕ) (timeout delay : Duration)
    → is_blank key ≡ false
    → 1 ≤ n
    → n ≤ max_barrier_workers
    → IsOpen
        (created now key (pos n) timeout delay)
        (fresh_session now key (pos n) timeout delay)
        n
        0
unfolding ready_count count
created-IsOpen now key n timeout delay b lo hi = record {
  unlocked = refl;
  held = rw (new_session_ok now key n timeout delay b lo hi);
  accepts = refl;
  expects = refl;
  arrived_so_far = refl;
}

Finds-created :
    (run_id : Text) (total : ℤ) (timeout delay : Duration) (now : Time) (c : Coordinator)
    → lookup (trim_space run_id) c ≡ none
    → Finds run_id total timeout delay now c (created now (trim_space run_id) total timeout delay)
unfolding get_or_create
Finds-created run_id total timeout delay now c h = rw (h, get_or_create)

-- The rendezvous: when the N distinct workers of a run (with ids that are trimmed and not blank) call
-- `Await` one after the other, on a run with a name that has no session yet, N at most 10000, then the
-- first N - 1 calls wait, the last returns the session, and the session is RELEASED with its waiters
-- told.
pub all_arrive :
    (run_id : Text) (timeout delay : Duration) (c : Coordinator) (now : Time) (w : Text)
    (ws : Arrivals)
    → is_blank run_id ≡ false
    → lookup (trim_space run_id) c ≡ none
    → length ((now, w) ∷ ws) ≤ max_barrier_workers
    → Workers ((now, w) ∷ ws)
    → Distinct ((now, w) ∷ ws)
    → let total = pos (length ((now, w) ∷ ws)) in
      ((enter_all run_id total timeout delay ((now, w) ∷ ws) c).1
        ≡ rendezvous (trim_space run_id) ((now, w) ∷ ws))
      × IsReleased (enter_all run_id total timeout delay ((now, w) ∷ ws) c).0 (trim_space run_id)
all_arrive run_id timeout delay c now w ws b free few v d =
    let n : ℕ = length ((now, w) ∷ ws) in
    gather run_id (pos n) timeout delay ws c _ _ n 0 now w
      (Finds-created run_id (pos n) timeout delay now c free)
      (created-IsOpen now (trim_space run_id) n timeout delay (trimmed_ink run_id b) (omega arith)
        few)
      (omega arith) v d (Absent-fresh now (trim_space run_id) (pos n) timeout delay ((now, w) ∷ ws))
