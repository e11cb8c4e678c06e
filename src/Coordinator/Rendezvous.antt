-- ===== src/Coordinator/Rendezvous.antt =====
-- internal/adapters/outbound/coordinator/memory_coordinator.go: the rendezvous of N workers.
use vuhive_cloud.Common.{
  ℕ, ◌+◌, ◌≡◌, refl, ◌∙◌, ◌≤◌, ◌<◌, true, false, none, some, Text, text_eq, text_eq_refl,
  trim_space, is_blank, ok, arith,
}
use vuhive_cloud.Common.Int.{pos}
use vuhive_cloud.Common.Time.{Time}
use vuhive_cloud.Common.Dict.{lookup, insert, lookup-insert, count-insert}
use vuhive_cloud.Barrier.{
  BarrierSession, ready, ready_count, register_worker, mark_worker_ready, fresh_worker, prepare,
  settle, refusal, is_prepared, prepared, WorkerParticipant, release,
}
use vuhive_cloud.Coordinator.{ActiveSession, returns, blocks, admit, join, arrived, release_if}

-- A worker id as `Await` keeps it.
abbrev pub IsWorker : Text → Type 0
IsWorker w = (trim_space w ≡ w) × (is_blank w ≡ false)

-- `t` is `s` with the new worker `w` ready.
pub record Joined (w : Text) (s t : BarrierSession) : Type 0 where
  pub total_kept : t.total_workers ≡ s.total_workers
  pub counted : ready_count t ≡ ready_count s + 1
  pub absent_kept :
      (j : Text)
      → text_eq w j ≡ false
      → lookup j s.participants ≡ none
      → lookup j t.participants ≡ none

-- The session between the registration and the check of the count.
abbrev pub seated : Time → Text → BarrierSession → BarrierSession
seated now w s =
    prepare now w (fresh_worker now w)
      (record s { participants = insert w (fresh_worker now w) s.participants })

pub seated-Joined :
    (now : Time) (w : Text) (s : BarrierSession)
    → lookup w s.participants ≡ none
    → Joined w s (seated now w s)
unfolding prepare ready_count
seated-Joined now w s h = record {
  total_kept = refl;
  counted = ground (
    arith,
    count-insert is_prepared w (fresh_worker now w) s.participants,
    count-insert is_prepared w
        (record (fresh_worker now w) { status = prepared; ready_at = some now })
        (insert w (fresh_worker now w) s.participants),
    lookup-insert w w (fresh_worker now w) s.participants,
    text_eq_refl w,
  );
  absent_kept = λ j ne e. ground (
    arith,
    lookup-insert w j (fresh_worker now w) s.participants,
    lookup-insert w j (record (fresh_worker now w) { status = prepared; ready_at = some now })
        (insert w (fresh_worker now w) s.participants),
  );
}

mark_known :
    (now : Time) (w : Text) (s : BarrierSession) (p : WorkerParticipant)
    → IsWorker w
    → refusal s.status ≡ none
    → lookup w s.participants ≡ some p
    → mark_worker_ready now w s ≡ settle (prepare now w p s)
unfolding mark_worker_ready
mark_known now w s p v o h = ground (arith, v.0)

register_new :
    (now : Time) (w : Text) (s : BarrierSession)
    → IsWorker w
    → refusal s.status ≡ none
    → lookup w s.participants ≡ none
    → (register_worker now w s).0
      ≡ record s { participants = insert w (fresh_worker now w) s.participants }
unfolding register_worker
register_new now w s v o h = ground (arith, v.0)

mark-seated :
    (now : Time) (w : Text) (s : BarrierSession)
    → IsWorker w
    → refusal s.status ≡ none
    → lookup w s.participants ≡ none
    → mark_worker_ready now w (register_worker now w s).0 ≡ settle (seated now w s)
mark-seated now w s v o h = rw (register_new now w s v o h) (
    mark_known now w _ (fresh_worker now w) v o
      (rw (lookup-insert w w (fresh_worker now w) s.participants, text_eq_refl w)))

-- The open session of `act`: `total` workers are expected and `k` are ready.
pub record IsOpen (act : ActiveSession) (s : BarrierSession) (n k : ℕ) : Type 0 where
  pub unlocked : act.locked ≡ false
  pub held : act.session ≡ some s
  pub accepts : refusal s.status ≡ none
  pub expects : s.total_workers ≡ pos n
  pub arrived_so_far : ready_count s ≡ k

join_new :
    (now : Time) (key w : Text) (s : BarrierSession) (act : ActiveSession)
    → IsWorker w
    → refusal s.status ≡ none
    → lookup w s.participants ≡ none
    → join now key w s act ≡ arrived now key (settle (seated now w s)) act
unfolding join
join_new now key w s act v o h = ground (arith, mark-seated now w s v o h)

settle_waits :
    (s : BarrierSession) (n : ℕ)
    → s.total_workers ≡ pos n
    → ready_count s < n
    → settle s ≡ (s, false, none)
unfolding settle
settle_waits s n e h = ground arith

settle_full :
    (s : BarrierSession) (n : ℕ)
    → s.total_workers ≡ pos n
    → n ≤ ready_count s
    → settle s ≡ (record s { status = ready }, true, none)
unfolding settle
settle_full s n e h = ground arith

pub admit_waits :
    (now : Time) (key w : Text) (s : BarrierSession) (act : ActiveSession) (n k : ℕ)
    → IsWorker w
    → IsOpen act s n k
    → lookup w s.participants ≡ none
    → k + 1 < n
    → admit now key w act ≡ (record act { session = some (seated now w s) }, blocks)
unfolding admit arrived release_if
admit_waits now key w s act n k v o h lt =
    let j = seated-Joined now w s h in
    ground (
      arith,
      join_new now key w s act v o.accepts h,
      settle_waits (seated now w s) n (j.total_kept ∙ o.expects) (omega (arith, j.counted, o)),
    )

-- The session after the last arrival.
abbrev pub opened : Time → Text → BarrierSession → BarrierSession
opened now w s = (release now (record (seated now w s) { status = ready })).0

pub admit_releases :
    (now : Time) (key w : Text) (s : BarrierSession) (act : ActiveSession) (n k : ℕ)
    → IsWorker w
    → IsOpen act s n k
    → lookup w s.participants ≡ none
    → k + 1 ≡ n
    → admit now key w act
      ≡ (record act { session = some (opened now w s); release_closed = true }, returns (ok key))
unfolding admit arrived release_if
admit_releases now key w s act n k v o h e =
    let j = seated-Joined now w s h in
    ground (
      arith,
      join_new now key w s act v o.accepts h,
      settle_full (seated now w s) n (j.total_kept ∙ o.expects) (omega (arith, j.counted, o)),
    )
