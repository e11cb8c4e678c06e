-- ===== src/Barrier.antt =====
-- internal/domain/model/barrier.go: the BarrierSession aggregate, which makes the pods of a
-- distributed run start together. A method that mutates `*BarrierSession` returns the new record with
-- its results.
pub mod Invariant
mod Tests
use vuhive_cloud.Common.{
  ℕ, ◌≡◌, ◌≤◌, Bool, true, false, ◌||◌, Option, none, some, List, [], ◌∷◌, Text, codes, trim_space,
  is_blank, if◌then◌else◌, Error, Result, ok, err, reject_if, ◌>>=◌, ◌>>◌, length, validation,
  invalid_worker_count, worker_already_registered, barrier_aborted, barrier_timeout,
  barrier_released, not_found, terminal_state, is_some, leb,
}
use vuhive_cloud.Common.Int.{ℤ, pos, ltb_ℤ, leb_ℤ, pos_part, ◌+ℤ◌}
use vuhive_cloud.Common.Time.{Time, Duration, add, after, second, millisecond}
use vuhive_cloud.Common.Dict.{Dict, lookup, insert, count}

pub data BarrierStatus : Type 0 where
  pending ready released aborted timed_out : BarrierStatus

pub data WorkerStatus : Type 0 where
  waiting prepared withdrawn : WorkerStatus

pub record WorkerParticipant : Type 0 where
  pub worker_id : Text
  pub status : WorkerStatus
  pub joined_at : Time
  pub ready_at : Option Time
  pub error_reason : Text

pub record BarrierSession : Type 0 where
  pub run_id : Text
  pub total_workers : ℤ
  pub status : BarrierStatus
  pub timeout : Duration
  pub release_delay : Duration
  pub target_start_time : Option Time
  pub abort_reason : Text
  pub created_at : Time
  pub participants : Dict WorkerParticipant

-- 60 s, and 300 ms.
abbrev pub default_barrier_timeout : ℕ
default_barrier_timeout = 60000000000

abbrev pub default_release_delay : ℕ
default_release_delay = 300000000

abbrev pub max_barrier_workers : ℕ
max_barrier_workers = 10000

abbrev positive_or : ℕ → Duration → Duration
positive_or default d = if leb_ℤ d (pos 0) then pos default else d

abbrev pub fresh_session : Time → Text → ℤ → Duration → Duration → BarrierSession
fresh_session now run_id total_workers timeout delay = record {
  run_id = trim_space run_id;
  total_workers = total_workers;
  status = pending;
  timeout = positive_or default_barrier_timeout timeout;
  release_delay = positive_or default_release_delay delay;
  target_start_time = none;
  abort_reason = [];
  created_at = now;
  participants = [];
}

unfoldable pub new_barrier_session : Time → Text → ℤ → Duration → Duration → Result BarrierSession
new_barrier_session now run_id total_workers timeout delay = do
  reject_if (is_blank run_id) validation
  reject_if (ltb_ℤ total_workers (pos 1) || ltb_ℤ (pos max_barrier_workers) total_workers)
      invalid_worker_count
  ok (fresh_session now run_id total_workers timeout delay)

abbrev pub is_terminal : BarrierStatus → Bool
is_terminal released = true
is_terminal aborted = true
is_terminal timed_out = true
is_terminal pending = false
is_terminal ready = false

abbrev pub is_prepared : WorkerParticipant → Bool
is_prepared p = elim p.status [ prepared ↦ true | _ ↦ false ]

-- `RegisteredCount` and `ReadyCount`.
unfoldable pub registered_count : BarrierSession → ℕ
registered_count s = length s.participants

unfoldable pub ready_count : BarrierSession → ℕ
ready_count s = count is_prepared s.participants

-- The error that a session which takes no more workers answers with.
abbrev pub refusal : BarrierStatus → Option Error
refusal aborted = some barrier_aborted
refusal timed_out = some barrier_timeout
refusal released = some barrier_released
refusal pending = none
refusal ready = none

abbrev pub fresh_worker : Time → Text → WorkerParticipant
fresh_worker now worker_id = record {
  worker_id = trim_space worker_id;
  status = waiting;
  joined_at = now;
  ready_at = none;
  error_reason = [];
}

-- `participants` holds pointers: a change of a participant is a write under its key.
unfoldable pub register_worker : Time → Text → BarrierSession → BarrierSession × Option Error
register_worker now worker_id s =
    let key = trim_space worker_id in
    if is_blank worker_id then (s, some validation) else elim (refusal s.status) [
      | some e ↦ (s, some e)
      | none ↦
          if is_some (lookup key s.participants) then (s, some worker_already_registered) else (
            record s { participants = insert key (fresh_worker now worker_id) s.participants },
            none,
          )
    ]

-- The session with the worker under `key` ready, and the status that follows from the count.
unfoldable pub prepare : Time → Text → WorkerParticipant → BarrierSession → BarrierSession
prepare now key p s = record s {
  participants = insert key (record p { status = prepared; ready_at = some now }) s.participants;
}

unfoldable pub settle : BarrierSession → BarrierSession × Bool × Option Error
settle s =
    if leb_ℤ s.total_workers (pos (ready_count s))
    then (record s { status = ready }, true, none)
    else (s, false, none)

-- Returns whether all workers are ready.
unfoldable pub mark_worker_ready :
    Time → Text → BarrierSession → BarrierSession × Bool × Option Error
unfolding prepare settle
mark_worker_ready now worker_id s =
    let key = trim_space worker_id in
    elim (refusal s.status) [
      | some e ↦ (s, false, some e)
      | none ↦ elim (lookup key s.participants) [
        | none ↦ (s, false, some not_found)
        | some p ↦ settle (prepare now key p s)
      ]
    ]

abbrev default_abort_reason : Text
default_abort_reason = codes "worker aborted rendezvous"

-- Its error is always nil.
unfoldable pub mark_worker_aborted : Text → Text → BarrierSession → BarrierSession
mark_worker_aborted worker_id reason s =
    let key = trim_space worker_id in
    let why = if is_blank reason then default_abort_reason else trim_space reason in
    record s {
      participants = elim (lookup key s.participants) [
        | none ↦ s.participants
        | some p ↦ insert key (record p { status = withdrawn; error_reason = why }) s.participants
      ];
      status = aborted;
      abort_reason = why;
    }

-- Returns the target start time.
unfoldable pub release : Time → BarrierSession → BarrierSession × Result Time
release now s = elim (refusal s.status) [
  | some e ↦ (s, err e)
  | none ↦
      let target = add now s.release_delay in
      (record s { target_start_time = some target; status = released }, ok target)
]

unfoldable pub has_timed_out : Time → BarrierSession → Bool
has_timed_out now s = after now (add s.created_at s.timeout)

unfoldable pub timeout_session : BarrierSession → BarrierSession × Option Error
timeout_session s =
    if is_terminal s.status
    then (s, some terminal_state)
    else (record s { status = timed_out }, none)
