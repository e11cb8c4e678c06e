-- ===== src/Barrier/Tests.antt =====
-- internal/domain/model/barrier.go on concrete sessions.
use vuhive_cloud.Common.{
  ◌≡◌, refl, true, false, some, [], codes, trim_space, err, invalid_worker_count,
  worker_already_registered, not_found, barrier_aborted,
}
use vuhive_cloud.Common.Int.{pos, ◌+ℤ◌}
use vuhive_cloud.Common.Dict.{lookup, insert, count}
use vuhive_cloud.Barrier.{
  BarrierSession, fresh_session, new_barrier_session, register_worker, mark_worker_ready,
  ready_count, mark_worker_aborted, release, has_timed_out,
}

abbrev pair : BarrierSession
pair = fresh_session (pos 0) (codes "r") (pos 2) (pos 0) (pos 0)

too_many :
    new_barrier_session (pos 0) (codes "r") (pos 10001) (pos 0) (pos 0) ≡ err invalid_worker_count
unfolding new_barrier_session trim_space
too_many = refl

twice :
    (register_worker (pos 2) (codes " a ") (register_worker (pos 1) (codes "a") pair).0).1
    ≡ some worker_already_registered
unfolding register_worker lookup insert trim_space
twice = refl

stranger : (mark_worker_ready (pos 1) (codes "b") pair).2 ≡ some not_found
unfolding mark_worker_ready lookup trim_space
stranger = refl

one_of_two :
    (mark_worker_ready (pos 2) (codes "a") (register_worker (pos 1) (codes "a") pair).0).1 ≡ false
unfolding mark_worker_ready register_worker lookup insert count ready_count trim_space
one_of_two = refl

aborted_for_good :
    (release (pos 3) (mark_worker_aborted (codes "a") [] pair)).1 ≡ err barrier_aborted
unfolding release mark_worker_aborted lookup trim_space
aborted_for_good = refl

expires : has_timed_out (pos 60000000001) pair ≡ true
unfolding has_timed_out ◌+ℤ◌ trim_space
expires = refl
