-- ===== src/Partition/Shares.antt =====
-- internal/domain/service/workload_partitioner.go: partitionValue.
use vuhive_cloud.Common.{
  ℕ, zero, suc, ◌+◌, ◌*◌, ◌/◌, ◌%◌, ◌≤◌, ◌<◌, ◌≡◌, ◌||◌, arith, ltb, leb, if◌then◌else◌, refl, ◌∙◌,
}
use vuhive_cloud.Common.Int.{ℤ, pos, negsuc, pos_part, leb_ℤ, ltb_ℤ, ◌≤ℤ◌}

-- `base := total / workerCount`, plus one for the first `total % workerCount` workers.
unfoldable pub share : ℕ → ℤ → ℕ → ℕ
share total index workers =
    if ltb_ℤ index (pos (total % workers)) then total / workers + 1 else total / workers

unfoldable pub partition_value : ℤ → ℤ → ℤ → ℤ
unfolding share
partition_value total index workers =
    if leb_ℤ total (pos 0) || leb_ℤ workers (pos 0)
    then pos 0
    else pos (share (pos_part total) index (pos_part workers))

-- What the first `k` workers get of a number, each term a share as `partition_value` gives it.
unfoldable pub sum_to : (ℕ → ℕ) → ℕ → ℕ
sum_to f zero = 0
sum_to f (suc k) = sum_to f k + f k

abbrev less : ℕ → ℕ → ℕ
less k r = if ltb k r then k else r

sum_shares :
    (total workers k : ℕ)
    → sum_to (λ i. share total (pos i) workers) k ≡ k * (total / workers) + less k (total % workers)
unfolding sum_to share
sum_shares total workers zero = ground arith
sum_shares total workers (suc k) = ground (arith, sum_shares total workers k)

-- The share of a worker as a number: it is never negative.
unfoldable pub share_of : ℤ → ℕ → ℕ → ℕ
unfolding partition_value
share_of total workers index = pos_part (partition_value total (pos index) (pos workers))

pub partition_value-share_of :
    (total : ℤ) (workers index : ℕ)
    → partition_value total (pos index) (pos workers) ≡ pos (share_of total workers index)
unfolding share_of
partition_value-share_of total workers index = ground arith

sum_to_congr : (f g : ℕ → ℕ) → ((i : ℕ) → f i ≡ g i) → (k : ℕ) → sum_to f k ≡ sum_to g k
unfolding sum_to
sum_to_congr f g e zero = refl
sum_to_congr f g e (suc k) = ground (arith, sum_to_congr f g e k, e k)

sum_zero : (k : ℕ) → sum_to (λ i. 0) k ≡ 0
unfolding sum_to
sum_zero zero = refl
sum_zero (suc k) = ground (arith, sum_zero k)

share_of-share :
    (total workers index : ℕ)
    → 0 < workers
    → share_of (pos total) workers index
      ≡ (if leb total 0 then 0 else share total (pos index) workers)
unfolding share_of
share_of-share total workers index h = ground arith

sum_positive :
    (total workers : ℕ)
    → 0 < workers
    → 0 < total
    → sum_to (share_of (pos total) workers) workers ≡ total
sum_positive total workers h p =
    rw
      (sum_to_congr (share_of (pos total) workers) (λ i. share total (pos i) workers)
        (λ i. ground (arith, share_of-share total workers i h)) workers)
      (grind (arith, sum_shares total workers workers))

share_of_none : (total : ℤ) (workers index : ℕ) → total ≤ℤ pos 0 → share_of total workers index ≡ 0
unfolding share_of
share_of_none total workers index h = ground arith

share_of_fair :
    (total : ℤ) (workers i j : ℕ)
    → i ≤ j
    → (share_of total workers j ≤ share_of total workers i)
      × (share_of total workers i ≤ share_of total workers j + 1)
unfolding share_of
share_of_fair total workers i j h = ground arith

sum_none : (total : ℤ) (workers k : ℕ) → total ≤ℤ pos 0 → sum_to (share_of total workers) k ≡ 0
sum_none total workers k h = sum_to_congr (share_of total workers) (λ i. 0) nothing k ∙ sum_zero k
  where
    nothing : (i : ℕ) → share_of total workers i ≡ 0
    nothing i = share_of_none total workers i h

-- The shares of all workers add up to the number that was divided, or to 0 where it is negative; an
-- earlier worker gets at least as much as a later one, and at most one more.
pub shares_exact :
    (total : ℤ) (workers i j : ℕ)
    → 0 < workers
    → i ≤ j
    → (sum_to (share_of total workers) workers ≡ pos_part total)
      × (share_of total workers j ≤ share_of total workers i)
      × (share_of total workers i ≤ share_of total workers j + 1)
shares_exact total workers i j h k =
    let (down, close) = share_of_fair total workers i j k in (sums total, down, close)
  where
    sums : (a : ℤ) → sum_to (share_of a workers) workers ≡ pos_part a
    sums (pos zero) = sum_none (pos 0) workers workers (omega arith)
    sums (pos (suc n)) = sum_positive (suc n) workers h (omega arith)
    sums (negsuc n) = sum_none (negsuc n) workers workers (omega arith)
