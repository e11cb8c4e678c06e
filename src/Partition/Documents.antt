-- ===== src/Partition/Documents.antt =====
-- internal/domain/service/workload_partitioner.go: what a worker reads from its configuration.
use vuhive_cloud.Common.{
  ℕ, zero, suc, ◌≤◌, ◌<◌, ◌/◌, ◌*◌, ◌≡◌, refl, ap, ◌∙◌, false, some, Text, text_eq, text_eq_refl,
  arith,
}
use vuhive_cloud.Common.Int.{ℤ, pos, pos_part}
use vuhive_cloud.Partition.Numbers.{atoi, itoa, atoi-itoa, atoi-le, max_int64}
use vuhive_cloud.Partition.Shares.{partition_value, share_of, partition_value-share_of}
use vuhive_cloud.Partition.Nodes.{
  Node, node, value_of, with_value, find_node_in_mapping, find_node_in_mapping-set_in_mapping,
}
use vuhive_cloud.Partition.Scenarios.{share_field}
use vuhive_cloud.Partition.Totals.{share_field_other}

times_le : (w d : ℕ) → 0 < w → d ≤ w * d
times_le zero d h = absurd (omega arith)
times_le (suc v) d h = grind arith

share_of-le : (total : ℤ) (workers index : ℕ) → share_of total workers index ≤ pos_part total
unfolding share_of
share_of-le total workers index = ground (arith, times_le workers (pos_part total / workers))

value_of-with_value : (text : Text) (n : Node) → value_of (with_value text n) ≡ text
value_of-with_value text (node k m v content) = refl

-- Where a mapping has a number under a key, the copy for a worker has the worker's share of it there,
-- as `Atoi` reads it back, and the same node as before under any other key.
pub share_field_reads :
    (key j : Text) (index workers : ℕ) (body n : Node)
    → find_node_in_mapping key body ≡ some n
    → text_eq key j ≡ false
    → ((n' : Node) × (find_node_in_mapping key (share_field key (pos index) (pos workers) body).0
          ≡ some n')
        × (atoi (value_of n') ≡ pos (share_of (atoi (value_of n)) workers index)))
      × (find_node_in_mapping j (share_field key (pos index) (pos workers) body).0
          ≡ find_node_in_mapping j body)
unfolding share_field
share_field_reads key j index workers body n h e = (
  (
    with_value (itoa part) n,
    rw (
      share_field,
      h,
      find_node_in_mapping-set_in_mapping key key (with_value (itoa part) n) body,
      text_eq_refl key,
      h,
    ),
    rw (value_of-with_value (itoa part) n) (
        ap (λ a. atoi (itoa a)) (partition_value-share_of (atoi (value_of n)) workers index)
        ∙ atoi-itoa (share_of (atoi (value_of n)) workers index) bounded),
  ),
  share_field_other key j (pos index) (pos workers) body e,
)
  where
    bounded : share_of (atoi (value_of n)) workers index ≤ max_int64
    bounded = omega (arith, share_of-le (atoi (value_of n)) workers index, atoi-le (value_of n))

    part : ℤ
    part = partition_value (atoi (value_of n)) (pos index) (pos workers)
