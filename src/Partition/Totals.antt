-- ===== src/Partition/Totals.antt =====
-- internal/domain/service/workload_partitioner.go: the numbers of a scenario against the shares of
-- them that the workers get.
use vuhive_cloud.Common.{
  ok_injective, ℕ, zero, suc, ◌+◌, ◌≡◌, refl, sym, ap, ◌∙◌, inl, inr, false, Option, none, some,
  List, [], ◌∷◌, ◌++◌, Text, codes, text_eq, if◌then◌else◌, Error, no_scenarios_defined, subst,
  Result, ok, err, arith, Bool-cases, Option-cases,
}
use vuhive_cloud.Common.Int.{ℤ, pos, pos_part, ltb_ℤ}
use vuhive_cloud.Common.Dict.{Dict, lookup}
use vuhive_cloud.Partition.Numbers.{atoi, itoa}
use vuhive_cloud.Partition.Shares.{
  share_of, partition_value, partition_value-share_of, sum_to, shares_exact,
}
use vuhive_cloud.Partition.Nodes.{
  Node, Nodes, value_of, content_of, with_value, is_mapping, find_node_in_mapping, find_node_by_key,
  set_by_key, with_content, clone_yaml_node_lem, find_node_in_mapping-set_in_mapping,
}
use vuhive_cloud.Partition.Scenarios.{
  ScenarioPartition, type_of, amount, share_field, share_positive_field, partition_scenario,
  partition_scenarios, share_constant_vus, share_arrival_rate,
}
use vuhive_cloud.Partition.Workload.{
  WorkloadPartition, partition_for_index, partition_all, load, partition_workload, finish,
  new_workload_partition, share_concurrency, worker_env,
}
use vuhive_cloud.Partition.Summaries.{last_scenario, lookup-partition_scenarios}
use vuhive_cloud.Partition.Agreement.{workload_steps, all_steps, all_none}

-- The share that `share_field` reports.
share_field_lem :
    (key : Text) (index workers : ℤ) (body n : Node)
    → find_node_in_mapping key body ≡ some n
    → (share_field key index workers body).1
      ≡ some (partition_value (atoi (value_of n)) index workers)
unfolding share_field
share_field_lem key index workers body n h = rw (share_field, h)

-- Other keys are as they were.
pub share_field_other :
    (key j : Text) (index workers : ℤ) (body : Node)
    → text_eq key j ≡ false
    → find_node_in_mapping j (share_field key index workers body).0 ≡ find_node_in_mapping j body
unfolding share_field
share_field_other key j index workers body h = elim (Option-cases (find_node_in_mapping key body)) [
  | inl e ↦ rw (share_field, e)
  | inr (n, e) ↦
      let part = partition_value (atoi (value_of n)) index workers in
      rw (
        share_field,
        e,
        find_node_in_mapping-set_in_mapping key j (with_value (itoa part) n) body,
        h,
      )
]

partition_value_nonpositive :
    (total index workers : ℤ)
    → ltb_ℤ (pos 0) total ≡ false
    → partition_value total index workers ≡ pos 0
unfolding partition_value
partition_value_nonpositive total index workers h = ground arith

share_positive_field_lem :
    (key : Text) (index workers : ℤ) (body n : Node)
    → find_node_in_mapping key body ≡ some n
    → amount (share_positive_field key index workers body).1
      ≡ partition_value (atoi (value_of n)) index workers
unfolding share_positive_field
share_positive_field_lem key index workers body n h =
    elim (Bool-cases (ltb_ℤ (pos 0) (atoi (value_of n)))) [
      | inl e ↦
          rw (share_positive_field, h, e) (ap amount (share_field_lem key index workers body n h))
      | inr e ↦
          rw (share_positive_field, h, e)
            (sym (partition_value_nonpositive (atoi (value_of n)) index workers e))
    ]

-- The numbers that are divided: the type of the scenario, the key, the field of the summary.
pub data Quantity : Type 0 where
  virtual_users arrivals most_users burst : Quantity

abbrev pub kind : Quantity → Text
kind virtual_users = codes "constant_vus"
kind _ = codes "arrival_rate"

abbrev pub key_of : Quantity → Text
key_of virtual_users = codes "vus"
key_of arrivals = codes "target_tps"
key_of most_users = codes "max_vus"
key_of burst = codes "burst_buffer"

abbrev pub part_of : Quantity → ScenarioPartition → ℤ
part_of virtual_users s = s.vus
part_of arrivals s = s.target_tps
part_of most_users s = s.max_vus
part_of burst s = s.burst_buffer

module _ (upper : ℕ → ℕ) where
  summary_part :
      (q : Quantity) (index workers : ℤ) (name : Text) (body n : Node) (env : Dict Text)
      → type_of body ≡ kind q
      → find_node_in_mapping (key_of q) body ≡ some n
      → part_of q (partition_scenario upper index workers name body env).summary
        ≡ partition_value (atoi (value_of n)) index workers
  unfolding partition_scenario share_constant_vus share_arrival_rate
  summary_part virtual_users index workers name body n env t h =
      rw (partition_scenario, t, share_constant_vus)
        (ap amount (share_field_lem (codes "vus") index workers body n h))
  summary_part arrivals index workers name body n env t h =
      rw (partition_scenario, t, share_arrival_rate)
        (ap amount (share_field_lem (codes "target_tps") index workers body n h))
  summary_part most_users index workers name body n env t h =
      let after_tps = (share_field (codes "target_tps") index workers body).0 in
      rw (partition_scenario, t, share_arrival_rate)
        (ap amount (
          share_field_lem (codes "max_vus") index workers after_tps n
            (share_field_other (codes "target_tps") (codes "max_vus") index workers body refl ∙ h)))
  summary_part burst index workers name body n env t h =
      let after_tps = (share_field (codes "target_tps") index workers body).0 in
      let after_max = (share_field (codes "max_vus") index workers after_tps).0 in
      rw (partition_scenario, t, share_arrival_rate)
        (share_positive_field_lem (codes "burst_buffer") index workers after_max n (
          share_field_other (codes "max_vus") (codes "burst_buffer") index workers after_tps refl
          ∙ share_field_other (codes "target_tps") (codes "burst_buffer") index workers body refl
          ∙ h))

-- What a partition's summary says of a number of a scenario: 0 where it does not name the scenario.
abbrev pub amount_in : Quantity → Text → WorkloadPartition → ℕ
amount_in q name p = elim (lookup name p.scenarios) [ none ↦ 0 | some s ↦ pos_part (part_of q s) ]

unfoldable pub total {ℓ} : {A : Type ℓ} → (A → ℕ) → List A → ℕ
total f [] = 0
total f (x ∷ xs) = f x + total f xs

total-append {ℓ} :
    {A : Type ℓ} (f : A → ℕ) (xs : List A) (x : A) → total f (xs ++ (x ∷ [])) ≡ total f xs + f x
unfolding total
total-append f [] x = omega arith
total-append f (y ∷ xs) x = omega (arith, total-append f xs x)

ok_err {ℓ} : {A : Type ℓ} {a : A} {e : Error} → Result.err e ≡ ok a → ⊥
ok_err h = cc

module _ (upper : ℕ → ℕ) (encode : Node → Option Text) where
  finish_scenarios :
      (index workers : ℤ) (root s : Node) (shared : Nodes × Dict Text × Dict ScenarioPartition)
      {p : WorkloadPartition}
      → finish upper encode index workers root s shared ≡ ok p
      → p.scenarios ≡ shared.2
  unfolding finish new_workload_partition
  finish_scenarios index workers root s (content, env, summary) h =
      let config = encode (
        share_concurrency index workers
          (set_by_key (codes "scenarios") (with_content content s) root)) in
      elim (Option-cases config) [
        | inl e ↦ absurd (ground (arith, e))
        | inr (text, e) ↦ ground (arith, e)
      ]

  index_finish :
      (root s : Node) (index workers : ℤ)
      → find_node_by_key (codes "scenarios") root ≡ some s
      → partition_for_index upper encode root index workers ≡ (
          if is_mapping s
          then (finish upper encode index workers root s (
              partition_scenarios upper index workers (content_of s) (worker_env index workers) []))
          else err no_scenarios_defined)
  unfolding partition_for_index
  index_finish root s index workers e =
      rw (partition_for_index, clone_yaml_node_lem root, e, clone_yaml_node_lem root)

  index_scenarios :
      (root s : Node) (index workers : ℤ) {p : WorkloadPartition}
      → find_node_by_key (codes "scenarios") root ≡ some s
      → partition_for_index upper encode root index workers ≡ ok p
      → p.scenarios
        ≡ (partition_scenarios upper index workers (content_of s) (worker_env index workers) []).2
  index_scenarios root s index workers {p} e h = elim (Bool-cases (is_mapping s)) [
    | inl m ↦
        let made =
          partition_scenarios upper index workers (content_of s) (worker_env index workers) [] in
        finish_scenarios index workers root s made
          (sym (index_finish root s index workers e ∙ rw m refl) ∙ h)
    | inr m ↦ absurd (
        ok_err {e = no_scenarios_defined}
          (sym (index_finish root s index workers e ∙ rw m refl) ∙ h))
  ]

  module _ (q : Quantity) (name : Text) (root s body n : Node) where
    index_amount :
        (i workers : ℕ) {p : WorkloadPartition}
        → find_node_by_key (codes "scenarios") root ≡ some s
        → last_scenario name (content_of s) ≡ some body
        → type_of body ≡ kind q
        → find_node_in_mapping (key_of q) body ≡ some n
        → partition_for_index upper encode root (pos i) (pos workers) ≡ ok p
        → amount_in q name p ≡ share_of (atoi (value_of n)) workers i
    index_amount i workers {p} found latest t k h =
        let index : ℤ = pos i in
        let count : ℤ = pos workers in
        let (env, at) =
          lookup-partition_scenarios upper index count name body (content_of s)
            (worker_env index count) [] latest in
        rw (amount_in, ap (λ m. lookup name m) (index_scenarios root s index count found h) ∙ at)
          (ap pos_part (
            summary_part upper q index count name body n env t k
            ∙ partition_value-share_of (atoi (value_of n)) workers i))

    all_amounts :
        (workers k : ℕ) (ps : List WorkloadPartition)
        → find_node_by_key (codes "scenarios") root ≡ some s
        → last_scenario name (content_of s) ≡ some body
        → type_of body ≡ kind q
        → find_node_in_mapping (key_of q) body ≡ some n
        → partition_all upper encode root (pos workers) k ≡ ok ps
        → total (amount_in q name) ps ≡ sum_to (share_of (atoi (value_of n)) workers) k
    unfolding total sum_to
    all_amounts workers zero ps found latest t k h =
        ap (total (amount_in q name)) (sym (all_none upper encode root (pos workers) h))
    all_amounts workers (suc j) ps found latest t k h =
        let (first, last, made, made_last, e) = all_steps upper encode root (pos workers) j h in
        ap (total (amount_in q name)) e
        ∙ total-append (amount_in q name) first last
        ∙ omega (
          arith,
          all_amounts workers j first found latest t k made,
          index_amount j workers found latest t k made_last,
        )

  module _ (parse : Text → Option Node) where
    -- Where PartitionWorkload succeeds, the shares in the summaries of all workers add up to the number
    -- in the configuration, or to 0 where that is negative, for each of the four numbers and each
    -- scenario of the type that has it; of several scenarios of one name it is the last that counts.
    pub shares_add_up :
        (q : Quantity) (name raw : Text) (workers : ℕ) (ps : List WorkloadPartition)
        (root s body n : Node)
        → partition_workload upper encode parse raw (pos workers) ≡ ok ps
        → load upper encode parse raw ≡ ok root
        → find_node_by_key (codes "scenarios") root ≡ some s
        → last_scenario name (content_of s) ≡ some body
        → type_of body ≡ kind q
        → find_node_in_mapping (key_of q) body ≡ some n
        → total (amount_in q name) ps ≡ pos_part (atoi (value_of n))
    shares_add_up q name raw workers ps root s body n h loaded found latest t k =
        let (ink, some_worker, (r, again, made)) =
          workload_steps upper encode parse raw workers h in
        all_amounts q name root s body n workers workers ps found latest t k (
          subst (λ x. partition_all upper encode x (pos workers) workers ≡ ok ps)
            (ok_injective (sym again ∙ loaded)) made)
        ∙ (shares_exact (atoi (value_of n)) workers 0 0 some_worker (omega arith)).0
