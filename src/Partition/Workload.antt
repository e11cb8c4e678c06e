-- ===== src/Partition/Workload.antt =====
-- internal/domain/service/workload_partitioner.go: PartitionWorkload, PartitionForWorker and
-- partitionForIndex; internal/domain/model/partition.go: WorkloadPartition. `parse` and `encode` are
-- `yaml.Unmarshal` into a node and the encoder of gopkg.in/yaml.v3, with none for an error.
use vuhive_cloud.Common.{
  ℕ, zero, suc, ◌||◌, Bool, true, false, not, Option, none, some, List, [], ◌∷◌, ◌++◌,
  if◌then◌else◌, Text, codes, trim_space, is_blank, validation, invalid_worker_count,
  invalid_worker_index, no_scenarios_defined, Result, ok, err, ◌>>=◌, ◌>>◌, reject_if,
}
use vuhive_cloud.Common.Int.{ℤ, pos, pos_part, ltb_ℤ, leb_ℤ}
use vuhive_cloud.Common.Dict.{Dict, insert}
use vuhive_cloud.Partition.Numbers.{itoa}
use vuhive_cloud.Partition.Nodes.{
  Node, Nodes, end, item, content_of, with_content, is_mapping, find_node_by_key, set_by_key,
  clone_yaml_node,
}
use vuhive_cloud.Partition.Scenarios.{ScenarioPartition, share_field, partition_scenarios}

pub record WorkloadPartition : Type 0 where
  pub worker_index : ℤ
  pub worker_count : ℤ
  pub config_yaml : Text
  pub env_overrides : Dict Text
  pub scenarios : Dict ScenarioPartition

unfoldable pub new_workload_partition :
    ℤ → ℤ → Text → Dict Text → Dict ScenarioPartition → Result WorkloadPartition
new_workload_partition index workers config env scenarios = do
  reject_if (ltb_ℤ workers (pos 1)) invalid_worker_count
  reject_if (ltb_ℤ index (pos 0) || leb_ℤ workers index) invalid_worker_index
  ok (record {
    worker_index = index;
    worker_count = workers;
    config_yaml = config;
    env_overrides = env;
    scenarios = scenarios;
  })

abbrev pub is_empty_node : Node → Bool
is_empty_node n = elim (content_of n) [ end ↦ true | item k rest ↦ false ]

-- The overrides that every worker gets.
unfoldable pub worker_env : ℤ → ℤ → Dict Text
unfolding itoa
worker_env index workers = insert (codes "VUHIVE_POD_COUNT") (itoa workers) (
    insert (codes "VUHIVE_POD_INDEX") (itoa index) (
      insert (codes "VUHIVE_WORKER_COUNT") (itoa workers)
        (insert (codes "VUHIVE_WORKER_INDEX") (itoa index) [])))

-- The document with the worker's share of `settings.concurrency`.
unfoldable pub share_concurrency : ℤ → ℤ → Node → Node
unfolding find_node_by_key set_by_key share_field
share_concurrency index workers root = elim (find_node_by_key (codes "settings") root) [
  | none ↦ root
  | some settings ↦
      set_by_key (codes "settings") (share_field (codes "concurrency") index workers settings).0
        root
]

module _ (upper : ℕ → ℕ) (encode : Node → Option Text) where
  -- After the loop over the scenarios.
  unfoldable pub finish :
      ℤ → ℤ → Node → Node → Nodes × Dict Text × Dict ScenarioPartition → Result WorkloadPartition
  finish index workers root scenarios (content, env, summary) =
      let shared = set_by_key (codes "scenarios") (with_content content scenarios) root in
      elim (encode (share_concurrency index workers shared)) [
        | none ↦ err validation
        | some config ↦ new_workload_partition index workers config env summary
      ]

  unfoldable pub partition_for_index : Node → ℤ → ℤ → Result WorkloadPartition
  partition_for_index root index workers =
      let cloned = clone_yaml_node root in
      elim (find_node_by_key (codes "scenarios") cloned) [
        | none ↦ err no_scenarios_defined
        | some scenarios ↦
            if is_mapping scenarios
            then (finish index workers cloned scenarios (
                partition_scenarios upper index workers (content_of scenarios)
                  (worker_env index workers) []))
            else err no_scenarios_defined
      ]

  -- `for i := 0; i < workerCount; i++`: the first `k` partitions, or the first error.
  unfoldable pub partition_all : Node → ℤ → ℕ → Result (List WorkloadPartition)
  partition_all root workers zero = ok []
  partition_all root workers (suc k) = do
    first ← partition_all root workers k
    last ← partition_for_index root (pos k) workers
    ok (first ++ (last ∷ []))

  module _ (parse : Text → Option Node) where
    -- The root of a document that defines scenarios.
    unfoldable pub load : Text → Result Node
    load raw = elim (parse (trim_space raw)) [
      | none ↦ err validation
      | some root ↦ elim (find_node_by_key (codes "scenarios") root) [
        | none ↦ err no_scenarios_defined
        | some scenarios ↦
            if not (is_mapping scenarios) || is_empty_node scenarios
            then err no_scenarios_defined
            else ok root
      ]
    ]

    unfoldable pub partition_workload : Text → ℤ → Result (List WorkloadPartition)
    partition_workload raw workers = do
      reject_if (is_blank raw) validation
      reject_if (ltb_ℤ workers (pos 1)) invalid_worker_count
      root ← load raw
      partition_all root workers (pos_part workers)

    unfoldable pub partition_for_worker : Text → ℤ → ℤ → Result WorkloadPartition
    partition_for_worker raw index workers = do
      reject_if (is_blank raw) validation
      reject_if (ltb_ℤ workers (pos 1)) invalid_worker_count
      reject_if (ltb_ℤ index (pos 0) || leb_ℤ workers index) invalid_worker_index
      root ← load raw
      partition_for_index root index workers
