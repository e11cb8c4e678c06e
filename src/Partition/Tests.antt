-- ===== src/Partition/Tests.antt =====
-- Runs of the partitioner on a small document, and the theorems at concrete inputs.
use vuhive_cloud.Common.{
  ℕ, ◌≡◌, refl, Option, none, some, List, [], length, Text, codes, trim_space, ok, err, arith,
}
use vuhive_cloud.Common.Int.{pos, negsuc, pos_part}
use vuhive_cloud.Partition.Numbers.{atoi, itoa}
use vuhive_cloud.Partition.Nodes.{
  Node, Nodes, node, end, item, Mark, document, mapping, scalar, value_of, content_of,
  find_node_by_key, find_node_in_mapping, clone_yaml_node,
}
use vuhive_cloud.Partition.Scenarios.{normalize_env_name, type_of}
use vuhive_cloud.Partition.Workload.{
  WorkloadPartition, new_workload_partition, partition_all, load, partition_for_index,
  partition_workload, partition_for_worker, finish,
}
use vuhive_cloud.Partition.Summaries.{last_scenario}
use vuhive_cloud.Partition.Agreement.{nth, worker_agrees}
use vuhive_cloud.Partition.Totals.{virtual_users, total, amount_in, shares_add_up}

abbrev plain : Mark
plain = record {
  style = 0;
  tag = [];
  anchor = [];
  alias_of = none;
  head_comment = [];
  line_comment = [];
  foot_comment = [];
  line = pos 1;
  column = pos 1;
}

abbrev text : Text → Node
text t = node scalar plain t end

abbrev entry : Text → Node → Nodes → Nodes
entry k v rest = item (text k) (item v rest)

-- `{type: constant_vus, vus: 10}`, under `scenarios.web-api`.
abbrev scenario : Node
scenario = node mapping plain [] (
    entry (codes "type") (text (codes "constant_vus"))
      (entry (codes "vus") (text (codes "10")) end))

abbrev scenarios_node : Node
scenarios_node = node mapping plain [] (entry (codes "web-api") scenario end)

abbrev root_node : Node
root_node =
    node document plain []
      (item (node mapping plain [] (entry (codes "scenarios") scenarios_node end)) end)

-- A parser that knows one document, and an encoder.
abbrev parse_one : Text → Option Node
parse_one t = some root_node

abbrev encode_all : Node → Option Text
encode_all n = some (value_of n)

abbrev same : ℕ → ℕ
same c = c

abbrev raw_text : Text
raw_text = codes "scenarios"

abbrev partitions : List WorkloadPartition
partitions = elim (partition_workload same encode_all parse_one raw_text (pos 3)) [
  | ok ps ↦ ps
  | err e ↦ []
]

read_garbage : atoi (codes "12x") ≡ pos 0
unfolding atoi
read_garbage = refl

read_negative : atoi (codes "-12") ≡ negsuc 11
unfolding atoi
read_negative = refl

read_large : atoi (codes "99999999999999999999999x") ≡ pos 9223372036854775807
unfolding atoi
read_large = refl

print_ten : itoa (pos 10) ≡ codes "10"
unfolding itoa
print_ten = refl

env_name : normalize_env_name same (codes "web-api v1.2") ≡ codes "WEB_API_V1_2"
unfolding normalize_env_name
env_name = refl

loaded : load same encode_all parse_one raw_text ≡ ok root_node
unfolding load find_node_by_key
loaded = refl

made : partition_workload same encode_all parse_one raw_text (pos 3) ≡ ok partitions
unfolding partition_workload load find_node_by_key partition_all partition_for_index finish
    new_workload_partition trim_space clone_yaml_node
made = refl

worker_agrees_example :
    (length partitions ≡ 3)
    × ((p : WorkloadPartition) × (nth 1 partitions ≡ some p)
        × (partition_for_worker same encode_all parse_one raw_text (pos 1) (pos 3) ≡ ok p))
worker_agrees_example =
    worker_agrees same encode_all parse_one raw_text 3 partitions 1 made (omega arith)

scenario_type : type_of scenario ≡ codes "constant_vus"
unfolding type_of find_node_in_mapping trim_space
scenario_type = refl

scenario_vus : find_node_in_mapping (codes "vus") scenario ≡ some (text (codes "10"))
unfolding find_node_in_mapping
scenario_vus = refl

scenarios_found : find_node_by_key (codes "scenarios") root_node ≡ some scenarios_node
unfolding find_node_by_key
scenarios_found = refl

scenario_found : last_scenario (codes "web-api") (content_of scenarios_node) ≡ some scenario
unfolding last_scenario
scenario_found = refl

shares_add_up_example :
    total (amount_in virtual_users (codes "web-api")) partitions ≡ pos_part (atoi (codes "10"))
shares_add_up_example =
    shares_add_up same encode_all parse_one virtual_users (codes "web-api") raw_text 3 partitions
      root_node scenarios_node scenario (text (codes "10")) made loaded scenarios_found
      scenario_found scenario_type scenario_vus
