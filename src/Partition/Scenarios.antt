-- ===== src/Partition/Scenarios.antt =====
-- internal/domain/service/workload_partitioner.go: the loop of partitionForIndex over the scenarios,
-- and normalizeEnvName. `upper` is `unicode.ToUpper` beyond ASCII.
use vuhive_cloud.Common.{
  ℕ, ◌-◌, ◌||◌, ◌&&◌, Option, none, some, List, [], ◌∷◌, ◌++◌, map, ltb, leb, ◌==◌, if◌then◌else◌,
  Text, codes, text_eq, trim_space,
}
use vuhive_cloud.Common.Int.{ℤ, pos, ltb_ℤ}
use vuhive_cloud.Common.Dict.{Dict, insert}
use vuhive_cloud.Partition.Numbers.{atoi, itoa}
use vuhive_cloud.Partition.Shares.{partition_value}
use vuhive_cloud.Partition.Nodes.{
  Node, Nodes, end, item, value_of, content_of, with_value, with_content, is_mapping, is_sequence,
  find_node_in_mapping, set_in_mapping,
}

-- internal/domain/model/partition.go.
pub record ScenarioPartition : Type 0 where
  pub scenario_type : Text
  pub vus : ℤ
  pub target_tps : ℤ
  pub max_vus : ℤ
  pub burst_buffer : ℤ
  pub stage_targets : List ℤ

abbrev pub of_type : Text → ScenarioPartition
of_type t = record {
  scenario_type = t;
  vus = pos 0;
  target_tps = pos 0;
  max_vus = pos 0;
  burst_buffer = pos 0;
  stage_targets = [];
}

abbrev to_underscore : ℕ → ℕ
to_underscore c = if c == b'-' || (c == b' ' || c == b'.') then b'_' else c

-- The value of a pointer that may be nil, as the struct's field holds it.
abbrev pub amount : Option ℤ → ℤ
amount none = pos 0
amount (some p) = p

-- `envOverrides[name] = strconv.Itoa(part)`, where there is a part.
unfoldable pub override : Text → Option ℤ → Dict Text → Dict Text
unfolding itoa
override name none env = env
override name (some p) env = insert name (itoa p) env

-- `strings.TrimSpace(typeNode.Value)`, or the default.
unfoldable pub type_of : Node → Text
type_of body = elim (find_node_in_mapping (codes "type") body) [
  | none ↦ codes "constant_vus"
  | some n ↦ trim_space (value_of n)
]

-- The node with the number under a key replaced by the worker's share of it, and the share.
unfoldable pub share_field : Text → ℤ → ℤ → Node → Node × Option ℤ
share_field key index workers body = elim (find_node_in_mapping key body) [
  | none ↦ (body, none)
  | some n ↦
      let part = partition_value (atoi (value_of n)) index workers in
      (set_in_mapping key (with_value (itoa part) n) body, some part)
]

-- The same where the number is positive.
unfoldable pub share_positive_field : Text → ℤ → ℤ → Node → Node × Option ℤ
share_positive_field key index workers body = elim (find_node_in_mapping key body) [
  | none ↦ (body, none)
  | some n ↦
      if ltb_ℤ (pos 0) (atoi (value_of n)) then share_field key index workers body else (body, none)
]

-- The stages with the targets replaced by the worker's shares, and the shares: 0 for a stage that is
-- no mapping or has no target.
unfoldable pub share_stages : ℤ → ℤ → Nodes → Nodes × List ℤ
share_stages index workers end = (end, [])
share_stages index workers (item stage rest) =
    let (stage', part) = share_field (codes "target") index workers stage in
    let (rest', parts) = share_stages index workers rest in (item stage' rest', amount part ∷ parts)

-- What the body of the loop leaves: the scenario, the overrides, the summary.
pub record Shared : Type 0 where
  pub body : Node
  pub env : Dict Text
  pub summary : ScenarioPartition

module _ (upper : ℕ → ℕ) where
  -- `strings.ToUpper`.
  unfoldable pub to_upper : ℕ → ℕ
  to_upper c = if leb b'a' c && leb c b'z' then c - 32 else if ltb c 128 then c else upper c

  unfoldable pub normalize_env_name : Text → Text
  unfolding to_upper
  normalize_env_name name = map to_upper (map to_underscore name)

  -- `fmt.Sprintf("VUHIVE_SCENARIOS_%s_...", normName)`.
  unfoldable pub override_name : Text → Text → Text
  unfolding normalize_env_name
  override_name name suffix = codes "VUHIVE_SCENARIOS_" ++ (normalize_env_name name ++ suffix)

  unfoldable pub share_constant_vus : ℤ → ℤ → Text → Node → Dict Text → Shared
  share_constant_vus index workers name body env =
      let (body', part) = share_field (codes "vus") index workers body in
      record {
        body = body';
        env = override (override_name name (codes "_VUS")) part env;
        summary = record (of_type (codes "constant_vus")) { vus = amount part };
      }

  unfoldable pub share_arrival_rate : ℤ → ℤ → Text → Node → Dict Text → Shared
  share_arrival_rate index workers name body env =
      let (body1, tps) = share_field (codes "target_tps") index workers body in
      let (body2, most) = share_field (codes "max_vus") index workers body1 in
      let (body3, burst) = share_positive_field (codes "burst_buffer") index workers body2 in
      record {
        body = body3;
        env = override (override_name name (codes "_BURST_BUFFER")) burst (
            override (override_name name (codes "_MAX_VUS")) most
              (override (override_name name (codes "_TARGET_TPS")) tps env));
        summary = record (of_type (codes "arrival_rate")) {
          target_tps = amount tps;
          max_vus = amount most;
          burst_buffer = amount burst;
        };
      }

  unfoldable pub share_ramping_vus : ℤ → ℤ → Node → Dict Text → Shared
  share_ramping_vus index workers body env =
      let plain : Shared = record {
        body = body;
        env = env;
        summary = of_type (codes "ramping_vus");
      } in
      elim (find_node_in_mapping (codes "stages") body) [
        | none ↦ plain
        | some stages ↦
            if is_sequence stages
            then (let (content, targets) = share_stages index workers (content_of stages) in
                record {
                  body = set_in_mapping (codes "stages") (with_content content stages) body;
                  env = env;
                  summary = record (of_type (codes "ramping_vus")) { stage_targets = targets };
                })
            else plain
      ]

  unfoldable pub partition_scenario : ℤ → ℤ → Text → Node → Dict Text → Shared
  partition_scenario index workers name body env =
      if text_eq (type_of body) (codes "constant_vus")
      then share_constant_vus index workers name body env
      else if text_eq (type_of body) (codes "arrival_rate")
      then share_arrival_rate index workers name body env
      else if text_eq (type_of body) (codes "ramping_vus")
      then share_ramping_vus index workers body env
      else record { body = body; env = env; summary = of_type (type_of body) }

  -- One turn of the loop: a scenario that is no mapping is skipped.
  unfoldable pub visit :
      ℤ
      → ℤ
      → Text
      → Node
      → Dict Text
      → Dict ScenarioPartition
      → Node × Dict Text × Dict ScenarioPartition
  visit index workers name body env summary =
      if is_mapping body
      then (let shared = partition_scenario index workers name body env in
          (shared.body, shared.env, insert name shared.summary summary))
      else (body, env, summary)

  -- The loop, over a content of keys and values in turn.
  unfoldable pub partition_scenarios :
      ℤ
      → ℤ
      → Nodes
      → Dict Text
      → Dict ScenarioPartition
      → Nodes × Dict Text × Dict ScenarioPartition
  partition_scenarios index workers end env summary = (end, env, summary)
  partition_scenarios index workers (item k end) env summary = (item k end, env, summary)
  partition_scenarios index workers (item k (item v rest)) env summary =
      let (v', env1, summary1) = visit index workers (value_of k) v env summary in
      let (rest', env2, summary2) = partition_scenarios index workers rest env1 summary1 in
      (item k (item v' rest'), env2, summary2)
