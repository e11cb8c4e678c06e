-- ===== src/Partition/Summaries.antt =====
-- internal/domain/service/workload_partitioner.go: the summary that the loop of partitionForIndex
-- leaves, by the name of a scenario.
use vuhive_cloud.Common.{
  ℕ, ◌≡◌, refl, sym, ◌∙◌, inl, inr, Bool, true, false, ◌&&◌, Option, none, some, Text, text_eq,
  text_eq_iff, if◌then◌else◌, arith, Bool-cases, Option-cases,
}
use vuhive_cloud.Common.Int.{ℤ}
use vuhive_cloud.Common.Dict.{Dict, lookup, lookup-insert}
use vuhive_cloud.Partition.Nodes.{Node, Nodes, end, item, value_of, is_mapping}
use vuhive_cloud.Partition.Scenarios.{
  ScenarioPartition, partition_scenario, visit, partition_scenarios,
}

-- A later entry of a name replaces an earlier one in a map.
abbrev latest : Option Node → Bool → Node → Option Node
latest (some b) here v = some b
latest none true v = some v
latest none false v = none

latest-none :
    (o : Option Node) (b : Bool) (v : Node) → latest o b v ≡ none → (o ≡ none) × (b ≡ false)
latest-none none true v h = cc
latest-none none false v h = (refl, refl)
latest-none (some w) b v h = cc

latest-later : (o : Option Node) (w : Node) (b : Bool) (v : Node) → o ≡ some w → o ≡ latest o b v
latest-later none w b v h = cc
latest-later (some u) w b v h = refl

latest-now : (b : Bool) (v w : Node) → latest none b v ≡ some w → (b ≡ true) × (v ≡ w)
latest-now true v w h = (refl, cc)
latest-now false v w h = cc

both : (a b : Bool) → a && b ≡ true → a ≡ true
both true b h = refl
both false b h = h

-- The last scenario of a name: an entry that is no mapping is no scenario.
unfoldable pub last_scenario : Text → Nodes → Option Node
last_scenario name end = none
last_scenario name (item k end) = none
last_scenario name (item k (item v rest)) =
    latest (last_scenario name rest) (text_eq (value_of k) name && is_mapping v) v

module _ (upper : ℕ → ℕ) (index workers : ℤ) where
  -- The summary of a name after one turn of the loop.
  lookup-visit :
      (name key : Text) (body : Node) (env : Dict Text) (summary : Dict ScenarioPartition)
      → lookup name (visit upper index workers key body env summary).2 ≡ (
          if text_eq key name && is_mapping body
          then some (partition_scenario upper index workers key body env).summary
          else lookup name summary)
  unfolding visit
  lookup-visit name key body env summary = elim (Bool-cases (is_mapping body)) [
    | inl e ↦ rw e (
        lookup-insert key name (partition_scenario upper index workers key body env).summary summary
        ∙ ground arith)
    | inr e ↦ rw e (ground arith)
  ]

  unseen :
      (name : Text) (content : Nodes) (env : Dict Text) (summary : Dict ScenarioPartition)
      → last_scenario name content ≡ none
      → lookup name (partition_scenarios upper index workers content env summary).2
        ≡ lookup name summary
  unfolding partition_scenarios last_scenario
  unseen name end env summary h = refl
  unseen name (item k end) env summary h = refl
  unseen name (item k (item v rest)) env summary h =
      let (v', env1, summary1) = visit upper index workers (value_of k) v env summary in
      let (later, here) = latest-none (last_scenario name rest) _ v h in
      unseen name rest env1 summary1 later
      ∙ lookup-visit name (value_of k) v env summary
      ∙ rw here refl

  found_here :
      (name key : Text) (v body : Node) (env : Dict Text) (o : Option ScenarioPartition)
      → text_eq key name && is_mapping v ≡ true
      → v ≡ body
      → (if text_eq key name && is_mapping v
          then some (partition_scenario upper index workers key v env).summary
          else o)
        ≡ some (partition_scenario upper index workers name body env).summary
  found_here name key v body env o t e =
      let same = (text_eq_iff key name).0 (both (text_eq key name) (is_mapping v) t) in
      rw t (cc (same, e))

  -- The summary of a name is that of its last scenario, made with the overrides so far.
  pub lookup-partition_scenarios :
      (name : Text) (body : Node) (content : Nodes) (env : Dict Text)
      (summary : Dict ScenarioPartition)
      → last_scenario name content ≡ some body
      → (env' : Dict Text) × (lookup name
            (partition_scenarios upper index workers content env summary).2
          ≡ some (partition_scenario upper index workers name body env').summary)
  unfolding partition_scenarios last_scenario
  lookup-partition_scenarios name body end env summary h = absurd (ground arith)
  lookup-partition_scenarios name body (item k end) env summary h = absurd (ground arith)
  lookup-partition_scenarios name body (item k (item v rest)) env summary h =
      let (v', env1, summary1) = visit upper index workers (value_of k) v env summary in
      elim (Option-cases (last_scenario name rest)) [
        | inl e ↦
            let b = latest-now _ v body (rw (sym e) h) in
            (
              env,
              unseen name rest env1 summary1 e
                  ∙ lookup-visit name (value_of k) v env summary
                  ∙ found_here name (value_of k) v body env (lookup name summary) b.0 b.1,
            )
        | inr (b, e) ↦
            lookup-partition_scenarios name body rest env1 summary1
              (latest-later (last_scenario name rest) b _ v e ∙ h)
      ]
