-- ===== src/Conjunctions/Rules.antt =====
-- NetworkPolicy rules of pkg/agent/types/networkpolicy.go, and the clauses and the action flows that
-- pkg/agent/openflow/network_policy.go makes of them. Where the code follows a nil pointer,
-- which panics, the result is none.
use antrea.Common.{
  ℕ, ◌+◌, String, Bool, true, false, ◌||◌, not, Option, none, some, List, [], ◌∷◌, nat_eq, ltb,
  ◌==◌, if◌then◌else◌,
}
use antrea.Conjunctions.{
  Flow, conjunction_action_flow, conjunction_action_drop_flow, allow_rule_metric_flow,
  drop_rule_metric_flow, Clause,
}
use antrea.Conjunctions.Addresses.{Address, Service}

abbrev pub egress_rule_table : ℕ
egress_rule_table = 50

abbrev pub egress_default_table : ℕ
egress_default_table = 60

abbrev pub ingress_rule_table : ℕ
ingress_rule_table = 90

abbrev pub ingress_default_table : ℕ
ingress_default_table = 100

-- egressTables: with those of the tiers, 45 and 49.
unfoldable pub is_egress_table : ℕ → Bool
is_egress_table t =
    (t == 45) || (t == 49) || (t == egress_rule_table) || (t == egress_default_table)

abbrev pub priority_low : ℕ
priority_low = 190

abbrev pub or_low : Option ℕ → ℕ
or_low none = priority_low
or_low (some p) = p

pub data Direction : Type 0 where
  direction_in direction_out : Direction

pub data RuleAction : Type 0 where
  allow drop : RuleAction

pub data NetworkPolicyType : Type 0 where
  k8s_network_policy antrea_cluster_network_policy antrea_network_policy : NetworkPolicyType

pub record NetworkPolicyReference : Type 0 where
  pub policy_type : NetworkPolicyType
  pub namespace : String
  pub name : String

pub record PolicyRule : Type 0 where
  pub direction : Direction
  pub from : Option (List Address)
  pub to : Option (List Address)
  pub service : Option (List Service)
  pub action : Option RuleAction
  pub priority : Option ℕ
  pub flow_id : ℕ
  pub table_id : ℕ
  pub policy_ref : NetworkPolicyReference

unfoldable pub is_antrea_type : NetworkPolicyType → Bool
is_antrea_type k8s_network_policy = false
is_antrea_type t = true

unfoldable pub is_antrea_network_policy_rule : PolicyRule → Bool
is_antrea_network_policy_rule rule = is_antrea_type rule.policy_ref.policy_type

-- With the pointers of the clauses.
pub record PolicyRuleConjunction : Type 0 where
  pub id : ℕ
  pub from_clause : Option ℕ
  pub to_clause : Option ℕ
  pub service_clause : Option ℕ
  pub action_flows : List Flow
  pub metric_flows : List Flow
  pub np_ref : NetworkPolicyReference
  pub rule_table_id : ℕ

unfoldable pub is_set : {A : Type 0} → Option A → Bool
is_set none = false
is_set (some a) = true

unfoldable pub one_if : Bool → ℕ
one_if b = if b then 1 else 0

-- The IDs of the clauses, of which those that are not there have the ID of the one before, and their
-- number.
unfoldable pub from_id : PolicyRule → ℕ
from_id rule = one_if (is_set rule.from)

unfoldable pub to_id : PolicyRule → ℕ
to_id rule = from_id rule + one_if (is_set rule.to)

unfoldable pub service_id : PolicyRule → ℕ
service_id rule = to_id rule + one_if (is_set rule.service)

unfoldable pub new_clause : ℕ → ℕ → ℕ → ℕ → Option ℕ → Clause
new_clause conj_id clause_id n_clause rule_table drop_table = record {
  action = record { conj_id = conj_id; clause_id = clause_id; n_clause = n_clause };
  matches = [];
  rule_table = rule_table;
  drop_table = drop_table;
}

unfoldable pub is_egress_rule : Direction → Bool
is_egress_rule direction_out = true
is_egress_rule direction_in = false

unfoldable pub drop_table_of : PolicyRule → ℕ
drop_table_of rule =
    if is_egress_rule rule.direction then egress_default_table else ingress_default_table

unfoldable pub from_default_table : PolicyRule → Option ℕ
from_default_table rule =
    if not (is_egress_rule rule.direction) || is_antrea_network_policy_rule rule
    then none
    else some (drop_table_of rule)

unfoldable pub to_default_table : PolicyRule → Option ℕ
to_default_table rule =
    if is_egress_rule rule.direction || is_antrea_network_policy_rule rule
    then none
    else some (drop_table_of rule)

-- The metric table, after the drop table.
unfoldable pub next_table : PolicyRule → ℕ
next_table rule = if is_egress_rule rule.direction then 61 else 101

-- The action flow and the metric flows. None if the action
-- of an Antrea policy's rule, or the priority of a rule that drops, is nil.
unfoldable pub allow_flows : PolicyRule → List Flow × List Flow
allow_flows rule =
    let ingress = not (is_egress_table rule.table_id) in
    (
      conjunction_action_flow rule.flow_id rule.table_id (next_table rule) (or_low rule.priority)
          ∷ [],
      allow_rule_metric_flow rule.flow_id ingress true
          ∷ allow_rule_metric_flow rule.flow_id ingress false
          ∷ [],
    )

unfoldable pub drop_flows : PolicyRule → Option (List Flow × List Flow)
drop_flows rule = elim rule.priority [
  | none ↦ none
  | some p ↦ some (
    conjunction_action_drop_flow rule.flow_id rule.table_id p ∷ [],
    drop_rule_metric_flow rule.flow_id (not (is_egress_table rule.table_id)) ∷ [],
  )
]

unfoldable pub antrea_flows : PolicyRule → Option RuleAction → Option (List Flow × List Flow)
antrea_flows rule none = none
antrea_flows rule (some allow) = some (allow_flows rule)
antrea_flows rule (some drop) = drop_flows rule

-- Rules of one clause have no such flows.
unfoldable pub flows_of_rule : PolicyRule → Option (List Flow × List Flow)
flows_of_rule rule =
    if ltb 1 (service_id rule)
    then if is_antrea_network_policy_rule rule
      then antrea_flows rule rule.action
      else some (allow_flows rule)
    else some ([], [])
