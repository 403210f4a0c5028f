-- ===== src/Conjunctions/Install.antt =====
-- How the client of pkg/agent/openflow/network_policy.go installs and removes the flows of rules, and
-- adds and deletes addresses of a rule. The cache of conjunctions is an indexer of client-go, known by
-- its operations; an operation whose code follows a nil pointer ends in `panicked`.
use antrea.Common.{
  ℕ, Bool, true, false, ◌&&◌, not, Option, none, some, List, [], ◌∷◌, nat_eq, ◌==◌, if◌then◌else◌,
  map, keep, any,
}
use antrea.Conjunctions.{
  Flow, conjunctive_match_flow, default_drop_flow, conjunction_action_flow,
  conjunction_action_drop_flow, allow_rule_metric_flow, drop_rule_metric_flow, copied_flow,
  priority_normal, ContextChange,
}
use antrea.Conjunctions.Updates.{apply_conjunctive_match_flows}
use antrea.Conjunctions.Rules.{
  PolicyRule, PolicyRuleConjunction, flows_of_rule, egress_rule_table, ingress_rule_table,
}
use antrea.Conjunctions.Clauses.{
  Heap, calculate_clauses, calculate_changes_for_rule_creation, calculate_changes_for_rule_deletion,
}

unfoldable pub flow_priority : Flow → ℕ
flow_priority (conjunctive_match_flow t k v p actions) = p
flow_priority (default_drop_flow t k v) = priority_normal
flow_priority (conjunction_action_flow id t next p) = p
flow_priority (conjunction_action_drop_flow id t p) = p
flow_priority (allow_rule_metric_flow id ingress new) = priority_normal
flow_priority (drop_rule_metric_flow id ingress) = priority_normal
flow_priority (copied_flow f actions) = flow_priority f

unfoldable pub action_flow_priorities : PolicyRuleConjunction → List ℕ
action_flow_priorities conj = map flow_priority conj.action_flows

-- The operations of the cache: Add and Update, Delete, GetByKey with the ID that policyConjKeyFunc
-- gives, ByIndex with a priority that priorityIndexFunc gives, and List.
pub record Indexer (S : Type 0) : Type 0 where
  pub add : S → PolicyRuleConjunction → S
  pub delete : S → PolicyRuleConjunction → S
  pub get_by_key : S → ℕ → Option PolicyRuleConjunction
  pub by_index : S → ℕ → List PolicyRuleConjunction
  pub list : S → List PolicyRuleConjunction

pub record Policies (S : Type 0) : Type 0 where
  pub heap : Heap
  pub policy_cache : S

pub data Status : Type 0 where
  succeeded failed not_found no_clause panicked : Status

-- A new conjunction, or why there is none.
pub data Calculated : Type 0 where
  conjunction : Heap → PolicyRuleConjunction → Calculated
  already_added nil_pointer : Calculated

-- bridge.AddFlowsInBundle, by the number of the call in an operation; false for an error.
abbrev pub Bridge : Type 0
Bridge = ℕ → List (Option Flow) × List (Option Flow) × List (Option Flow) → Bool

abbrev pub some_flows : List Flow → List (Option Flow)
some_flows flows = map some flows

-- ofEntryOperations.AddAll and DeleteAll
unfoldable pub add_all : Bridge → ℕ → List Flow → Bool
add_all send n flows = send n (some_flows flows, [], [])

unfoldable pub delete_all : Bridge → ℕ → List Flow → Bool
delete_all send n flows = send n ([], [], some_flows flows)

-- The changes, if none is nil.
unfoldable pub all_set : List (Option ContextChange) → Option (List ContextChange)
all_set [] = some []
all_set (none ∷ chs) = none
all_set (some ch ∷ chs) = elim (all_set chs) [ none ↦ none | some rest ↦ some (ch ∷ rest) ]

unfoldable pub new_conjunction : PolicyRule → Heap → Calculated
new_conjunction rule h =
    let (heap, from, to, service) = calculate_clauses rule h in
    elim (flows_of_rule rule) [
      | none ↦ nil_pointer
      | some flows ↦ conjunction heap (record {
        id = rule.flow_id;
        from_clause = from;
        to_clause = to;
        service_clause = service;
        action_flows = flows.0;
        metric_flows = flows.1;
        np_ref = rule.policy_ref;
        rule_table_id = rule.table_id;
      })
    ]

unfoldable pub apply_changes : Bridge → Heap → List ContextChange → Heap × Bool
apply_changes send h chs =
    let applied = apply_conjunctive_match_flows (send 2) chs h.client in
    (record h { client = applied.0 }, applied.1)

-- Another conjunction of the same table.
unfoldable pub shares_priority : PolicyRuleConjunction → PolicyRuleConjunction → Bool
shares_priority conj c = not (conj.id == c.id) && (conj.rule_table_id == c.rule_table_id)

module _ {S : Type 0} (ix : Indexer S) where
  unfoldable pub calculate_action_flow_changes_for_rule : Policies S → PolicyRule → Calculated
  calculate_action_flow_changes_for_rule st rule =
      elim (ix.get_by_key st.policy_cache rule.flow_id) [
        | some conj ↦ already_added
        | none ↦ new_conjunction rule st.heap
      ]

  -- After the changes are applied, the conjunction is cached.
  unfoldable pub finish_install :
      Policies S → PolicyRuleConjunction → Heap × Bool → Policies S × Status
  finish_install st conj (heap, true) =
      (record { heap = heap; policy_cache = ix.add st.policy_cache conj }, succeeded)
  finish_install st conj (heap, false) =
      (record { heap = heap; policy_cache = st.policy_cache }, failed)

  unfoldable pub install_conjunction :
      Bridge → Policies S → PolicyRule → Heap → PolicyRuleConjunction → Policies S × Status
  install_conjunction send st rule h conj =
      let changes = calculate_changes_for_rule_creation h.client conj rule in
      let heap : Heap = record h { client = changes.0 } in
      let unchanged : Policies S = record { heap = heap; policy_cache = st.policy_cache } in
      if add_all send 0 conj.metric_flows && add_all send 1 conj.action_flows
      then (elim (all_set changes.1) [
        | none ↦ (unchanged, panicked)
        | some chs ↦ finish_install st conj (apply_changes send heap chs)
      ])
      else (unchanged, failed)

  unfoldable pub install_policy_rule_flows : Bridge → Policies S → PolicyRule → Policies S × Status
  install_policy_rule_flows send st rule = elim (calculate_action_flow_changes_for_rule st rule) [
    | conjunction heap conj ↦ install_conjunction send st rule heap conj
    | already_added ↦ (st, panicked)
    | nil_pointer ↦ (st, panicked)
  ]

  unfoldable pub get_stale_priorities : S → PolicyRuleConjunction → List ℕ
  get_stale_priorities cache conj =
      if not (conj.rule_table_id == ingress_rule_table)
        && not (conj.rule_table_id == egress_rule_table)
      then keep (λ p. not (any (shares_priority conj) (ix.by_index cache p)))
          (action_flow_priorities conj)
      else []

  unfoldable pub finish_uninstall :
      Policies S → PolicyRuleConjunction → Heap × Bool → Policies S × List ℕ × Status
  finish_uninstall st conj (heap, true) = (
    record { heap = heap; policy_cache = ix.delete st.policy_cache conj },
    get_stale_priorities st.policy_cache conj,
    succeeded,
  )
  finish_uninstall st conj (heap, false) =
      (record { heap = heap; policy_cache = st.policy_cache }, [], failed)

  unfoldable pub uninstall_policy_rule_flows :
      Bridge → Policies S → ℕ → Policies S × List ℕ × Status
  uninstall_policy_rule_flows send st rule_id = elim (ix.get_by_key st.policy_cache rule_id) [
    | none ↦ (st, [], succeeded)
    | some conj ↦
        if delete_all send 0 conj.action_flows && delete_all send 1 conj.metric_flows
        then finish_uninstall st conj
            (apply_changes send st.heap (calculate_changes_for_rule_deletion st.heap.client conj))
        else (st, [], failed)
  ]
