-- ===== src/Reconciler/Adds.antt =====
-- The state of the reconciler of pkg/agent/controller/networkpolicy/reconciler.go, and `add`. None is a
-- panic.
use antrea.Common.{
  ℕ, ◌||◌, String, string_eq, Bool, true, false, not, Option, none, some, List, [], ◌∷◌, ◌++◌,
  if◌then◌else◌, Map, get, put, Eq, nat_eq, length, ltb,
}
use antrea.Conjunctions.Rules.{direction_in, direction_out, PolicyRule}
use antrea.RuleCache.{CompletedRule}
use antrea.RuleId.{IdAllocator, new_id_allocator}
use antrea.Priority.Order.{Order}
use antrea.Assigner.State.{Assigner, new_priority_assigner}
use antrea.Reconciler.{ServicesKey}
use antrea.Reconciler.Rules.{
  Environment, get_pod_of_ports, get_pod_ips, or_empty, group_members_to_of_addresses,
  ips_to_of_addresses, ip_blocks_to_of_addresses, is_antrea_network_policy_rule, ingress_rules,
  egress_rules, with_original, pods_by_services, members_by_services,
}
use antrea.Reconciler.Installs.{FlowClient, LastRealized, new_last_realized, Work, add_rules}
use antrea.Reconciler.Updates.{update}

pub record Reconciler (C P : Type 0) : Type 0 where
  pub client : C
  pub last_realizeds : Map String LastRealized
  pub id_allocator : IdAllocator
  pub priority_assigners : Map ℕ (Assigner P)

unfoldable pub new_reconciler : {C P : Type 0} → C → (P → Bool → ℕ) → Reconciler C P
new_reconciler c initial = record {
  client = c;
  last_realizeds = [];
  id_allocator = new_id_allocator [];
  priority_assigners =
      ((49, new_priority_assigner initial true)
        ∷ (89, new_priority_assigner initial true)
        ∷ (45, new_priority_assigner initial false)
        ∷ (85, new_priority_assigner initial false)
        ∷ []);
}

module _ {C P : Type 0} where
  unfoldable pub work : Reconciler C P → LastRealized → Work C P
  work st l = record {
    last = l;
    client = st.client;
    id_allocator = st.id_allocator;
    priority_assigners = st.priority_assigners;
  }

  -- The pointer in the map sees what became of the rule.
  unfoldable pub worked : Reconciler C P → String → Work C P → Reconciler C P
  worked st id w = record {
    client = w.client;
    last_realizeds = put st.last_realizeds id w.last;
    id_allocator = w.id_allocator;
    priority_assigners = w.priority_assigners;
  }

-- `podOFPorts` of the groups.
unfoldable pub ports_by_services :
    {M : Type 0} → (M → List String) → Map ServicesKey M → Map ServicesKey (List String)
ports_by_services ports [] = []
ports_by_services ports ((key, pods) ∷ groups) = (key, ports pods) ∷ ports_by_services ports groups

module _ (env : Environment) where
  unfoldable pub egress_for_add :
      CompletedRule → Option ℕ → ℕ → Option (Map ServicesKey PolicyRule × LastRealized)
  egress_for_add c of_priority table =
      let ips = get_pod_ips env c.pods in
      let from = ips_to_of_addresses ips in
      let (groups, services) = members_by_services c in
      let rules = egress_rules c of_priority table from groups services in
      let l = record (new_last_realized c) { pod_ips = ips } in
      if not (is_antrea_network_policy_rule c.rule) || ltb 0 (length c.rule.to.ip_blocks)
      then elim (ip_blocks_to_of_addresses env c.rule.to.ip_blocks) [
        | none ↦ none
        | some blocks ↦ some (with_original c table from blocks rules, l)
      ]
      else some (rules, l)

  unfoldable pub ingress_for_add :
      CompletedRule → Option ℕ → ℕ → Option (Map ServicesKey PolicyRule × LastRealized)
  ingress_for_add c of_priority table = elim (ip_blocks_to_of_addresses env c.rule.from.ip_blocks) [
    | none ↦ none
    | some blocks ↦
        let (groups, services) = pods_by_services c in
        let from = group_members_to_of_addresses (or_empty c.from_addresses) ++ blocks in
        some (
          ingress_rules c of_priority table from (get_pod_of_ports env) groups services,
          record (new_last_realized c) {
            pod_of_ports = ports_by_services (get_pod_of_ports env) groups;
          },
        )
  ]

  unfoldable pub compute_of_rules_for_add :
      CompletedRule → Option ℕ → ℕ → Option (Map ServicesKey PolicyRule × LastRealized)
  compute_of_rules_for_add c of_priority table = elim c.rule.direction [
    | direction_in ↦ ingress_for_add c of_priority table
    | direction_out ↦ egress_for_add c of_priority table
  ]

  module _ {C P : Type 0} ⦃eq_p : Eq P⦄ ⦃order : Order P⦄ (client : FlowClient C) where
    unfoldable pub add :
        Reconciler C P → CompletedRule → Option ℕ → ℕ → Option (Reconciler C P × Bool)
    add st c of_priority table = elim (compute_of_rules_for_add c of_priority table) [
      | none ↦ none
      | some found ↦
          let (w, ok) = add_rules client (work st found.1) found.0 in
          some (worked st c.rule.id w, ok)
    ]

    unfoldable pub add_or_update :
        Reconciler C P → CompletedRule → Option ℕ → ℕ → Option (Reconciler C P × Bool)
    add_or_update st c of_priority table = elim (get st.last_realizeds c.rule.id) [
      | none ↦ add st c of_priority table
      | some l ↦ elim (update client env (work st l) c of_priority table) [
        | none ↦ none
        | some done ↦ some (worked st c.rule.id done.0, done.1)
      ]
    ]
