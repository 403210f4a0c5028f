-- ===== src/Reconciler/Updates.antt =====
-- `update` of pkg/agent/controller/networkpolicy/reconciler.go. The changes of all groups are made first,
-- as each reads only what is realized under its own key.
use antrea.Common.{
  ℕ, String, Bool, true, false, Option, none, some, List, [], ◌∷◌, ◌++◌, if◌then◌else◌, Map, get,
  put, remove, Eq, nat_eq, string_eq,
}
use antrea.Conjunctions.Addresses.{Address}
use antrea.Conjunctions.Rules.{direction_in, direction_out, PolicyRule}
use antrea.RuleCache.{GroupMember, GroupMemberPod, Service, CompletedRule}
use antrea.Priority.Order.{Order}
use antrea.Reconciler.{ServicesKey, normalize_services, difference, bytes_eq}
use antrea.Reconciler.Rules.{
  Environment, get_pod_of_ports, get_pod_ips, texts_without, or_empty,
  group_members_to_of_addresses, of_ports_to_of_addresses, ips_to_of_addresses,
  ip_blocks_to_of_addresses, policy_rule, services_of, pods_by_services, members_by_services,
}
use antrea.Reconciler.Installs.{
  FlowClient, LastRealized, Work, install_new, update_of_rule, uninstall_all,
}

-- A group of one services key in `update`: the rule if there is none yet, and the difference if there is.
pub record GroupChange : Type 0 where
  pub key : ServicesKey
  pub rule : PolicyRule
  pub added_to : List Address
  pub deleted_to : List Address
  pub of_ports : Option (List String)

module _ {C P : Type 0} ⦃eq_p : Eq P⦄ ⦃order : Order P⦄ (client : FlowClient C) where
  -- One group: its rule is installed, or its addresses are brought up to date.
  unfoldable pub update_group :
      Work C P
      → Map ServicesKey ℕ
      → GroupChange
      → List Address
      → List Address
      → Option ℕ
      → Work C P × Map ServicesKey ℕ × Bool
  update_group w stale g added_from deleted_from of_priority = elim (get w.last.of_ids g.key) [
    | none ↦ let (w', ok) = install_new client w g.key g.rule in (w', stale, ok)
    | some of_id ↦
        let (c, ok) =
          update_of_rule client w.client of_id added_from g.added_to deleted_from g.deleted_to
            of_priority in
        (record w { client = c }, if ok then remove stale g.key else stale, ok)
  ]

  -- `lastRealized.podOFPorts[svcKey] = newOFPorts`, for ingress rules
  unfoldable pub set_of_ports : Work C P → GroupChange → Work C P
  set_of_ports w g = record w {
    last = record (w.last) {
      pod_of_ports = elim g.of_ports [
        | none ↦ w.last.pod_of_ports
        | some ports ↦ put w.last.pod_of_ports g.key ports
      ];
    };
  }

  unfoldable pub update_groups :
      Work C P
      → Map ServicesKey ℕ
      → List GroupChange
      → List Address
      → List Address
      → Option ℕ
      → Work C P × Map ServicesKey ℕ × Bool
  update_groups w stale [] added_from deleted_from of_priority = (w, stale, true)
  update_groups w stale (g ∷ gs) added_from deleted_from of_priority =
      let (w', stale', ok) = update_group w stale g added_from deleted_from of_priority in
      let rest = update_groups (set_of_ports w' g) stale' gs added_from deleted_from of_priority in
      if ok then rest else (w', stale', false)

-- lastRealized.podOFPorts[svcKey], with nil for a missing key.
unfoldable pub old_ports : LastRealized → ServicesKey → List String
old_ports l key = elim (get l.pod_of_ports key) [ none ↦ [] | some ports ↦ ports ]

-- The changes of the groups of ingress rules: `from` is all source addresses of the rule.
unfoldable pub ingress_changes :
    LastRealized
    → CompletedRule
    → Option ℕ
    → ℕ
    → List Address
    → (Map String GroupMemberPod → List String)
    → Map ServicesKey (Map String GroupMemberPod)
    → Map ServicesKey (List Service)
    → List GroupChange
ingress_changes l c of_priority table from ports [] services = []
ingress_changes l c of_priority table from ports ((key, pods) ∷ groups) services =
    let old = old_ports l key in
    (record {
      key = key;
      rule =
          policy_rule c.rule of_priority table from (of_ports_to_of_addresses (ports pods))
            (services_of services key);
      added_to = of_ports_to_of_addresses (texts_without (ports pods) old);
      deleted_to = of_ports_to_of_addresses (texts_without old (ports pods));
      of_ports = some (ports pods);
    })
    ∷ ingress_changes l c of_priority table from ports groups services

unfoldable pub egress_changes :
    CompletedRule
    → Option ℕ
    → ℕ
    → List Address
    → Map ServicesKey (Map String GroupMember)
    → Map ServicesKey (Map String GroupMember)
    → Map ServicesKey (List Service)
    → List GroupChange
egress_changes c of_priority table from prev [] services = []
egress_changes c of_priority table from prev ((key, members) ∷ groups) services =
    let old = or_empty (get prev key) in
    (record {
      key = key;
      rule =
          policy_rule c.rule of_priority table from (group_members_to_of_addresses members)
            (services_of services key);
      added_to = group_members_to_of_addresses (difference members old);
      deleted_to = group_members_to_of_addresses (difference old members);
      of_ports = none;
    })
    ∷ egress_changes c of_priority table from prev groups services

-- The group of the original services is there, if with no member.
unfoldable pub with_original_group :
    List Service
    → Map ServicesKey (Map String GroupMember) × Map ServicesKey (List Service)
    → Map ServicesKey (Map String GroupMember) × Map ServicesKey (List Service)
with_original_group services groups =
    let key = normalize_services services in
    elim (get groups.0 key) [
      | some members ↦ groups
      | none ↦ (put groups.0 key [], put groups.1 key services)
    ]

-- What `update` makes of the two versions of a rule: the source addresses that are added and deleted, the
-- groups, and the IPs of the Pods of an egress rule.
pub record RuleChange : Type 0 where
  pub added_from : List Address
  pub deleted_from : List Address
  pub groups : List GroupChange
  pub pod_ips : Option (List String)

module _ (env : Environment) where
  unfoldable pub ingress_change :
      LastRealized → CompletedRule → Option ℕ → ℕ → List Address → RuleChange
  ingress_change l c of_priority table blocks =
      let (groups, services) = pods_by_services c in
      let old = or_empty l.completed.from_addresses in
      let new = or_empty c.from_addresses in
      record {
        added_from = group_members_to_of_addresses (difference new old);
        deleted_from = group_members_to_of_addresses (difference old new);
        groups =
            ingress_changes l c of_priority table (group_members_to_of_addresses new ++ blocks)
              (get_pod_of_ports env) groups services;
        pod_ips = none;
      }

  unfoldable pub egress_change : LastRealized → CompletedRule → Option ℕ → ℕ → RuleChange
  egress_change l c of_priority table =
      let ips = get_pod_ips env c.pods in
      let (groups, services) = with_original_group c.rule.services (members_by_services c) in
      record {
        added_from = ips_to_of_addresses (texts_without ips l.pod_ips);
        deleted_from = ips_to_of_addresses (texts_without l.pod_ips ips);
        groups =
            egress_changes c of_priority table (ips_to_of_addresses ips)
              (members_by_services l.completed).0 groups services;
        pod_ips = some ips;
      }

  unfoldable pub rule_change : LastRealized → CompletedRule → Option ℕ → ℕ → Option RuleChange
  rule_change l c of_priority table = elim c.rule.direction [
    | direction_in ↦ elim (ip_blocks_to_of_addresses env c.rule.from.ip_blocks) [
      | none ↦ none
      | some blocks ↦ some (ingress_change l c of_priority table blocks)
    ]
    | direction_out ↦ some (egress_change l c of_priority table)
  ]

unfoldable pub set_pod_ips : LastRealized → Option (List String) → LastRealized
set_pod_ips l ips = record l { pod_ips = elim ips [ none ↦ l.pod_ips | some found ↦ found ] }

module _ {C P : Type 0} ⦃eq_p : Eq P⦄ ⦃order : Order P⦄ (client : FlowClient C)
    (env : Environment) where
  unfoldable pub finish_update : Work C P → Map ServicesKey ℕ → CompletedRule → ℕ → Work C P × Bool
  finish_update w stale c table =
      let (w', ok) = uninstall_all client env w stale table in
      if ok then (record w' { last = record (w'.last) { completed = c } }, true) else (w', false)

  unfoldable pub update_with :
      Work C P → CompletedRule → Option ℕ → ℕ → RuleChange → Work C P × Bool
  update_with w c of_priority table change =
      let (w', stale, ok) =
        update_groups client w w.last.of_ids change.groups change.added_from change.deleted_from
          of_priority in
      if ok
      then finish_update (record w' { last = set_pod_ips w'.last change.pod_ips }) stale c table
      else (w', false)

  unfoldable pub update : Work C P → CompletedRule → Option ℕ → ℕ → Option (Work C P × Bool)
  update w c of_priority table = elim (rule_change env w.last c of_priority table) [
    | none ↦ none
    | some change ↦ some (update_with w c of_priority table change)
  ]
