-- ===== src/Reconciler/Rules.antt =====
-- The addresses and the OpenFlow rules of pkg/agent/controller/networkpolicy/reconciler.go. None is a
-- panic, of DiffFromCIDRs. Sets of OpenFlow ports and IPs are lists of texts.
use antrea.Common.{
  ℕ, String, Bool, ◌||◌, not, Option, none, some, List, [], ◌∷◌, ◌++◌, map, keep, ltb,
  if◌then◌else◌, Map, get, put,
}
use antrea.Conjunctions.Addresses.{
  Address, ip_address, ip_net_address, of_port_address, Service as IntService,
}
use antrea.Conjunctions.Rules.{direction_in, direction_out, PolicyRule, is_antrea_type}
use antrea.Cidr.{IpNet, Outcome, done, failed, panicked, out_of_fuel, diff_from_cidrs}
use antrea.RuleCache.{
  Reference, Service, int_port, string_port, IpBlock, Endpoint, GroupMember, GroupMemberPod, Rule,
  CompletedRule,
}
use antrea.RuleCache.Indexes.{has}
use antrea.Reconciler.{
  ServicesKey, normalize_services, group_by_services, resolve_service_for_pod, resolve_service,
  filter_unresolvable_port, bytes_eq,
}

-- What the interface store has of a container's interface.
pub record Interface : Type 0 where
  pub of_port : String
  pub ip : String

-- GetContainerInterfacesByPod, the text of a net, and strconv.ParseUint.
pub record Environment : Type 0 where
  pub container_interfaces : Reference → List Interface
  pub net_text : IpNet → String
  pub parse_uint : String → Option ℕ

-- sets.Int32.Insert and sets.String.Insert, and Difference
unfoldable pub insert_text : String → List String → List String
insert_text x xs = if has x xs then xs else x ∷ xs

unfoldable pub insert_texts : List String → List String → List String
insert_texts [] xs = xs
insert_texts (y ∷ ys) xs = insert_texts ys (insert_text y xs)

unfoldable pub texts_without : List String → List String → List String
texts_without xs ys = keep (λ x. not (has x ys)) xs

unfoldable pub or_empty : {M : Type 0} → Option (Map String M) → Map String M
or_empty none = []
or_empty (some s) = s

unfoldable pub endpoint_addresses : List Endpoint → List Address
endpoint_addresses [] = []
endpoint_addresses (ep ∷ eps) = ip_address ep.ip ∷ endpoint_addresses eps

unfoldable pub group_members_to_of_addresses : Map String GroupMember → List Address
group_members_to_of_addresses [] = []
group_members_to_of_addresses ((key, member) ∷ s) =
    endpoint_addresses member.endpoints ++ group_members_to_of_addresses s

unfoldable pub of_ports_to_of_addresses : List String → List Address
of_ports_to_of_addresses ports = map of_port_address ports

unfoldable pub ips_to_of_addresses : List String → List Address
ips_to_of_addresses ips = map ip_address ips

-- The conjunctions read the IntVal of a port.
unfoldable pub int_service : Service → IntService
int_service svc = record {
  protocol = svc.protocol;
  port = elim svc.port [
    | none ↦ none
    | some p ↦ some (elim p [ int_port n ↦ n | string_port name ↦ 0 ])
  ];
}

unfoldable pub rule_services : List Service → Option (List IntService)
rule_services services = elim (filter_unresolvable_port services) [
  | none ↦ none
  | some svcs ↦ some (map int_service svcs)
]

module _ (env : Environment) where
  -- The pointer to the Pod of a member of an applied-to group is never nil.
  unfoldable pub pod_interfaces : GroupMemberPod → List Interface
  pod_interfaces p = elim p.pod [ none ↦ [] | some r ↦ env.container_interfaces r ]

  unfoldable pub get_pod_of_ports : Map String GroupMemberPod → List String
  get_pod_of_ports [] = []
  get_pod_of_ports ((key, p) ∷ pods) =
      insert_texts (map (λ (i : Interface). i.of_port) (pod_interfaces p)) (get_pod_of_ports pods)

  unfoldable pub get_pod_ips : Map String GroupMemberPod → List String
  get_pod_ips [] = []
  get_pod_ips ((key, p) ∷ pods) =
      insert_texts (map (λ (i : Interface). i.ip) (pod_interfaces p)) (get_pod_ips pods)

  -- The nets of one block, before those of the others; an error is logged.
  unfoldable pub with_block : Outcome → Option (List Address) → Option (List Address)
  with_block (done nets) none = none
  with_block (done nets) (some addresses) =
      some (map (λ n. ip_net_address (env.net_text n)) nets ++ addresses)
  with_block (failed e) rest = rest
  with_block panicked rest = none
  with_block out_of_fuel rest = none

  unfoldable pub ip_blocks_to_of_addresses : List IpBlock → Option (List Address)
  ip_blocks_to_of_addresses [] = some []
  ip_blocks_to_of_addresses (b ∷ blocks) =
      with_block (diff_from_cidrs b.cidr b.except) (ip_blocks_to_of_addresses blocks)

unfoldable pub is_antrea_network_policy_rule : Rule → Bool
is_antrea_network_policy_rule r = is_antrea_type r.source_ref.policy_type

-- servicesMap[svcKey], with nil for a missing key.
unfoldable pub services_of : Map ServicesKey (List Service) → ServicesKey → List Service
services_of m key = elim (get m key) [ none ↦ [] | some services ↦ services ]

-- A PolicyRule without its FlowID.
unfoldable pub policy_rule :
    Rule → Option ℕ → ℕ → List Address → List Address → List Service → PolicyRule
policy_rule r of_priority table from to services = record {
  direction = r.direction;
  from = some from;
  to = some to;
  service = rule_services services;
  action = r.action;
  priority = of_priority;
  flow_id = 0;
  table_id = table;
  policy_ref = r.source_ref;
}

unfoldable pub table_for : Option ℕ → ℕ → ℕ → ℕ
table_for tier multi_tier default_tier = elim tier [
  | none ↦ multi_tier
  | some t ↦ if ltb t 2147483898 || ltb 2147483898 t then multi_tier else default_tier
]

-- The tier of an Antrea policy's rule is never nil; 2147483898 is 250 as an int32.
unfoldable pub get_of_rule_table : Rule → ℕ
get_of_rule_table r = elim r.direction [
  | direction_in ↦ if is_antrea_network_policy_rule r then table_for r.tier_priority 85 89 else 90
  | direction_out ↦ if is_antrea_network_policy_rule r then table_for r.tier_priority 45 49 else 50
]

-- The rules by key, in place of their addition to a map that is read once.
unfoldable pub ingress_rules :
    CompletedRule
    → Option ℕ
    → ℕ
    → List Address
    → (Map String GroupMemberPod → List String)
    → Map ServicesKey (Map String GroupMemberPod)
    → Map ServicesKey (List Service)
    → Map ServicesKey PolicyRule
ingress_rules c of_priority table from ports [] services = []
ingress_rules c of_priority table from ports ((key, pods) ∷ groups) services =
    (
      key,
      policy_rule c.rule of_priority table from (of_ports_to_of_addresses (ports pods))
          (services_of services key),
    )
    ∷ ingress_rules c of_priority table from ports groups services

unfoldable pub egress_rules :
    CompletedRule
    → Option ℕ
    → ℕ
    → List Address
    → Map ServicesKey (Map String GroupMember)
    → Map ServicesKey (List Service)
    → Map ServicesKey PolicyRule
egress_rules c of_priority table from [] services = []
egress_rules c of_priority table from ((key, members) ∷ groups) services =
    (
      key,
      policy_rule c.rule of_priority table from (group_members_to_of_addresses members)
          (services_of services key),
    )
    ∷ egress_rules c of_priority table from groups services

-- The rule of the original services, to which the IP blocks are added. A new one has no priority.
unfoldable pub with_original :
    CompletedRule
    → ℕ
    → List Address
    → List Address
    → Map ServicesKey PolicyRule
    → Map ServicesKey PolicyRule
with_original c table from blocks rules =
    let key = normalize_services c.rule.services in
    let r : PolicyRule = elim (get rules key) [
      | some r ↦ r
      | none ↦ policy_rule c.rule none table from [] c.rule.services
    ] in
    put rules key
      (record r { to = elim r.to [ none ↦ some blocks | some to ↦ some (to ++ blocks) ] })

unfoldable pub pods_by_services :
    CompletedRule → Map ServicesKey (Map String GroupMemberPod) × Map ServicesKey (List Service)
pods_by_services c = group_by_services resolve_service_for_pod c.rule.services c.pods

unfoldable pub members_by_services :
    CompletedRule → Map ServicesKey (Map String GroupMember) × Map ServicesKey (List Service)
members_by_services c = group_by_services resolve_service c.rule.services (or_empty c.to_addresses)
