-- ===== src/Reconciler/Tests.antt =====
-- A client that counts its calls, and the update of an ingress rule whose source
-- member moves, of pkg/agent/controller/networkpolicy/reconciler.go.
use antrea.Common.{
  ℕ, ◌+◌, ◌≡◌, refl, sym, ◌∙◌, subst, inl, inr, arith, String, string_eq, true, false, ◌&&◌, none,
  some, [], ◌∷◌, get, put, any, Bool-cases, if◌then◌else◌, nat_eq, ltb, keep, remove,
}
use antrea.Conjunctions.Addresses.{
  Address, unknown_type, ip_address, of_port_address, ip_net_address, src_address, dst_address,
}
use antrea.Conjunctions.Rules.{direction_in, k8s_network_policy}
use antrea.Priority.{Priority}
use antrea.Priority.Tests.{tenths}
use antrea.RuleId.Restart.{new_id_allocator-in_use}
use antrea.Reconciler.Differences.{in_member}
use antrea.Priority.Laws.{priority_eq, priority_order}
use antrea.RuleId.{new_id_allocator}
use antrea.RuleId.Usage.{in_use, queued}
use antrea.RuleCache.Indexes.{has}
use antrea.RuleCache.{has_key, GroupMember, GroupMemberPod, Rule, CompletedRule, NetworkPolicyPeer}
use antrea.Reconciler.{
  ServicesKey, normalize_services, group_by_services, difference, bytes_eq, bytes_beq,
}
use antrea.Reconciler.Rules.{
  Environment, get_pod_of_ports, pod_interfaces, group_members_to_of_addresses,
  of_ports_to_of_addresses, or_empty, ip_blocks_to_of_addresses, pods_by_services,
  endpoint_addresses, insert_text, insert_texts, texts_without,
}
use antrea.Reconciler.Installs.{FlowClient, Work, update_of_rule, with_addresses, uninstall_all}
use antrea.Reconciler.Updates.{
  update, update_with, update_groups, update_group, set_of_ports, set_pod_ips, finish_update,
  rule_change, ingress_change, ingress_changes, old_ports,
}
use antrea.Reconciler.Flows.{same_address, among}
use antrea.Reconciler.Steps.{ValidIds, Shows}
use antrea.Reconciler.Sources.{Compatible}
use antrea.Reconciler.Realized.{Realized, Reached}
use antrea.Reconciler.Asked.{Traced, traced, asked_of, reduced, extended, if_done, update-asked}

-- A client that counts its calls.
abbrev client : FlowClient ℕ
client = record {
  install_policy_rule_flows = λ n r. (n + 1, true);
  uninstall_policy_rule_flows = λ n of_id. (n + 1, some []);
  add_policy_rule_address = λ n of_id t l p. (n + 1, true);
  delete_policy_rule_address = λ n of_id t l p. (n + 1, true);
  reassign_flow_priorities = λ n updates table. (n + 1, true);
}

abbrev env : Environment
env = record {
  container_interfaces = λ pod. (record { of_port = pod.name; ip = "10.0.0.1" }) ∷ [];
  net_text = λ n. "net";
  parse_uint = λ s. none;
}

abbrev nobody : NetworkPolicyPeer
nobody = record { address_groups = []; ip_blocks = [] }

abbrev rule : Rule
rule = record {
  id = "r";
  direction = direction_in;
  from = record { address_groups = "g" ∷ []; ip_blocks = [] };
  to = nobody;
  services = [];
  action = none;
  priority = 2147483647;
  max_priority = 2147483647;
  policy_priority = none;
  tier_priority = none;
  applied_to_groups = "t" ∷ [];
  policy_uid = "p";
  policy_name = "p";
  policy_namespace = "ns";
  source_ref = record { policy_type = k8s_network_policy; namespace = "ns"; name = "p" };
}

abbrev member : String → GroupMember
member ip = record {
  pod = some (record { namespace = "ns"; name = ip });
  external_entity = none;
  endpoints = (record { ip = ip; ports = [] }) ∷ [];
}

abbrev target : String → GroupMemberPod
target name = record {
  pod = some (record { namespace = "ns"; name = name });
  ip = "10.0.0.1";
  ports = [];
}

abbrev version : String → String → CompletedRule
version source pod = record {
  rule = rule;
  from_addresses = some ((source, member source) ∷ []);
  to_addresses = none;
  pods = (pod, target pod) ∷ [];
}

-- The ID 1 is given to the rule of the first version, whose flows match its addresses.
abbrev before : Work (Traced ℕ) (Priority ℕ)
before = record {
  last = record {
    of_ids = ([], 1) ∷ [];
    completed = version "a" "x";
    pod_of_ports = ([], "x" ∷ []) ∷ [];
    pod_ips = [];
  };
  client = record {
    state = 1;
    asked = λ id t a. elim t [
      | src_address ↦ among a (ip_address "a" ∷ [])
      | dst_address ↦ among a (of_port_address "x" ∷ [])
      | unknown_type ↦ false
    ];
  };
  id_allocator = new_id_allocator (1 ∷ []);
  priority_assigners = [];
}

-- The only key of the map has the ID 1.
only_id : (k : ServicesKey) (i : ℕ) → get before.last.of_ids k ≡ some i → (k ≡ []) × (i ≡ 1)
unfolding get
only_id k i h = elim (Bool-cases (bytes_eq.beq [] k)) [
  | inl e ↦ (sym ((bytes_eq.beq_iff [] k).0 e), ground (arith, e, h))
  | inr e ↦ absurd (ground (arith, e, h))
]

before-ValidIds : ValidIds before
unfolding queued any
before-ValidIds =
    let (valid, in_use) = new_id_allocator-in_use (1 ∷ []) (omega arith, tt) in
    record {
      valid = valid;
      used = λ k i h.
          in_use i
          ∙ subst (λ n. (ltb 0 n && queued (1 ∷ []) n) ≡ true) (sym (only_id k i h).1) refl;
      apart = λ j k i f g. (only_id j i f).0 ∙ sym (only_id k i g).0;
    }

before-Realized :
    Realized {P = Priority ℕ}
      (traced client)
      (asked_of client)
      env
      (version "b" "y")
      none
      90
      []
      before
unfolding old_ports get group_members_to_of_addresses of_ports_to_of_addresses endpoint_addresses
    or_empty among bytes_beq
before-Realized k i h =
    let (key, id) = only_id k i h in
    subst
      (λ j.
        Shows (asked_of client) before.client i (λ a. among a (ip_address "a" ∷ []))
          (λ a. among a (of_ports_to_of_addresses (old_ports before.last j))))
      (sym key) (λ a. refl, λ a. refl)

abbrev owner : Address → String
owner (ip_address n) = n
owner (of_port_address n) = ""
owner (ip_net_address n) = ""

owner_key : (x : String) (a : Address) → in_member a (member x) ≡ true → owner a ≡ x
unfolding in_member among any same_address endpoint_addresses
owner_key x (ip_address n) h = (string_eq.beq_iff n x).0 (ground (arith, h))
owner_key x (of_port_address n) h = absurd (cc h)
owner_key x (ip_net_address n) h = absurd (cc h)

sources-Compatible : Compatible (("a", member "a") ∷ []) (("b", member "b") ∷ [])
unfolding get
sources-Compatible = record {
  owner = owner;
  owned_old = (owner_key "a", tt);
  owned_new = (owner_key "b", tt);
  unique_old = (refl, tt);
  unique_new = (refl, tt);
  alike = λ k m n f g. elim (Bool-cases (string_eq.beq "a" k)) [
    | inl e ↦
        let none_b : none ≡ some n =
          subst (λ j. get (("b", member "b") ∷ []) j ≡ some n) (sym ((string_eq.beq_iff "a" k).0 e))
            g in
        cc none_b
    | inr e ↦ let none_a : none ≡ some m = sym (rw (e, if◌then◌else◌) refl) ∙ f in cc none_a
  ];
}

abbrev after : Work (Traced ℕ) (Priority ℕ)
after = record before {
  last = record (before.last) { completed = version "b" "y"; pod_of_ports = ([], "y" ∷ []) ∷ [] };
  client = record {
    state = 5;
    asked = reduced 1 dst_address (of_port_address "x" ∷ []) (
        reduced 1 src_address (ip_address "a" ∷ []) (
          extended 1 dst_address (of_port_address "y" ∷ [])
            (extended 1 src_address (ip_address "b" ∷ []) before.client.asked)));
  };
}

ran : update (traced client) env before (version "b" "y") none 90 ≡ some (after, true)
unfolding update rule_change ip_blocks_to_of_addresses ingress_change ingress_changes old_ports
    pods_by_services group_by_services any normalize_services get_pod_of_ports pod_interfaces
    insert_text insert_texts texts_without difference or_empty group_members_to_of_addresses
    endpoint_addresses of_ports_to_of_addresses update_with update_groups update_group
    update_of_rule with_addresses set_of_ports set_pod_ips finish_update uninstall_all get put
    bytes_beq has_key keep has remove if_done
ran = refl

update-asked_example :
    Reached {P = Priority ℕ}
      (traced client)
      (asked_of client)
      env
      (version "b" "y")
      none
      90
      []
      after
      []
      (get (pods_by_services (version "b" "y")).0 [])
unfolding ip_blocks_to_of_addresses get or_empty
update-asked_example =
    update-asked client env (version "b" "y") none 90 [] before after refl refl before-ValidIds
      (refl, tt) before-Realized sources-Compatible ran []
