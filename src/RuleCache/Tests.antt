-- ===== src/RuleCache/Tests.antt =====
-- Runs of the cache of rules of pkg/agent/controller/networkpolicy/cache.go, and a rule whose hash is
-- its policy with its groups.
use antrea.Common.{
  ◌≡◌, refl, String, true, false, none, some, List, [], ◌∷◌, ◌++◌, any, keep, get, put, remove,
}
use antrea.Conjunctions.Rules.{direction_in, direction_out, k8s_network_policy, is_antrea_type}
use antrea.RuleCache.{
  GroupMemberPod, Rule, NetworkPolicyRule, NetworkPolicy, NetworkPolicyPeer, RuleCache,
  to_group_member, namespaced_key, normalize_group_member_pod, endpoint_ips, entity_key,
  normalize_group_member, insert, delete, put_all, union, has_key, is_superset, equal,
  address_groups_of,
}
use antrea.RuleCache.Groups.{
  AddressGroup, AppliedToGroup, add_address_group, address_set, pod_set, patched_addresses,
  patched_pods, keys_without, remove_keys, unchanged, set_addresses, set_pods, patch_address_group,
  delete_address_group, add_applied_to_group, patch_applied_to_group, delete_applied_to_group,
  add_address_groups, replace_address_groups, add_applied_to_groups, replace_applied_to_groups,
  dirty_of_pod, process_pod_update,
}
use antrea.RuleCache.Policies.{
  update_network_policy, get_completed_rule, get_max_priority, max_rule_priority, unnamed_rule,
  rules_by_id, union_groups, delete_orphans, delete_rules, delete_network_policy, delete_policies,
  to_rule, add_rules, add_network_policy, add_policies, replace_network_policies,
  direction_addresses, complete,
}
use antrea.RuleCache.Indexes.{has}
use antrea.RuleCache.Changes.{
  Change, changes, address_group_added, applied_to_group_added, policy_added, policy_updated,
  change,
}
use antrea.RuleCache.Listed.{ids_of, has_id}
use antrea.RuleCache.Stored.{stored, stored-IsRuleIndexer, in_policy, ids}
use antrea.RuleCache.Unmarked.{changes-completed}
use antrea.RuleCache.Synced.{update_network_policy-synced}
use Prim.Native.String.{◌++◌ as concat}
use antrea.Common.Stores.{find, visible}

abbrev concat_all : List String → String
concat_all [] = ""
concat_all (x ∷ xs) = concat x (concat_all xs)

abbrev hash : Rule → String
hash r = concat r.policy_uid (concat_all (r.from.address_groups ++ r.to.address_groups))

abbrev nobody : NetworkPolicyPeer
nobody = record { address_groups = []; ip_blocks = [] }

abbrev group : String → NetworkPolicyPeer
group name = record { address_groups = name ∷ []; ip_blocks = [] }

abbrev rule_from : String → NetworkPolicyRule
rule_from name = record {
  direction = direction_in;
  from = group name;
  to = nobody;
  services = [];
  priority = 2147483647;
  action = none;
}

abbrev rule_to : String → NetworkPolicyRule
rule_to name = record {
  direction = direction_out;
  from = nobody;
  to = group name;
  services = [];
  priority = 2147483647;
  action = none;
}

abbrev policy : String → List NetworkPolicyRule → NetworkPolicy
policy uid rules = record {
  uid = uid;
  name = uid;
  namespace = "ns";
  rules = rules;
  applied_to_groups = "web" ∷ [];
  priority = none;
  tier_priority = none;
  source_ref = record { policy_type = k8s_network_policy; namespace = "ns"; name = uid };
}

abbrev pod : String → String → GroupMemberPod
pod name ip = record { pod = some (record { namespace = "ns"; name = name }); ip = ip; ports = [] }

abbrev addresses : String → List GroupMemberPod → AddressGroup
addresses name pods = record { name = name; pods = pods; group_members = [] }

abbrev nothing : RuleCache (List Rule)
nothing = record { pod_set_by_group = []; address_set_by_group = []; policy_map = []; rules = [] }

abbrev web : AppliedToGroup
web = record { name = "web"; pods = pod "a" "1" ∷ [] }

-- Two policies with their groups.
abbrev start : List Change
start =
    (applied_to_group_added web
      ∷ address_group_added (addresses "x" (pod "b" "2" ∷ []))
      ∷ policy_added (policy "p" (rule_from "x" ∷ rule_to "y" ∷ []))
      ∷ policy_added (policy "q" (rule_from "z" ∷ []))
      ∷ [])

abbrev started : RuleCache (List Rule)
started = (changes hash stored nothing start).0

-- The changes after which the rule of q with group z is as it was.
abbrev later : List Change
later =
    (address_group_added (addresses "y" (pod "c" "3" ∷ []))
      ∷ policy_updated (policy "p" (rule_from "x" ∷ []))
      ∷ [])

start_dirty : (changes hash stored nothing start).1 ≡ "px" ∷ "py" ∷ "qz" ∷ []
unfolding any keep get put remove is_antrea_type find visible to_group_member namespaced_key
    normalize_group_member_pod endpoint_ips entity_key normalize_group_member insert delete put_all
    union has_key is_superset equal address_groups_of address_set pod_set patched_addresses
    patched_pods keys_without remove_keys unchanged set_addresses set_pods add_address_group
    patch_address_group delete_address_group add_applied_to_group patch_applied_to_group
    delete_applied_to_group add_address_groups replace_address_groups add_applied_to_groups
    replace_applied_to_groups dirty_of_pod process_pod_update max_rule_priority get_max_priority
    unnamed_rule rules_by_id union_groups delete_orphans delete_rules delete_network_policy
    delete_policies to_rule add_rules update_network_policy add_network_policy add_policies
    replace_network_policies direction_addresses complete get_completed_rule has ids_of has_id
    in_policy ids stored change changes
start_dirty = refl

later_dirty : (changes hash stored started later).1 ≡ "py" ∷ "py" ∷ []
unfolding any keep get put remove is_antrea_type find visible to_group_member namespaced_key
    normalize_group_member_pod endpoint_ips entity_key normalize_group_member insert delete put_all
    union has_key is_superset equal address_groups_of address_set pod_set patched_addresses
    patched_pods keys_without remove_keys unchanged set_addresses set_pods add_address_group
    patch_address_group delete_address_group add_applied_to_group patch_applied_to_group
    delete_applied_to_group add_address_groups replace_address_groups add_applied_to_groups
    replace_applied_to_groups dirty_of_pod process_pod_update max_rule_priority get_max_priority
    unnamed_rule rules_by_id union_groups delete_orphans delete_rules delete_network_policy
    delete_policies to_rule add_rules update_network_policy add_network_policy add_policies
    replace_network_policies direction_addresses complete get_completed_rule has ids_of has_id
    in_policy ids stored change changes
later_dirty = refl

later_not_qz : has "qz" (changes hash stored started later).1 ≡ false
unfolding any keep get put remove is_antrea_type find visible to_group_member namespaced_key
    normalize_group_member_pod endpoint_ips entity_key normalize_group_member insert delete put_all
    union has_key is_superset equal address_groups_of address_set pod_set patched_addresses
    patched_pods keys_without remove_keys unchanged set_addresses set_pods add_address_group
    patch_address_group delete_address_group add_applied_to_group patch_applied_to_group
    delete_applied_to_group add_address_groups replace_address_groups add_applied_to_groups
    replace_applied_to_groups dirty_of_pod process_pod_update max_rule_priority get_max_priority
    unnamed_rule rules_by_id union_groups delete_orphans delete_rules delete_network_policy
    delete_policies to_rule add_rules update_network_policy add_network_policy add_policies
    replace_network_policies direction_addresses complete get_completed_rule has ids_of has_id
    in_policy ids stored change changes
later_not_qz = refl

-- A Pod that is there again under its name with another IP: the group stays as it was.
again_ignored :
    add_address_group stored started (addresses "x" (pod "b" "9" ∷ [])) ≡ (started, [], true)
unfolding any keep get put remove is_antrea_type find visible to_group_member namespaced_key
    normalize_group_member_pod endpoint_ips entity_key normalize_group_member insert delete put_all
    union has_key is_superset equal address_groups_of address_set pod_set patched_addresses
    patched_pods keys_without remove_keys unchanged set_addresses set_pods add_address_group
    patch_address_group delete_address_group add_applied_to_group patch_applied_to_group
    delete_applied_to_group add_address_groups replace_address_groups add_applied_to_groups
    replace_applied_to_groups dirty_of_pod process_pod_update max_rule_priority get_max_priority
    unnamed_rule rules_by_id union_groups delete_orphans delete_rules delete_network_policy
    delete_policies to_rule add_rules update_network_policy add_network_policy add_policies
    replace_network_policies direction_addresses complete get_completed_rule has ids_of has_id
    in_policy ids stored change changes
again_ignored = refl

changes-completed_example :
    get_completed_rule stored (changes hash stored started later).0 "qz"
    ≡ get_completed_rule stored started "qz"
changes-completed_example =
    changes-completed stored stored-IsRuleIndexer hash later started "qz" later_not_qz

update_network_policy-synced_example :
    any (has_id "py") (
      stored.by_policy
        (update_network_policy hash stored started (policy "p" (rule_to "y" ∷ []))).0.rules
        "p")
    ≡ has "py" (ids_of hash (policy "p" (rule_to "y" ∷ [])) (rule_to "y" ∷ []))
update_network_policy-synced_example =
    update_network_policy-synced stored stored-IsRuleIndexer hash (policy "p" (rule_to "y" ∷ []))
      started "py"
