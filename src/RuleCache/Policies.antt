-- ===== src/RuleCache/Policies.antt =====
-- The operations on policies and the completion of rules in
-- pkg/agent/controller/networkpolicy/cache.go. `hash_rule` is the hash of a rule's JSON text.
use antrea.Common.{
  ℕ, String, string_eq, Option, none, some, List, [], ◌∷◌, ◌++◌, map, ltb, if◌then◌else◌, Map, get,
  put, remove,
}
use antrea.Conjunctions.Rules.{Direction, direction_in, direction_out, is_antrea_type}
use antrea.RuleCache.{
  GroupMember, GroupMemberPod, union, Rule, NetworkPolicyRule, NetworkPolicy, CompletedRule,
  RuleIndexer, RuleCache,
}
use antrea.RuleCache.Groups.{keys_without}

-- -1 and 0 as int32.
abbrev pub minus_one : ℕ
minus_one = 2147483647

abbrev pub zero32 : ℕ
zero32 = 2147483648

unfoldable pub max_rule_priority : ℕ → List NetworkPolicyRule → ℕ
max_rule_priority m [] = m
max_rule_priority m (r ∷ rs) = max_rule_priority (if ltb m r.priority then r.priority else m) rs

unfoldable pub get_max_priority : NetworkPolicy → ℕ
get_max_priority policy =
    if is_antrea_type policy.source_ref.policy_type
    then max_rule_priority minus_one policy.rules
    else minus_one

-- The rule before its ID, its policy's name and its greatest priority are set.
unfoldable pub unnamed_rule : NetworkPolicyRule → NetworkPolicy → Rule
unnamed_rule r policy = record {
  id = "";
  direction = r.direction;
  from = r.from;
  to = r.to;
  services = r.services;
  action = r.action;
  priority = r.priority;
  max_priority = zero32;
  policy_priority = policy.priority;
  tier_priority = policy.tier_priority;
  applied_to_groups = policy.applied_to_groups;
  policy_uid = policy.uid;
  policy_name = "";
  policy_namespace = "";
  source_ref = policy.source_ref;
}

unfoldable pub rules_by_id : List Rule → Map String Rule → Map String Rule
rules_by_id [] m = m
rules_by_id (r ∷ rs) m = rules_by_id rs (put m r.id r)

-- The first group that is not known ends it with none.
unfoldable pub union_groups :
    {M : Type 0} → Map String (Map String M) → List String → Map String M → Option (Map String M)
union_groups m [] set = some set
union_groups m (name ∷ names) set = elim (get m name) [
  | none ↦ none
  | some cur_set ↦ union_groups m names (union set cur_set)
]

module _ {S : Type 0} (ix : RuleIndexer S) where
  -- The rules that are left are deleted.
  unfoldable pub delete_orphans : Map String Rule → S → S × List String
  delete_orphans [] rules = (rules, [])
  delete_orphans ((id, r) ∷ m) rules =
      let rest = delete_orphans m (ix.delete rules r) in (rest.0, id ∷ rest.1)

  unfoldable pub delete_rules : List Rule → S → S × List String
  delete_rules [] rules = (rules, [])
  delete_rules (r ∷ rs) rules =
      let rest = delete_rules rs (ix.delete rules r) in (rest.0, r.id ∷ rest.1)

  unfoldable pub delete_network_policy : RuleCache S → String → RuleCache S × List String
  delete_network_policy st uid =
      let deleted = delete_rules (ix.by_policy st.rules uid) st.rules in
      (record st { policy_map = remove st.policy_map uid; rules = deleted.0 }, deleted.1)

  unfoldable pub delete_policies : RuleCache S → List String → RuleCache S × List String
  delete_policies st [] = (st, [])
  delete_policies st (uid ∷ uids) =
      let deleted = delete_network_policy st uid in
      let rest = delete_policies deleted.0 uids in (rest.0, deleted.1 ++ rest.1)

module _ (hash_rule : Rule → String) where
  unfoldable pub to_rule : NetworkPolicyRule → NetworkPolicy → ℕ → Rule
  to_rule r policy max_priority = record (unnamed_rule r policy) {
    id = hash_rule (unnamed_rule r policy);
    policy_namespace = policy.namespace;
    policy_name = policy.name;
    max_priority = max_priority;
  }

  module _ {S : Type 0} (ix : RuleIndexer S) where
    -- The loop over the rules of the policy: the rules by ID that are left, the cache and the dirty IDs.
    unfoldable pub add_rules :
        NetworkPolicy
        → List NetworkPolicyRule
        → Map String Rule
        → S
        → Map String Rule × S × List String
    add_rules policy [] by_id rules = (by_id, rules, [])
    add_rules policy (r ∷ rs) by_id rules =
        let new = to_rule r policy (get_max_priority policy) in
        elim (get by_id new.id) [
          | some old ↦ add_rules policy rs (remove by_id new.id) rules
          | none ↦
              let rest = add_rules policy rs by_id (ix.add rules new) in
              (rest.0, rest.1, new.id ∷ rest.2)
        ]

    unfoldable pub update_network_policy : RuleCache S → NetworkPolicy → RuleCache S × List String
    update_network_policy st policy =
        let (by_id, rules, dirty) =
          add_rules policy policy.rules (rules_by_id (ix.by_policy st.rules policy.uid) [])
            st.rules in
        let orphans = delete_orphans ix by_id rules in
        (record st { rules = orphans.0 }, dirty ++ orphans.1)

    unfoldable pub add_network_policy : RuleCache S → NetworkPolicy → RuleCache S × List String
    add_network_policy st policy =
        update_network_policy
          (record st {
            policy_map =
                put st.policy_map policy.uid
                  (record { namespace = policy.namespace; name = policy.name });
          })
          policy

    unfoldable pub add_policies : RuleCache S → List NetworkPolicy → RuleCache S × List String
    add_policies st [] = (st, [])
    add_policies st (policy ∷ policies) =
        let added = add_network_policy st policy in
        let rest = add_policies added.0 policies in (rest.0, added.1 ++ rest.1)

    unfoldable pub replace_network_policies :
        RuleCache S → List NetworkPolicy → RuleCache S × List String
    replace_network_policies st policies =
        let added = add_policies st policies in
        let deleted =
          delete_policies ix added.0
            (keys_without (map (λ (p : NetworkPolicy). p.uid) policies) st.policy_map) in
        (deleted.0, added.1 ++ deleted.1)

-- The addresses of a rule of the direction, none if a group is not known.
unfoldable pub direction_addresses :
    Direction
    → Map String (Map String GroupMember)
    → Rule
    → Option (Option (Map String GroupMember) × Option (Map String GroupMember))
direction_addresses direction_in m r = elim (union_groups m r.from.address_groups []) [
  | none ↦ none
  | some s ↦ some (some s, none)
]
direction_addresses direction_out m r = elim (union_groups m r.to.address_groups []) [
  | none ↦ none
  | some s ↦ some (none, some s)
]

unfoldable pub complete :
    Map String (Map String GroupMember)
    → Map String (Map String GroupMemberPod)
    → Rule
    → Option CompletedRule
complete addresses pods r = elim (direction_addresses r.direction addresses r) [
  | none ↦ none
  | some found ↦ elim (union_groups pods r.applied_to_groups []) [
    | none ↦ none
    | some set ↦
        some (record { rule = r; from_addresses = found.0; to_addresses = found.1; pods = set })
  ]
]

-- None if the rule does not exist; else what is completed.
unfoldable pub get_completed_rule :
    {S : Type 0} (ix : RuleIndexer S) → RuleCache S → String → Option (Option CompletedRule)
get_completed_rule ix st id = elim (ix.get_by_key st.rules id) [
  | none ↦ none
  | some r ↦ some (complete st.address_set_by_group st.pod_set_by_group r)
]
