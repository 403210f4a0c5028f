-- ===== src/RuleCache/Groups.antt =====
-- The operations on groups in pkg/agent/controller/networkpolicy/cache.go. Each gives the cache, the IDs
-- that dirtyRuleHandler is called with, in their order, and whether there was no error.
use antrea.Common.{
  String, string_eq, Bool, true, false, Option, none, some, List, [], ◌∷◌, ◌++◌, map, any,
  if◌then◌else◌, Map, get, put, remove,
}
use antrea.RuleCache.{
  GroupMember, GroupMemberPod, to_group_member, normalize_group_member, normalize_group_member_pod,
  insert, delete, equal, has_key, RuleIndexer, RuleCache, Reference,
}

pub record AddressGroup : Type 0 where
  pub name : String
  pub pods : List GroupMemberPod
  pub group_members : List GroupMember

pub record AddressGroupPatch : Type 0 where
  pub name : String
  pub added_pods : List GroupMemberPod
  pub removed_pods : List GroupMemberPod
  pub added_group_members : List GroupMember
  pub removed_group_members : List GroupMember

pub record AppliedToGroup : Type 0 where
  pub name : String
  pub pods : List GroupMemberPod

pub record AppliedToGroupPatch : Type 0 where
  pub name : String
  pub added_pods : List GroupMemberPod
  pub removed_pods : List GroupMemberPod

unfoldable pub address_set : AddressGroup → Map String GroupMember
address_set group =
    insert normalize_group_member group.group_members
      (insert normalize_group_member (map to_group_member group.pods) [])

unfoldable pub pod_set : AppliedToGroup → Map String GroupMemberPod
pod_set group = insert normalize_group_member_pod group.pods []

unfoldable pub patched_addresses :
    AddressGroupPatch → Map String GroupMember → Map String GroupMember
patched_addresses patch s = delete normalize_group_member patch.removed_group_members (
    insert normalize_group_member patch.added_group_members (
      delete normalize_group_member (map to_group_member patch.removed_pods)
        (insert normalize_group_member (map to_group_member patch.added_pods) s)))

unfoldable pub patched_pods :
    AppliedToGroupPatch → Map String GroupMemberPod → Map String GroupMemberPod
patched_pods patch s =
    delete normalize_group_member_pod patch.removed_pods
      (insert normalize_group_member_pod patch.added_pods s)

-- The keys of a map but for the names.
unfoldable pub keys_without : {V : Type 0} → List String → Map String V → List String
keys_without names [] = []
keys_without names ((key, v) ∷ m) =
    let rest = keys_without names m in
    if any (λ name. string_eq.beq name key) names then rest else key ∷ rest

unfoldable pub remove_keys : {V : Type 0} → List String → Map String V → Map String V
remove_keys [] m = m
remove_keys (key ∷ keys) m = remove_keys keys (remove m key)

-- Whether a set is cached that is the same as the new one.
unfoldable pub unchanged : {M : Type 0} → Option (Map String M) → Map String M → Bool
unchanged none s = false
unchanged (some old) s = equal old s

module _ {S : Type 0} (ix : RuleIndexer S) where
  abbrev pub Answer : Type 0
  Answer = RuleCache S × List String × Bool

  unfoldable pub set_addresses : RuleCache S → String → Map String GroupMember → Answer
  set_addresses st name s = (
    record st { address_set_by_group = put st.address_set_by_group name s },
    ix.keys_by_address_group st.rules name,
    true,
  )

  unfoldable pub set_pods : RuleCache S → String → Map String GroupMemberPod → Answer
  set_pods st name s = (
    record st { pod_set_by_group = put st.pod_set_by_group name s },
    ix.keys_by_applied_to_group st.rules name,
    true,
  )

  unfoldable pub add_address_group : RuleCache S → AddressGroup → Answer
  add_address_group st group =
      if unchanged (get st.address_set_by_group group.name) (address_set group)
      then (st, [], true)
      else set_addresses st group.name (address_set group)

  unfoldable pub patch_address_group : RuleCache S → AddressGroupPatch → Answer
  patch_address_group st patch = elim (get st.address_set_by_group patch.name) [
    | none ↦ (st, [], false)
    | some s ↦ set_addresses st patch.name (patched_addresses patch s)
  ]

  unfoldable pub delete_address_group : RuleCache S → AddressGroup → Answer
  delete_address_group st group =
      (record st { address_set_by_group = remove st.address_set_by_group group.name }, [], true)

  unfoldable pub add_applied_to_group : RuleCache S → AppliedToGroup → Answer
  add_applied_to_group st group =
      if unchanged (get st.pod_set_by_group group.name) (pod_set group)
      then (st, [], true)
      else set_pods st group.name (pod_set group)

  unfoldable pub patch_applied_to_group : RuleCache S → AppliedToGroupPatch → Answer
  patch_applied_to_group st patch = elim (get st.pod_set_by_group patch.name) [
    | none ↦ (st, [], false)
    | some s ↦ set_pods st patch.name (patched_pods patch s)
  ]

  unfoldable pub delete_applied_to_group : RuleCache S → AppliedToGroup → Answer
  delete_applied_to_group st group =
      (record st { pod_set_by_group = remove st.pod_set_by_group group.name }, [], true)

  unfoldable pub add_address_groups : RuleCache S → List AddressGroup → RuleCache S × List String
  add_address_groups st [] = (st, [])
  add_address_groups st (group ∷ groups) =
      let (next, dirty, ok) = add_address_group st group in
      let rest = add_address_groups next groups in (rest.0, dirty ++ rest.1)

  unfoldable pub replace_address_groups :
      RuleCache S → List AddressGroup → RuleCache S × List String
  replace_address_groups st groups =
      let added = add_address_groups st groups in
      let old_keys =
        keys_without (map (λ (g : AddressGroup). g.name) groups) st.address_set_by_group in
      (
        record (added.0) {
          address_set_by_group = remove_keys old_keys (added.0).address_set_by_group;
        },
        added.1,
      )

  unfoldable pub add_applied_to_groups :
      RuleCache S → List AppliedToGroup → RuleCache S × List String
  add_applied_to_groups st [] = (st, [])
  add_applied_to_groups st (group ∷ groups) =
      let (next, dirty, ok) = add_applied_to_group st group in
      let rest = add_applied_to_groups next groups in (rest.0, dirty ++ rest.1)

  unfoldable pub replace_applied_to_groups :
      RuleCache S → List AppliedToGroup → RuleCache S × List String
  replace_applied_to_groups st groups =
      let added = add_applied_to_groups st groups in
      let old_keys =
        keys_without (map (λ (g : AppliedToGroup). g.name) groups) st.pod_set_by_group in
      (
        record (added.0) { pod_set_by_group = remove_keys old_keys (added.0).pod_set_by_group },
        added.1,
      )

  -- The rules that an update of a Pod makes dirty: those of the groups that have it.
  unfoldable pub dirty_of_pod :
      S → GroupMemberPod → Map String (Map String GroupMemberPod) → List String
  dirty_of_pod rules member [] = []
  dirty_of_pod rules member ((group, set) ∷ m) =
      let rest = dirty_of_pod rules member m in
      if has_key set (normalize_group_member_pod member)
      then ix.keys_by_applied_to_group rules group ++ rest
      else rest

  unfoldable pub process_pod_update : RuleCache S → Reference → List String
  process_pod_update st pod =
      dirty_of_pod st.rules (record { pod = some pod; ip = ""; ports = [] }) st.pod_set_by_group
