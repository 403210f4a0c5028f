-- ===== src/RuleCache/Changes.antt =====
-- The calls of the watchers in networkpolicy_controller.go that change the cache of
-- pkg/agent/controller/networkpolicy/cache.go, in any sequence.
use antrea.Common.{String, List, [], ◌∷◌, ◌++◌}
use antrea.RuleCache.{Rule, NetworkPolicy, RuleIndexer, RuleCache}
use antrea.RuleCache.Groups.{
  AddressGroup, AddressGroupPatch, AppliedToGroup, AppliedToGroupPatch, add_address_group,
  patch_address_group, add_applied_to_group, patch_applied_to_group,
}
use antrea.RuleCache.Policies.{
  add_network_policy, update_network_policy, delete_network_policy, replace_network_policies,
}

pub data Change : Type 0 where
  address_group_added : AddressGroup → Change
  address_group_patched : AddressGroupPatch → Change
  applied_to_group_added : AppliedToGroup → Change
  applied_to_group_patched : AppliedToGroupPatch → Change
  policy_added : NetworkPolicy → Change
  policy_updated : NetworkPolicy → Change
  policy_deleted : String → Change
  policies_replaced : List NetworkPolicy → Change

module _ (hash_rule : Rule → String) {S : Type 0} (ix : RuleIndexer S) where
  unfoldable pub change : RuleCache S → Change → RuleCache S × List String
  change st (address_group_added g) = let a = add_address_group ix st g in (a.0, a.1)
  change st (address_group_patched p) = let a = patch_address_group ix st p in (a.0, a.1)
  change st (applied_to_group_added g) = let a = add_applied_to_group ix st g in (a.0, a.1)
  change st (applied_to_group_patched p) = let a = patch_applied_to_group ix st p in (a.0, a.1)
  change st (policy_added p) = add_network_policy hash_rule ix st p
  change st (policy_updated p) = update_network_policy hash_rule ix st p
  change st (policy_deleted uid) = delete_network_policy ix st uid
  change st (policies_replaced ps) = replace_network_policies hash_rule ix st ps

  -- The IDs are in the order in which they are made dirty.
  unfoldable pub changes : RuleCache S → List Change → RuleCache S × List String
  changes st [] = (st, [])
  changes st (c ∷ cs) =
      let first = change st c in let rest = changes first.0 cs in (rest.0, first.1 ++ rest.1)
