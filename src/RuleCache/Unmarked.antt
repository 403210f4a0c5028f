-- ===== src/RuleCache/Unmarked.antt =====
-- A rule whose ID is not handed to dirtyRuleHandler by pkg/agent/controller/networkpolicy/cache.go is
-- completed as before.
use antrea.Common.{
  ◌≡◌, refl, ◌∙◌, arith, String, string_eq, false, List, [], ◌∷◌, ◌++◌, map, any-append,
}
use antrea.RuleCache.{Rule, NetworkPolicy, RuleIndexer, RuleCache}
use antrea.RuleCache.Groups.{keys_without}
use antrea.RuleCache.Policies.{
  get_completed_rule, add_network_policy, update_network_policy, delete_network_policy,
  replace_network_policies, add_policies, delete_policies, add_rules, delete_orphans, rules_by_id,
}
use antrea.RuleCache.Indexes.{has, IsRuleIndexer}
use antrea.RuleCache.Marked.{completed_by}
use antrea.RuleCache.Updated.{
  Own-rules_by_id, Own-add_rules, get-add_rules, get-delete_orphans, get-delete_rules,
}
use antrea.RuleCache.Regrouped.{
  Alike, add_address_group-Alike, patch_address_group-Alike, add_applied_to_group-Alike,
  patch_applied_to_group-Alike,
}
use antrea.RuleCache.Changes.{
  Change, address_group_added, address_group_patched, applied_to_group_added,
  applied_to_group_patched, policy_added, policy_updated, policy_deleted, policies_replaced, change,
  changes,
}

has-append :
    (id : String) (xs ys : List String)
    → has id (xs ++ ys) ≡ false
    → (has id xs ≡ false) × (has id ys ≡ false)
unfolding has
has-append id xs ys h =
    let split = any-append (λ k. string_eq.beq k id) xs ys in
    (ground (arith, h, split), ground (arith, h, split))

module _ {S : Type 0} (ix : RuleIndexer S) (ok : IsRuleIndexer ix) where
  delete_network_policy-Alike :
      (st : RuleCache S) (uid id : String)
      → has id (delete_network_policy ix st uid).1 ≡ false
      → Alike ix ok (delete_network_policy ix st uid).0 st id
  unfolding delete_network_policy
  delete_network_policy-Alike st uid id h =
      completed_by ix st (delete_network_policy ix st uid).0 id
        (get-delete_rules ix ok (ix.by_policy st.rules uid) st.rules id h) (λ r f. refl)

  delete_policies-Alike :
      (uids : List String) (st : RuleCache S) (id : String)
      → has id (delete_policies ix st uids).1 ≡ false
      → Alike ix ok (delete_policies ix st uids).0 st id
  unfolding delete_policies
  delete_policies-Alike [] st id h = refl
  delete_policies-Alike (uid ∷ uids) st id h =
      let next = (delete_network_policy ix st uid).0 in
      let (first, rest) =
        has-append id (delete_network_policy ix st uid).1 (delete_policies ix next uids).1 h in
      delete_policies-Alike uids next id rest ∙ delete_network_policy-Alike st uid id first

  module _ (hash_rule : Rule → String) where
    update_network_policy-Alike :
        (st : RuleCache S) (policy : NetworkPolicy) (id : String)
        → has id (update_network_policy hash_rule ix st policy).1 ≡ false
        → Alike ix ok (update_network_policy hash_rule ix st policy).0 st id
    unfolding update_network_policy
    update_network_policy-Alike st policy id h =
        let old = rules_by_id (ix.by_policy st.rules policy.uid) [] in
        let added = add_rules hash_rule ix policy policy.rules old st.rules in
        let (first, rest) = has-append id added.2 (delete_orphans ix added.0 added.1).1 h in
        completed_by ix st (update_network_policy hash_rule ix st policy).0 id
          (get-delete_orphans ix ok added.0 added.1 id
              (Own-add_rules ix ok hash_rule policy policy.rules old st.rules
                (Own-rules_by_id (ix.by_policy st.rules policy.uid) [] tt))
              rest
            ∙ get-add_rules ix ok hash_rule policy policy.rules old st.rules id first)
          (λ r f. refl)

    add_network_policy-Alike :
        (st : RuleCache S) (policy : NetworkPolicy) (id : String)
        → has id (add_network_policy hash_rule ix st policy).1 ≡ false
        → Alike ix ok (add_network_policy hash_rule ix st policy).0 st id
    unfolding add_network_policy get_completed_rule
    add_network_policy-Alike st policy id h = update_network_policy-Alike _ policy id h

    add_policies-Alike :
        (policies : List NetworkPolicy) (st : RuleCache S) (id : String)
        → has id (add_policies hash_rule ix st policies).1 ≡ false
        → Alike ix ok (add_policies hash_rule ix st policies).0 st id
    unfolding add_policies
    add_policies-Alike [] st id h = refl
    add_policies-Alike (policy ∷ policies) st id h =
        let added = add_network_policy hash_rule ix st policy in
        let (first, rest) =
          has-append id added.1 (add_policies hash_rule ix added.0 policies).1 h in
        add_policies-Alike policies added.0 id rest ∙ add_network_policy-Alike st policy id first

    replace_network_policies-Alike :
        (st : RuleCache S) (policies : List NetworkPolicy) (id : String)
        → has id (replace_network_policies hash_rule ix st policies).1 ≡ false
        → Alike ix ok (replace_network_policies hash_rule ix st policies).0 st id
    unfolding replace_network_policies
    replace_network_policies-Alike st policies id h =
        let added = add_policies hash_rule ix st policies in
        let gone = keys_without (map (λ (p : NetworkPolicy). p.uid) policies) st.policy_map in
        let (first, rest) = has-append id added.1 (delete_policies ix added.0 gone).1 h in
        delete_policies-Alike gone added.0 id rest ∙ add_policies-Alike policies st id first

    change-Alike :
        (c : Change) (st : RuleCache S) (id : String)
        → has id (change hash_rule ix st c).1 ≡ false
        → Alike ix ok (change hash_rule ix st c).0 st id
    unfolding change
    change-Alike (address_group_added g) st id h = add_address_group-Alike ix ok st g id h
    change-Alike (address_group_patched p) st id h = patch_address_group-Alike ix ok st p id h
    change-Alike (applied_to_group_added g) st id h = add_applied_to_group-Alike ix ok st g id h
    change-Alike (applied_to_group_patched p) st id h = patch_applied_to_group-Alike ix ok st p id h
    change-Alike (policy_added p) st id h = add_network_policy-Alike st p id h
    change-Alike (policy_updated p) st id h = update_network_policy-Alike st p id h
    change-Alike (policy_deleted uid) st id h = delete_network_policy-Alike st uid id h
    change-Alike (policies_replaced ps) st id h = replace_network_policies-Alike st ps id h

    -- In any sequence of changes (groups added and patched, policies added, updated, deleted and
    -- replaced), a rule ID that is never handed to dirtyRuleHandler has the same completed rule at the end
    -- as at the start: the same rule with the same addresses and Pods, or none as before.
    pub changes-completed :
        (cs : List Change) (st : RuleCache S) (id : String)
        → has id (changes hash_rule ix st cs).1 ≡ false
        → get_completed_rule ix (changes hash_rule ix st cs).0 id ≡ get_completed_rule ix st id
    unfolding changes
    changes-completed [] st id h = refl
    changes-completed (c ∷ cs) st id h =
        let first = change hash_rule ix st c in
        let (now, later) = has-append id first.1 (changes hash_rule ix first.0 cs).1 h in
        changes-completed cs first.0 id later ∙ change-Alike c st id now
