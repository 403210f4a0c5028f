-- ===== src/RuleCache/Synced.antt =====
-- The rules of a policy after UpdateNetworkPolicy of pkg/agent/controller/networkpolicy/cache.go.
use antrea.Common.{
  ◌≡◌, refl, sym, ◌∙◌, inl, inr, String, string_eq, true, false, none, List, [], any, if◌then◌else◌,
  Map, get, Bool-cases, Option-cases,
}
use antrea.RuleCache.{Rule, NetworkPolicy, RuleIndexer, RuleCache}
use antrea.RuleCache.Policies.{update_network_policy, add_rules, rules_by_id}
use antrea.RuleCache.Indexes.{has, IsRuleIndexer}
use antrea.RuleCache.Updated.{
  Own, Own-rules_by_id, Own-add_rules, get-delete_kept, get-delete_gone, get-add_rules,
}
use antrea.RuleCache.Listed.{
  ids_of, has_id, Listed, Left-rules_by_id, rules_by_id-none, Listed-by_policy, by_policy-Listed,
}
use antrea.RuleCache.Added.{get-left, dirty_apart, added-Listed}

module _ {S : Type 0} (ix : RuleIndexer S) (ok : IsRuleIndexer ix) (hash_rule : Rule → String)
    (policy : NetworkPolicy) where
  -- The rules by ID that are cached for the policy before the update.
  abbrev before : RuleCache S → Map String Rule
  before st = rules_by_id (ix.by_policy st.rules policy.uid) []

  abbrev looped : RuleCache S → Map String Rule × S × List String
  looped st = add_rules hash_rule ix policy policy.rules (before st) st.rules

  looped-Own : (st : RuleCache S) → Own (looped st).0
  looped-Own st =
      Own-add_rules ix ok hash_rule policy policy.rules (before st) st.rules
        (Own-rules_by_id (ix.by_policy st.rules policy.uid) [] tt)

  -- The rule that the cache has under the ID after the update, when the loop left nothing of it to delete.
  kept :
      (st : RuleCache S) (id : String)
      → get (looped st).0 id ≡ none
      → ix.get_by_key (update_network_policy hash_rule ix st policy).0.rules id
        ≡ ix.get_by_key (looped st).1 id
  unfolding update_network_policy
  kept st id e = get-delete_kept ix ok (looped st).0 (looped st).1 id (looped-Own st) e

  named :
      (st : RuleCache S) (id : String)
      → has id (ids_of hash_rule policy policy.rules) ≡ true
      → Listed ix ok policy.uid (update_network_policy hash_rule ix st policy).0.rules id
  named st id h =
      let gone : get (looped st).0 id ≡ none =
        get-left ix ok hash_rule policy policy.rules (before st) st.rules id
        ∙ rw (h, if◌then◌else◌) refl in
      let (r, found, mine) =
        added-Listed ix ok hash_rule policy policy.rules (before st) st.rules id
          (Left-rules_by_id ix ok st.rules policy.uid) h in
      (r, kept st id gone ∙ found, mine)

  unnamed :
      (st : RuleCache S) (id : String)
      → has id (ids_of hash_rule policy policy.rules) ≡ false
      → ¬ Listed ix ok policy.uid (update_network_policy hash_rule ix st policy).0.rules id
  unfolding update_network_policy
  unnamed st id h (r, found, mine) =
      let left : get (looped st).0 id ≡ get (before st) id =
        get-left ix ok hash_rule policy policy.rules (before st) st.rules id
        ∙ rw (h, if◌then◌else◌) refl in
      elim (Option-cases (get (before st) id)) [
        | inl e ↦
            let apart = dirty_apart ix ok hash_rule policy policy.rules (before st) st.rules id h in
            let here =
              sym (
                kept st id (left ∙ e)
                ∙ get-add_rules ix ok hash_rule policy policy.rules (before st) st.rules id apart)
              ∙ found in
            let cached = by_policy-Listed ix ok st.rules policy.uid id (r, here, mine) in
            let (missing, nothing) = rules_by_id-none (ix.by_policy st.rules policy.uid) [] id e in
            cc (missing, cached)
        | inr (q, e) ↦
            let gone =
              get-delete_gone ix ok (looped st).0 (looped st).1 id q (looped-Own st) (left ∙ e) in
            cc (gone, found)
      ]

  -- After an update of a policy the cached rules that are the policy's have precisely the IDs of the
  -- policy's rules: none is missing and none of an older version is left.
  pub update_network_policy-synced :
      (st : RuleCache S) (id : String)
      → any
          (has_id id)
          (ix.by_policy (update_network_policy hash_rule ix st policy).0.rules policy.uid)
        ≡ has id (ids_of hash_rule policy policy.rules)
  update_network_policy-synced st id =
      let after = (update_network_policy hash_rule ix st policy).0.rules in
      elim (Bool-cases (has id (ids_of hash_rule policy policy.rules))) [
        | inl e ↦ by_policy-Listed ix ok after policy.uid id (named st id e) ∙ sym e
        | inr e ↦ elim (Bool-cases (any (has_id id) (ix.by_policy after policy.uid))) [
          | inl cached ↦
              absurd (unnamed st id e (Listed-by_policy ix ok after policy.uid id cached))
          | inr free ↦ free ∙ sym e
        ]
      ]
