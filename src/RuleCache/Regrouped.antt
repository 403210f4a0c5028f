-- ===== src/RuleCache/Regrouped.antt =====
-- A rule whose ID is not handed to dirtyRuleHandler by the operations on groups of
-- pkg/agent/controller/networkpolicy/cache.go is completed as before.
use antrea.Common.{
  ◌≡◌, refl, sym, subst, ◌∙◌, inl, inr, String, string_eq, true, false, some, if◌then◌else◌, Map,
  get, Bool-cases, Option-cases,
}
use antrea.RuleCache.{GroupMember, GroupMemberPod, Rule, RuleIndexer, RuleCache, address_groups_of}
use antrea.RuleCache.Groups.{
  AddressGroup, AddressGroupPatch, AppliedToGroup, AppliedToGroupPatch, set_addresses, set_pods,
  add_address_group, patch_address_group, add_applied_to_group, patch_applied_to_group, unchanged,
  address_set, pod_set, patched_addresses, patched_pods,
}
use antrea.RuleCache.Policies.{get_completed_rule}
use antrea.RuleCache.Indexes.{has, IsRuleIndexer}
use antrea.RuleCache.Marked.{complete-put_addresses, complete-put_pods, completed_by}

module _ {S : Type 0} (ix : RuleIndexer S) (ok : IsRuleIndexer ix) where
  -- The rule with the ID is completed alike.
  abbrev pub Alike : RuleCache S → RuleCache S → String → Type 0
  Alike next st id = get_completed_rule ix next id ≡ get_completed_rule ix st id

  apart_address_group :
      (s : S) (g id : String) (r : Rule)
      → ix.get_by_key s id ≡ some r
      → has id (ix.keys_by_address_group s g) ≡ false
      → has g (address_groups_of r) ≡ false
  apart_address_group s g id r f h = elim (Bool-cases (has g (address_groups_of r))) [
    | inl named ↦
        let own = ok.key_of s id r f in
        let found = subst (λ k. ix.get_by_key s k ≡ some r) (sym own) f in
        let listed = ok.by_address_group s r g found named in
        let same : true ≡ false =
          sym (subst (λ k. has k (ix.keys_by_address_group s g) ≡ true) own listed) ∙ h in
        cc same
    | inr apart ↦ apart
  ]

  apart_applied_to_group :
      (s : S) (g id : String) (r : Rule)
      → ix.get_by_key s id ≡ some r
      → has id (ix.keys_by_applied_to_group s g) ≡ false
      → has g r.applied_to_groups ≡ false
  apart_applied_to_group s g id r f h = elim (Bool-cases (has g r.applied_to_groups)) [
    | inl named ↦
        let own = ok.key_of s id r f in
        let found = subst (λ k. ix.get_by_key s k ≡ some r) (sym own) f in
        let listed = ok.by_applied_to_group s r g found named in
        let same : true ≡ false =
          sym (subst (λ k. has k (ix.keys_by_applied_to_group s g) ≡ true) own listed) ∙ h in
        cc same
    | inr apart ↦ apart
  ]

  set_addresses-Alike :
      (st : RuleCache S) (g : String) (s : Map String GroupMember) (id : String)
      → has id (set_addresses ix st g s).1 ≡ false
      → Alike (set_addresses ix st g s).0 st id
  unfolding set_addresses
  set_addresses-Alike st g s id h =
      let next = (set_addresses ix st g s).0 in
      completed_by ix st next id refl (λ r f.
        complete-put_addresses st.address_set_by_group st.pod_set_by_group g s r
          (apart_address_group st.rules g id r f h))

  set_pods-Alike :
      (st : RuleCache S) (g : String) (s : Map String GroupMemberPod) (id : String)
      → has id (set_pods ix st g s).1 ≡ false
      → Alike (set_pods ix st g s).0 st id
  unfolding set_pods
  set_pods-Alike st g s id h =
      let next = (set_pods ix st g s).0 in
      completed_by ix st next id refl (λ r f.
        complete-put_pods st.address_set_by_group st.pod_set_by_group g s r
          (apart_applied_to_group st.rules g id r f h))

  pub add_address_group-Alike :
      (st : RuleCache S) (g : AddressGroup) (id : String)
      → has id (add_address_group ix st g).1 ≡ false
      → Alike (add_address_group ix st g).0 st id
  unfolding add_address_group
  add_address_group-Alike st g id h =
      elim (Bool-cases (unchanged (get st.address_set_by_group g.name) (address_set g))) [
        | inl e ↦ rw (e, if◌then◌else◌) refl
        | inr e ↦
            let now : add_address_group ix st g ≡ set_addresses ix st g.name (address_set g) =
              rw (e, if◌then◌else◌) refl in
            subst (λ a. Alike a.0 st id) (sym now)
              (set_addresses-Alike st g.name (address_set g) id
                (subst (λ a. has id a.1 ≡ false) now h))
      ]

  pub add_applied_to_group-Alike :
      (st : RuleCache S) (g : AppliedToGroup) (id : String)
      → has id (add_applied_to_group ix st g).1 ≡ false
      → Alike (add_applied_to_group ix st g).0 st id
  unfolding add_applied_to_group
  add_applied_to_group-Alike st g id h =
      elim (Bool-cases (unchanged (get st.pod_set_by_group g.name) (pod_set g))) [
        | inl e ↦ rw (e, if◌then◌else◌) refl
        | inr e ↦
            let now : add_applied_to_group ix st g ≡ set_pods ix st g.name (pod_set g) =
              rw (e, if◌then◌else◌) refl in
            subst (λ a. Alike a.0 st id) (sym now)
              (set_pods-Alike st g.name (pod_set g) id (subst (λ a. has id a.1 ≡ false) now h))
      ]

  pub patch_address_group-Alike :
      (st : RuleCache S) (p : AddressGroupPatch) (id : String)
      → has id (patch_address_group ix st p).1 ≡ false
      → Alike (patch_address_group ix st p).0 st id
  unfolding patch_address_group
  patch_address_group-Alike st p id h = elim (Option-cases (get st.address_set_by_group p.name)) [
    | inl e ↦ rw (e, patch_address_group) refl
    | inr (s, e) ↦
        let now : patch_address_group ix st p ≡ set_addresses ix st p.name (patched_addresses p s) =
          rw (e, patch_address_group) refl in
        subst (λ a. Alike a.0 st id) (sym now)
          (set_addresses-Alike st p.name (patched_addresses p s) id
            (subst (λ a. has id a.1 ≡ false) now h))
  ]

  pub patch_applied_to_group-Alike :
      (st : RuleCache S) (p : AppliedToGroupPatch) (id : String)
      → has id (patch_applied_to_group ix st p).1 ≡ false
      → Alike (patch_applied_to_group ix st p).0 st id
  unfolding patch_applied_to_group
  patch_applied_to_group-Alike st p id h = elim (Option-cases (get st.pod_set_by_group p.name)) [
    | inl e ↦ rw (e, patch_applied_to_group) refl
    | inr (s, e) ↦
        let now : patch_applied_to_group ix st p ≡ set_pods ix st p.name (patched_pods p s) =
          rw (e, patch_applied_to_group) refl in
        subst (λ a. Alike a.0 st id) (sym now)
          (set_pods-Alike st p.name (patched_pods p s) id (subst (λ a. has id a.1 ≡ false) now h))
  ]
