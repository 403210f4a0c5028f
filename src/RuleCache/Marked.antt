-- ===== src/RuleCache/Marked.antt =====
-- No change of a rule in pkg/agent/controller/networkpolicy/cache.go is missed: groups.
use antrea.Common.{
  ◌≡◌, refl, ap, inl, inr, arith, String, string_eq, false, some, List, [], ◌∷◌, any, any-append,
  Map, get, put, get-put, Option-cases,
}
use antrea.Conjunctions.Rules.{Direction, direction_in, direction_out}
use antrea.RuleCache.{
  GroupMember, GroupMemberPod, Rule, RuleIndexer, RuleCache, address_groups_of, union,
}
use antrea.RuleCache.Policies.{union_groups, direction_addresses, complete, get_completed_rule}
use antrea.RuleCache.Indexes.{has}

other_group :
    {M : Type 0} (m : Map String (Map String M)) (g name : String) (s : Map String M)
    → string_eq.beq name g ≡ false
    → get (put m g s) name ≡ get m name
other_group m g name s h =
    ground (arith, get-put m g name s, string_eq.beq_iff g name, string_eq.beq_iff name g, h)

has_head :
    (g name : String) (names : List String)
    → has g (name ∷ names) ≡ false
    → (string_eq.beq name g ≡ false) × (has g names ≡ false)
unfolding has any
has_head g name names h = (ground (arith, h), ground (arith, h))

union_groups-put :
    {M : Type 0} (m : Map String (Map String M)) (g : String) (s : Map String M)
    (names : List String) (acc : Map String M)
    → has g names ≡ false
    → union_groups (put m g s) names acc ≡ union_groups m names acc
unfolding union_groups
union_groups-put m g s [] acc h = refl
union_groups-put m g s (name ∷ names) acc h =
    let (apart, rest) = has_head g name names h in
    let e : get (put m g s) name ≡ get m name = other_group m g name s apart in
    elim (Option-cases (get m name)) [
      | inl f ↦ rw (e, union_groups) (rw (f, union_groups) refl)
      | inr (cur_set, f) ↦
          rw (e, union_groups)
            (rw (f, union_groups) (union_groups-put m g s names (union acc cur_set) rest))
    ]

address_names :
    (g : String) (r : Rule)
    → has g (address_groups_of r) ≡ false
    → (has g r.from.address_groups ≡ false) × (has g r.to.address_groups ≡ false)
unfolding has address_groups_of
address_names g r h =
    let split = any-append (λ k. string_eq.beq k g) r.from.address_groups r.to.address_groups in
    (ground (arith, h, split), ground (arith, h, split))

direction_addresses-put :
    (d : Direction) (m : Map String (Map String GroupMember)) (g : String)
    (s : Map String GroupMember) (r : Rule)
    → has g (address_groups_of r) ≡ false
    → direction_addresses d (put m g s) r ≡ direction_addresses d m r
unfolding direction_addresses
direction_addresses-put direction_in m g s r h =
    rw
      (union_groups-put m g s r.from.address_groups [] (address_names g r h).0, direction_addresses)
      refl
direction_addresses-put direction_out m g s r h =
    rw (union_groups-put m g s r.to.address_groups [] (address_names g r h).1, direction_addresses)
      refl

pub complete-put_addresses :
    (m : Map String (Map String GroupMember)) (pods : Map String (Map String GroupMemberPod))
    (g : String) (s : Map String GroupMember) (r : Rule)
    → has g (address_groups_of r) ≡ false
    → complete (put m g s) pods r ≡ complete m pods r
unfolding complete
complete-put_addresses m pods g s r h =
    rw (direction_addresses-put r.direction m g s r h, complete) refl

pub complete-put_pods :
    (m : Map String (Map String GroupMember)) (pods : Map String (Map String GroupMemberPod))
    (g : String) (s : Map String GroupMemberPod) (r : Rule)
    → has g r.applied_to_groups ≡ false
    → complete m (put pods g s) r ≡ complete m pods r
unfolding complete
complete-put_pods m pods g s r h = elim (Option-cases (direction_addresses r.direction m r)) [
  | inl e ↦ rw (e, complete) refl
  | inr (found, e) ↦
      rw (e, complete) (rw (union_groups-put pods g s r.applied_to_groups [] h, complete) refl)
]

module _ {S : Type 0} (ix : RuleIndexer S) where
  -- The completed rule by the rule that the ID has.
  pub completed_by :
      (st next : RuleCache S) (id : String)
      → ix.get_by_key next.rules id ≡ ix.get_by_key st.rules id
      → ((r : Rule)
          → ix.get_by_key st.rules id ≡ some r
          → complete next.address_set_by_group next.pod_set_by_group r
            ≡ complete st.address_set_by_group st.pod_set_by_group r)
      → get_completed_rule ix next id ≡ get_completed_rule ix st id
  unfolding get_completed_rule
  completed_by st next id e same = elim (Option-cases (ix.get_by_key st.rules id)) [
    | inl f ↦ rw (e, f, get_completed_rule) refl
    | inr (r, f) ↦ rw (e, f, get_completed_rule) (ap (λ o. some o) (same r f))
  ]
