-- ===== src/Conjunctions/Reassigned.antt =====
-- What ReassignFlowPriorities of pkg/agent/openflow/network_policy.go leaves of the clauses of a rule that
-- it moves.
use antrea.Common.{
  ℕ, ◌≡◌, refl, ap, ◌∙◌, inl, inr, arith, Bool, true, none, some, List, [], nat_eq, ◌==◌, Map, get,
  Bool-cases,
}
use antrea.Conjunctions.{Flow, Clause, Client, ContextChange}
use antrea.Conjunctions.Updates.{apply_conjunctive_match_flows, update_all, bundle}
use antrea.Conjunctions.Addresses.{Address, AddressType, src_address, dst_address, unknown_type}
use antrea.Conjunctions.Rules.{PolicyRuleConjunction}
use antrea.Conjunctions.Clauses.{Heap, get_address_clause}
use antrea.Conjunctions.Install.{Indexer, Policies, Status, Bridge, apply_changes}
use antrea.Conjunctions.Batch.{with_address_clause, finish_address, delete_policy_rule_address}
use antrea.Conjunctions.Cache.{IsIndexer}
use antrea.Conjunctions.Reassign.{all_clause}
use antrea.Conjunctions.Priorities.{
  FlowUpdates, update_conjunction_action_flows, update_conjunction_match_flows, update_conjunction,
}
use antrea.Conjunctions.Moved.{Without, clauses-move_clauses, delete_addr_flows-none}

get_address_clause-updated :
    (conj : PolicyRuleConjunction) (fs : List Flow) (t : AddressType)
    → get_address_clause (update_conjunction_action_flows conj fs) t ≡ get_address_clause conj t
unfolding get_address_clause update_conjunction_action_flows
get_address_clause-updated conj fs src_address = refl
get_address_clause-updated conj fs dst_address = refl
get_address_clause-updated conj fs unknown_type = refl

updated_id :
    (conj : PolicyRuleConjunction) (u : FlowUpdates) (id : ℕ)
    → conj.id ≡ id
    → ((update_conjunction_action_flows conj u.new_action_flows).id == id) ≡ true
unfolding update_conjunction_action_flows
updated_id conj u id e = ground (arith, e)

clauses-moved :
    (conj : PolicyRuleConjunction) (p : ℕ) (client : Client)
    → (update_conjunction_match_flows conj p client).clauses ≡ client.clauses
unfolding update_conjunction_match_flows
clauses-moved conj p client = clauses-move_clauses p (all_clause conj) client

-- Nothing is left to change.
apply_none : (send : Bridge) (h : Heap) → (apply_changes send h []).0 ≡ h
unfolding apply_changes apply_conjunctive_match_flows update_all
apply_none send h = elim (Bool-cases (send 2 (bundle [] []))) [
  | inl e ↦ rw (e, apply_conjunctive_match_flows) refl
  | inr e ↦ rw (e, apply_conjunctive_match_flows) refl
]

module _ {S : Type 0} (ix : Indexer S) where
  abbrev with_heap : Policies S → Heap → Policies S
  with_heap st h = record st { heap = h }

  finish-state :
      (st : Policies S) (result : Heap × Bool)
      → result.0 ≡ st.heap
      → (finish_address ix st result).0 ≡ st
  unfolding finish_address
  finish-state st (heap, ok) e = ap (λ (h : Heap). with_heap st h) e

  with_found :
      (st : Policies S) (id : ℕ) (t : AddressType) (go : ℕ → Clause → Policies S × Status)
      (conj : PolicyRuleConjunction) (cp : ℕ) (c : Clause)
      → ix.get_by_key st.policy_cache id ≡ some conj
      → get_address_clause conj t ≡ some cp
      → get st.heap.client.clauses cp ≡ some c
      → with_address_clause ix st id t go ≡ go cp c
  unfolding with_address_clause
  with_found st id t go conj cp c h g k = rw (h, with_address_clause) (rw (g, k) refl)

  module _ (laws : IsIndexer ix) where
    pub update_conjunction-found :
        (id : ℕ) (u : FlowUpdates) (st : Policies S) (conj : PolicyRuleConjunction)
        → ix.get_by_key st.policy_cache id ≡ some conj
        → ix.get_by_key (update_conjunction ix id u st).policy_cache id
          ≡ some (update_conjunction_action_flows conj u.new_action_flows)
    unfolding update_conjunction
    update_conjunction-found id u st conj h =
        let updated = update_conjunction_action_flows conj u.new_action_flows in
        let same : (updated.id == id) ≡ true = updated_id conj u id (laws.key_of _ id conj h) in
        rw (h, update_conjunction) (laws.get-add st.policy_cache updated id ∙ rw same refl)

    update_conjunction-clauses :
        (id : ℕ) (u : FlowUpdates) (st : Policies S)
        → (update_conjunction ix id u st).heap.client.clauses ≡ st.heap.client.clauses
    unfolding update_conjunction
    update_conjunction-clauses id u st =
        elim (ix.get_by_key st.policy_cache id)
          as (λ o.
            let next : Policies S = elim o [
              | none ↦ st
              | some conj ↦
                  let updated = update_conjunction_action_flows conj u.new_action_flows in
                  record {
                    heap = record (st.heap) {
                      client = update_conjunction_match_flows updated u.new_priority st.heap.client;
                    };
                    policy_cache = ix.add st.policy_cache updated;
                  }
            ] in
            next.heap.client.clauses ≡ st.heap.client.clauses) [
              | none ↦ refl
              | some conj ↦
                  clauses-moved (update_conjunction_action_flows conj u.new_action_flows)
                    u.new_priority st.heap.client
            ]

    -- Once the rule with an ID is moved to a priority at which a clause of it had no match, the deletion of
    -- addresses from that clause at the new priority changes nothing, whatever the addresses: neither
    -- the cache nor a context nor the clause.
    pub delete_policy_rule_address-misses :
        (send : Bridge) (st : Policies S) (id : ℕ) (u : FlowUpdates) (t : AddressType)
        (addresses : List Address) (conj : PolicyRuleConjunction) (cp : ℕ) (c : Clause)
        → ix.get_by_key st.policy_cache id ≡ some conj
        → get_address_clause conj t ≡ some cp
        → get st.heap.client.clauses cp ≡ some c
        → Without u.new_priority c
        → (delete_policy_rule_address ix send
            (update_conjunction ix id u st)
            id
            t
            addresses
            (some u.new_priority)).0
          ≡ update_conjunction ix id u st
    unfolding delete_policy_rule_address
    delete_policy_rule_address-misses send st id u t addresses conj cp c h g k w =
        let moved : Policies S = update_conjunction ix id u st in
        ap (λ (r : Policies S × Status). r.0)
          (with_found moved id t _ (update_conjunction_action_flows conj u.new_action_flows) cp c
            (update_conjunction-found id u st conj h)
            (get_address_clause-updated conj u.new_action_flows t ∙ g)
            (ap (λ (m : Map ℕ Clause). get m cp) (update_conjunction-clauses id u st) ∙ k))
        ∙ finish-state moved _ (
            ap (λ (chs : List ContextChange). (apply_changes send moved.heap chs).0)
              (delete_addr_flows-none moved.heap.client cp c t addresses u.new_priority w)
            ∙ apply_none send moved.heap)
