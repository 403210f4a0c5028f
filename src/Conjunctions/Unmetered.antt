-- ===== src/Conjunctions/Unmetered.antt =====
-- ReassignFlowPriorities of pkg/agent/openflow/network_policy.go and the metric flows of the rules that
-- it moves.
use antrea.Common.{
  ℕ, ◌≡◌, refl, ap, sym, subst, ◌∙◌, inl, inr, arith, Bool, true, false, none, some, List, [], ◌∷◌,
  nat_eq, ◌==◌, ==_iff, if◌then◌else◌, Map, get, Bool-cases,
}
use antrea.Conjunctions.{Flow}
use antrea.Conjunctions.Rules.{PolicyRuleConjunction}
use antrea.Conjunctions.Install.{Indexer, Policies, Status, succeeded, failed, Bridge}
use antrea.Conjunctions.Cache.{IsIndexer}
use antrea.Conjunctions.Priorities.{
  FlowUpdates, Calculation, update_conjunction_action_flows, update_conjunction_match_flows,
  update_conjunction, update_conjunctions, calculate_flow_updates, send_calculation,
  reassign_flow_priorities,
}
use antrea.Conjunctions.Reassigned.{update_conjunction-found}

module _ {S : Type 0} (ix : Indexer S) where
  -- The cached conjunction has no metric flows.
  abbrev pub Unmetered : ℕ → S → Type 0
  Unmetered id cache =
      (conj : PolicyRuleConjunction) × (ix.get_by_key cache id ≡ some conj)
      × (conj.metric_flows ≡ [])

  abbrev Cached : ℕ → S → Type 0
  Cached id cache = (conj : PolicyRuleConjunction) × (ix.get_by_key cache id ≡ some conj)

  module _ (laws : IsIndexer ix) where
    updated-metrics :
        (conj : PolicyRuleConjunction) (fs : List Flow)
        → (update_conjunction_action_flows conj fs).metric_flows ≡ []
    unfolding update_conjunction_action_flows
    updated-metrics conj fs = refl

    -- Another conjunction that is updated leaves the cached one, or replaces it.
    add-Unmetered :
        (id : ℕ) (cache : S) (new : PolicyRuleConjunction)
        → new.metric_flows ≡ []
        → Unmetered id cache
        → Unmetered id (ix.add cache new)
    add-Unmetered id cache new e (conj, h, m) = elim (Bool-cases (new.id == id)) [
      | inl b ↦ (new, laws.get-add cache new id ∙ rw b refl, e)
      | inr b ↦ (conj, laws.get-add cache new id ∙ rw b h, m)
    ]

    add-Cached :
        (id : ℕ) (cache : S) (new : PolicyRuleConjunction)
        → Cached id cache
        → Cached id (ix.add cache new)
    add-Cached id cache new (conj, h) = elim (Bool-cases (new.id == id)) [
      | inl b ↦ (new, laws.get-add cache new id ∙ rw b refl)
      | inr b ↦ (conj, laws.get-add cache new id ∙ rw b h)
    ]

    -- What an update does with the cache.
    update-cases :
        (P : S → Type 0) (j : ℕ) (u : FlowUpdates) (st : Policies S)
        → P st.policy_cache
        → ((conj : PolicyRuleConjunction)
            → P (ix.add st.policy_cache (update_conjunction_action_flows conj u.new_action_flows)))
        → P (update_conjunction ix j u st).policy_cache
    unfolding update_conjunction
    update-cases P j u st stays added =
        elim (ix.get_by_key st.policy_cache j)
          as (λ o.
            let next : Policies S = elim o [
              | none ↦ st
              | some conj ↦
                  let updated = update_conjunction_action_flows conj u.new_action_flows in
                  record {
                    heap = record (st.heap) {
                      client = update_conjunction_match_flows updated u.new_priority st.heap.client;
                    };
                    policy_cache = ix.add st.policy_cache updated;
                  }
            ] in
            P next.policy_cache) [ none ↦ stays | some conj ↦ added conj ]

    updates-Unmetered :
        (id : ℕ) (m : Map ℕ FlowUpdates) (st : Policies S)
        → Unmetered id st.policy_cache
        → Unmetered id (update_conjunctions ix m st).policy_cache
    unfolding update_conjunctions
    updates-Unmetered id [] st h = h
    updates-Unmetered id ((j, u) ∷ m) st h = updates-Unmetered id m (update_conjunction ix j u st) (
        update-cases (Unmetered id) j u st h
          (λ conj. add-Unmetered id st.policy_cache _ (updated-metrics conj u.new_action_flows) h))

    updates-found :
        (id : ℕ) (m : Map ℕ FlowUpdates) (u : FlowUpdates) (st : Policies S)
        → get m id ≡ some u
        → Cached id st.policy_cache
        → Unmetered id (update_conjunctions ix m st).policy_cache
    unfolding update_conjunctions get
    updates-found id [] u st g h = absurd (cc g)
    updates-found id ((j, v) ∷ m) u st g (conj, h) = elim (Bool-cases (j == id)) [
      | inl b ↦ updates-Unmetered id m (update_conjunction ix j v st) (
        update_conjunction_action_flows conj v.new_action_flows,
        subst
            (λ (k : ℕ).
              ix.get_by_key (update_conjunction ix k v st).policy_cache id
              ≡ some (update_conjunction_action_flows conj v.new_action_flows))
            (sym ((==_iff j id).0 b)) (update_conjunction-found ix laws id v st conj h),
        updated-metrics conj v.new_action_flows,
      )
      | inr b ↦ updates-found id m u (update_conjunction ix j v st) (ground (arith, b, g)) (
          update-cases (Cached id) j v st (conj, h)
            (λ c. add-Cached id st.policy_cache _ (conj, h)))
    ]

    abbrev sent_or_not : Bool → Policies S → Policies S → Policies S × Status
    sent_or_not b sent st = if b then (sent, succeeded) else (st, failed)

    if_sent :
        (b : Bool) (id : ℕ) (sent st : Policies S)
        → (sent_or_not b sent st).1 ≡ succeeded
        → Unmetered id sent.policy_cache
        → Unmetered id (sent_or_not b sent st).0.policy_cache
    if_sent true id sent st ok h = h
    if_sent false id sent st ok h = absurd (cc ok)

    send_calculation-Unmetered :
        (send : Bridge) (st : Policies S) (id : ℕ) (calc : Calculation)
        → (send_calculation ix send st calc).1 ≡ succeeded
        → Unmetered id (update_conjunctions ix calc.conj_flow_updates st).policy_cache
        → Unmetered id (send_calculation ix send st calc).0.policy_cache
    unfolding send_calculation
    send_calculation-Unmetered send st id calc ok h =
        if_sent (send 0 _) id (update_conjunctions ix calc.conj_flow_updates st) st ok h

    calculated :
        (send : Bridge) (st : Policies S) (updates : Map ℕ ℕ) (table : ℕ) (calc : Calculation)
        → calculate_flow_updates ix st.heap.client st.policy_cache updates table ≡ some calc
        → reassign_flow_priorities ix send st updates table ≡ send_calculation ix send st calc
    unfolding reassign_flow_priorities
    calculated send st updates table calc c = rw (c, reassign_flow_priorities) refl

    -- When ReassignFlowPriorities succeeds, each conjunction that it has an update for is in the cache
    -- without metric flows, whichever it had, if it was in the cache before.
    pub reassign_flow_priorities-Unmetered :
        (send : Bridge) (st : Policies S) (updates : Map ℕ ℕ) (table id : ℕ) (calc : Calculation)
        (u : FlowUpdates) (conj : PolicyRuleConjunction)
        → calculate_flow_updates ix st.heap.client st.policy_cache updates table ≡ some calc
        → get calc.conj_flow_updates id ≡ some u
        → ix.get_by_key st.policy_cache id ≡ some conj
        → (reassign_flow_priorities ix send st updates table).1 ≡ succeeded
        → Unmetered id (reassign_flow_priorities ix send st updates table).0.policy_cache
    reassign_flow_priorities-Unmetered send st updates table id calc u conj c g h ok =
        let e : reassign_flow_priorities ix send st updates table
            ≡ send_calculation ix send st calc =
          calculated send st updates table calc c in
        subst (λ (r : Policies S × Status). Unmetered id r.0.policy_cache) (sym e)
          (send_calculation-Unmetered send st id calc
            (ap (λ (r : Policies S × Status). r.1) (sym e) ∙ ok)
            (updates-found id calc.conj_flow_updates u st g (conj, h)))
