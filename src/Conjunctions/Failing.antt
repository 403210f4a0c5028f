-- ===== src/Conjunctions/Failing.antt =====
-- InstallPolicyRuleFlows of pkg/agent/openflow/network_policy.go when it returns an error.
use antrea.Common.{
  ◌≡◌, refl, inl, inr, ◌&&◌, Option, none, some, List, [], nat_eq, Option-cases, Bool-cases,
}
use antrea.Conjunctions.{ContextChange}
use antrea.Conjunctions.Updates.{apply_conjunctive_match_flows, bundle}
use antrea.Conjunctions.Rules.{PolicyRule, PolicyRuleConjunction, flows_of_rule}
use antrea.Conjunctions.Clauses.{Heap, calculate_changes_for_rule_creation}
use antrea.Conjunctions.Install.{
  Indexer, Policies, Status, failed, panicked, Bridge, add_all, all_set, apply_changes, Calculated,
  conjunction, already_added, nil_pointer, new_conjunction, finish_install,
  calculate_action_flow_changes_for_rule, install_conjunction, install_policy_rule_flows,
}
use antrea.Conjunctions.Extends.{
  Extends, Extends-trans, Grows-Extends, calculate_changes-Grows, calculate_clauses-Extends,
}

-- The conjunction and the heap that it comes with, if there is one.
abbrev Made : Heap → Calculated → Type 0
Made h (conjunction heap conj) = Extends h heap
Made h already_added = Unit
Made h nil_pointer = Unit

new_conjunction-Made : (rule : PolicyRule) (h : Heap) → Made h (new_conjunction rule h)
unfolding new_conjunction
new_conjunction-Made rule h = elim (Option-cases (flows_of_rule rule)) [
  | inl e ↦ rw (e, new_conjunction) tt
  | inr (flows, e) ↦ rw (e, new_conjunction) (calculate_clauses-Extends rule h)
]

module _ {S : Type 0} where
  -- What the operation left, if it failed: no cache is changed, and the old pointers give what they gave.
  abbrev pub KeptBy : Policies S → Policies S × Status → Type 0
  KeptBy st r = r.1 ≡ failed → Extends st.heap r.0.heap × (r.0.policy_cache ≡ st.policy_cache)

module _ {S : Type 0} (ix : Indexer S) where
  -- What the bundle of the matches answers.
  finish-KeptBy :
      (send : Bridge) (st : Policies S) (h : Heap) (conj : PolicyRuleConjunction)
      (chs : List ContextChange)
      → Extends st.heap h
      → KeptBy st (finish_install ix st conj (apply_changes send h chs))
  unfolding finish_install apply_changes apply_conjunctive_match_flows
  finish-KeptBy send st h conj chs x = elim (Bool-cases (send 2 (bundle chs []))) [
    | inl e ↦ rw (e, apply_conjunctive_match_flows) (λ f. absurd (cc f))
    | inr e ↦ rw (e, apply_conjunctive_match_flows) (λ f. (x, refl))
  ]

  changes-KeptBy :
      (send : Bridge) (st : Policies S) (h : Heap) (conj : PolicyRuleConjunction)
      (o : Option (List ContextChange))
      → Extends st.heap h
      → let next : Policies S × Status = elim o [
        | none ↦ (record { heap = h; policy_cache = st.policy_cache }, panicked)
        | some chs ↦ finish_install ix st conj (apply_changes send h chs)
      ] in
        KeptBy st next
  changes-KeptBy send st h conj none x = λ f. absurd (cc f)
  changes-KeptBy send st h conj (some chs) x = finish-KeptBy send st h conj chs x

  install-KeptBy :
      (send : Bridge) (st : Policies S) (rule : PolicyRule) (h : Heap)
      (conj : PolicyRuleConjunction)
      → Extends st.heap h
      → KeptBy st (install_conjunction ix send st rule h conj)
  unfolding install_conjunction
  install-KeptBy send st rule h conj x =
      let changes = calculate_changes_for_rule_creation h.client conj rule in
      let heap : Heap = record h { client = changes.0 } in
      let grown : Extends st.heap heap =
        Extends-trans st.heap h heap x
          (Grows-Extends h changes.0 (calculate_changes-Grows h.client conj rule)) in
      elim (Bool-cases (add_all send 0 conj.metric_flows && add_all send 1 conj.action_flows)) [
        | inl e ↦
            rw (e, install_conjunction) (changes-KeptBy send st heap conj (all_set changes.1) grown)
        | inr e ↦ rw (e, install_conjunction) (λ f. (grown, refl))
      ]

  calculated-KeptBy :
      (send : Bridge) (st : Policies S) (rule : PolicyRule) (made : Calculated)
      → Made st.heap made
      → let next : Policies S × Status = elim made [
        | conjunction heap conj ↦ install_conjunction ix send st rule heap conj
        | already_added ↦ (st, panicked)
        | nil_pointer ↦ (st, panicked)
      ] in
        KeptBy st next
  calculated-KeptBy send st rule (conjunction heap conj) m = install-KeptBy send st rule heap conj m
  calculated-KeptBy send st rule already_added m = λ f. absurd (cc f)
  calculated-KeptBy send st rule nil_pointer m = λ f. absurd (cc f)

  calculated-Made :
      (st : Policies S) (rule : PolicyRule)
      → Made st.heap (calculate_action_flow_changes_for_rule ix st rule)
  unfolding calculate_action_flow_changes_for_rule
  calculated-Made st rule = elim (Option-cases (ix.get_by_key st.policy_cache rule.flow_id)) [
    | inl e ↦ rw (e, calculate_action_flow_changes_for_rule) (new_conjunction-Made rule st.heap)
    | inr (conj, e) ↦ rw (e, calculate_action_flow_changes_for_rule) tt
  ]

  -- When InstallPolicyRuleFlows returns an error, the cache of conjunctions, that of contexts, and every
  -- context and clause that there was are as they were.
  pub install_policy_rule_flows-KeptBy :
      (send : Bridge) (st : Policies S) (rule : PolicyRule)
      → (install_policy_rule_flows ix send st rule).1 ≡ failed
      → Extends st.heap (install_policy_rule_flows ix send st rule).0.heap
        × ((install_policy_rule_flows ix send st rule).0.policy_cache ≡ st.policy_cache)
  unfolding install_policy_rule_flows
  install_policy_rule_flows-KeptBy send st rule =
      calculated-KeptBy send st rule (calculate_action_flow_changes_for_rule ix st rule)
        (calculated-Made st rule)
