-- ===== src/Conjunctions/Lacking.antt =====
-- ReassignFlowPriorities of pkg/agent/openflow/network_policy.go for a rule without a clause, as that of
-- the services is for a rule without ports.
use antrea.Common.{
  ℕ, ◌≡◌, ◌⊎◌, refl, inl, inr, arith, true, Option, none, some, List, [], ◌∷◌, ◌++◌, nat_eq, ◌==◌,
  Map, get, Option-cases,
}
use antrea.Conjunctions.{Client}
use antrea.Conjunctions.Rules.{PolicyRuleConjunction}
use antrea.Conjunctions.Install.{Indexer, Policies, panicked, Bridge}
use antrea.Conjunctions.Reassign.{
  clause_flow_updates, match_flow_updates, get_match_flow_updates, all_clause,
}
use antrea.Conjunctions.Priorities.{
  Calculation, conjunction_update, conjunctions_update, calculate_from, calculate_flow_updates,
  reassign_flow_priorities,
}

-- No clause for the addresses or the services.
abbrev pub Lacks : PolicyRuleConjunction → Type 0
Lacks conj = (conj.from_clause ≡ none) ⊎ (conj.to_clause ≡ none) ⊎ (conj.service_clause ≡ none)

rest-none :
    (client : Client) (p : ℕ) (cp : Option ℕ) (cps : List (Option ℕ))
    → match_flow_updates client p cps ≡ none
    → match_flow_updates client p (cp ∷ cps) ≡ none
unfolding match_flow_updates
rest-none client p none cps h = refl
rest-none client p (some cp) cps h = elim (Option-cases (get client.clauses cp)) [
  | inl e ↦ rw (e, match_flow_updates) refl
  | inr (c, e) ↦
      rw (e, match_flow_updates)
        (elim (Option-cases (clause_flow_updates client p c.matches)) [
          | inl f ↦ rw f refl
          | inr (here, f) ↦ rw (f, h) refl
        ])
]

here-none :
    (client : Client) (p : ℕ) (cps : List (Option ℕ))
    → match_flow_updates client p (none ∷ cps) ≡ none
unfolding match_flow_updates
here-none client p cps = refl

Lacks-none :
    (client : Client) (p : ℕ) (conj : PolicyRuleConjunction)
    → Lacks conj
    → get_match_flow_updates client conj p ≡ none
unfolding get_match_flow_updates all_clause
Lacks-none client p conj (inl e) = rw e (here-none client p _)
Lacks-none client p conj (inr (inl e)) =
    rest-none client p conj.from_clause _ (rw e (here-none client p _))
Lacks-none client p conj (inr (inr e)) =
    rest-none client p conj.from_clause _
      (rest-none client p conj.to_clause _ (rw e (here-none client p _)))

update-none :
    (client : Client) (table original p : ℕ) (conj : PolicyRuleConjunction) (calc : Calculation)
    → conj.rule_table_id ≡ table
    → Lacks conj
    → conjunction_update client table original p conj calc ≡ none
unfolding conjunction_update
update-none client table original p conj calc e l =
    let same : (conj.rule_table_id == table) ≡ true = ground (arith, e) in
    rw (same, Lacks-none client p conj l) refl

updates-none :
    (client : Client) (table original p : ℕ) (before after : List PolicyRuleConjunction)
    (conj : PolicyRuleConjunction) (calc : Calculation)
    → conj.rule_table_id ≡ table
    → Lacks conj
    → conjunctions_update client table original p (before ++ (conj ∷ after)) calc ≡ none
unfolding conjunctions_update
updates-none client table original p [] after conj calc e l =
    rw (update-none client table original p conj calc e l, conjunctions_update) refl
updates-none client table original p (b ∷ before) after conj calc e l =
    elim (Option-cases (conjunction_update client table original p b calc)) [
      | inl f ↦ rw (f, conjunctions_update) refl
      | inr (next, f) ↦
          rw (f, conjunctions_update)
            (updates-none client table original p before after conj next e l)
    ]

module _ {S : Type 0} (ix : Indexer S) where
  calculate-none :
      (client : Client) (cache : S) (table original p : ℕ) (first last : Map ℕ ℕ)
      (before after : List PolicyRuleConjunction) (conj : PolicyRuleConjunction)
      (calc : Calculation)
      → ix.by_index cache original ≡ before ++ (conj ∷ after)
      → conj.rule_table_id ≡ table
      → Lacks conj
      → calculate_from ix client cache (first ++ ((original, p) ∷ last)) table calc ≡ none
  unfolding calculate_from
  calculate-none client cache table original p [] last before after conj calc i e l =
      rw (i, calculate_from)
        (rw (updates-none client table original p before after conj calc e l) refl)
  calculate-none client cache table original p ((o, q) ∷ first) last before after conj calc i e l =
      elim (Option-cases (conjunctions_update client table o q (ix.by_index cache o) calc)) [
        | inl f ↦ rw (f, calculate_from) refl
        | inr (next, f) ↦
            rw (f, calculate_from)
              (calculate-none client cache table original p first last before after conj next i e l)
      ]

  -- If the index has a conjunction of the table for a priority that is to change, and one of its three
  -- clauses is nil, ReassignFlowPriorities follows the nil pointer and panics.
  pub reassign_flow_priorities-panics :
      (send : Bridge) (st : Policies S) (table original new_priority : ℕ) (first last : Map ℕ ℕ)
      (before after : List PolicyRuleConjunction) (conj : PolicyRuleConjunction)
      → ix.by_index st.policy_cache original ≡ before ++ (conj ∷ after)
      → conj.rule_table_id ≡ table
      → Lacks conj
      → reassign_flow_priorities ix send st (first ++ ((original, new_priority) ∷ last)) table
        ≡ (st, panicked)
  unfolding calculate_flow_updates reassign_flow_priorities
  reassign_flow_priorities-panics send st table original p first last before after conj i e l =
      rw
        (
          calculate-none st.heap.client st.policy_cache table original p first last before after
              conj (record { add_flows = []; del_flows = []; conj_flow_updates = [] }) i e l,
          reassign_flow_priorities,
        )
        refl
