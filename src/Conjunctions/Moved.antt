-- ===== src/Conjunctions/Moved.antt =====
-- What ReassignFlowPriorities of pkg/agent/openflow/network_policy.go leaves of a rule's clauses and
-- metric flows.
use antrea.Common.{
  ℕ, ◌≡◌, ◌≢◌, refl, ◌∙◌, inl, inr, Option, none, some, List, [], ◌∷◌, nat_eq, Map, get, put,
  remove, Option-cases,
}
use antrea.Conjunctions.{GlobalKey, key_eq, generate_global_map_key, Clause, Client}
use antrea.Conjunctions.Changes.{delete_conjunctive_match_flow}
use antrea.Conjunctions.Addresses.{
  Address, AddressType, delete_keys, address_keys, delete_addr_flows, generate_address_conj_match,
}
use antrea.Conjunctions.Priorities.{
  move_contexts, cache_contexts, move_clause, move_clauses, moved_context,
}

clauses-move_contexts :
    (p : ℕ) (m : Map GlobalKey ℕ) (client : Client)
    → (move_contexts p m client).clauses ≡ client.clauses
unfolding move_contexts
clauses-move_contexts p [] client = refl
clauses-move_contexts p ((key, q) ∷ m) client =
    elim (get client.contexts q)
      as (λ o.
        let next : Client = elim o [
          | none ↦ move_contexts p m client
          | some ctx ↦ move_contexts p m (record client {
            contexts = put client.contexts q (moved_context p ctx);
            global_conj_match_flow_cache =
                remove client.global_conj_match_flow_cache
                  (generate_global_map_key ctx.conjunctive_match);
          })
        ] in
        next.clauses ≡ client.clauses) [
          | none ↦ clauses-move_contexts p m client
          | some ctx ↦ clauses-move_contexts p m _
        ]

clauses-cache_contexts :
    (m : Map GlobalKey ℕ) (client : Client) → (cache_contexts m client).clauses ≡ client.clauses
unfolding cache_contexts
clauses-cache_contexts [] client = refl
clauses-cache_contexts ((key, q) ∷ m) client =
    elim (get client.contexts q)
      as (λ o.
        let next : Client = elim o [
          | none ↦ cache_contexts m client
          | some ctx ↦ cache_contexts m (record client {
            global_conj_match_flow_cache =
                put client.global_conj_match_flow_cache
                  (generate_global_map_key ctx.conjunctive_match) q;
          })
        ] in
        next.clauses ≡ client.clauses) [
          | none ↦ clauses-cache_contexts m client
          | some ctx ↦ clauses-cache_contexts m _
        ]

clauses-move_clause :
    (p : ℕ) (o : Option ℕ) (client : Client) → (move_clause p o client).clauses ≡ client.clauses
unfolding move_clause
clauses-move_clause p none client = refl
clauses-move_clause p (some cp) client =
    elim (get client.clauses cp)
      as (λ o.
        let next : Client = elim o [
          | none ↦ client
          | some c ↦ cache_contexts c.matches (move_contexts p c.matches client)
        ] in
        next.clauses ≡ client.clauses) [
          | none ↦ refl
          | some c ↦ clauses-cache_contexts c.matches _ ∙ clauses-move_contexts p c.matches client
        ]

pub clauses-move_clauses :
    (p : ℕ) (cps : List (Option ℕ)) (client : Client)
    → (move_clauses p cps client).clauses ≡ client.clauses
unfolding move_clauses
clauses-move_clauses p [] client = refl
clauses-move_clauses p (cp ∷ cps) client =
    clauses-move_clauses p cps (move_clause p cp client) ∙ clauses-move_clause p cp client

-- The clause knows no match at the priority.
abbrev pub Without : ℕ → Clause → Type 0
Without p c = (key : GlobalKey) (q : ℕ) → get c.matches key ≡ some q → key.of_priority ≢ p

key_absent :
    (p : ℕ) (c : Clause) (key : GlobalKey)
    → Without p c
    → key.of_priority ≡ p
    → get c.matches key ≡ none
key_absent p c key w e = elim (Option-cases (get c.matches key)) [
  | inl h ↦ h
  | inr (q, h) ↦ absurd (w key q h e)
]

delete-absent :
    (client : Client) (cp : ℕ) (c : Clause) (key : GlobalKey)
    → get c.matches key ≡ none
    → delete_conjunctive_match_flow client cp c key ≡ none
unfolding delete_conjunctive_match_flow
delete-absent client cp c key h = rw (h, delete_conjunctive_match_flow) refl

of_priority-key :
    (c : Clause) (addr : Address) (t : AddressType) (p : ℕ)
    → (generate_global_map_key (generate_address_conj_match c addr t (some p))).of_priority ≡ p
unfolding generate_global_map_key generate_address_conj_match
of_priority-key c addr t p = refl

pub delete_addr_flows-none :
    (client : Client) (cp : ℕ) (c : Clause) (t : AddressType) (addresses : List Address) (p : ℕ)
    → Without p c
    → delete_addr_flows client cp c t addresses (some p) ≡ []
unfolding delete_addr_flows delete_keys address_keys
delete_addr_flows-none client cp c t [] p w = refl
delete_addr_flows-none client cp c t (addr ∷ addresses) p w =
    let key : GlobalKey = generate_global_map_key (generate_address_conj_match c addr t (some p)) in
    let absent : delete_conjunctive_match_flow client cp c key ≡ none =
      delete-absent client cp c key (key_absent p c key w (of_priority-key c addr t p)) in
    rw (absent, delete_keys) (delete_addr_flows-none client cp c t addresses p w)
