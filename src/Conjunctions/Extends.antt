-- ===== src/Conjunctions/Extends.antt =====
-- What the calculations of pkg/agent/openflow/network_policy.go may do before the flows are sent: make
-- clauses and contexts that no one knows yet.
use antrea.Common.{
  ℕ, ◌+◌, ◌≤◌, ◌<◌, ◌≡◌, refl, ap, ◌∙◌, inl, inr, arith, Bool, true, false, Option, none, some,
  List, [], ◌∷◌, nat_eq, Map, get, put, get-put, Option-cases,
}
use antrea.Conjunctions.{key_eq, generate_global_map_key, ConjunctiveMatch, Clause, Client}
use antrea.Conjunctions.Changes.{add_conjunctive_match_flow, new_context}
use antrea.Conjunctions.Addresses.{
  Address, AddressType, Service, add_addr_flows, add_service_flows, generate_address_conj_match,
  generate_service_port_conj_match,
}
use antrea.Conjunctions.Rules.{PolicyRule, PolicyRuleConjunction}
use antrea.Conjunctions.Clauses.{
  Heap, add_clause, calculate_clauses, from_address_clause, from_service_clause,
  calculate_changes_for_rule_creation,
}

-- The old pointers and the cache give what they gave.
pub record Grows (old new : Client) : Type 0 where
  pub pointers : old.next_context ≤ new.next_context
  pub contexts : (p : ℕ) → p < old.next_context → get new.contexts p ≡ get old.contexts p
  pub clauses : new.clauses ≡ old.clauses
  pub cached : new.global_conj_match_flow_cache ≡ old.global_conj_match_flow_cache

Grows-refl : (client : Client) → Grows client client
Grows-refl client = record {
  pointers = omega arith;
  contexts = λ p lt. refl;
  clauses = refl;
  cached = refl;
}

Grows-trans : (a b c : Client) → Grows a b → Grows b c → Grows a c
Grows-trans a b c g h = record {
  pointers = omega (arith, g.pointers, h.pointers);
  contexts = λ p lt. h.contexts p (omega (arith, lt, g.pointers)) ∙ g.contexts p lt;
  clauses = h.clauses ∙ g.clauses;
  cached = h.cached ∙ g.cached;
}

Grows-new :
    (client : Client) (m : ConjunctiveMatch)
    → Grows client (record client {
      contexts = put client.contexts client.next_context (new_context m);
      next_context = client.next_context + 1;
    })
Grows-new client m = record {
  pointers = omega arith;
  contexts =
      λ p lt. ground (arith, get-put client.contexts client.next_context p (new_context m), lt);
  clauses = refl;
  cached = refl;
}

add_match-Grows :
    (client : Client) (cp : ℕ) (c : Clause) (m : ConjunctiveMatch)
    → Grows client (add_conjunctive_match_flow client cp c m).0
unfolding add_conjunctive_match_flow
add_match-Grows client cp c m = elim (Option-cases (get c.matches (generate_global_map_key m))) [
  | inr (p, e) ↦ rw (e, add_conjunctive_match_flow) (Grows-refl client)
  | inl e ↦
      elim (Option-cases (get client.global_conj_match_flow_cache (generate_global_map_key m))) [
        | inl f ↦ rw (e, add_conjunctive_match_flow) (rw f (Grows-new client m))
        | inr (p, f) ↦ elim (Option-cases (get client.contexts p)) [
          | inl g ↦ rw (e, add_conjunctive_match_flow) (rw f (rw g (Grows-refl client)))
          | inr (ctx, g) ↦ rw (e, add_conjunctive_match_flow) (rw f (rw g (Grows-refl client)))
        ]
      ]
]

add_addr_flows-Grows :
    (client : Client) (cp : ℕ) (c : Clause) (t : AddressType) (addresses : List Address)
    (priority : Option ℕ)
    → Grows client (add_addr_flows client cp c t addresses priority).0
unfolding add_addr_flows
add_addr_flows-Grows client cp c t [] priority = Grows-refl client
add_addr_flows-Grows client cp c t (addr ∷ addresses) priority =
    let m : ConjunctiveMatch = generate_address_conj_match c addr t priority in
    Grows-trans client (add_conjunctive_match_flow client cp c m).0 _
      (add_match-Grows client cp c m)
      (add_addr_flows-Grows (add_conjunctive_match_flow client cp c m).0 cp c t addresses priority)

add_service_flows-Grows :
    (client : Client) (cp : ℕ) (c : Clause) (ports : List Service) (priority : Option ℕ)
    → Grows client (add_service_flows client cp c ports priority).0
unfolding add_service_flows
add_service_flows-Grows client cp c [] priority = Grows-refl client
add_service_flows-Grows client cp c (port ∷ ports) priority =
    let m : ConjunctiveMatch = generate_service_port_conj_match c port priority in
    Grows-trans client (add_conjunctive_match_flow client cp c m).0 _
      (add_match-Grows client cp c m)
      (add_service_flows-Grows (add_conjunctive_match_flow client cp c m).0 cp c ports priority)

from_address_clause-Grows :
    (client : Client) (o : Option ℕ) (t : AddressType) (addresses : Option (List Address))
    (priority : Option ℕ)
    → Grows client (from_address_clause client o t addresses priority).0
unfolding from_address_clause
from_address_clause-Grows client none t addresses priority = Grows-refl client
from_address_clause-Grows client (some cp) t none priority = Grows-refl client
from_address_clause-Grows client (some cp) t (some addresses) priority =
    elim (Option-cases (get client.clauses cp)) [
      | inl e ↦ rw (e, from_address_clause) (Grows-refl client)
      | inr (c, e) ↦
          rw (e, from_address_clause) (add_addr_flows-Grows client cp c t addresses priority)
    ]

from_service_clause-Grows :
    (client : Client) (o : Option ℕ) (ports : Option (List Service)) (priority : Option ℕ)
    → Grows client (from_service_clause client o ports priority).0
unfolding from_service_clause
from_service_clause-Grows client none ports priority = Grows-refl client
from_service_clause-Grows client (some cp) none priority = Grows-refl client
from_service_clause-Grows client (some cp) (some ports) priority =
    elim (Option-cases (get client.clauses cp)) [
      | inl e ↦ rw (e, from_service_clause) (Grows-refl client)
      | inr (c, e) ↦
          rw (e, from_service_clause) (add_service_flows-Grows client cp c ports priority)
    ]

pub calculate_changes-Grows :
    (client : Client) (conj : PolicyRuleConjunction) (rule : PolicyRule)
    → Grows client (calculate_changes_for_rule_creation client conj rule).0
unfolding calculate_changes_for_rule_creation
calculate_changes-Grows client conj rule =
    Grows-trans client _ _
      (from_address_clause-Grows client conj.from_clause _ rule.from rule.priority)
      (Grows-trans _ _ _ (from_address_clause-Grows _ conj.to_clause _ rule.to rule.priority)
        (from_service_clause-Grows _ conj.service_clause rule.service rule.priority))

-- The same of the heap that has the clauses too.
pub record Extends (old new : Heap) : Type 0 where
  pub contexts :
      (p : ℕ) → p < old.client.next_context → get new.client.contexts p ≡ get old.client.contexts p
  pub clauses : (p : ℕ) → p < old.next_clause → get new.client.clauses p ≡ get old.client.clauses p
  pub cached : new.client.global_conj_match_flow_cache ≡ old.client.global_conj_match_flow_cache
  pub context_pointers : old.client.next_context ≤ new.client.next_context
  pub clause_pointers : old.next_clause ≤ new.next_clause

pub Extends-refl : (h : Heap) → Extends h h
Extends-refl h = record {
  contexts = λ p lt. refl;
  clauses = λ p lt. refl;
  cached = refl;
  context_pointers = omega arith;
  clause_pointers = omega arith;
}

pub Extends-trans : (a b c : Heap) → Extends a b → Extends b c → Extends a c
Extends-trans a b c g h = record {
  contexts = λ p lt. h.contexts p (omega (arith, lt, g.context_pointers)) ∙ g.contexts p lt;
  clauses = λ p lt. h.clauses p (omega (arith, lt, g.clause_pointers)) ∙ g.clauses p lt;
  cached = h.cached ∙ g.cached;
  context_pointers = omega (arith, g.context_pointers, h.context_pointers);
  clause_pointers = omega (arith, g.clause_pointers, h.clause_pointers);
}

pub Grows-Extends :
    (h : Heap) (client : Client) → Grows h.client client → Extends h (record h { client = client })
Grows-Extends h client g = record {
  contexts = g.contexts;
  clauses = λ p lt. ap (λ (m : Map ℕ Clause). get m p) g.clauses;
  cached = g.cached;
  context_pointers = g.pointers;
  clause_pointers = omega arith;
}

add_clause-Extends : (b : Bool) (c : Clause) (h : Heap) → Extends h (add_clause b c h).0
unfolding add_clause
add_clause-Extends false c h = Extends-refl h
add_clause-Extends true c h = record {
  contexts = λ p lt. refl;
  clauses = λ p lt. ground (arith, get-put h.client.clauses h.next_clause p c, lt);
  cached = refl;
  context_pointers = omega arith;
  clause_pointers = omega arith;
}

pub calculate_clauses-Extends :
    (rule : PolicyRule) (h : Heap) → Extends h (calculate_clauses rule h).0
unfolding calculate_clauses
calculate_clauses-Extends rule h =
    Extends-trans h _ _ (add_clause-Extends _ _ h)
      (Extends-trans _ _ _ (add_clause-Extends _ _ _) (add_clause-Extends _ _ _))
