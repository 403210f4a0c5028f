-- ===== src/Conjunctions/Tests.antt =====
-- A context of pkg/agent/openflow/network_policy.go that the rules 5 and 7 share.
use antrea.Common.{
  ◌≡◌, refl, none, some, [], ◌∷◌, nat_eq, arith, get, put, sym, ◌∙◌, inl, inr, Bool-cases, get-put,
}
use antrea.Conjunctions.{
  match_dst_ip, ip, ConjunctiveMatch, ConjunctiveAction, conjunctive_match_flow, modification,
  Context, Clause, ContextChange, Client, key_eq, match_dst_ip_net, ip_net, generate_global_map_key,
}
use antrea.Conjunctions.Changes.{add_conjunctive_match_flow, add_change, delete_change}
use antrea.Conjunctions.Updates.{update_context, update_context_status}
use antrea.Conjunctions.Realized.{Realized}
use antrea.Conjunctions.Actions.{find_action, flow_actions}
use antrea.Conjunctions.Shared.{Joins, add_change-Joins}
use antrea.Conjunctions.Leaving.{Leaves, delete_change-Leaves}
use antrea.Conjunctions.Registry.{
  KeysAgree, cached_for, context_for, found_or_new, Registered, add-Registered,
}

abbrev address : ConjunctiveMatch
address = record {
  table_id = 50;
  priority = some 100;
  match_key = match_dst_ip;
  match_value = ip "10.0.0.1";
}

abbrev action_5 : ConjunctiveAction
action_5 = record { conj_id = 5; clause_id = 1; n_clause = 2 }

abbrev clause_5 : Clause
clause_5 = record { action = action_5; matches = []; rule_table = 50; drop_table = none }

abbrev action_7 : ConjunctiveAction
action_7 = record { conj_id = 7; clause_id = 2; n_clause = 3 }

abbrev clause_7 : Clause
clause_7 = record { action = action_7; matches = []; rule_table = 50; drop_table = none }

-- The rule 5 has it.
abbrev context : Context
context = record {
  conjunctive_match = address;
  actions = (5, action_5) ∷ [];
  deny_all_rules = [];
  flow = some (conjunctive_match_flow 50 match_dst_ip (ip "10.0.0.1") 100 (action_5 ∷ []));
  drop_flow = none;
}

context-Realized : Realized context
unfolding find_action flow_actions get
context-Realized = record {
  own = (refl, tt);
  unique = (refl, tt);
  shows = (λ e. cc e, λ id. ground arith);
}

add_change-Joins_example :
    Joins clause_7 context
      (update_context (add_change 1 clause_7 0 context modification none (some 100)) 7 context)
add_change-Joins_example =
    add_change-Joins 1 0 clause_7 context modification none (some 100) context-Realized

delete_change-Leaves_example :
    Leaves clause_5 context (update_context (delete_change 1 clause_5 0 context) 5 context)
delete_change-Leaves_example = delete_change-Leaves 1 0 clause_5 context context-Realized

-- The context is cached, and the clause of rule 7 adds the address as a net.
abbrev client : Client
client = record {
  contexts = (0, context) ∷ [];
  next_context = 1;
  clauses = (1, clause_7) ∷ [];
  global_conj_match_flow_cache = put [] (generate_global_map_key address) 0;
}

abbrev net : ConjunctiveMatch
net = record address { match_key = match_dst_ip_net; match_value = ip_net "10.0.0.1/32" }

client-KeysAgree : KeysAgree client
unfolding get
client-KeysAgree key p e =
    let found = sym (get-put [] (generate_global_map_key address) key 0) ∙ e in
    elim (Bool-cases (key_eq.beq (generate_global_map_key address) key)) [
      | inl same ↦
          let zero_p : some 0 ≡ some p = ground (arith, same, found) in
          (
            context,
            (ground (arith, zero_p), (key_eq.beq_iff (generate_global_map_key address) key).0 same),
          )
      | inr other ↦ absurd (ground (arith, other, found))
    ]

-- It finds the context of the address.
net_key : generate_global_map_key net ≡ generate_global_map_key address
unfolding generate_global_map_key
net_key = refl

add-Registered_example :
    (ch : ContextChange) × (((add_conjunctive_match_flow client 1 clause_7 net).1 ≡ some ch)
      × (ch.context ≡ context_for client (cached_for client net))
      × (get
            (add_conjunctive_match_flow client 1 clause_7 net).0.contexts
            (context_for client (cached_for client net))
          ≡ found_or_new client net (cached_for client net))
      × Registered
          (generate_global_map_key net)
          1
          ch.context
          (update_context_status ch (add_conjunctive_match_flow client 1 clause_7 net).0))
unfolding get
add-Registered_example = add-Registered client 1 clause_7 net client-KeysAgree refl refl
