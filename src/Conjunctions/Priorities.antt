-- ===== src/Conjunctions/Priorities.antt =====
-- ReassignFlowPriorities of pkg/agent/openflow/network_policy.go: what it calculates for the rules at
-- the priorities that change, and the update of conjunctions, contexts and caches after the flows are
-- sent.
use antrea.Common.{
  ℕ, Option, none, some, List, [], ◌∷◌, ◌++◌, nat_eq, ◌==◌, if◌then◌else◌, Map, get, put, remove,
  length, take,
}
use antrea.Conjunctions.{
  Flow, ConjunctiveMatch, Context, Client, GlobalKey, key_eq, generate_global_map_key,
}
use antrea.Conjunctions.Rules.{PolicyRuleConjunction}
use antrea.Conjunctions.Install.{
  Indexer, Policies, Status, succeeded, failed, panicked, Bridge, some_flows, flow_priority,
}
use antrea.Conjunctions.Reassign.{
  process_flow_updates, copy_to_builder, get_match_flow_updates, all_clause,
}

pub record FlowUpdates : Type 0 where
  pub new_action_flows : List Flow
  pub new_priority : ℕ

pub record Calculation : Type 0 where
  pub add_flows : List Flow
  pub del_flows : List Flow
  pub conj_flow_updates : Map ℕ FlowUpdates

unfoldable pub flows_so_far : Option FlowUpdates → List Flow
flows_so_far none = []
flows_so_far (some u) = u.new_action_flows

unfoldable pub action_flow_update : ℕ → ℕ → ℕ → Flow → Calculation → Calculation
action_flow_update original new_priority id f calc =
    let updated = copy_to_builder new_priority f in
    if flow_priority f == original
    then record {
      add_flows = calc.add_flows ++ (updated ∷ []);
      del_flows = calc.del_flows ++ (f ∷ []);
      conj_flow_updates = put calc.conj_flow_updates id (record {
        new_action_flows = flows_so_far (get calc.conj_flow_updates id) ++ (updated ∷ []);
        new_priority = new_priority;
      });
    }
    else calc

unfoldable pub action_flow_updates : ℕ → ℕ → ℕ → List Flow → Calculation → Calculation
action_flow_updates original new_priority id [] calc = calc
action_flow_updates original new_priority id (f ∷ fs) calc =
    action_flow_updates original new_priority id fs
      (action_flow_update original new_priority id f calc)

unfoldable pub add_match_updates : Calculation → List Flow × List Flow → Calculation
add_match_updates calc flows = record {
  add_flows = calc.add_flows ++ flows.0;
  del_flows = calc.del_flows ++ flows.1;
  conj_flow_updates = calc.conj_flow_updates;
}

-- None for a nil pointer.
unfoldable pub conjunction_update :
    Client → ℕ → ℕ → ℕ → PolicyRuleConjunction → Calculation → Option Calculation
conjunction_update client table original new_priority conj calc =
    if conj.rule_table_id == table
    then (elim (get_match_flow_updates client conj new_priority) [
      | none ↦ none
      | some flows ↦ some (
          add_match_updates
            (action_flow_updates original new_priority conj.id conj.action_flows calc) flows)
    ])
    else some calc

unfoldable pub conjunctions_update :
    Client → ℕ → ℕ → ℕ → List PolicyRuleConjunction → Calculation → Option Calculation
conjunctions_update client table original new_priority [] calc = some calc
conjunctions_update client table original new_priority (conj ∷ conjs) calc =
    elim (conjunction_update client table original new_priority conj calc) [
      | none ↦ none
      | some next ↦ conjunctions_update client table original new_priority conjs next
    ]

-- A conjunction has one action flow or none, and `new_flows` has as many.
unfoldable pub update_conjunction_action_flows :
    PolicyRuleConjunction → List Flow → PolicyRuleConjunction
update_conjunction_action_flows conj new_flows = record {
  id = conj.id;
  from_clause = conj.from_clause;
  to_clause = conj.to_clause;
  service_clause = conj.service_clause;
  action_flows = take (length conj.action_flows) new_flows;
  metric_flows = [];
  np_ref = conj.np_ref;
  rule_table_id = conj.rule_table_id;
}

unfoldable pub moved_match : ℕ → ConjunctiveMatch → ConjunctiveMatch
moved_match new_priority m = record m { priority = some new_priority }

unfoldable pub moved_flow : ℕ → Option Flow → Option Flow
moved_flow new_priority none = none
moved_flow new_priority (some f) = some (copy_to_builder new_priority f)

unfoldable pub moved_context : ℕ → Context → Context
moved_context new_priority ctx = record ctx {
  conjunctive_match = moved_match new_priority ctx.conjunctive_match;
  flow = moved_flow new_priority ctx.flow;
}

-- The first loop over the matches of a clause.
unfoldable pub move_contexts : ℕ → Map GlobalKey ℕ → Client → Client
move_contexts new_priority [] client = client
move_contexts new_priority ((key, p) ∷ m) client = elim (get client.contexts p) [
  | none ↦ move_contexts new_priority m client
  | some ctx ↦ move_contexts new_priority m (record client {
    contexts = put client.contexts p (moved_context new_priority ctx);
    global_conj_match_flow_cache =
        remove client.global_conj_match_flow_cache (generate_global_map_key ctx.conjunctive_match);
  })
]

-- The second one.
unfoldable pub cache_contexts : Map GlobalKey ℕ → Client → Client
cache_contexts [] client = client
cache_contexts ((key, p) ∷ m) client = elim (get client.contexts p) [
  | none ↦ cache_contexts m client
  | some ctx ↦ cache_contexts m (record client {
    global_conj_match_flow_cache =
        put client.global_conj_match_flow_cache (generate_global_map_key ctx.conjunctive_match) p;
  })
]

unfoldable pub move_clause : ℕ → Option ℕ → Client → Client
move_clause new_priority none client = client
move_clause new_priority (some cp) client = elim (get client.clauses cp) [
  | none ↦ client
  | some c ↦ cache_contexts c.matches (move_contexts new_priority c.matches client)
]

unfoldable pub move_clauses : ℕ → List (Option ℕ) → Client → Client
move_clauses new_priority [] client = client
move_clauses new_priority (cp ∷ cps) client =
    move_clauses new_priority cps (move_clause new_priority cp client)

-- No clause of a conjunction that comes here is nil, which getMatchFlowUpdates saw.
unfoldable pub update_conjunction_match_flows : PolicyRuleConjunction → ℕ → Client → Client
update_conjunction_match_flows conj new_priority client =
    move_clauses new_priority (all_clause conj) client

module _ {S : Type 0} (ix : Indexer S) where
  unfoldable pub calculate_from : Client → S → Map ℕ ℕ → ℕ → Calculation → Option Calculation
  calculate_from client cache [] table calc = some calc
  calculate_from client cache ((original, new_priority) ∷ updates) table calc =
      elim (conjunctions_update client table original new_priority (ix.by_index cache original)
        calc) [ none ↦ none | some next ↦ calculate_from client cache updates table next ]

  unfoldable pub calculate_flow_updates : Client → S → Map ℕ ℕ → ℕ → Option Calculation
  calculate_flow_updates client cache updates table =
      calculate_from client cache updates table
        (record { add_flows = []; del_flows = []; conj_flow_updates = [] })

  -- The conjunction is in the cache, where the calculation found it.
  unfoldable pub update_conjunction : ℕ → FlowUpdates → Policies S → Policies S
  update_conjunction id updates st = elim (ix.get_by_key st.policy_cache id) [
    | none ↦ st
    | some conj ↦
        let updated = update_conjunction_action_flows conj updates.new_action_flows in
        record {
          heap = record (st.heap) {
            client = update_conjunction_match_flows updated updates.new_priority st.heap.client;
          };
          policy_cache = ix.add st.policy_cache updated;
        }
  ]

  unfoldable pub update_conjunctions : Map ℕ FlowUpdates → Policies S → Policies S
  update_conjunctions [] st = st
  update_conjunctions ((id, updates) ∷ m) st =
      update_conjunctions m (update_conjunction id updates st)

  unfoldable pub send_calculation : Bridge → Policies S → Calculation → Policies S × Status
  send_calculation send st calc =
      let (add, update, del) = process_flow_updates calc.add_flows calc.del_flows in
      if send 0 (some_flows add, some_flows update, some_flows del)
      then (update_conjunctions calc.conj_flow_updates st, succeeded)
      else (st, failed)

  unfoldable pub reassign_flow_priorities : Bridge → Policies S → Map ℕ ℕ → ℕ → Policies S × Status
  reassign_flow_priorities send st updates table =
      elim (calculate_flow_updates st.heap.client st.policy_cache updates table) [
        | none ↦ (st, panicked)
        | some calc ↦ send_calculation send st calc
      ]
