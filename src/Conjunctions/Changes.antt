-- ===== src/Conjunctions/Changes.antt =====
-- How pkg/agent/openflow/network_policy.go computes the changes of flows and contexts for a match that
-- a clause adds or deletes. Nothing but a new context, which no one sees yet, is written here.
use antrea.Common.{
  ℕ, ◌+◌, Bool, true, false, ◌&&◌, not, Option, none, some, List, [], ◌∷◌, nat_eq, ltb, ◌==◌,
  if◌then◌else◌, Map, get, put, length, keep,
}
use antrea.Conjunctions.{
  ConjunctiveMatch, GlobalKey, key_eq, generate_global_map_key, or_normal, priority_normal,
  ConjunctiveAction, Flow, conjunctive_match_flow, default_drop_flow, copied_flow, ChangeType,
  insertion, modification, deletion, FlowChange, Context, Clause, ContextChange, Client,
}

-- The values of a map, in the order of its iteration.
unfoldable pub actions_of : Map ℕ ConjunctiveAction → List ConjunctiveAction
actions_of [] = []
actions_of ((id, act) ∷ m) = act ∷ actions_of m

-- conjunctiveMatchFlow
unfoldable pub match_flow_of : ConjunctiveMatch → Option ℕ → List ConjunctiveAction → Flow
match_flow_of m priority actions =
    conjunctive_match_flow m.table_id m.match_key m.match_value (or_normal priority) actions

-- flow.CopyToBuilder(0, false) with the actions.
unfoldable pub with_actions : Flow → List ConjunctiveAction → Flow
with_actions (conjunctive_match_flow t k v p old) actions = conjunctive_match_flow t k v p actions
with_actions (default_drop_flow t k v) actions =
    conjunctive_match_flow t k v priority_normal actions
with_actions f actions = copied_flow f actions

-- The branch of a context without a flow.
unfoldable pub create_flow : Context → List ConjunctiveAction → Option ℕ → Option FlowChange
create_flow ctx [] priority = none
create_flow ctx (act ∷ acts) priority = some (record {
  flow = some (match_flow_of ctx.conjunctive_match priority (act ∷ acts));
  change_type = insertion;
})

unfoldable pub create_or_update_conjunctive_match_flow :
    Context → List ConjunctiveAction → Option ℕ → Option FlowChange
unfolding create_flow with_actions
create_or_update_conjunctive_match_flow ctx actions priority = elim ctx.flow [
  | none ↦ create_flow ctx actions priority
  | some f ↦ some (record { flow = some (with_actions f actions); change_type = modification })
]

unfoldable pub has_flow : Context → Bool
has_flow ctx = elim ctx.flow [ none ↦ false | some f ↦ true ]

unfoldable pub delete_action : Context → ℕ → Option ℕ → Option FlowChange
unfolding create_or_update_conjunctive_match_flow has_flow actions_of
delete_action ctx conj_id priority =
    if (length ctx.actions == 1) && has_flow ctx
    then some (record { flow = ctx.flow; change_type = deletion })
    else create_or_update_conjunctive_match_flow ctx
        (keep (λ act. not (act.conj_id == conj_id)) (actions_of ctx.actions)) priority

unfoldable pub add_action : Context → ConjunctiveAction → Option ℕ → Option FlowChange
unfolding create_or_update_conjunctive_match_flow actions_of
add_action ctx action priority = elim (get ctx.actions action.conj_id) [
  | some act ↦ none
  | none ↦ create_or_update_conjunctive_match_flow ctx (action ∷ actions_of ctx.actions) priority
]

-- A context that was just created.
unfoldable pub new_context : ConjunctiveMatch → Context
new_context m = record {
  conjunctive_match = m;
  actions = [];
  deny_all_rules = [];
  flow = none;
  drop_flow = none;
}

unfoldable pub new_drop_flow : Clause → ConjunctiveMatch → Option FlowChange
new_drop_flow c m = elim c.drop_table [
  | none ↦ none
  | some table ↦ some (record {
    flow = some (default_drop_flow table m.match_key m.match_value);
    change_type = insertion;
  })
]

-- The match flow of the change that adds `c`'s rule, and the action that goes with it.
unfoldable pub added : Clause → Context → Option ℕ → Option FlowChange × Option ConjunctiveAction
unfolding add_action
added c ctx priority =
    if ltb 1 c.action.n_clause
    then (elim (add_action ctx c.action priority) [
      | none ↦ (none, none)
      | some change ↦ (some change, some c.action)
    ])
    else (some (record { flow = none; change_type = insertion }), none)

unfoldable pub add_change :
    ℕ → Clause → ℕ → Context → ChangeType → Option FlowChange → Option ℕ → ContextChange
unfolding added
add_change cp c p ctx ctx_type drop priority = record {
  context = p;
  ctx_change_type = ctx_type;
  match_flow = (added c ctx priority).0;
  drop_flow = drop;
  clause = cp;
  act_change = record { action = (added c ctx priority).1; change_type = insertion };
}

-- `cp` is the pointer of the clause `c`. The change is nil if the clause has the match already.
unfoldable pub add_conjunctive_match_flow :
    Client → ℕ → Clause → ConjunctiveMatch → Client × Option ContextChange
unfolding add_change new_context new_drop_flow
add_conjunctive_match_flow client cp c m =
    let key = generate_global_map_key m in
    elim (get c.matches key) [
      | some p ↦ (client, none)
      | none ↦ elim (get client.global_conj_match_flow_cache key) [
        | some p ↦ elim (get client.contexts p) [
          | some ctx ↦ (client, some (add_change cp c p ctx modification none m.priority))
          | none ↦ (client, none)
        ]
        | none ↦ (
          record client {
            contexts = put client.contexts client.next_context (new_context m);
            next_context = client.next_context + 1;
          },
          some (
              add_change cp c client.next_context (new_context m) insertion (new_drop_flow c m)
                m.priority),
        )
      ]
    ]

-- The match flow of the change that deletes `c`'s rule, its action, and whether no action and no deny
-- rule are expected to be left, by the numbers of them before it.
unfoldable pub deleted : Clause → Context → (Option FlowChange × Option ConjunctiveAction) × Bool
unfolding delete_action
deleted c ctx =
    if ltb 1 c.action.n_clause
    then (elim (get ctx.actions c.action.conj_id) [
      | none ↦ ((none, none), (length ctx.actions == 0) && (length ctx.deny_all_rules == 0))
      | some act ↦ (
        (delete_action ctx c.action.conj_id ctx.conjunctive_match.priority, some act),
        (length ctx.actions == 1) && (length ctx.deny_all_rules == 0),
      )
    ])
    else (
      (some (record { flow = none; change_type = deletion }), none),
      (length ctx.actions == 0) && (length ctx.deny_all_rules == 1),
    )

-- Whether the context is to go.
unfoldable pub unused : Clause → Context → Bool
unfolding deleted
unused c ctx = (deleted c ctx).1

unfoldable pub delete_change : ℕ → Clause → ℕ → Context → ContextChange
unfolding deleted unused
delete_change cp c p ctx = record {
  context = p;
  ctx_change_type = if unused c ctx then deletion else modification;
  match_flow = (deleted c ctx).0.0;
  drop_flow =
      if unused c ctx
      then (elim ctx.drop_flow [
        | none ↦ none
        | some f ↦ some (record { flow = some f; change_type = deletion })
      ])
      else none;
  clause = cp;
  act_change = record { action = (deleted c ctx).0.1; change_type = deletion };
}

unfoldable pub delete_conjunctive_match_flow :
    Client → ℕ → Clause → GlobalKey → Option ContextChange
unfolding delete_change
delete_conjunctive_match_flow client cp c key = elim (get c.matches key) [
  | none ↦ none
  | some p ↦ elim (get client.contexts p) [
    | some ctx ↦ some (delete_change cp c p ctx)
    | none ↦ none
  ]
]
