-- ===== src/Conjunctions/Updates.antt =====
-- How pkg/agent/openflow/network_policy.go applies changes: the flows are sent to the bridge in one
-- bundle, and only then are the contexts, the clauses and the cache updated.
use antrea.Common.{
  ℕ, Bool, true, false, Option, none, some, List, [], ◌∷◌, ◌++◌, nat_eq, if◌then◌else◌, Map, get,
  put, remove,
}
use antrea.Conjunctions.{
  GlobalKey, key_eq, generate_global_map_key, ConjunctiveAction, Flow, ChangeType, insertion,
  modification, deletion, FlowChange, Context, ContextChange, Client,
}

unfoldable pub add_deny_all_rule : ℕ → Context → Context
add_deny_all_rule id ctx = record ctx { deny_all_rules = put ctx.deny_all_rules id true }

unfoldable pub del_deny_all_rule : ℕ → Context → Context
del_deny_all_rule id ctx = elim (get ctx.deny_all_rules id) [
  | some found ↦ record ctx { deny_all_rules = remove ctx.deny_all_rules id }
  | none ↦ ctx
]

-- The actions of the context.
unfoldable pub update_actions : ChangeType → Option ConjunctiveAction → Context → Context
update_actions insertion (some act) ctx = record ctx { actions = put ctx.actions act.conj_id act }
update_actions deletion (some act) ctx = record ctx { actions = remove ctx.actions act.conj_id }
update_actions change act ctx = ctx

-- A change without a flow is one of the deny rules, by the change of the action.
unfoldable pub update_deny : ChangeType → ℕ → Context → Context
unfolding add_deny_all_rule del_deny_all_rule
update_deny insertion id ctx = add_deny_all_rule id ctx
update_deny deletion id ctx = del_deny_all_rule id ctx
update_deny modification id ctx = ctx

unfoldable pub update_flow : ChangeType → ℕ → Option Flow → ChangeType → Context → Context
unfolding update_deny
update_flow act_change id (some f) deletion ctx = record ctx { flow = none }
update_flow act_change id none deletion ctx = del_deny_all_rule id ctx
update_flow act_change id (some f) insertion ctx = record ctx { flow = some f }
update_flow act_change id (some f) modification ctx = record ctx { flow = some f }
update_flow act_change id none insertion ctx = update_deny act_change id ctx
update_flow act_change id none modification ctx = update_deny act_change id ctx

unfoldable pub update_match_flow : ChangeType → ℕ → Option FlowChange → Context → Context
unfolding update_flow
update_match_flow act_change id none ctx = ctx
update_match_flow act_change id (some fc) ctx = update_flow act_change id fc.flow fc.change_type ctx

unfoldable pub set_drop_flow : Option Flow → ChangeType → Context → Context
set_drop_flow f insertion ctx = record ctx { drop_flow = f }
set_drop_flow f deletion ctx = record ctx { drop_flow = none }
set_drop_flow f modification ctx = ctx

unfoldable pub update_drop_flow : Option FlowChange → Context → Context
unfolding set_drop_flow
update_drop_flow none ctx = ctx
update_drop_flow (some fc) ctx = set_drop_flow fc.flow fc.change_type ctx

-- What updateContextStatus makes of the context, for a clause with the rule `id`.
unfoldable pub update_context : ContextChange → ℕ → Context → Context
unfolding update_actions update_match_flow update_drop_flow
update_context ch id ctx = update_drop_flow ch.drop_flow (
    update_match_flow ch.act_change.change_type id ch.match_flow
      (update_actions ch.act_change.change_type ch.act_change.action ctx))

unfoldable pub update_matches : ChangeType → GlobalKey → ℕ → Map GlobalKey ℕ → Map GlobalKey ℕ
update_matches insertion key p m = put m key p
update_matches deletion key p m = remove m key
update_matches modification key p m = m

unfoldable pub update_context_status : ContextChange → Client → Client
unfolding update_context update_matches
update_context_status ch client = elim (get client.contexts ch.context) [
  | none ↦ client
  | some ctx ↦ elim (get client.clauses ch.clause) [
    | none ↦ client
    | some c ↦
        let key = generate_global_map_key ctx.conjunctive_match in
        record client {
          contexts = put client.contexts ch.context (update_context ch c.action.conj_id ctx);
          clauses = put client.clauses ch.clause (record c {
            matches = update_matches ch.act_change.change_type key ch.context c.matches;
          });
          global_conj_match_flow_cache =
              update_matches ch.ctx_change_type key ch.context client.global_conj_match_flow_cache;
        }
  ]
]

unfoldable pub update_all : List ContextChange → Client → Client
unfolding update_context_status
update_all [] client = client
update_all (ch ∷ chs) client = update_all chs (update_context_status ch client)

-- The flow changes of the changes, in their order.
unfoldable pub flow_changes : List ContextChange → List FlowChange
flow_changes [] = []
flow_changes (ch ∷ chs) =
    (elim ch.match_flow [ none ↦ [] | some fc ↦ fc ∷ [] ])
    ++ ((elim ch.drop_flow [ none ↦ [] | some fc ↦ fc ∷ [] ]) ++ flow_changes chs)

unfoldable pub same_change : ChangeType → ChangeType → Bool
same_change insertion insertion = true
same_change modification modification = true
same_change deletion deletion = true
same_change a b = false

-- The flows of one type of change; a change of deny rules has none.
unfoldable pub flows_of : ChangeType → List FlowChange → List (Option Flow)
unfolding same_change
flows_of type [] = []
flows_of type (fc ∷ fcs) =
    let rest = flows_of type fcs in if same_change type fc.change_type then fc.flow ∷ rest else rest

-- The bundle of flows to add, to modify and to delete.
unfoldable pub bundle :
    List ContextChange
    → List (Option Flow)
    → List (Option Flow) × List (Option Flow) × List (Option Flow)
unfolding flow_changes flows_of
bundle chs flows = (
  flows ++ flows_of insertion (flow_changes chs),
  flows_of modification (flow_changes chs),
  flows_of deletion (flow_changes chs),
)

-- `send` is bridge.AddFlowsInBundle, false for an error. The client, and whether all is done.
unfoldable pub apply_conjunctive_match_flows :
    (List (Option Flow) × List (Option Flow) × List (Option Flow) → Bool)
    → List ContextChange
    → Client
    → Client × Bool
unfolding bundle update_all
apply_conjunctive_match_flows send chs client =
    if send (bundle chs []) then (update_all chs client, true) else (client, false)
