-- ===== src/Conjunctions/Realized.antt =====
-- Each conjunctive match flow of pkg/agent/openflow/network_policy.go carries the actions of its
-- context: changes keep them together.
use antrea.Common.{
  ℕ, ◌≡◌, ◌≢◌, refl, sym, ap, ◌∙◌, Bool, not, Option, none, some, List, [], ◌∷◌, arith, nat_eq,
  ◌==◌, if◌then◌else◌, Map, get, put, remove, get-put, get-remove, Unique, Unique-put,
  Unique-remove, length, keep,
}
use antrea.Conjunctions.{
  ConjunctiveAction, Flow, ChangeType, insertion, modification, deletion, FlowChange, Context,
}
use antrea.Conjunctions.Changes.{
  actions_of, match_flow_of, with_actions, create_flow, create_or_update_conjunctive_match_flow,
}
use antrea.Conjunctions.Updates.{
  update_flow, update_match_flow, set_drop_flow, update_drop_flow, add_deny_all_rule,
  del_deny_all_rule,
}
use antrea.Conjunctions.Actions.{
  find_action, flow_actions, Own, find_action-actions_of, find_action-keep,
  flow_actions-with_actions, Own-put, Own-remove, put-nonempty, length-remove, length-nil,
  find_head, get_nil, all_absent,
}

-- The flow of the actions.
abbrev pub Shows : Option Flow → Map ℕ ConjunctiveAction → Type 0
Shows none m = m ≡ []
Shows (some f) m = (m ≢ []) × ((id : ℕ) → find_action (flow_actions f) id ≡ get m id)

-- A context has a flow if it has actions, and the flow has just these.
pub record Realized (ctx : Context) : Type 0 where
  pub own : Own ctx.actions
  pub unique : Unique ctx.actions
  pub shows : Shows ctx.flow ctx.actions

-- The flow that a context gets for its new actions.
pub new_flow : Context → List ConjunctiveAction → Option ℕ → Flow
new_flow ctx acts priority = elim ctx.flow [
  | none ↦ match_flow_of ctx.conjunctive_match priority acts
  | some f ↦ with_actions f acts
]

flow_actions-new_flow :
    (ctx : Context) (acts : List ConjunctiveAction) (priority : Option ℕ)
    → flow_actions (new_flow ctx acts priority) ≡ acts
unfolding new_flow match_flow_of flow_actions
flow_actions-new_flow ctx acts priority = go ctx.flow
  where
    go :
        (o : Option Flow)
        → flow_actions (elim o [
          | none ↦ match_flow_of ctx.conjunctive_match priority acts
          | some f ↦ with_actions f acts
        ])
          ≡ acts
    go none = refl
    go (some f) = flow_actions-with_actions f acts

pub update-create :
    (ctx : Context) (act : ConjunctiveAction) (acts : List ConjunctiveAction) (priority : Option ℕ)
    (change : ChangeType) (id : ℕ) (now : Context)
    → update_match_flow change id
        (create_or_update_conjunctive_match_flow ctx (act ∷ acts) priority)
        now
      ≡ record now { flow = some (new_flow ctx (act ∷ acts) priority) }
unfolding update_match_flow update_flow create_or_update_conjunctive_match_flow create_flow new_flow
update-create ctx act acts priority change id now = go ctx.flow
  where
    go :
        (o : Option Flow)
        → update_match_flow change id
            (elim o [
              | none ↦ create_flow ctx (act ∷ acts) priority
              | some f ↦
                  some (record {
                    flow = some (with_actions f (act ∷ acts));
                    change_type = modification;
                  })
            ])
            now
          ≡ record now {
            flow = some (elim o [
              | none ↦ match_flow_of ctx.conjunctive_match priority (act ∷ acts)
              | some f ↦ with_actions f (act ∷ acts)
            ]);
          }
    go none = refl
    go (some f) = refl

set_drop-Realized :
    (f : Option Flow) (type : ChangeType) (ctx : Context)
    → Realized ctx
    → Realized (set_drop_flow f type ctx)
unfolding set_drop_flow
set_drop-Realized f insertion ctx h = record { own = h.own; unique = h.unique; shows = h.shows }
set_drop-Realized f deletion ctx h = record { own = h.own; unique = h.unique; shows = h.shows }
set_drop-Realized f modification ctx h = h

pub drop-Realized :
    (d : Option FlowChange) (ctx : Context) → Realized ctx → Realized (update_drop_flow d ctx)
unfolding update_drop_flow
drop-Realized none ctx h = h
drop-Realized (some fc) ctx h = set_drop-Realized fc.flow fc.change_type ctx h

-- A new action, which the context does not have yet.
pub put-Realized :
    (ctx : Context) (act : ConjunctiveAction) (priority : Option ℕ)
    → get ctx.actions act.conj_id ≡ none
    → Realized ctx
    → Realized (record ctx {
      actions = put ctx.actions act.conj_id act;
      flow = some (new_flow ctx (act ∷ actions_of ctx.actions) priority);
    })
put-Realized ctx act priority absent h = record {
  own = Own-put ctx.actions act h.own;
  unique = Unique-put ctx.actions act.conj_id act h.unique;
  shows = (
    put-nonempty ctx.actions act.conj_id act,
    λ id.
        ap (λ acts. find_action acts id)
          (flow_actions-new_flow ctx (act ∷ actions_of ctx.actions) priority)
        ∙ unfold find_action in
          (ground (
            arith,
            find_action-actions_of ctx.actions id h.own,
            get-put ctx.actions act.conj_id id act,
          )),
  );
}

-- Deny rules are no part of it.
pub add_deny-Realized :
    (id : ℕ) (ctx : Context) → Realized ctx → Realized (add_deny_all_rule id ctx)
unfolding add_deny_all_rule
add_deny-Realized id ctx h = record { own = h.own; unique = h.unique; shows = h.shows }

pub del_deny-Realized :
    (id : ℕ) (ctx : Context) → Realized ctx → Realized (del_deny_all_rule id ctx)
unfolding del_deny_all_rule
del_deny-Realized id ctx h = go (get ctx.deny_all_rules id)
  where
    go :
        (o : Option Bool)
        → Realized (elim o [
          | some found ↦ record ctx { deny_all_rules = remove ctx.deny_all_rules id }
          | none ↦ ctx
        ])
    go (some found) = record { own = h.own; unique = h.unique; shows = h.shows }
    go none = h

-- The last action leaves with the flow.
pub last-Realized :
    (ctx : Context) (k : ℕ) (act : ConjunctiveAction)
    → get ctx.actions k ≡ some act
    → length ctx.actions ≡ 1
    → Realized ctx
    → Realized (record ctx { actions = remove ctx.actions k; flow = none })
last-Realized ctx k act found one h = record {
  own = Own-remove ctx.actions k h.own;
  unique = Unique-remove ctx.actions k h.unique;
  shows =
      length-nil (remove ctx.actions k)
        (omega (arith, one, length-remove ctx.actions k act h.unique found));
}

-- Another action leaves, and the flow keeps the rest.
pub fewer-Realized :
    (ctx : Context) (k : ℕ) (act a : ConjunctiveAction) (acts : List ConjunctiveAction)
    (priority : Option ℕ)
    → get ctx.actions k ≡ some act
    → keep (λ b. not (b.conj_id == k)) (actions_of ctx.actions) ≡ a ∷ acts
    → Realized ctx
    → Realized (record ctx {
      actions = remove ctx.actions k;
      flow = some (new_flow ctx (a ∷ acts) priority);
    })
unfolding find_action
fewer-Realized ctx k act a acts priority found rest h =
    let shown = λ (id : ℕ).
      ap (λ l. find_action l id) (flow_actions-new_flow ctx (a ∷ acts) priority ∙ sym rest)
      ∙ find_action-keep (actions_of ctx.actions) k id
      ∙ ap (λ o. if k == id then none else o) (find_action-actions_of ctx.actions id h.own)
      ∙ sym (get-remove ctx.actions k id) in
    record {
      own = Own-remove ctx.actions k h.own;
      unique = Unique-remove ctx.actions k h.unique;
      shows = (
        λ e. cc (
          find_head a acts,
          ap (λ l. find_action l a.conj_id) (flow_actions-new_flow ctx (a ∷ acts) priority),
          shown a.conj_id,
          ap (λ m. get m a.conj_id) e,
          get_nil a.conj_id,
        ),
        shown,
      );
    }

-- A context with other actions keeps some.
pub rest_nonempty :
    (ctx : Context) (k : ℕ) (act : ConjunctiveAction)
    → get ctx.actions k ≡ some act
    → length ctx.actions ≢ 1
    → Realized ctx
    → keep (λ b. not (b.conj_id == k)) (actions_of ctx.actions) ≢ []
unfolding find_action
rest_nonempty ctx k act found more h nothing =
    let gone : remove ctx.actions k ≡ [] = all_absent (remove ctx.actions k) (λ j.
      get-remove ctx.actions k j
      ∙ sym (ap (λ o. if k == j then none else o) (find_action-actions_of ctx.actions j h.own))
      ∙ sym (find_action-keep (actions_of ctx.actions) k j)
      ∙ ap (λ l. find_action l j) nothing) in
    more (omega (arith, length-remove ctx.actions k act h.unique found, ap length gone))
