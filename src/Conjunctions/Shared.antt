-- ===== src/Conjunctions/Shared.antt =====
-- A clause of a rule joins and leaves a context that rules share, as
-- pkg/agent/openflow/network_policy.go computes and applies it.
use antrea.Common.{
  ℕ, ◌≡◌, refl, sym, ap, subst, ◌∙◌, inl, inr, true, false, ◌&&◌, Option, none, some, ◌∷◌, arith,
  nat_eq, ltb, ◌==◌, if◌then◌else◌, get, put, get-put, Bool-cases, Option-cases, ==_iff,
}
use antrea.Conjunctions.{ConjunctiveAction, ChangeType, insertion, FlowChange, Context, Clause}
use antrea.Conjunctions.Changes.{
  actions_of, create_flow, create_or_update_conjunctive_match_flow, add_action, added, add_change,
}
use antrea.Conjunctions.Updates.{
  update_actions, update_deny, update_flow, update_match_flow, set_drop_flow, update_drop_flow,
  update_context, add_deny_all_rule,
}
use antrea.Conjunctions.Realized.{
  Realized, update-create, drop-Realized, put-Realized, add_deny-Realized,
}

-- The actions of a context after a change of `c`'s rule, as the change `f` of its own.
abbrev pub OnlyOwn :
    Clause → (Option ConjunctiveAction → Option ConjunctiveAction) → Context → Context → Type 0
OnlyOwn c f before after =
    (id : ℕ)
    → get after.actions id ≡ (
        if ltb 1 c.action.n_clause && (c.action.conj_id == id)
        then f (get before.actions id)
        else get before.actions id)

-- An action that is there stays.
unfoldable pub joined : Clause → Option ConjunctiveAction → Option ConjunctiveAction
joined c none = some c.action
joined c (some act) = some act

abbrev pub Joins : Clause → Context → Context → Type 0
Joins c before after = Realized after × OnlyOwn c (joined c) before after

added-present :
    (c : Clause) (ctx : Context) (priority : Option ℕ) (act : ConjunctiveAction)
    → ltb 1 c.action.n_clause ≡ true
    → get ctx.actions c.action.conj_id ≡ some act
    → added c ctx priority ≡ (none, none)
unfolding added add_action
added-present c ctx priority act n e = rw (n, added) (rw (e, added) refl)

added-new :
    (c : Clause) (ctx : Context) (priority : Option ℕ)
    → ltb 1 c.action.n_clause ≡ true
    → get ctx.actions c.action.conj_id ≡ none
    → added c ctx priority ≡ (
      create_or_update_conjunctive_match_flow ctx (c.action ∷ actions_of ctx.actions) priority,
      some c.action,
    )
unfolding added add_action create_or_update_conjunctive_match_flow create_flow
added-new c ctx priority n e = elim (Option-cases ctx.flow) [
  | inl f ↦ ground (arith, n, e, f)
  | inr (g, f) ↦ ground (arith, n, e, f)
]

added-deny :
    (c : Clause) (ctx : Context) (priority : Option ℕ)
    → ltb 1 c.action.n_clause ≡ false
    → added c ctx priority ≡ (some (record { flow = none; change_type = insertion }), none)
unfolding added
added-deny c ctx priority n = rw (n, added) refl

-- What an addition does, by the pair that `added` computes.
abbrev JoinsBy : Clause → Context → Option FlowChange × Option ConjunctiveAction → Type 0
JoinsBy c ctx change =
    Joins c ctx (
      update_match_flow insertion c.action.conj_id change.0 (update_actions insertion change.1 ctx))

-- Up to the drop flow.
joins_flow :
    (c : Clause) (ctx : Context) (priority : Option ℕ)
    → Realized ctx
    → JoinsBy c ctx (added c ctx priority)
unfolding update_actions update_match_flow update_flow update_deny add_deny_all_rule joined
joins_flow c ctx priority h = elim (Bool-cases (ltb 1 c.action.n_clause)) [
  | inl n ↦ elim (Option-cases (get ctx.actions c.action.conj_id)) [
    | inl absent ↦ subst (JoinsBy c ctx) (sym (added-new c ctx priority n absent)) (
        subst (Joins c ctx)
          (sym (
            update-create ctx c.action (actions_of ctx.actions) priority insertion c.action.conj_id
              (record ctx { actions = put ctx.actions c.action.conj_id c.action })))
          (
            put-Realized ctx c.action priority absent h,
            λ id. ground (
              arith,
              n,
              absent,
              get-put ctx.actions c.action.conj_id id c.action,
              ==_iff c.action.conj_id id,
            ),
          ))
    | inr (act, present) ↦
        subst (JoinsBy c ctx) (sym (added-present c ctx priority act n present)) (
          h,
          λ id. elim (Bool-cases (c.action.conj_id == id)) [
            | inl q ↦ ground (arith, n, q, present, ==_iff c.action.conj_id id)
            | inr q ↦ ground (arith, n, q)
          ],
        )
  ]
  | inr n ↦
      subst (JoinsBy c ctx) (sym (added-deny c ctx priority n))
        (add_deny-Realized c.action.conj_id ctx h, λ id. ground (arith, n))
]

pub drop-actions :
    (d : Option FlowChange) (ctx : Context) → (update_drop_flow d ctx).actions ≡ ctx.actions
unfolding update_drop_flow set_drop_flow
drop-actions d ctx = ground arith

-- When the flow changes of an addition are applied to a context whose flow shows its actions, the
-- flow shows the actions again: the context has the action of the clause's rule if the rule has more
-- than one clause, one that it had already stays, and those of other rules are the same.
pub add_change-Joins :
    (cp p : ℕ) (c : Clause) (ctx : Context) (type : ChangeType) (drop : Option FlowChange)
    (priority : Option ℕ)
    → Realized ctx
    → Joins c ctx (update_context (add_change cp c p ctx type drop priority) c.action.conj_id ctx)
unfolding update_context add_change
add_change-Joins cp p c ctx type drop priority h =
    let j = joins_flow c ctx priority h in
    (drop-Realized drop _ j.0, λ id. ap (λ m. get m id) (drop-actions drop _) ∙ j.1 id)
