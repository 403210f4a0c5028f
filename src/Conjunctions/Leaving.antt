-- ===== src/Conjunctions/Leaving.antt =====
-- A clause of a rule leaves a context that rules share, as pkg/agent/openflow/network_policy.go
-- computes and applies it.
use antrea.Common.{
  ℕ, ◌≡◌, ◌≢◌, refl, sym, ap, subst, ◌∙◌, inl, inr, true, false, not, Option, none, some, List, [],
  ◌∷◌, arith, nat_eq, ltb, ◌==◌, get, remove, get-remove, length, keep, Bool-cases, Option-cases,
  ==_iff,
}
use antrea.Conjunctions.{ConjunctiveAction, Flow, deletion, FlowChange, Context, Clause}
use antrea.Conjunctions.Changes.{
  actions_of, create_or_update_conjunctive_match_flow, has_flow, delete_action, deleted,
  delete_change,
}
use antrea.Conjunctions.Updates.{
  update_actions, update_flow, update_match_flow, update_context, del_deny_all_rule,
}
use antrea.Conjunctions.Realized.{
  Realized, Shows, update-create, drop-Realized, del_deny-Realized, last-Realized, fewer-Realized,
  rest_nonempty,
}
use antrea.Conjunctions.Actions.{get_nil, Own-get}
use antrea.Conjunctions.Shared.{OnlyOwn, drop-actions}

-- Its action leaves.
abbrev pub Leaves : Clause → Context → Context → Type 0
Leaves c before after = Realized after × OnlyOwn c (λ o. none) before after

abbrev LeavesBy : Clause → Context → Option FlowChange × Option ConjunctiveAction → Type 0
LeavesBy c ctx change =
    Leaves c ctx
      (update_match_flow deletion c.action.conj_id change.0 (update_actions deletion change.1 ctx))

pub deleted-absent :
    (c : Clause) (ctx : Context)
    → ltb 1 c.action.n_clause ≡ true
    → get ctx.actions c.action.conj_id ≡ none
    → (deleted c ctx).0 ≡ (none, none)
unfolding deleted
deleted-absent c ctx n e = rw (n, deleted) (rw (e, deleted) refl)

pub deleted-present :
    (c : Clause) (ctx : Context) (act : ConjunctiveAction)
    → ltb 1 c.action.n_clause ≡ true
    → get ctx.actions c.action.conj_id ≡ some act
    → (deleted c ctx).0
      ≡ (delete_action ctx c.action.conj_id ctx.conjunctive_match.priority, some act)
unfolding deleted
deleted-present c ctx act n e = rw (n, deleted) (rw (e, deleted) refl)

pub deleted-deny :
    (c : Clause) (ctx : Context)
    → ltb 1 c.action.n_clause ≡ false
    → (deleted c ctx).0 ≡ (some (record { flow = none; change_type = deletion }), none)
unfolding deleted
deleted-deny c ctx n = rw (n, deleted) refl

-- The flow of a context with an action.
pub flow_there :
    (ctx : Context) (k : ℕ) (act : ConjunctiveAction)
    → get ctx.actions k ≡ some act
    → Realized ctx
    → (f : Flow) × (ctx.flow ≡ some f)
flow_there ctx k act found h = elim (Option-cases ctx.flow) [
  | inl none_there ↦
      let empty : ctx.actions ≡ [] = subst (λ f. Shows f ctx.actions) none_there h.shows in
      absurd (cc (found, ap (λ m. get m k) empty, get_nil k))
  | inr some_there ↦ some_there
]

-- The last action: the flow is deleted.
delete_last :
    (ctx : Context) (k : ℕ) (priority : Option ℕ) (f : Flow)
    → length ctx.actions ≡ 1
    → ctx.flow ≡ some f
    → delete_action ctx k priority ≡ some (record { flow = some f; change_type = deletion })
unfolding delete_action has_flow
delete_last ctx k priority f one e = ground (arith, one, e)

delete_other :
    (ctx : Context) (k : ℕ) (priority : Option ℕ)
    → length ctx.actions ≢ 1
    → delete_action ctx k priority
      ≡ create_or_update_conjunctive_match_flow ctx
          (keep (λ act. not (act.conj_id == k)) (actions_of ctx.actions))
          priority
unfolding delete_action
delete_other ctx k priority more = ground (arith, more)

-- A context that the action of `k` has left.
pub record Left (ctx : Context) (k : ℕ) (after : Context) : Type 0 where
  pub realized : Realized after
  pub actions : after.actions ≡ remove ctx.actions k
  pub deny : after.deny_all_rules ≡ ctx.deny_all_rules

-- The context once the action of `k` and the change of the flow are applied.
abbrev pub after_leaving : Context → ℕ → Option FlowChange → Context
after_leaving ctx k fc =
    update_match_flow deletion k fc (record ctx { actions = remove ctx.actions k })

pub action_leaves :
    (ctx : Context) (k : ℕ) (act : ConjunctiveAction) (priority : Option ℕ)
    → get ctx.actions k ≡ some act
    → Realized ctx
    → Left ctx k (after_leaving ctx k (delete_action ctx k priority))
unfolding update_match_flow update_flow
action_leaves ctx k act priority found h = elim (Bool-cases (length ctx.actions == 1)) [
  | inl one ↦
      let there = flow_there ctx k act found h in
      let last : length ctx.actions ≡ 1 = ground (arith, one) in
      subst (λ fc. Left ctx k (after_leaving ctx k fc))
        (sym (delete_last ctx k priority there.0 last there.1))
        (record { realized = last-Realized ctx k act found last h; actions = refl; deny = refl })
  | inr more ↦
      go (keep (λ act. not (act.conj_id == k)) (actions_of ctx.actions)) refl (ground (arith, more))
]
  where
    go :
        (acts : List ConjunctiveAction)
        → keep (λ act. not (act.conj_id == k)) (actions_of ctx.actions) ≡ acts
        → length ctx.actions ≢ 1
        → Left ctx k (after_leaving ctx k (delete_action ctx k priority))
    go [] e more = absurd (rest_nonempty ctx k act found more h e)
    go (a ∷ acts) e more =
        subst (Left ctx k)
          (sym (
            ap (after_leaving ctx k) (
              delete_other ctx k priority more
              ∙ ap (λ l. create_or_update_conjunctive_match_flow ctx l priority) e)
            ∙ update-create ctx a acts priority deletion k
                (record ctx { actions = remove ctx.actions k })))
          (record {
            realized = fewer-Realized ctx k act a acts priority found e h;
            actions = refl;
            deny = refl;
          })

del_deny-actions : (id : ℕ) (ctx : Context) → (del_deny_all_rule id ctx).actions ≡ ctx.actions
unfolding del_deny_all_rule
del_deny-actions id ctx = ground arith

-- Up to the drop flow.
leaves_flow : (c : Clause) (ctx : Context) → Realized ctx → LeavesBy c ctx (deleted c ctx).0
unfolding update_actions update_match_flow update_flow del_deny_all_rule
leaves_flow c ctx h = elim (Bool-cases (ltb 1 c.action.n_clause)) [
  | inl n ↦ elim (Option-cases (get ctx.actions c.action.conj_id)) [
    | inl absent ↦ subst (LeavesBy c ctx) (sym (deleted-absent c ctx n absent)) (
      h,
      λ id. elim (Bool-cases (c.action.conj_id == id)) [
        | inl q ↦ ground (arith, n, q, absent, ==_iff c.action.conj_id id)
        | inr q ↦ ground (arith, n, q)
      ],
    )
    | inr (act, present) ↦
        let left =
          action_leaves ctx c.action.conj_id act ctx.conjunctive_match.priority present h in
        subst (LeavesBy c ctx) (sym (deleted-present c ctx act n present)) (
          subst
            (λ k. Leaves c ctx (
              update_match_flow deletion c.action.conj_id
                (delete_action ctx c.action.conj_id ctx.conjunctive_match.priority)
                (record ctx { actions = remove ctx.actions k })))
            (sym (Own-get ctx.actions c.action.conj_id act h.own present))
            (
              left.realized,
              λ id.
                  ap (λ m. get m id) left.actions
                  ∙ ground (arith, n, get-remove ctx.actions c.action.conj_id id),
            ))
  ]
  | inr n ↦ subst (LeavesBy c ctx) (sym (deleted-deny c ctx n)) (
    del_deny-Realized c.action.conj_id ctx h,
    λ id. ap (λ m. get m id) (del_deny-actions c.action.conj_id ctx) ∙ ground (arith, n),
  )
]

-- When the flow changes of a deletion are applied to a context whose flow shows its actions, the
-- flow shows the actions again, or is gone with the last of them: the action of the clause's rule is
-- gone if the rule has more than one clause, and those of other rules are the same.
pub delete_change-Leaves :
    (cp p : ℕ) (c : Clause) (ctx : Context)
    → Realized ctx
    → Leaves c ctx (update_context (delete_change cp c p ctx) c.action.conj_id ctx)
unfolding update_context delete_change
delete_change-Leaves cp p c ctx h =
    let j = leaves_flow c ctx h in
    let drop = (delete_change cp c p ctx).drop_flow in
    (drop-Realized drop _ j.0, λ id. ap (λ m. get m id) (drop-actions drop _) ∙ j.1 id)
