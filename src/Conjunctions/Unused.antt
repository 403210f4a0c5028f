-- ===== src/Conjunctions/Unused.antt =====
-- When a context of pkg/agent/openflow/network_policy.go is removed from the cache.
use antrea.Common.{
  ℕ, ◌≡◌, sym, ap, subst, ◌∙◌, inl, inr, Bool, true, false, ◌&&◌, Option, none, some, arith, nat_eq,
  ltb, ◌==◌, if◌then◌else◌, get, remove, Unique, length, Bool-cases, Option-cases,
}
use antrea.Conjunctions.{ConjunctiveAction, modification, deletion, FlowChange, Context, Clause}
use antrea.Conjunctions.Changes.{deleted, unused, delete_change, delete_action}
use antrea.Conjunctions.Updates.{
  update_actions, update_flow, update_match_flow, set_drop_flow, update_drop_flow, update_context,
  del_deny_all_rule,
}
use antrea.Conjunctions.Realized.{Realized}
use antrea.Conjunctions.Actions.{length-remove, Own-get}
use antrea.Conjunctions.Leaving.{Left, action_leaves, deleted-absent, deleted-present, deleted-deny}

-- Nothing uses a context.
unfoldable pub is_empty : Context → Bool
is_empty ctx = (length ctx.actions == 0) && (length ctx.deny_all_rules == 0)

is_empty-drop :
    (d : Option FlowChange) (ctx : Context) → is_empty (update_drop_flow d ctx) ≡ is_empty ctx
unfolding is_empty update_drop_flow set_drop_flow
is_empty-drop d ctx = ground arith

-- The emptiness of the context by what `deleted` computes.
abbrev EmptyBy : Clause → Context → Option FlowChange × Option ConjunctiveAction → Type 0
EmptyBy c ctx change =
    is_empty
      (update_match_flow deletion c.action.conj_id change.0 (update_actions deletion change.1 ctx))
    ≡ unused c ctx

unused-absent :
    (c : Clause) (ctx : Context)
    → ltb 1 c.action.n_clause ≡ true
    → get ctx.actions c.action.conj_id ≡ none
    → unused c ctx ≡ (length ctx.actions == 0) && (length ctx.deny_all_rules == 0)
unfolding unused deleted
unused-absent c ctx n e = ground (arith, n, e)

unused-present :
    (c : Clause) (ctx : Context) (act : ConjunctiveAction)
    → ltb 1 c.action.n_clause ≡ true
    → get ctx.actions c.action.conj_id ≡ some act
    → unused c ctx ≡ (length ctx.actions == 1) && (length ctx.deny_all_rules == 0)
unfolding unused deleted
unused-present c ctx act n e = ground (arith, n, e)

unused-deny :
    (c : Clause) (ctx : Context)
    → ltb 1 c.action.n_clause ≡ false
    → unused c ctx ≡ (length ctx.actions == 0) && (length ctx.deny_all_rules == 1)
unfolding unused deleted
unused-deny c ctx n = ground (arith, n)

Left-is_empty :
    (ctx : Context) (k : ℕ) (act : ConjunctiveAction) (after : Context)
    → get ctx.actions k ≡ some act
    → Unique ctx.actions
    → Left ctx k after
    → is_empty after ≡ (length ctx.actions == 1) && (length ctx.deny_all_rules == 0)
unfolding is_empty
Left-is_empty ctx k act after found u l =
    ground (arith, length-remove ctx.actions k act u found, ap length l.actions, ap length l.deny)

del_deny-is_empty :
    (ctx : Context) (k : ℕ) (found : Bool)
    → get ctx.deny_all_rules k ≡ some found
    → Unique ctx.deny_all_rules
    → is_empty (del_deny_all_rule k ctx)
      ≡ (length ctx.actions == 0) && (length ctx.deny_all_rules == 1)
unfolding is_empty del_deny_all_rule
del_deny-is_empty ctx k found e u = ground (arith, e, length-remove ctx.deny_all_rules k found u e)

empty_by :
    (c : Clause) (ctx : Context)
    → Unique ctx.deny_all_rules
    → (ltb 1 c.action.n_clause ≡ false → get ctx.deny_all_rules c.action.conj_id ≡ some true)
    → Realized ctx
    → EmptyBy c ctx (deleted c ctx).0
unfolding update_actions update_match_flow update_flow
empty_by c ctx u denies h = elim (Bool-cases (ltb 1 c.action.n_clause)) [
  | inl n ↦ elim (Option-cases (get ctx.actions c.action.conj_id)) [
    | inl absent ↦
        subst (EmptyBy c ctx) (sym (deleted-absent c ctx n absent))
          (unfold is_empty in sym (unused-absent c ctx n absent))
    | inr (act, present) ↦
        let left =
          action_leaves ctx c.action.conj_id act ctx.conjunctive_match.priority present h in
        subst (EmptyBy c ctx) (sym (deleted-present c ctx act n present)) (
          subst
            (λ k.
              is_empty (
                update_match_flow deletion c.action.conj_id
                  (delete_action ctx c.action.conj_id ctx.conjunctive_match.priority)
                  (record ctx { actions = remove ctx.actions k }))
              ≡ unused c ctx)
            (sym (Own-get ctx.actions c.action.conj_id act h.own present))
            (Left-is_empty ctx c.action.conj_id act _ present h.unique left
              ∙ sym (unused-present c ctx act n present)))
  ]
  | inr n ↦
      subst (EmptyBy c ctx) (sym (deleted-deny c ctx n))
        (del_deny-is_empty ctx c.action.conj_id true (denies n) u ∙ sym (unused-deny c ctx n))
]

-- A deletion by a clause whose rule, if it has one clause only, is among the deny rules of the
-- context removes the context from the cache exactly when no action and no deny rule is left in it
-- once the deletion is applied; the flow of the context shows its actions before it.
delete_change-is_empty :
    (cp p : ℕ) (c : Clause) (ctx : Context)
    → Unique ctx.deny_all_rules
    → (ltb 1 c.action.n_clause ≡ false → get ctx.deny_all_rules c.action.conj_id ≡ some true)
    → Realized ctx
    → (delete_change cp c p ctx).ctx_change_type ≡ (
        if is_empty (update_context (delete_change cp c p ctx) c.action.conj_id ctx)
        then deletion
        else modification)
unfolding update_context delete_change
delete_change-is_empty cp p c ctx u denies h =
    ap (λ b. if b then deletion else modification)
      (sym (is_empty-drop (delete_change cp c p ctx).drop_flow _ ∙ empty_by c ctx u denies h))
