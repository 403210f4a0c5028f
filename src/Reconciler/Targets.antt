-- ===== src/Reconciler/Targets.antt =====
-- What the loop over the groups in `update` of pkg/agent/controller/networkpolicy/reconciler.go makes of
-- the rule of each group, and which rules it leaves to be uninstalled.
use antrea.Common.{
  ℕ, ◌≡◌, sym, ◌∙◌, subst, inl, inr, ◌⊎◌, arith, Bool, true, false, Option, none, List, [], ◌∷◌,
  All, any, Map, get, Eq, Bool-cases,
}
use antrea.Conjunctions.Addresses.{Address}
use antrea.Priority.Order.{Order}
use antrea.Reconciler.{ServicesKey, bytes_eq}
use antrea.Reconciler.Installs.{FlowClient, Work}
use antrea.Reconciler.Flows.{listed_in, IsFlowClient}
use antrea.Reconciler.Steps.{ValidIds, Has}
use antrea.Reconciler.Rounds.{after, step-other, step_self, step-of_ids}
use antrea.Reconciler.Updates.{GroupChange, set_of_ports}
use antrea.Reconciler.Loops.{has_group, Distinct, looped, next, round, unroll, loop-other}

-- What the group installs, and what it makes of the old addresses, are the new ones.
abbrev pub Fits :
    (Address → Bool)
    → (ServicesKey → Address → Bool)
    → (ServicesKey → Address → Bool)
    → GroupChange
    → Type 0
Fits new_from old_to new_to g =
    ((a : Address) → listed_in g.rule.from a ≡ new_from a)
    × ((a : Address) → listed_in g.rule.to a ≡ new_to g.key a)
    × ((a : Address) → after g.added_to g.deleted_to (old_to g.key) a ≡ new_to g.key a)

pub has_group-next :
    (g : GroupChange) (gs : List GroupChange) (k : ServicesKey)
    → has_group k (g ∷ gs) ≡ true
    → bytes_eq.beq g.key k ≡ false
    → has_group k gs ≡ true
unfolding has_group any
has_group-next g gs k h e = ground (arith, h, e)

module _ {C P : Type 0} ⦃eq_p : Eq P⦄ ⦃order : Order P⦄ (client : FlowClient C)
    (ok : IsFlowClient client) (added_from deleted_from : List Address) (p : Option ℕ)
    (old_from new_from : Address → Bool) (old_to new_to : ServicesKey → Address → Bool) where
  convert :
      (w : Work C P) (k : ServicesKey) (f f' t t' : Address → Bool)
      → ((a : Address) → f a ≡ f' a)
      → ((a : Address) → t a ≡ t' a)
      → Has client ok w k f t
      → Has client ok w k f' t'
  convert w k f f' t t' e h (id, found, (src, dst)) =
      (id, found, (λ a. src a ∙ e a, λ a. dst a ∙ h a))

  abbrev result :
      Work C P → Map ServicesKey ℕ → List GroupChange → Work C P × Map ServicesKey ℕ × Bool
  result w stale gs = looped client ok added_from deleted_from p w stale gs

  -- The rule of the first group, and the rounds after it.
  loop-head :
      (g : GroupChange) (gs : List GroupChange) (w : Work C P) (stale : Map ServicesKey ℕ)
      → ValidIds w
      → (result w stale (g ∷ gs)).2 ≡ true
      → Distinct (g ∷ gs)
      → Fits new_from old_to new_to g
      → ((a : Address) → after added_from deleted_from old_from a ≡ new_from a)
      → ((get w.last.of_ids g.key ≡ none) ⊎ Has client ok w g.key old_from (old_to g.key))
      → Has client ok (result w stale (g ∷ gs)).0 g.key new_from (new_to g.key)
  unfolding next set_of_ports
  loop-head g gs w stale v h d (from_fits, to_fits, change_fits) e before =
      let u = unroll client ok added_from deleted_from p w stale g gs v h in
      let w' = (round client ok added_from deleted_from p w stale g).0 in
      let stale' = (round client ok added_from deleted_from p w stale g).1 in
      let now : Has client ok w' g.key new_from (new_to g.key) =
        elim (step_self client ok added_from deleted_from p w w' stale stale' g old_from
          (old_to g.key) u.step before) [
            | inl new ↦
                convert w' g.key (listed_in g.rule.from) new_from (listed_in g.rule.to)
                  (new_to g.key) from_fits to_fits new
            | inr changed ↦
                convert w' g.key (after added_from deleted_from old_from) new_from
                  (after g.added_to g.deleted_to (old_to g.key)) (new_to g.key) e change_fits
                  changed
          ] in
      subst
        (λ (x : Work C P × Map ServicesKey ℕ × Bool).
          Has client ok x.0 g.key new_from (new_to g.key))
        (sym u.rest)
        (loop-other client ok added_from deleted_from p gs
          (next client ok added_from deleted_from p w stale g) stale' g.key new_from (new_to g.key)
          u.valid u.no_error d.0 now)

  -- The rule of each group has the new addresses.
  pub loop_self :
      (gs : List GroupChange) (w : Work C P) (stale : Map ServicesKey ℕ) (k : ServicesKey)
      → ValidIds w
      → (looped client ok added_from deleted_from p w stale gs).2 ≡ true
      → has_group k gs ≡ true
      → Distinct gs
      → All (Fits new_from old_to new_to) gs
      → ((a : Address) → after added_from deleted_from old_from a ≡ new_from a)
      → ((get w.last.of_ids k ≡ none) ⊎ Has client ok w k old_from (old_to k))
      → Has client ok
          (looped client ok added_from deleted_from p w stale gs).0
          k
          new_from
          (new_to k)
  unfolding next set_of_ports has_group any
  loop_self [] w stale k v h there d fits e before = absurd (cc there)
  loop_self (g ∷ gs) w stale k v h there d fits e before =
      elim (Bool-cases (bytes_eq.beq g.key k)) [
        | inl here ↦
            let same : g.key ≡ k = (bytes_eq.beq_iff g.key k).0 here in
            subst (λ j. Has client ok (result w stale (g ∷ gs)).0 j new_from (new_to j)) same
              (loop-head g gs w stale v h d fits.0 e (
                subst (λ j. (get w.last.of_ids j ≡ none) ⊎ Has client ok w j old_from (old_to j))
                  (sym same) before))
        | inr apart ↦
            let u = unroll client ok added_from deleted_from p w stale g gs v h in
            let w' = (round client ok added_from deleted_from p w stale g).0 in
            let stale' = (round client ok added_from deleted_from p w stale g).1 in
            let later : (get w'.last.of_ids k ≡ none) ⊎ Has client ok w' k old_from (old_to k) =
              elim before [
                | inl new ↦ inl (
                    (step-of_ids client ok added_from deleted_from p w w' stale stale' g k u.step
                      apart).0
                    ∙ new)
                | inr has ↦ inr (
                    step-other client ok added_from deleted_from p w w' stale stale' g k old_from
                      (old_to k) v u.step apart has)
              ] in
            subst
              (λ (x : Work C P × Map ServicesKey ℕ × Bool). Has client ok x.0 k new_from (new_to k))
              (sym u.rest)
              (loop_self gs (next client ok added_from deleted_from p w stale g) stale' k u.valid
                u.no_error (has_group-next g gs k there apart) d.1 fits.1 e later)
      ]
