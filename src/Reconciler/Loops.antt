-- ===== src/Reconciler/Loops.antt =====
-- The loops of `update` in pkg/agent/controller/networkpolicy/reconciler.go: over the groups, and over the
-- rules that are stale.
use antrea.Common.{
  ℕ, ◌≡◌, refl, ap, sym, ◌∙◌, subst, inl, inr, arith, Bool, true, false, Option, List, [], ◌∷◌, any,
  Map, get, Eq, if◌then◌else◌, Bool-cases,
}
use antrea.Conjunctions.Addresses.{Address}
use antrea.Priority.Order.{Order}
use antrea.Reconciler.{ServicesKey, bytes_eq}
use antrea.Reconciler.Installs.{FlowClient, Work}
use antrea.Reconciler.Flows.{IsFlowClient}
use antrea.Reconciler.Steps.{ValidIds, Has}
use antrea.Reconciler.Rounds.{
  GroupStep, update_group-GroupStep, step-other, step-ValidIds, step-of_ids,
}
use antrea.Reconciler.Updates.{GroupChange, update_group, set_of_ports, update_groups}

unfoldable pub has_group : ServicesKey → List GroupChange → Bool
has_group k gs = any (λ (g : GroupChange). bytes_eq.beq g.key k) gs

pub has_group-cons :
    (g : GroupChange) (gs : List GroupChange) (k : ServicesKey)
    → has_group k (g ∷ gs) ≡ false
    → (bytes_eq.beq g.key k ≡ false) × (has_group k gs ≡ false)
unfolding has_group any
has_group-cons g gs k h = (ground (arith, h), ground (arith, h))

abbrev pub Distinct : List GroupChange → Type 0
Distinct [] = Unit
Distinct (g ∷ gs) = (has_group g.key gs ≡ false) × Distinct gs

module _ {C P : Type 0} ⦃eq_p : Eq P⦄ ⦃order : Order P⦄ (client : FlowClient C)
    (ok : IsFlowClient client) (added_from deleted_from : List Address) (p : Option ℕ) where
  abbrev pub looped :
      Work C P → Map ServicesKey ℕ → List GroupChange → Work C P × Map ServicesKey ℕ × Bool
  looped w stale gs = update_groups client w stale gs added_from deleted_from p

  abbrev pub round :
      Work C P → Map ServicesKey ℕ → GroupChange → Work C P × Map ServicesKey ℕ × Bool
  round w stale g = update_group client w stale g added_from deleted_from p

  -- The ports that are recorded leave the IDs and the flows.
  ported-ValidIds :
      (w : Work C P) (g : GroupChange) → ValidIds w → ValidIds (set_of_ports client w g)
  unfolding set_of_ports
  ported-ValidIds w g v = record { valid = v.valid; used = v.used; apart = v.apart }

  unfoldable pub next : Work C P → Map ServicesKey ℕ → GroupChange → Work C P
  next w stale g = set_of_ports client (round w stale g).0 g

  -- A loop without an error: its first round, and the loop after it.
  pub record Unrolled (w : Work C P) (stale : Map ServicesKey ℕ) (g : GroupChange)
      (gs : List GroupChange) : Type 0 where
    pub step :
        GroupStep client ok added_from deleted_from p w stale g
          (round w stale g).0
          (round w stale g).1
    pub valid : ValidIds (next w stale g)
    pub rest : looped w stale (g ∷ gs) ≡ looped (next w stale g) (round w stale g).1 gs
    pub no_error : (looped (next w stale g) (round w stale g).1 gs).2 ≡ true

  pub unroll :
      (w : Work C P) (stale : Map ServicesKey ℕ) (g : GroupChange) (gs : List GroupChange)
      → ValidIds w
      → (looped w stale (g ∷ gs)).2 ≡ true
      → Unrolled w stale g gs
  unfolding update_groups next
  unroll w stale g gs v h = elim (Bool-cases (round w stale g).2) [
    | inl e ↦
        let step = update_group-GroupStep client ok added_from deleted_from p w stale g v e in
        let rest : looped w stale (g ∷ gs) ≡ looped (next w stale g) (round w stale g).1 gs =
          rw (e, if◌then◌else◌) refl in
        record {
          step = step;
          valid = ported-ValidIds (round w stale g).0 g (
              step-ValidIds client ok added_from deleted_from p w (round w stale g).0 stale
                (round w stale g).1 g v step);
          rest = rest;
          no_error = sym (ap (λ (x : Work C P × Map ServicesKey ℕ × Bool). x.2) rest) ∙ h;
        }
    | inr e ↦
        let no : (looped w stale (g ∷ gs)).2 ≡ false = rw (e, if◌then◌else◌) refl in
        let both : true ≡ false = sym h ∙ no in cc both
  ]

  pub loop-ValidIds :
      (gs : List GroupChange) (w : Work C P) (stale : Map ServicesKey ℕ)
      → ValidIds w
      → (looped w stale gs).2 ≡ true
      → ValidIds (looped w stale gs).0
  unfolding update_groups
  loop-ValidIds [] w stale v h = v
  loop-ValidIds (g ∷ gs) w stale v h =
      let u = unroll w stale g gs v h in
      subst (λ (x : Work C P × Map ServicesKey ℕ × Bool). ValidIds x.0) (sym u.rest)
        (loop-ValidIds gs (next w stale g) (round w stale g).1 u.valid u.no_error)

  -- A rule of a key with no group is left as it is.
  pub loop-other :
      (gs : List GroupChange) (w : Work C P) (stale : Map ServicesKey ℕ) (k : ServicesKey)
      (from to : Address → Bool)
      → ValidIds w
      → (looped w stale gs).2 ≡ true
      → has_group k gs ≡ false
      → Has client ok w k from to
      → Has client ok (looped w stale gs).0 k from to
  unfolding update_groups next set_of_ports
  loop-other [] w stale k from to v h apart has = has
  loop-other (g ∷ gs) w stale k from to v h apart has =
      let u = unroll w stale g gs v h in
      let (head, tail) = has_group-cons g gs k apart in
      subst (λ (x : Work C P × Map ServicesKey ℕ × Bool). Has client ok x.0 k from to) (sym u.rest)
        (loop-other gs (next w stale g) (round w stale g).1 k from to u.valid u.no_error tail (
          step-other client ok added_from deleted_from p w (round w stale g).0 stale
            (round w stale g).1 g k from to v u.step head has))

  pub loop-of_ids :
      (gs : List GroupChange) (w : Work C P) (stale : Map ServicesKey ℕ) (k : ServicesKey)
      → ValidIds w
      → (looped w stale gs).2 ≡ true
      → has_group k gs ≡ false
      → (get (looped w stale gs).0.last.of_ids k ≡ get w.last.of_ids k)
        × (get (looped w stale gs).1 k ≡ get stale k)
  unfolding update_groups next set_of_ports
  loop-of_ids [] w stale k v h apart = (refl, refl)
  loop-of_ids (g ∷ gs) w stale k v h apart =
      let u = unroll w stale g gs v h in
      let (head, tail) = has_group-cons g gs k apart in
      let (ids, left) =
        loop-of_ids gs (next w stale g) (round w stale g).1 k u.valid u.no_error tail in
      let (ids1, left1) =
        step-of_ids client ok added_from deleted_from p w (round w stale g).0 stale
          (round w stale g).1 g k u.step head in
      (
        ap (λ (x : Work C P × Map ServicesKey ℕ × Bool). get x.0.last.of_ids k) u.rest ∙ ids ∙ ids1,
        ap (λ (x : Work C P × Map ServicesKey ℕ × Bool). get x.1 k) u.rest ∙ left ∙ left1,
      )
