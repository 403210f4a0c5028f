-- ===== src/Reconciler/Leftovers.antt =====
-- The rules that `update` of pkg/agent/controller/networkpolicy/reconciler.go uninstalls: those with no group.
use antrea.Common.{
  ℕ, ◌≡◌, refl, ap, sym, ◌∙◌, subst, inl, inr, arith, Bool, true, false, Option, none, some, List,
  [], ◌∷◌, any, Map, Unique, get, remove, get-remove, Eq, ◌==◌, beq_self, if◌then◌else◌, Bool-cases,
  Option-cases,
}
use antrea.Conjunctions.Addresses.{Address, AddressType, src_address, dst_address}
use antrea.Priority.Order.{Order}
use antrea.Reconciler.{ServicesKey, bytes_eq}
use antrea.Reconciler.Rules.{Environment}
use antrea.Reconciler.Installs.{
  FlowClient, LastRealized, Work, uninstall_of_rule, uninstall_all, release_stale,
}
use antrea.Reconciler.Flows.{IsFlowClient}
use antrea.Reconciler.Steps.{ValidIds, Has}
use antrea.Reconciler.Rounds.{step-of_ids, step-stale, step-Unique}
use antrea.Reconciler.Updates.{GroupChange, set_of_ports, update_groups}
use antrea.Reconciler.Loops.{has_group, Distinct, looped, next, round, unroll, loop-of_ids}
use antrea.Reconciler.Steps.{Shows}
use antrea.Reconciler.Targets.{has_group-next}

-- No ID that is stale is this one.
abbrev pub Foreign : ℕ → Map ServicesKey ℕ → Type 0
Foreign id [] = Unit
Foreign id ((key, i) ∷ stale) = ((i == id) ≡ false) × Foreign id stale

get-cons_none :
    (m : Map ServicesKey ℕ) (key k : ServicesKey) (i : ℕ)
    → get ((key, i) ∷ m) k ≡ none
    → (bytes_eq.beq key k ≡ false) × (get m k ≡ none)
unfolding get
get-cons_none m key k i h = (ground (arith, h), ground (arith, h))

get-cons_apart :
    (m : Map ServicesKey ℕ) (key k : ServicesKey) (i : ℕ)
    → bytes_eq.beq key k ≡ false
    → get ((key, i) ∷ m) k ≡ get m k
unfolding get
get-cons_apart m key k i e = rw (e, if◌then◌else◌) refl

-- The IDs of a map in which those of other keys differ from it.
pub Foreign-keys :
    (m : Map ServicesKey ℕ) (id : ℕ)
    → Unique m
    → ((j : ServicesKey) (i : ℕ) → get m j ≡ some i → (i == id) ≡ false)
    → Foreign id m
unfolding get
Foreign-keys [] id u h = tt
Foreign-keys ((key, i) ∷ m) id u h = (
  h key i (rw (beq_self ⦃e = bytes_eq⦄ key, if◌then◌else◌) refl),
  Foreign-keys m id u.1 (λ j n f. h j n (
      get-cons_apart m key j i (elim (Bool-cases (bytes_eq.beq key j)) [
        | inl e ↦
            let both : none ≡ some n =
              sym (subst (λ x. get m x ≡ none) ((bytes_eq.beq_iff key j).0 e) u.0) ∙ f in
            cc both
        | inr e ↦ e
      ])
      ∙ f)),
)

module _ {C P : Type 0} ⦃eq_p : Eq P⦄ ⦃order : Order P⦄ (client : FlowClient C)
    (ok : IsFlowClient client) where
  module _ (added_from deleted_from : List Address) (p : Option ℕ) where
    abbrev result :
        Work C P → Map ServicesKey ℕ → List GroupChange → Work C P × Map ServicesKey ℕ × Bool
    result w stale gs = looped client ok added_from deleted_from p w stale gs

    pub loop-Unique :
        (gs : List GroupChange) (w : Work C P) (stale : Map ServicesKey ℕ)
        → ValidIds w
        → (result w stale gs).2 ≡ true
        → Unique stale
        → Unique (result w stale gs).1
    unfolding update_groups
    loop-Unique [] w stale v h u = u
    loop-Unique (g ∷ gs) w stale v h u =
        let r = unroll client ok added_from deleted_from p w stale g gs v h in
        let (w', stale', fine) = round client ok added_from deleted_from p w stale g in
        subst (λ (x : Work C P × Map ServicesKey ℕ × Bool). Unique x.1) (sym r.rest)
          (loop-Unique gs (next client ok added_from deleted_from p w stale g) stale' r.valid
            r.no_error
            (step-Unique client ok added_from deleted_from p w w' stale stale' g r.step u))

    -- A key that has a group is not stale.
    pub loop-stale :
        (gs : List GroupChange) (w : Work C P) (stale : Map ServicesKey ℕ) (k : ServicesKey)
        → ValidIds w
        → (result w stale gs).2 ≡ true
        → has_group k gs ≡ true
        → Distinct gs
        → get stale k ≡ get w.last.of_ids k
        → get (result w stale gs).1 k ≡ none
    unfolding next set_of_ports has_group any
    loop-stale [] w stale k v h there d same = absurd (cc there)
    loop-stale (g ∷ gs) w stale k v h there d same =
        let r = unroll client ok added_from deleted_from p w stale g gs v h in
        let (w', stale', fine) = round client ok added_from deleted_from p w stale g in
        let after_round = next client ok added_from deleted_from p w stale g in
        ap (λ (x : Work C P × Map ServicesKey ℕ × Bool). get x.1 k) r.rest
        ∙ elim (Bool-cases (bytes_eq.beq g.key k)) [
          | inl here ↦
              let key : g.key ≡ k = (bytes_eq.beq_iff g.key k).0 here in
              subst (λ j. get (result after_round stale' gs).1 j ≡ none) key
                ((loop-of_ids client ok added_from deleted_from p gs after_round stale' g.key
                    r.valid r.no_error d.0).1
                  ∙ step-stale client ok added_from deleted_from p w w' stale stale' g r.step
                      (subst (λ j. get stale j ≡ get w.last.of_ids j) (sym key) same))
          | inr apart ↦
              let (ids, left) =
                step-of_ids client ok added_from deleted_from p w w' stale stale' g k r.step
                  apart in
              loop-stale gs after_round stale' k r.valid r.no_error
                (has_group-next g gs k there apart) d.1 (left ∙ same ∙ sym ids)
        ]

  module _ (env : Environment) (table : ℕ) where
    -- What an uninstalled rule leaves: the state of the rule, and the flows of others.
    uninstall-kept :
        (w : Work C P) (i : ℕ)
        → (uninstall_of_rule client env w i table).1 ≡ true
        → ((uninstall_of_rule client env w i table).0.last ≡ w.last)
          × ((id : ℕ) (t : AddressType) (a : Address)
              → (i == id) ≡ false
              → ok.shows (uninstall_of_rule client env w i table).0.client id t a
                ≡ ok.shows w.client id t a)
    unfolding uninstall_of_rule
    uninstall-kept w i h = elim (Option-cases (client.uninstall_policy_rule_flows w.client i).1) [
      | inl e ↦
          let no : (uninstall_of_rule client env w i table).1 ≡ false =
            rw (e, uninstall_of_rule) refl in
          let both : true ≡ false = sym h ∙ no in cc both
      | inr (stale, e) ↦
          elim (Bool-cases
            (release_stale client env.parse_uint w.priority_assigners table stale).1) [
              | inl t ↦
                  rw (e, uninstall_of_rule)
                    (rw (t, if◌then◌else◌)
                      (refl, λ id u a apart. ok.shows-uninstall w.client i id u a stale e apart))
              | inr t ↦
                  rw (e, uninstall_of_rule)
                    (rw (t, if◌then◌else◌)
                      (refl, λ id u a apart. ok.shows-uninstall w.client i id u a stale e apart))
            ]
    ]

    abbrev forgotten : Work C P → ServicesKey → Work C P
    forgotten w key = record w {
      last = record (w.last) {
        of_ids = remove w.last.of_ids key;
        pod_of_ports = remove w.last.pod_of_ports key;
      };
    }

    uninstall_step :
        (w : Work C P) (key : ServicesKey) (i : ℕ) (stale : Map ServicesKey ℕ)
        → (uninstall_all client env w ((key, i) ∷ stale) table).1 ≡ true
        → ((uninstall_of_rule client env w i table).1 ≡ true)
          × (uninstall_all client env w ((key, i) ∷ stale) table
              ≡ uninstall_all client env
                  (forgotten (uninstall_of_rule client env w i table).0 key)
                  stale
                  table)
    unfolding uninstall_all
    uninstall_step w key i stale h = elim (Bool-cases (uninstall_of_rule client env w i table).1) [
      | inl e ↦ (e, rw (e, if◌then◌else◌) refl)
      | inr e ↦
          let no : (uninstall_all client env w ((key, i) ∷ stale) table).1 ≡ false =
            rw (e, if◌then◌else◌) refl in
          let both : true ≡ false = sym h ∙ no in cc both
    ]

    pub uninstall_all-Has :
        (stale : Map ServicesKey ℕ) (w : Work C P) (k : ServicesKey) (from to : Address → Bool)
        (id : ℕ)
        → (uninstall_all client env w stale table).1 ≡ true
        → get stale k ≡ none
        → Foreign id stale
        → get w.last.of_ids k ≡ some id
        → Shows ok w.client id from to
        → Has client ok (uninstall_all client env w stale table).0 k from to
    unfolding uninstall_all
    uninstall_all-Has [] w k from to id h gone far found shown = (id, found, shown)
    uninstall_all-Has ((key, i) ∷ stale) w k from to id h gone far found (src, dst) =
        let (now, rest) = uninstall_step w key i stale h in
        let (same, kept) = uninstall-kept w i now in
        let next_w = forgotten (uninstall_of_rule client env w i table).0 key in
        let (apart, later) = get-cons_none stale key k i gone in
        subst (λ (x : Work C P × Bool). Has client ok x.0 k from to) (sym rest)
          (uninstall_all-Has stale next_w k from to id
            (sym (ap (λ (x : Work C P × Bool). x.1) rest) ∙ h) later far.1
            (get-remove (uninstall_of_rule client env w i table).0.last.of_ids key k
              ∙ rw (apart, if◌then◌else◌) (ap (λ (l : LastRealized). get l.of_ids k) same ∙ found))
            (λ a. kept id src_address a far.0 ∙ src a, λ a. kept id dst_address a far.0 ∙ dst a))

    -- The keys that are stale are forgotten.
    pub uninstall_all-of_ids :
        (stale : Map ServicesKey ℕ) (w : Work C P) (k : ServicesKey)
        → (uninstall_all client env w stale table).1 ≡ true
        → Unique stale
        → get stale k ≡ get w.last.of_ids k
        → get (uninstall_all client env w stale table).0.last.of_ids k ≡ none
    unfolding uninstall_all get
    uninstall_all-of_ids [] w k h u same = sym same
    uninstall_all-of_ids ((key, i) ∷ stale) w k h u same =
        let (now, rest) = uninstall_step w key i stale h in
        let next_w = forgotten (uninstall_of_rule client env w i table).0 key in
        let ids : get next_w.last.of_ids k
            ≡ (if bytes_eq.beq key k then none else get w.last.of_ids k) =
          get-remove (uninstall_of_rule client env w i table).0.last.of_ids key k
          ∙ ap (λ (l : LastRealized). if bytes_eq.beq key k then none else get l.of_ids k)
              (uninstall-kept w i now).0 in
        let gone : bytes_eq.beq key k ≡ true → get stale k ≡ none =
          λ e. subst (λ j. get stale j ≡ none) ((bytes_eq.beq_iff key k).0 e) u.0 in
        let later : get stale k ≡ get next_w.last.of_ids k =
          elim (Bool-cases (bytes_eq.beq key k)) [
            | inl e ↦ gone e ∙ sym (ids ∙ rw (e, if◌then◌else◌) refl)
            | inr e ↦
                sym (get-cons_apart stale key k i e) ∙ same ∙ sym (ids ∙ rw (e, if◌then◌else◌) refl)
          ] in
        ap (λ (x : Work C P × Bool). get x.0.last.of_ids k) rest
        ∙ uninstall_all-of_ids stale next_w k (sym (ap (λ (x : Work C P × Bool). x.1) rest) ∙ h) u.1
            later
