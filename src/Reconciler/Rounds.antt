-- ===== src/Reconciler/Rounds.antt =====
-- One round of the loop over the groups in `update` of pkg/agent/controller/networkpolicy/reconciler.go.
use antrea.Common.{
  ℕ, ◌≡◌, refl, ap, sym, ◌∙◌, subst, inl, inr, ◌⊎◌, arith, Bool, true, false, ◌&&◌, ◌||◌, not,
  Option, none, some, List, Map, get, remove, get-put, get-remove, get-remove_self, Unique,
  Unique-remove, Eq, ◌==◌, ==_iff, ==_refl, if◌then◌else◌, Bool-cases, Option-cases,
}
use antrea.Conjunctions.Addresses.{Address, AddressType, src_address, dst_address}
use antrea.Priority.Order.{Order}
use antrea.Reconciler.{ServicesKey, bytes_eq}
use antrea.Reconciler.Installs.{FlowClient, Work, install_new, update_of_rule}
use antrea.Reconciler.Flows.{among, listed_in, IsFlowClient, same_type, shows-update_of_rule}
use antrea.Reconciler.Steps.{
  ValidIds, Installed, install_new-Installed, Shows, Has, Installed-Has, Installed-new,
  Installed-ValidIds,
}
use antrea.Reconciler.Updates.{GroupChange, update_group}

-- What a test of addresses becomes of those that are added and deleted.
abbrev pub after : List Address → List Address → (Address → Bool) → Address → Bool
after added deleted f a = (f a || among a added) && not (among a deleted)

module _ {C P : Type 0} ⦃eq_p : Eq P⦄ ⦃order : Order P⦄ (client : FlowClient C)
    (ok : IsFlowClient client) (added_from deleted_from : List Address) (p : Option ℕ) where
  abbrev pub call : Work C P → GroupChange → ℕ → C × Bool
  call w g id = update_of_rule client w.client id added_from g.added_to deleted_from g.deleted_to p

  -- What one group is without an error: a rule that is installed, or one that is updated.
  abbrev pub GroupStep :
      Work C P → Map ServicesKey ℕ → GroupChange → Work C P → Map ServicesKey ℕ → Type 0
  GroupStep w stale g w' stale' =
      ((get w.last.of_ids g.key ≡ none) × Installed client w g.key g.rule w' × (stale' ≡ stale))
      ⊎ ((id : ℕ) × (get w.last.of_ids g.key ≡ some id)
          × ((call w g id).1 ≡ true)
          × (w' ≡ record w { client = (call w g id).0 })
          × (stale' ≡ remove stale g.key))

  pub update_group-GroupStep :
      (w : Work C P) (stale : Map ServicesKey ℕ) (g : GroupChange)
      → ValidIds w
      → (update_group client w stale g added_from deleted_from p).2 ≡ true
      → GroupStep w stale g
          (update_group client w stale g added_from deleted_from p).0
          (update_group client w stale g added_from deleted_from p).1
  unfolding update_group
  update_group-GroupStep w stale g v h = elim (Option-cases (get w.last.of_ids g.key)) [
    | inl e ↦
        let r = install_new client w g.key g.rule in
        let now : update_group client w stale g added_from deleted_from p ≡ (r.0, stale, r.1) =
          rw (e, update_group) refl in
        subst (λ (x : Work C P × Map ServicesKey ℕ × Bool). GroupStep w stale g x.0 x.1) (sym now)
          (inl (
            e,
            install_new-Installed client w g.key g.rule v.valid
                (sym (ap (λ (x : Work C P × Map ServicesKey ℕ × Bool). x.2) now) ∙ h),
            refl,
          ))
    | inr (id, e) ↦
        let r = call w g id in
        let raw : update_group client w stale g added_from deleted_from p
            ≡ (record w { client = r.0 }, if r.1 then remove stale g.key else stale, r.1) =
          rw (e, update_group) refl in
        let t : r.1 ≡ true = sym (ap (λ (x : Work C P × Map ServicesKey ℕ × Bool). x.2) raw) ∙ h in
        let now : update_group client w stale g added_from deleted_from p
            ≡ (record w { client = r.0 }, remove stale g.key, true) =
          raw ∙ rw (t, if◌then◌else◌) refl in
        subst (λ (x : Work C P × Map ServicesKey ℕ × Bool). GroupStep w stale g x.0 x.1) (sym now)
          (inr (id, e, t, refl, refl))
  ]

  updated_self :
      (w : Work C P) (g : GroupChange) (from to : Address → Bool) (id : ℕ)
      → (call w g id).1 ≡ true
      → Shows ok w.client id from to
      → Shows ok
          (call w g id).0
          id
          (after added_from deleted_from from)
          (after g.added_to g.deleted_to to)
  unfolding same_type
  updated_self w g from to id t (src, dst) =
      let eq : (u : AddressType) (a : Address) → _ = λ u a.
        shows-update_of_rule client ok w.client id added_from g.added_to deleted_from g.deleted_to p
          id u a t in
      (
        λ a. ground (arith, eq src_address a, src a, ==_refl id),
        λ a. ground (arith, eq dst_address a, dst a, ==_refl id),
      )

  updated-other :
      (w : Work C P) (g : GroupChange) (from to : Address → Bool) (id other : ℕ)
      → (call w g id).1 ≡ true
      → (id == other) ≡ false
      → Shows ok w.client other from to
      → Shows ok (call w g id).0 other from to
  updated-other w g from to id other t apart (src, dst) =
      let eq = λ (u : AddressType) (a : Address).
        shows-update_of_rule client ok w.client id added_from g.added_to deleted_from g.deleted_to p
          other u a t in
      (
        λ a. ground (arith, eq src_address a, src a, apart),
        λ a. ground (arith, eq dst_address a, dst a, apart),
      )

  -- A group leaves the rules of other keys as they are.
  pub step-other :
      (w w' : Work C P) (stale stale' : Map ServicesKey ℕ) (g : GroupChange) (k : ServicesKey)
      (from to : Address → Bool)
      → ValidIds w
      → GroupStep w stale g w' stale'
      → bytes_eq.beq g.key k ≡ false
      → Has client ok w k from to
      → Has client ok w' k from to
  step-other w w' stale stale' g k from to v (inl (e, i, s)) apart h =
      Installed-Has client ok w w' g.key k g.rule from to v i apart h
  step-other w w' stale stale' g k from to v (inr (id, e, t, s, r)) apart (other, found, shown) =
      let differ : (id == other) ≡ false = elim (Bool-cases (id == other)) [
        | inl same ↦
            let key =
              v.apart g.key k other (e ∙ ap (λ n. some n) ((==_iff id other).0 same)) found in
            let both : true ≡ false = sym ((bytes_eq.beq_iff g.key k).1 key) ∙ apart in cc both
        | inr other_id ↦ other_id
      ] in
      subst (λ (x : Work C P). Has client ok x k from to) (sym s)
        (other, found, updated-other w g from to id other t differ shown)

  pub step_self :
      (w w' : Work C P) (stale stale' : Map ServicesKey ℕ) (g : GroupChange)
      (from to : Address → Bool)
      → GroupStep w stale g w' stale'
      → ((get w.last.of_ids g.key ≡ none) ⊎ Has client ok w g.key from to)
      → Has client ok w' g.key (listed_in g.rule.from) (listed_in g.rule.to)
        ⊎ Has client ok w' g.key
            (after added_from deleted_from from)
            (after g.added_to g.deleted_to to)
  step_self w w' stale stale' g from to (inl (e, i, s)) before =
      inl (Installed-new client ok w w' g.key g.rule i)
  step_self w w' stale stale' g from to (inr (id, e, t, s, r)) (inl new) =
      let both : none ≡ some id = sym new ∙ e in cc both
  step_self w w' stale stale' g from to (inr (id, e, t, s, r)) (inr (other, found, shown)) =
      let both : some other ≡ some id = sym found ∙ e in
      let same : other ≡ id = cc both in
      inr (
        subst
          (λ (x : Work C P).
            Has client ok x g.key (after added_from deleted_from from)
              (after g.added_to g.deleted_to to))
          (sym s)
          (
            id,
            e,
            updated_self w g from to id t (subst (λ n. Shows ok w.client n from to) same shown),
          ))

  pub step-ValidIds :
      (w w' : Work C P) (stale stale' : Map ServicesKey ℕ) (g : GroupChange)
      → ValidIds w
      → GroupStep w stale g w' stale'
      → ValidIds w'
  step-ValidIds w w' stale stale' g v (inl (e, i, s)) =
      Installed-ValidIds client ok w w' g.key g.rule v i
  step-ValidIds w w' stale stale' g v (inr (id, e, t, s, r)) =
      subst ValidIds (sym s) (record { valid = v.valid; used = v.used; apart = v.apart })

  -- What a round does to the IDs and to the stale ones, under its own key and under others.
  pub step-of_ids :
      (w w' : Work C P) (stale stale' : Map ServicesKey ℕ) (g : GroupChange) (k : ServicesKey)
      → GroupStep w stale g w' stale'
      → bytes_eq.beq g.key k ≡ false
      → (get w'.last.of_ids k ≡ get w.last.of_ids k) × (get stale' k ≡ get stale k)
  step-of_ids w w' stale stale' g k (inl (e, i, s)) apart = (
    ap (λ m. get m k) i.of_ids
        ∙ get-put w.last.of_ids g.key k i.of_id
        ∙ rw (apart, if◌then◌else◌) refl,
    ap (λ m. get m k) s,
  )
  step-of_ids w w' stale stale' g k (inr (id, e, t, s, r)) apart = (
    ap (λ (x : Work C P). get x.last.of_ids k) s,
    ap (λ m. get m k) r ∙ get-remove stale g.key k ∙ rw (apart, if◌then◌else◌) refl,
  )

  pub step-stale :
      (w w' : Work C P) (stale stale' : Map ServicesKey ℕ) (g : GroupChange)
      → GroupStep w stale g w' stale'
      → get stale g.key ≡ get w.last.of_ids g.key
      → get stale' g.key ≡ none
  step-stale w w' stale stale' g (inl (e, i, s)) same = ap (λ m. get m g.key) s ∙ same ∙ e
  step-stale w w' stale stale' g (inr (id, e, t, s, r)) same =
      ap (λ m. get m g.key) r ∙ get-remove_self stale g.key

  pub step-Unique :
      (w w' : Work C P) (stale stale' : Map ServicesKey ℕ) (g : GroupChange)
      → GroupStep w stale g w' stale'
      → Unique stale
      → Unique stale'
  step-Unique w w' stale stale' g (inl (e, i, s)) u = subst Unique (sym s) u
  step-Unique w w' stale stale' g (inr (id, e, t, s, r)) u =
      subst Unique (sym r) (Unique-remove stale g.key u)
