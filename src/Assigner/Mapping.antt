-- ===== src/Assigner/Mapping.antt =====
-- The two maps and the sorted slice of the priorityAssigner in
-- pkg/agent/controller/networkpolicy/priority.go agree, and OpenFlow priorities stand in the order of
-- the Priorities.
use antrea.Common.{
  ℕ, ◌+◌, ◌≤◌, ◌<◌, ◌≡◌, ◌⊎◌, inl, inr, refl, subst, Bool, true, false, Option, none, some, List,
  [], ◌∷◌, arith, Eq, nat_eq, ◌==◌, ==_iff, if◌then◌else◌, get, remove, get-put, get-remove, length,
  All, Bool-cases, Option-cases, add16, u16_mod,
}
use antrea.Priority.Order.{Order}
use antrea.Sorted.Slices.{IsSorted, contains}
use antrea.Sorted.Members.{insert_priority-IsSorted, delete_priority-IsSorted}
use antrea.Assigner.State.{
  Assigner, new_priority_assigner, update_priority_assignment, get_of_priority,
  delete_priority_mapping, unregister_priority, release,
}
use antrea.Assigner.Reassign.{assign_from}

abbrev pub is_some {ℓ} : {A : Type ℓ} → Option A → Bool
is_some none = false
is_some (some a) = true

module _ {P : Type 0} ⦃e : Eq P⦄ ⦃o : Order P⦄ where
  pub record IsValid (pa : Assigner P) : Type 0 where
    pub sorted : IsSorted pa.sorted_priorities
    pub listed : (p : P) → contains p pa.sorted_priorities ≡ is_some (get pa.priority_map p)
    pub forward :
        (p : P) (i : ℕ) → get pa.priority_map p ≡ some i → get pa.of_priority_map i ≡ some p
    pub backward :
        (p : P) (i : ℕ) → get pa.of_priority_map i ≡ some p → get pa.priority_map p ≡ some i
    pub ordered :
        (p q : P) (i j : ℕ)
        → get pa.priority_map p ≡ some i
        → get pa.priority_map q ≡ some j
        → o.less p q ≡ true
        → i < j

  pub new_priority_assigner-IsValid :
      (f : P → Bool → ℕ) (single : Bool) → IsValid (new_priority_assigner f single)
  unfolding new_priority_assigner get contains
  new_priority_assigner-IsValid f single = record {
    sorted = tt;
    listed = λ p. refl;
    forward = λ p i h. absurd (cc);
    backward = λ p i h. absurd (cc);
    ordered = λ p q i j h k l. absurd (cc);
  }

  -- `p` fits at `i` among the registered Priorities.
  abbrev pub Fits : Assigner P → ℕ → P → Type 0
  Fits pa i p =
      (q : P) (j : ℕ)
      → get pa.priority_map q ≡ some j
      → ((o.less q p ≡ true) × (j < i)) ⊎ ((o.less p q ≡ true) × (i < j))

  Fits-new : (pa : Assigner P) (i : ℕ) (p : P) → Fits pa i p → get pa.priority_map p ≡ none
  Fits-new pa i p fits = elim (Option-cases (get pa.priority_map p)) [
    | inl n ↦ n
    | inr (j, s) ↦ elim (fits p j s) [
      | inl (l, _) ↦ absurd (o.less_irrefl p l)
      | inr (l, _) ↦ absurd (o.less_irrefl p l)
    ]
  ]

  Fits-free :
      (pa : Assigner P) (i : ℕ) (p : P) → IsValid pa → Fits pa i p → get pa.of_priority_map i ≡ none
  Fits-free pa i p v fits = elim (Option-cases (get pa.of_priority_map i)) [
    | inl n ↦ n
    | inr (q, s) ↦ elim (fits q i (v.backward q i s)) [
      | inl (_, l) ↦ absurd (omega arith)
      | inr (_, l) ↦ absurd (omega arith)
    ]
  ]

  pub update-IsValid :
      (pa : Assigner P) (i : ℕ) (p : P)
      → IsValid pa
      → Fits pa i p
      → IsValid (update_priority_assignment pa i p)
  unfolding update_priority_assignment
  update-IsValid pa i p v fits =
      let new = Fits-new pa i p fits in
      let free = Fits-free pa i p v fits in
      let absent : contains p pa.sorted_priorities ≡ false = ground (arith, v.listed p) in
      let ins = insert_priority-IsSorted p pa.sorted_priorities v.sorted absent in
      rw new (record {
        sorted = ins.0;
        listed = λ q. ground (arith, ins.1 q, v.listed q, get-put pa.priority_map p q i);
        forward = λ q j h. ground (
          arith,
          get-put pa.priority_map p q i,
          get-put pa.of_priority_map i j p,
          e.beq_iff p q,
          ==_iff i j,
          v.forward q j,
        );
        backward = λ q j h. ground (
          arith,
          get-put pa.priority_map p q i,
          get-put pa.of_priority_map i j p,
          e.beq_iff p q,
          ==_iff i j,
          v.backward q j,
        );
        ordered = λ q r j k h l m. ground (
          arith,
          get-put pa.priority_map p q i,
          get-put pa.priority_map p r i,
          e.beq_iff p q,
          e.beq_iff p r,
          v.ordered q r j k,
          fits q j,
          fits r k,
          o.less_irrefl p,
          o.less_irrefl q,
          o.less_trans p q p,
          o.less_trans p r p,
        );
      })

  remove-IsValid :
      (pa : Assigner P) (i : ℕ) (p : P)
      → IsValid pa
      → get pa.of_priority_map i ≡ some p
      → IsValid (unregister_priority (delete_priority_mapping pa i p) p)
  unfolding unregister_priority delete_priority_mapping
  remove-IsValid pa i p v at_i =
      let del = delete_priority-IsSorted p pa.sorted_priorities v.sorted in
      let of_p = v.backward p i at_i in
      record {
        sorted = del.0;
        listed = λ q. ground (arith, del.1 q, v.listed q, get-remove pa.priority_map p q);
        forward = λ q j h. ground (
          arith,
          get-remove pa.priority_map p q,
          get-remove pa.of_priority_map i j,
          e.beq_iff p q,
          ==_iff i j,
          v.forward q j,
        );
        backward = λ q j h. ground (
          arith,
          get-remove pa.priority_map p q,
          get-remove pa.of_priority_map i j,
          e.beq_iff p q,
          ==_iff i j,
          v.backward q j,
        );
        ordered = λ q r j k h l m. ground (
          arith,
          get-remove pa.priority_map p q,
          get-remove pa.priority_map p r,
          v.ordered q r j k,
        );
      }

  -- Releasing an OpenFlow priority keeps the maps in agreement and in order, frees the number and
  -- takes the number from the Priority that had it; an unknown number changes nothing, and every
  -- other Priority keeps its number.
  pub release-IsValid :
      (pa : Assigner P) (i : ℕ) (q : P)
      → IsValid pa
      → IsValid (release pa i)
        × (get (release pa i).of_priority_map i ≡ none)
        × (get_of_priority (release pa i) q ≡ (elim (get pa.priority_map q) [
          | none ↦ none
          | some j ↦ if j == i then none else some j
        ]))
  unfolding release get_of_priority
  release-IsValid pa i q v = elim (Option-cases (get pa.of_priority_map i)) [
    | inl n ↦ rw (n, release) (v, n, kept (Option-cases (get pa.priority_map q)) n)
    | inr (p, s) ↦
        rw (s, release)
          (
            remove-IsValid pa i p v s,
            ground (arith, get-remove pa.of_priority_map i i, ==_iff i i),
            taken p s (Option-cases (get pa.priority_map q)),
          )
  ]
    where
      kept :
          (get pa.priority_map q ≡ none) ⊎ ((j : ℕ) × (get pa.priority_map q ≡ some j))
          → get pa.of_priority_map i ≡ none
          → get pa.priority_map q ≡ (elim (get pa.priority_map q) [
            | none ↦ none
            | some j ↦ if j == i then none else some j
          ])
      kept (inl h) n = rw h refl
      kept (inr (j, h)) n =
          let ne : (j == i) ≡ false = ground (arith, ==_iff j i, v.forward q j h) in
          rw h (rw ne refl)

      taken :
          (p : P)
          → get pa.of_priority_map i ≡ some p
          → (get pa.priority_map q ≡ none) ⊎ ((j : ℕ) × (get pa.priority_map q ≡ some j))
          → get (remove pa.priority_map p) q ≡ (elim (get pa.priority_map q) [
            | none ↦ none
            | some j ↦ if j == i then none else some j
          ])
      taken p s (inl h) = rw h (ground (arith, get-remove pa.priority_map p q))
      taken p s (inr (j, h)) = rw h (
          ground (
            arith,
            get-remove pa.priority_map p q,
            e.beq_iff p q,
            ==_iff j i,
            v.forward q j h,
            v.backward p i s,
          ))

  -- A registered Priority at `j` lies below or above all of `ps` at `start` and on, in both orders.
  abbrev pub Apart : P → ℕ → ℕ → List P → Type 0
  Apart q j start ps =
      (All (λ p. o.less q p ≡ true) ps × (j < start))
      ⊎ (All (λ p. o.less p q ≡ true) ps × (start + length ps ≤ j))

  abbrev pub AllApart : Assigner P → ℕ → List P → Type 0
  AllApart pa start ps = (q : P) (j : ℕ) → get pa.priority_map q ≡ some j → Apart q j start ps

  pub AllApart-head :
      (pa : Assigner P) (start : ℕ) (p : P) (ps : List P)
      → AllApart pa start (p ∷ ps)
      → Fits pa start p
  AllApart-head pa start p ps apart q j h = elim (apart q j h) [
    | inl (l, lt) ↦ inl (l.0, lt)
    | inr (l, le) ↦ inr (l.0, omega arith)
  ]

  pub AllApart-tail :
      (pa : Assigner P) (start : ℕ) (p : P) (ps : List P)
      → IsSorted (p ∷ ps)
      → AllApart pa start (p ∷ ps)
      → AllApart (update_priority_assignment pa start p) (start + 1) ps
  unfolding update_priority_assignment
  AllApart-tail pa start p ps s apart q j h = elim (Bool-cases (e.beq p q)) [
    | inl same ↦
        let at_start : j ≡ start = ground (arith, get-put pa.priority_map p q start) in
        inl (subst (λ x. All (λ y. o.less x y ≡ true) ps) ((e.beq_iff p q).0 same) s.0, omega arith)
    | inr other ↦ elim (apart q j (ground (arith, get-put pa.priority_map p q start))) [
      | inl (l, lt) ↦ inl (l.1, omega arith)
      | inr (l, le) ↦ inr (l.1, omega arith)
    ]
  ]

  -- An ascending list that lies apart from all registered Priorities takes consecutive numbers.
  pub assign_from-IsValid :
      (start : ℕ) (ps : List P) (pa : Assigner P)
      → IsValid pa
      → IsSorted ps
      → start + length ps < u16_mod
      → AllApart pa start ps
      → IsValid (assign_from start ps pa)
  unfolding assign_from
  assign_from-IsValid start [] pa v s few apart = v
  assign_from-IsValid start (p ∷ ps) pa v s few apart =
      let next : add16 start 1 ≡ start + 1 = omega arith in
      rw next (
        assign_from-IsValid (start + 1) ps (update_priority_assignment pa start p)
          (update-IsValid pa start p v (AllApart-head pa start p ps apart)) s.1 (omega arith)
          (AllApart-tail pa start p ps s apart))

  -- Which numbers the list gets.
  pub get-assign_from :
      (start : ℕ) (ps : List P) (pa : Assigner P) (q : P)
      → contains q ps ≡ false
      → get (assign_from start ps pa).priority_map q ≡ get pa.priority_map q
  unfolding assign_from contains update_priority_assignment
  get-assign_from start [] pa q h = refl
  get-assign_from start (p ∷ ps) pa q h = ground (
    arith,
    get-assign_from (add16 start 1) ps (update_priority_assignment pa start p) q,
    get-put pa.priority_map p q start,
  )
