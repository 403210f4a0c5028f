-- ===== src/Assigner/Insert.antt =====
-- insertConsecutivePriorities of pkg/agent/controller/networkpolicy/priority.go, where the range
-- between the neighbours has room: the new Priorities get numbers in the order of all Priorities.
use antrea.Common.{
  ℕ, zero, suc, ◌+◌, ◌%◌, ◌≤◌, ◌<◌, ◌≡◌, ◌⊎◌, inl, inr, refl, ap, sym, subst, true, false, Option,
  none, some, List, [], ◌∷◌, arith, Eq, nat_eq, leb, get, get-put_self, ◌∙◌, length, get_elem?, All,
  Bool-cases, Option-cases, add16, u16_mod,
}
use antrea.Priority.{policy_bottom_priority, policy_top_priority}
use antrea.Priority.Order.{Order}
use antrea.Sorted.{insertion_index, is_after}
use antrea.Sorted.Search.{FirstIndex}
use antrea.Sorted.Slices.{IsSorted, contains, insertion_index-FirstIndex}
use antrea.Sorted.Members.{All-contains}
use antrea.Sorted.Neighbours.{next_above, last_below, not_below_zero, get_elem?-contains}
use antrea.Assigner.State.{Assigner, Updates, Error, get_or_zero, update_priority_assignment}
use antrea.Assigner.Reassign.{assign_from}
use antrea.Assigner.Register.{
  gap16, insertion_point, last_of, lower_bound, upper_bound, insert_consecutive_priorities,
}
use antrea.Assigner.Window.{insertion_point_window}
use antrea.Assigner.Mapping.{IsValid, AllApart, assign_from-IsValid, get-assign_from}

room_left :
    (lower upper num : ℕ)
    → lower < upper
    → upper ≤ policy_top_priority
    → num + lower + 1 < upper
    → leb (gap16 lower upper) num ≡ false
room_left lower upper num a b c = ground arith

module _ {P : Type 0} ⦃e : Eq P⦄ ⦃o : Order P⦄ where
  at_listed :
      (pa : Assigner P) (q : P) (j : ℕ)
      → IsValid pa
      → get pa.priority_map q ≡ some j
      → contains q pa.sorted_priorities ≡ true
  at_listed pa q j v h = ground (arith, v.listed q)

  -- The Priority at an index of the slice has a number.
  number_at :
      (pa : Assigner P) (r : P) (m : ℕ)
      → IsValid pa
      → get_elem? pa.sorted_priorities m ≡ some r
      → (i : ℕ) × (get pa.priority_map r ≡ some i)
  number_at pa r m v g = elim (Option-cases (get pa.priority_map r)) [
    | inl n ↦ absurd (ground (arith, v.listed r, get_elem?-contains pa.sorted_priorities m r g))
    | inr found ↦ found
  ]

  -- No registered Priority below `p` has a number above the lower bound.
  le-lower_bound :
      (pa : Assigner P) (p q : P) (j k : ℕ)
      → IsValid pa
      → FirstIndex 0 (length pa.sorted_priorities) (is_after p pa.sorted_priorities) k
      → get pa.priority_map q ≡ some j
      → o.less q p ≡ true
      → j ≤ lower_bound pa k
  unfolding lower_bound
  le-lower_bound pa p q j zero v f h l =
      absurd (not_below_zero p q pa.sorted_priorities f (at_listed pa q j v h) l)
  le-lower_bound pa p q j (suc m) v f h l =
      let (r, g, le) = last_below p q pa.sorted_priorities m v.sorted f (at_listed pa q j v h) l in
      let (i, s) = number_at pa r m v g in
      rw (g, lower_bound) (rw (s, get_or_zero) (ground (arith, v.ordered q r j i h s)))

  -- No registered Priority above `p` has a number below the upper bound.
  upper_bound-le :
      (pa : Assigner P) (p q : P) (j k : ℕ)
      → IsValid pa
      → FirstIndex 0 (length pa.sorted_priorities) (is_after p pa.sorted_priorities) k
      → get pa.priority_map q ≡ some j
      → o.less p q ≡ true
      → upper_bound pa k ≤ j
  unfolding upper_bound
  upper_bound-le pa p q j k v f h l =
      let (r, g, le) = next_above p q pa.sorted_priorities k v.sorted f (at_listed pa q j v h) l in
      let (i, s) = number_at pa r k v g in
      rw (g, upper_bound) (rw (s, get_or_zero) (ground (arith, v.ordered r q i j s h)))

  -- What is asked of the guesses for the lowest and the highest of `num` Priorities: they are as far
  -- apart as consecutive Priorities are, unless the lowest is the bottom of the table.
  abbrev pub GuessesFit : Assigner P → P → List P → Type 0
  GuessesFit pa p ps =
      policy_bottom_priority < pa.initial_of_priority_func p pa.is_single_tier
      → pa.initial_of_priority_func p pa.is_single_tier + length (p ∷ ps)
        ≤ pa.initial_of_priority_func (last_of p ps) pa.is_single_tier + 1

  -- The bounds of the insertion of `p`.
  abbrev pub lower_of : Assigner P → P → ℕ
  lower_of pa p = lower_bound pa (insertion_index p pa.sorted_priorities)

  abbrev pub upper_of : Assigner P → P → ℕ
  upper_of pa p = upper_bound pa (insertion_index p pa.sorted_priorities)

  -- No registered Priority lies between, or is one of, the new ones.
  abbrev pub NoneBetween : Assigner P → List P → Type 0
  NoneBetween pa ps =
      (q : P) (j : ℕ)
      → get pa.priority_map q ≡ some j
      → All (λ x. o.less q x ≡ true) ps ⊎ All (λ x. o.less x q ≡ true) ps

  -- The bounds enclose more numbers than there are new Priorities.
  pub record HasRoom (pa : Assigner P) (p : P) (ps : List P) : Type 0 where
    pub above_bottom : policy_bottom_priority ≤ lower_of pa p
    pub apart : lower_of pa p < upper_of pa p
    pub below_top : upper_of pa p ≤ policy_top_priority
    pub room : length (p ∷ ps) + lower_of pa p + 1 < upper_of pa p

  -- The number of the first new Priority.
  abbrev pub start_of : Assigner P → P → List P → ℕ
  start_of pa p ps =
      insertion_point (pa.initial_of_priority_func p pa.is_single_tier)
        (pa.initial_of_priority_func (last_of p ps) pa.is_single_tier) (lower_of pa p)
        (upper_of pa p) (length (p ∷ ps) % u16_mod)

  window :
      (pa : Assigner P) (p : P) (ps : List P)
      → HasRoom pa p ps
      → GuessesFit pa p ps
      → (leb (gap16 (lower_of pa p) (upper_of pa p)) (length (p ∷ ps) % u16_mod) ≡ false)
        × ((lower_of pa p < start_of pa p ps)
            × (start_of pa p ps + length (p ∷ ps) ≤ upper_of pa p))
  window pa p ps r guess =
      let small : length (p ∷ ps) % u16_mod ≡ length (p ∷ ps) =
        omega (arith, r.room, r.below_top) in
      rw small (
        room_left (lower_of pa p) (upper_of pa p) (length (p ∷ ps)) r.apart r.below_top r.room,
        insertion_point_window (pa.initial_of_priority_func p pa.is_single_tier)
            (pa.initial_of_priority_func (last_of p ps) pa.is_single_tier) (lower_of pa p)
            (upper_of pa p) (length (p ∷ ps)) r.above_bottom r.apart r.below_top (omega arith)
            (room_left (lower_of pa p) (upper_of pa p) (length (p ∷ ps)) r.apart r.below_top r.room)
            guess,
      )

  new_apart :
      (pa : Assigner P) (p : P) (ps : List P)
      → IsValid pa
      → HasRoom pa p ps
      → GuessesFit pa p ps
      → NoneBetween pa (p ∷ ps)
      → AllApart pa (start_of pa p ps) (p ∷ ps)
  new_apart pa p ps v r guess none_between q j h =
      let f = insertion_index-FirstIndex p pa.sorted_priorities v.sorted in
      let w = window pa p ps r guess in
      elim (none_between q j h) [
        | inl below ↦
            let le =
              le-lower_bound pa p q j (insertion_index p pa.sorted_priorities) v f h below.0 in
            inl (below, omega (arith, le, w.1.0))
        | inr above ↦
            let le =
              upper_bound-le pa p q j (insertion_index p pa.sorted_priorities) v f h above.0 in
            inr (above, omega (arith, le, w.1.1))
      ]

  insert_result :
      (capacity : ℕ → ℕ) (pa : Assigner P) (p : P) (ps : List P) (updates : Updates P)
      → HasRoom pa p ps
      → GuessesFit pa p ps
      → insert_consecutive_priorities capacity pa (p ∷ ps) updates
        ≡ (assign_from (start_of pa p ps) (p ∷ ps) pa, updates, none)
  unfolding insert_consecutive_priorities
  insert_result capacity pa p ps updates r guess = rw ((window pa p ps r guess).0) refl

  not_in_tail : (p : P) (ps : List P) → IsSorted (p ∷ ps) → contains p ps ≡ false
  not_in_tail p ps s = elim (Bool-cases (contains p ps)) [
    | inr absent ↦ absent
    | inl there ↦ absurd (o.less_irrefl p (All-contains (λ y. o.less p y ≡ true) ps p s.0 there))
  ]

  assign_from-cons :
      (start : ℕ) (p : P) (ps : List P) (pa : Assigner P)
      → start + 1 < u16_mod
      → assign_from start (p ∷ ps) pa
        ≡ assign_from (start + 1) ps (update_priority_assignment pa start p)
  unfolding assign_from
  assign_from-cons start p ps pa few =
      let next : add16 start 1 ≡ start + 1 = omega arith in rw next refl

  -- The members of the list get the numbers from `start` on.
  number_of :
      (start : ℕ) (ps : List P) (pa : Assigner P) (q : P)
      → IsSorted ps
      → start + length ps < u16_mod
      → contains q ps ≡ true
      → (j : ℕ) × (get (assign_from start ps pa).priority_map q ≡ some j)
        × (start ≤ j)
        × (j < start + length ps)
  unfolding contains
  number_of start [] pa q s few c = absurd (cc)
  number_of start (p ∷ ps) pa q s few c = elim (Bool-cases (e.beq p q)) [
    | inl same ↦ (
      start,
      subst (λ x. get (assign_from start (p ∷ ps) pa).priority_map x ≡ some start)
          ((e.beq_iff p q).0 same)
          (unfold assign_from update_priority_assignment in
            (get-assign_from (add16 start 1) ps (update_priority_assignment pa start p) p
                (not_in_tail p ps s)
              ∙ get-put_self pa.priority_map p start)),
      omega arith,
      omega arith,
    )
    | inr other ↦
        let (j, g, lo, hi) =
          number_of (start + 1) ps (update_priority_assignment pa start p) q s.1 (omega arith)
            (ground arith) in
        (
          j,
          ap (λ x. get (Assigner.priority_map x) q) (assign_from-cons start p ps pa (omega arith))
              ∙ g,
          omega arith,
          omega arith,
        )
  ]

  -- A registration that kept all in order: no error, no update of another Priority, and each new
  -- Priority has a number strictly between the bounds.
  pub record Inserted (pa : Assigner P) (p : P) (ps : List P) (updates : Updates P)
      (r : Assigner P × Updates P × Option Error) : Type 0 where
    pub valid : IsValid r.0
    pub no_error : r.2 ≡ none
    pub no_updates : r.1 ≡ updates
    pub numbered :
        (q : P)
        → contains q (p ∷ ps) ≡ true
        → (j : ℕ) × (get r.0.priority_map q ≡ some j) × (lower_of pa p < j) × (j < upper_of pa p)
    pub unmoved :
        (q : P) → contains q (p ∷ ps) ≡ false → get r.0.priority_map q ≡ get pa.priority_map q

  -- Where the numbers between the neighbours are more than the new Priorities, and the guesses for
  -- the lowest and the highest of these are at least as far apart as the run is long, unless that
  -- for the lowest is the bottom of the table, the insertion of an ascending run, with no
  -- registered Priority within it, succeeds and moves no other Priority: the maps and the slice
  -- agree afterwards, each new Priority has a number strictly between those of its neighbours, and
  -- the numbers of all Priorities, old and new, stand in their order.
  pub insert_consecutive-Inserted :
      (capacity : ℕ → ℕ) (pa : Assigner P) (p : P) (ps : List P) (updates : Updates P)
      → IsValid pa
      → IsSorted (p ∷ ps)
      → HasRoom pa p ps
      → GuessesFit pa p ps
      → NoneBetween pa (p ∷ ps)
      → Inserted pa p ps updates (insert_consecutive_priorities capacity pa (p ∷ ps) updates)
  insert_consecutive-Inserted capacity pa p ps updates v s r guess none_between =
      let w = window pa p ps r guess in
      let few : start_of pa p ps + length (p ∷ ps) < u16_mod = omega (arith, w.1.1, r.below_top) in
      subst (Inserted pa p ps updates) (sym (insert_result capacity pa p ps updates r guess))
        (record {
          valid =
              assign_from-IsValid (start_of pa p ps) (p ∷ ps) pa v s few
                (new_apart pa p ps v r guess none_between);
          no_error = refl;
          no_updates = refl;
          numbered = λ q c.
              let (j, g, lo, hi) = number_of (start_of pa p ps) (p ∷ ps) pa q s few c in
              (j, g, omega (arith, w.1.0), omega (arith, w.1.1));
          unmoved = λ q c. get-assign_from (start_of pa p ps) (p ∷ ps) pa q c;
        })
