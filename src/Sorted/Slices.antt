-- ===== src/Sorted/Slices.antt =====
-- The sorted slice of pkg/agent/controller/networkpolicy/priority.go: binary search with the moves of
-- elements is insertion and deletion in a strictly ascending list.
use antrea.Common.{
  ℕ, zero, suc, ◌+◌, ◌-◌, ◌≤◌, ◌<◌, ◌≡◌, inl, inr, refl, ap, sym, subst, Option-cases, ◌∙◌, Bool,
  true, false, ◌||◌, List, [], ◌∷◌, arith, Eq, ◌==◌, if◌then◌else◌, length, get_elem?, All,
  All-mono, Bool-cases,
}
use antrea.Priority.Order.{Order}
use antrea.Sorted.{
  is_after, insertion_index, insert_at, delete_at, insert_priority, delete_if_equal,
  delete_priority,
}
use antrea.Sorted.Search.{FirstIndex, sort_search-FirstIndex}

module _ {P : Type 0} ⦃e : Eq P⦄ ⦃o : Order P⦄ where
  -- Strictly ascending by Less.
  abbrev pub IsSorted : List P → Type 0
  IsSorted [] = Unit
  IsSorted (x ∷ xs) = All (λ y. o.less x y ≡ true) xs × IsSorted xs

  unfoldable pub contains : P → List P → Bool
  contains p [] = false
  contains p (q ∷ qs) = e.beq q p || contains p qs

  -- The reference definitions.
  unfoldable pub place : P → List P → List P
  place p [] = p ∷ []
  place p (q ∷ qs) = let rest = place p qs in if o.less p q then p ∷ q ∷ qs else q ∷ rest

  unfoldable pub without : P → List P → List P
  without p [] = []
  without p (q ∷ qs) = let rest = without p qs in if e.beq p q then rest else q ∷ rest

  every_after :
      (p : P) (xs : List P) (b : ℕ)
      → All (λ y. o.less p y ≡ true) xs
      → b < length xs
      → is_after p xs b ≡ true
  unfolding is_after
  every_after p [] b h l = absurd (omega arith)
  every_after p (x ∷ xs) zero h l = h.0
  every_after p (x ∷ xs) (suc b) h l = every_after p xs b h.1 (omega arith)

  is_after-stays :
      (p : P) (xs : List P)
      → IsSorted xs
      → (a b : ℕ) → a ≤ b
      → b < length xs
      → is_after p xs a ≡ true
      → is_after p xs b ≡ true
  unfolding is_after
  is_after-stays p [] s a b h l t = absurd (omega arith)
  is_after-stays p (x ∷ xs) s zero zero h l t = t
  is_after-stays p (x ∷ xs) s (suc a) zero h l t = absurd (omega arith)
  is_after-stays p (x ∷ xs) s zero (suc b) h l t =
      every_after p xs b (All-mono (λ y q. o.less_trans p x y t q) xs s.0) (omega arith)
  is_after-stays p (x ∷ xs) s (suc a) (suc b) h l t =
      is_after-stays p xs s.1 a b (omega arith) (omega arith) t

  pub insertion_index-FirstIndex :
      (p : P) (xs : List P)
      → IsSorted xs
      → FirstIndex 0 (length xs) (is_after p xs) (insertion_index p xs)
  unfolding insertion_index
  insertion_index-FirstIndex p xs s =
      sort_search-FirstIndex (length xs) (is_after p xs) (is_after-stays p xs s)

  pub FirstIndex-tail :
      (p x : P) (xs : List P) (k : ℕ)
      → FirstIndex 0 (suc (length xs)) (is_after p (x ∷ xs)) (suc k)
      → FirstIndex 0 (length xs) (is_after p xs) k
  unfolding is_after
  FirstIndex-tail p x xs k r = record {
    lower = omega arith;
    upper = omega (arith, r.upper);
    before = λ a h l. r.before (suc a) (omega arith) (omega arith);
    from = λ a h l. r.from (suc a) (omega arith) (omega arith);
  }

  insert_at-place :
      (p : P) (xs : List P) (k : ℕ)
      → FirstIndex 0 (length xs) (is_after p xs) k
      → insert_at k p xs ≡ place p xs
  unfolding insert_at place is_after
  insert_at-place p [] zero r = refl
  insert_at-place p [] (suc k) r = absurd (omega (arith, r.upper))
  insert_at-place p (x ∷ xs) zero r = rw (r.from 0 (omega arith) (omega arith)) refl
  insert_at-place p (x ∷ xs) (suc k) r =
      rw (r.before 0 (omega arith) (omega arith))
        (ap (◌∷◌ x) (insert_at-place p xs k (FirstIndex-tail p x xs k r)))

  -- The binary search with the moves is insertion in order.
  pub insert_priority-place :
      (p : P) (xs : List P) → IsSorted xs → insert_priority p xs ≡ place p xs
  unfolding insert_priority
  insert_priority-place p xs s = insert_at-place p xs _ (insertion_index-FirstIndex p xs s)

  without_after : (p : P) (xs : List P) → All (λ y. o.less p y ≡ true) xs → without p xs ≡ xs
  unfolding without
  without_after p [] h = refl
  without_after p (x ∷ xs) h = elim (Bool-cases (e.beq p x)) [
    | inl same ↦ absurd (o.less_irrefl p (rw (← (e.beq_iff p x).0 same) at (h.0)))
    | inr other ↦ rw other (ap (◌∷◌ x) (without_after p xs h.1))
  ]

  pub every_after_zero :
      (p : P) (xs : List P)
      → FirstIndex 0 (length xs) (is_after p xs) 0
      → All (λ y. o.less p y ≡ true) xs
  unfolding is_after
  every_after_zero p [] r = tt
  every_after_zero p (x ∷ xs) r = (
    r.from 0 (omega arith) (omega arith),
    every_after_zero p xs (record {
      lower = omega arith;
      upper = omega arith;
      before = λ a h l. absurd (omega arith);
      from = λ a h l. r.from (suc a) (omega arith) (omega arith);
    }),
  )

  delete_at-cons : (i : ℕ) (x : P) (xs : List P) → delete_at (suc i) (x ∷ xs) ≡ x ∷ delete_at i xs
  unfolding delete_at
  delete_at-cons i x xs = let h : suc i + 1 ≡ suc (i + 1) = omega arith in rw h refl

  delete_if_equal-cons :
      (i : ℕ) (p x : P) (xs : List P)
      → delete_if_equal (suc i) p (x ∷ xs) ≡ x ∷ delete_if_equal i p xs
  unfolding delete_if_equal
  delete_if_equal-cons i p x xs = elim (Option-cases (get_elem? xs i)) [
    | inl n ↦ rw (n, delete_if_equal) refl
    | inr (q, h) ↦
        rw (h, delete_if_equal)
          (elim (Bool-cases (e.beq p q)) [
            | inl same ↦ rw same (delete_at-cons i x xs)
            | inr other ↦ rw other refl
          ])
  ]

  delete_if_equal-without :
      (p : P) (xs : List P) (i : ℕ)
      → IsSorted xs
      → FirstIndex 0 (length xs) (is_after p xs) (suc i)
      → delete_if_equal i p xs ≡ without p xs
  unfolding without is_after
  delete_if_equal-without p [] i s r = absurd (omega (arith, r.upper))
  delete_if_equal-without p (x ∷ xs) zero s r = elim (Bool-cases (e.beq p x)) [
    | inl same ↦
        unfold delete_if_equal delete_at in
        rw same (
          sym (
            without_after p xs
              (subst (λ y. All (λ z. o.less y z ≡ true) xs) (sym ((e.beq_iff p x).0 same)) s.0)))
    | inr other ↦
        unfold delete_if_equal in
        rw other (
          ap (◌∷◌ x)
            (sym (without_after p xs (every_after_zero p xs (FirstIndex-tail p x xs 0 r)))))
  ]
  delete_if_equal-without p (x ∷ []) (suc i) s r = absurd (omega (arith, r.upper))
  delete_if_equal-without p (x ∷ y ∷ ys) (suc i) s r =
      let not_less : o.less p y ≡ false = r.before 1 (omega arith) (omega arith) in
      let other : e.beq p x ≡ false = ground (arith, e.beq_iff p x, s.0.0) in
      rw other (
        delete_if_equal-cons i p x (y ∷ ys)
        ∙ ap (◌∷◌ x)
            (delete_if_equal-without p (y ∷ ys) i s.1 (FirstIndex-tail p x (y ∷ ys) (suc i) r)))

  -- Deletion by binary search is deletion of the element, if it is there.
  pub delete_priority-without :
      (p : P) (xs : List P) → IsSorted xs → delete_priority p xs ≡ without p xs
  unfolding delete_priority
  delete_priority-without p xs s = go (insertion_index p xs) (insertion_index-FirstIndex p xs s)
    where
      go :
          (k : ℕ)
          → FirstIndex 0 (length xs) (is_after p xs) k
          → (if k == 0 then xs else delete_if_equal (k - 1) p xs) ≡ without p xs
      go zero r = sym (without_after p xs (every_after_zero p xs r))
      go (suc k) r =
          let h : suc k - 1 ≡ k = omega arith in
          let z : (suc k == 0) ≡ false = ground arith in
          rw z (rw h (delete_if_equal-without p xs k s r))
