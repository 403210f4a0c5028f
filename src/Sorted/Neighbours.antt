-- ===== src/Sorted/Neighbours.antt =====
-- The neighbours of the insertion point in the sorted slice of
-- pkg/agent/controller/networkpolicy/priority.go.
use antrea.Common.{
  ℕ, zero, suc, ◌<◌, ◌≡◌, ◌⊎◌, inl, inr, refl, sym, subst, true, false, some, List, [], ◌∷◌, arith,
  Eq, length, get_elem?, Bool-cases,
}
use antrea.Priority.Order.{Order}
use antrea.Sorted.{is_after}
use antrea.Sorted.Search.{FirstIndex}
use antrea.Sorted.Slices.{IsSorted, contains, FirstIndex-tail, every_after_zero}
use antrea.Sorted.Members.{All-contains}

module _ {P : Type 0} ⦃e : Eq P⦄ ⦃o : Order P⦄ where
  pub contains-get_elem? :
      (xs : List P) (m : ℕ)
      → m < length xs
      → (r : P) × (get_elem? xs m ≡ some r) × (contains r xs ≡ true)
  unfolding contains
  contains-get_elem? [] m h = absurd (omega arith)
  contains-get_elem? (x ∷ xs) zero h = (x, refl, ground (arith, e.beq_iff x x))
  contains-get_elem? (x ∷ xs) (suc m) h =
      let (r, g, c) = contains-get_elem? xs m (omega arith) in (r, g, ground arith)

  -- The element at the insertion point is the least of those above.
  pub next_above :
      (p q : P) (xs : List P) (k : ℕ)
      → IsSorted xs
      → FirstIndex 0 (length xs) (is_after p xs) k
      → contains q xs ≡ true
      → o.less p q ≡ true
      → (r : P) × (get_elem? xs k ≡ some r) × ((q ≡ r) ⊎ (o.less r q ≡ true))
  unfolding contains is_after
  next_above p q [] k s f c l = absurd (cc)
  next_above p q (x ∷ xs) zero s f c l = (
    x,
    refl,
    elim (Bool-cases (e.beq x q)) [
      | inl same ↦ inl (sym ((e.beq_iff x q).0 same))
      | inr other ↦ inr (All-contains (λ y. o.less x y ≡ true) xs q s.0 (ground arith))
    ],
  )
  next_above p q (x ∷ xs) (suc k) s f c l =
      let not_after : o.less p x ≡ false = f.before 0 (omega arith) (omega arith) in
      next_above p q xs k s.1 (FirstIndex-tail p x xs k f) (ground (arith, e.beq_iff x q)) l

  pub not_below_zero :
      (p q : P) (xs : List P)
      → FirstIndex 0 (length xs) (is_after p xs) 0
      → contains q xs ≡ true
      → o.less q p ≡ true
      → ⊥
  not_below_zero p q xs f c l = o.less_irrefl p (
      o.less_trans p q p (All-contains (λ y. o.less p y ≡ true) xs q (every_after_zero p xs f) c) l)

  -- The element before the insertion point is the greatest of those below.
  pub last_below :
      (p q : P) (xs : List P) (m : ℕ)
      → IsSorted xs
      → FirstIndex 0 (length xs) (is_after p xs) (suc m)
      → contains q xs ≡ true
      → o.less q p ≡ true
      → (r : P) × (get_elem? xs m ≡ some r) × ((q ≡ r) ⊎ (o.less q r ≡ true))
  unfolding contains
  last_below p q [] m s f c l = absurd (cc)
  last_below p q (x ∷ xs) zero s f c l = elim (Bool-cases (e.beq x q)) [
    | inl same ↦ (x, refl, inl (sym ((e.beq_iff x q).0 same)))
    | inr other ↦ absurd (not_below_zero p q xs (FirstIndex-tail p x xs 0 f) (ground arith) l)
  ]
  last_below p q (x ∷ xs) (suc m) s f c l = elim (Bool-cases (e.beq x q)) [
    | inl same ↦
        let (r, g, k) = contains-get_elem? xs m (omega (arith, f.upper)) in
        (
          r,
          g,
          inr (
              subst (λ y. o.less y r ≡ true) ((e.beq_iff x q).0 same)
                (All-contains (λ y. o.less x y ≡ true) xs r s.0 k)),
        )
    | inr other ↦ last_below p q xs m s.1 (FirstIndex-tail p x xs (suc m) f) (ground arith) l
  ]

  pub get_elem?-contains :
      (xs : List P) (m : ℕ) (r : P) → get_elem? xs m ≡ some r → contains r xs ≡ true
  unfolding contains
  get_elem?-contains [] m r h = absurd (cc)
  get_elem?-contains (x ∷ xs) zero r h = ground (arith, e.beq_iff x r)
  get_elem?-contains (x ∷ xs) (suc m) r h = ground (arith, get_elem?-contains xs m r h)
