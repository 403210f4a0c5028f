-- ===== src/Sorted/Members.antt =====
-- Order and members of the sorted slice of pkg/agent/controller/networkpolicy/priority.go under
-- insertion, deletion and sort.Sort.
use antrea.Common.{
  ◌≡◌, inl, inr, refl, subst, true, false, ◌||◌, List, [], ◌∷◌, arith, Eq, if◌then◌else◌, All,
  All-mono, Bool-cases,
}
use antrea.Priority.Order.{Order}
use antrea.Sorted.{insert_priority, delete_priority}
use antrea.Sorted.Slices.{
  IsSorted, contains, place, without, insert_priority-place, delete_priority-without,
}

module _ {P : Type 0} ⦃e : Eq P⦄ ⦃o : Order P⦄ where
  All-place {κ} : (Q : P → Type κ) (p : P) (xs : List P) → Q p → All Q xs → All Q (place p xs)
  unfolding place
  All-place Q p [] h a = (h, tt)
  All-place Q p (x ∷ xs) h a = elim (Bool-cases (o.less p x)) [
    | inl lt ↦ rw lt (h, a)
    | inr ge ↦ rw ge (a.0, All-place Q p xs h a.1)
  ]

  All-without {κ} : (Q : P → Type κ) (p : P) (xs : List P) → All Q xs → All Q (without p xs)
  unfolding without
  All-without Q p [] a = tt
  All-without Q p (x ∷ xs) a = elim (Bool-cases (e.beq p x)) [
    | inl same ↦ rw same (All-without Q p xs a.1)
    | inr other ↦ rw other (a.0, All-without Q p xs a.1)
  ]

  pub contains-place :
      (p q : P) (xs : List P) → contains q (place p xs) ≡ e.beq p q || contains q xs
  unfolding contains place
  contains-place p q [] = refl
  contains-place p q (x ∷ xs) = ground (arith, contains-place p q xs)

  pub contains-without :
      (p q : P) (xs : List P)
      → contains q (without p xs) ≡ (if e.beq p q then false else contains q xs)
  unfolding contains without
  contains-without p q [] = ground arith
  contains-without p q (x ∷ xs) =
      ground (arith, contains-without p q xs, e.beq_iff p x, e.beq_iff x q, e.beq_iff p q)

  IsSorted-place :
      (p : P) (xs : List P) → IsSorted xs → contains p xs ≡ false → IsSorted (place p xs)
  unfolding contains place
  IsSorted-place p [] s n = (tt, tt)
  IsSorted-place p (x ∷ xs) s n = elim (Bool-cases (o.less p x)) [
    | inl lt ↦ rw lt ((lt, All-mono (λ y q. o.less_trans p x y lt q) xs s.0), s)
    | inr ge ↦
        let before : o.less x p ≡ true = ground (arith, o.less_total p x, e.beq_iff x p) in
        rw ge (
          All-place (λ y. o.less x y ≡ true) p xs before s.0,
          IsSorted-place p xs s.1 (ground arith),
        )
  ]

  IsSorted-without : (p : P) (xs : List P) → IsSorted xs → IsSorted (without p xs)
  unfolding without
  IsSorted-without p [] s = tt
  IsSorted-without p (x ∷ xs) s = elim (Bool-cases (e.beq p x)) [
    | inl same ↦ rw same (IsSorted-without p xs s.1)
    | inr other ↦
        rw other (All-without (λ y. o.less x y ≡ true) p xs s.0, IsSorted-without p xs s.1)
  ]

  -- Insertion of a new Priority keeps the slice ascending and adds that one member.
  pub insert_priority-IsSorted :
      (p : P) (xs : List P)
      → IsSorted xs
      → contains p xs ≡ false
      → IsSorted (insert_priority p xs)
        × ((q : P) → contains q (insert_priority p xs) ≡ e.beq p q || contains q xs)
  insert_priority-IsSorted p xs s n =
      rw (insert_priority-place p xs s) (IsSorted-place p xs s n, λ q. contains-place p q xs)

  -- Deletion keeps the slice ascending and takes that one member away.
  pub delete_priority-IsSorted :
      (p : P) (xs : List P)
      → IsSorted xs
      → IsSorted (delete_priority p xs)
        × ((q : P)
            → contains q (delete_priority p xs) ≡ (if e.beq p q then false else contains q xs))
  delete_priority-IsSorted p xs s =
      rw (delete_priority-without p xs s) (IsSorted-without p xs s, λ q. contains-without p q xs)

  pub All-contains {κ} :
      (Q : P → Type κ) (xs : List P) (q : P) → All Q xs → contains q xs ≡ true → Q q
  unfolding contains
  All-contains Q [] q a h = absurd (cc)
  All-contains Q (x ∷ xs) q a h = elim (Bool-cases (e.beq x q)) [
    | inl same ↦ subst Q ((e.beq_iff x q).0 same) a.0
    | inr other ↦ All-contains Q xs q a.1 (ground arith)
  ]
