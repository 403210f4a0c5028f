-- ===== src/Assigner/Reassign.antt =====
-- reassignBoundaryPriorities of pkg/agent/controller/networkpolicy/priority.go. Two appends to the
-- slice of the lower sifted Priorities may share its backing array: `capacity n` is the capacity
-- that Go's runtime gives to a slice to which n elements were appended one by one.
use antrea.Common.{
  ℕ, zero, suc, ◌+◌, ◌-◌, Option, none, some, List, [], ◌∷◌, ◌++◌, Eq, nat_eq, leb, if◌then◌else◌,
  Map, get, put, length, add16, sub16,
}
use antrea.Priority.Order.{Order}
use antrea.Assigner.State.{
  Assigner, Updates, Error, push_failed, get_or_zero, update_priority_assignment,
}
use antrea.Assigner.Boundaries.{find_reassign_boundaries}

-- The Priorities at `rounds` OpenFlow priorities from `i` on.
unfoldable pub collect : {P : Type 0} → ℕ → ℕ → Map ℕ P → List P
collect zero i m = []
collect (suc rounds) i m =
    let rest = collect rounds (i + 1) m in elim (get m i) [ some p ↦ p ∷ rest | none ↦ rest ]

-- A write of `ys` over the head of `xs`.
unfoldable pub overwrite : {A : Type 0} → List A → List A → List A
overwrite xs [] = xs
overwrite [] (y ∷ ys) = []
overwrite (x ∷ xs) (y ∷ ys) = y ∷ overwrite xs ys

-- allPriorities after `append(low, new...)`, `append(_, high...)` and then `append(low, high...)`:
-- where all of it fits into the backing array of `low`, the last append writes over the others.
unfoldable pub all_priorities : {A : Type 0} → (ℕ → ℕ) → List A → List A → List A → List A
unfolding overwrite
all_priorities capacity low new high =
    if leb (length low + length new + length high) (capacity (length low))
    then low ++ overwrite (new ++ high) high
    else low ++ (new ++ high)

module _ {P : Type 0} ⦃e : Eq P⦄ ⦃o : Order P⦄ where
  -- The ofPriorities before the reassignment, for Priorities that have none recorded.
  unfoldable pub record_original : Assigner P → List P → Updates P → Updates P
  record_original pa [] updates = updates
  record_original pa (p ∷ ps) updates = record_original pa ps (elim (get updates p) [
    | some u ↦ updates
    | none ↦ put updates p (record { original = get_or_zero pa.priority_map p; updated = 0 })
  ])

  -- The ofPriorities after it. Each of `ps` has an entry.
  unfoldable pub record_updated : Assigner P → List P → Updates P → Updates P
  record_updated pa [] updates = updates
  record_updated pa (p ∷ ps) updates = record_updated pa ps (elim (get updates p) [
    | some u ↦ put updates p (record u { updated = get_or_zero pa.priority_map p })
    | none ↦ updates
  ])

  -- pa.updatePriorityAssignment(start+uint16(i), p), for the i-th of the list.
  unfoldable pub assign_from : ℕ → List P → Assigner P → Assigner P
  assign_from start [] pa = pa
  assign_from start (p ∷ ps) pa =
      assign_from (add16 start 1) ps (update_priority_assignment pa start p)

  unfoldable pub reassign_boundary_priorities :
      (ℕ → ℕ) → Assigner P → ℕ → ℕ → List P → Updates P → Assigner P × Updates P × Option Error
  unfolding collect all_priorities record_original record_updated assign_from
  reassign_boundary_priorities capacity pa lower upper new updates =
      elim (find_reassign_boundaries pa.of_priority_map lower upper (length new)
        (sub16 (sub16 upper lower) 1)) [
          | none ↦ (pa, updates, some push_failed)
          | some (low, high) ↦
              let sifted_low = collect (lower + 1 - low) low pa.of_priority_map in
              let sifted_high = collect (high + 1 - upper) upper pa.of_priority_map in
              let reassigned = sifted_low ++ sifted_high in
              let recorded = record_original pa reassigned updates in
              let pa' = assign_from low (all_priorities capacity sifted_low new sifted_high) pa in
              (pa', record_updated pa' reassigned recorded, none)
        ]
