-- ===== src/Assigner/Tests.antt =====
-- Runs of the priorityAssigner of pkg/agent/controller/networkpolicy/priority.go, and the theorems
-- about it at concrete inputs.
use antrea.Common.{
  ℕ, ◌+◌, ◌≤◌, ◌<◌, ◌≡◌, inl, inr, refl, subst, All, Bool-cases, true, false, none, some, List, [],
  ◌∷◌, arith, nat_eq, get, put, leb, ◌==◌, if◌then◌else◌,
}
use antrea.Priority.{Priority, initial_of_priority, less, equals, is_consecutive}
use antrea.Priority.Laws.{priority_eq, priority_order}
use antrea.Priority.Tests.{tenths, priority}
use antrea.Sorted.{insert_priority, insertion_index, sort_priorities, delete_priority}
use antrea.Sorted.Slices.{
  IsSorted, contains, place, without, insert_priority-place, delete_priority-without,
}
use antrea.Assigner.State.{
  Assigner, new_priority_assigner, update_priority_assignment, get_of_priority, release,
  push_failed,
}
use antrea.Assigner.Boundaries.{find_reassign_boundaries}
use antrea.Assigner.Reassign.{reassign_boundary_priorities, collect}
use antrea.Assigner.Register.{
  gap16, last_of, insertion_point, lower_bound, upper_bound, insert_consecutive_priorities,
  register_priorities,
}
use antrea.Assigner.Window.{insertion_point-equal_bounds, insertion_point_window}
use antrea.Assigner.Mapping.{
  IsValid, Fits, new_priority_assigner-IsValid, update-IsValid, release-IsValid,
}
use antrea.Assigner.Insert.{Inserted, insert_consecutive-Inserted, HasRoom, GuessesFit, NoneBetween}
use antrea.Assigner.Faults.{insert_consecutive-exact_gap, reassign-drops_first}

abbrev Pa : Type 0
Pa = Assigner (Priority ℕ)

abbrev empty : Pa
unfolding new_priority_assigner
empty = new_priority_assigner (λ p single. initial_of_priority p single) false

-- Capacities as a slice of 24-byte elements gets them when its elements are appended one by one.
abbrev doubling : ℕ → ℕ
doubling n =
    if n == 0
    then 0
    else if leb n 1
    then 1
    else if leb n 2
    then 2
    else if leb n 4
    then 4
    else if leb n 8
    then 8
    else 16

abbrev p1140 : Priority ℕ
p1140 = priority 1 14 0

abbrev p1131 : Priority ℕ
p1131 = priority 1 13 1

abbrev p1130 : Priority ℕ
p1130 = priority 1 13 0

abbrev with_1140 : Pa
with_1140 = update_priority_assignment empty 64722 p1140

-- Rule 1 of a policy stands right below rule 0, above the policy of lower precedence.

registered_1131 :
    get_of_priority (register_priorities doubling with_1140 (p1130 ∷ p1131 ∷ [])).0 p1131
    ≡ some 64723
unfolding get_of_priority register_priorities get put update_priority_assignment empty equals
    insert_priority sort_priorities less is_consecutive initial_of_priority
registered_1131 = refl

-- Three registrations put a Priority above one that it must stay below: the second takes the bottom
-- of the table by a reassignment, and then the gap below it wraps around.
abbrev p_101 : Priority ℕ
p_101 = priority 250 1199 1

abbrev p_lower : Priority ℕ
p_lower = priority 250 1199 5

abbrev p_lowest : Priority ℕ
p_lowest = priority 250 1199 9

abbrev registered_in_turn : Pa
registered_in_turn =
    (register_priorities doubling
      (register_priorities doubling (register_priorities doubling empty (p_101 ∷ [])).0
        (p_lower ∷ [])).0
      (p_lowest ∷ [])).0

out_of_order :
    (get_of_priority registered_in_turn p_101 ≡ some 101)
    × (get_of_priority registered_in_turn p_lower ≡ some 100)
    × (get_of_priority registered_in_turn p_lowest ≡ some 106)
unfolding get_of_priority register_priorities get put update_priority_assignment empty equals
    insert_priority sort_priorities less is_consecutive initial_of_priority
    reassign_boundary_priorities find_reassign_boundaries
out_of_order = (refl, refl, refl)

insertion_point-equal_bounds_example :
    (gap16 100 100 ≡ 65535)
    × (leb (gap16 100 100) 1 ≡ false)
    × (100 < insertion_point 100 100 100 100 1)
insertion_point-equal_bounds_example =
    insertion_point-equal_bounds 100 100 100 1 (omega arith) (omega arith) (omega arith)

insertion_point_window_example :
    (64722 < insertion_point 64723 64724 64722 65000 2)
    × (insertion_point 64723 64724 64722 65000 2 + 2 ≤ 65000)
insertion_point_window_example =
    insertion_point_window 64723 64724 64722 65000 2 (omega arith) (omega arith) (omega arith)
      (omega arith) refl (λ h. omega arith)

empty-Fits : (i : ℕ) (p : Priority ℕ) → Fits empty i p
unfolding empty get
empty-Fits i p q j h = absurd (cc)

with_1140-IsValid : IsValid with_1140
unfolding empty
with_1140-IsValid =
    update-IsValid empty 64722 p1140
      (new_priority_assigner-IsValid (λ p single. initial_of_priority p single) false)
      (empty-Fits 64722 p1140)

release-IsValid_example :
    IsValid (release with_1140 64722)
    × (get (release with_1140 64722).of_priority_map 64722 ≡ none)
    × (get_of_priority (release with_1140 64722) p1140 ≡ none)
unfolding get put update_priority_assignment empty equals
release-IsValid_example = release-IsValid with_1140 64722 p1140 with_1140-IsValid

-- The run that the examples insert, with the numbers that it finds.
run-IsSorted : IsSorted (p1131 ∷ p1130 ∷ [])
unfolding less
run-IsSorted = ((refl, tt), (tt, tt))

run_room : HasRoom with_1140 p1131 (p1130 ∷ [])
unfolding insertion_index lower_bound upper_bound get put update_priority_assignment empty equals
    insert_priority less
run_room = omega arith

run_guesses : GuessesFit with_1140 p1131 (p1130 ∷ [])
unfolding empty initial_of_priority last_of update_priority_assignment
run_guesses h = omega arith

run_above : NoneBetween with_1140 (p1131 ∷ p1130 ∷ [])
unfolding get put update_priority_assignment empty
run_above q j h = elim (Bool-cases (priority_eq.beq p1140 q)) [
  | inl same ↦ inl (
      subst (λ x. All (λ y. priority_order.less x y ≡ true) (p1131 ∷ p1130 ∷ []))
        ((priority_eq.beq_iff p1140 q).0 same) (unfold less in (refl, (refl, tt))))
  | inr other ↦ absurd (ground arith)
]

insert_consecutive-Inserted_example :
    Inserted with_1140 p1131
      (p1130 ∷ [])
      []
      (insert_consecutive_priorities doubling with_1140 (p1131 ∷ p1130 ∷ []) [])
insert_consecutive-Inserted_example =
    insert_consecutive-Inserted doubling with_1140 p1131 (p1130 ∷ []) [] with_1140-IsValid
      run-IsSorted run_room run_guesses run_above

-- Two Priorities fit into the two numbers between these neighbours, and are refused.
abbrev p1120 : Priority ℕ
p1120 = priority 1 12 0

abbrev exact : Pa
exact = update_priority_assignment with_1140 64725 p1120

insert_consecutive-exact_gap_example :
    insert_consecutive_priorities doubling exact (p1131 ∷ p1130 ∷ []) []
    ≡ (exact, [], some push_failed)
unfolding insertion_index lower_bound upper_bound get put update_priority_assignment empty equals
    insert_priority less
insert_consecutive-exact_gap_example =
    insert_consecutive-exact_gap doubling exact p1131 (p1130 ∷ []) [] (omega arith) refl

-- Five Priorities right above the bottom, one above the gap, a free number, and eight more.
abbrev crowded_entries : List (ℕ × Priority ℕ)
crowded_entries =
    (101, priority 2 10 4)
    ∷ (102, priority 2 10 3)
    ∷ (103, priority 2 10 2)
    ∷ (104, priority 2 10 1)
    ∷ (105, priority 2 10 0)
    ∷ (106, priority 1 10 0)
    ∷ (108, priority 0 10 7)
    ∷ (109, priority 0 10 6)
    ∷ (110, priority 0 10 5)
    ∷ (111, priority 0 10 4)
    ∷ (112, priority 0 10 3)
    ∷ (113, priority 0 10 2)
    ∷ (114, priority 0 10 1)
    ∷ (115, priority 0 10 0)
    ∷ []

crowd : List (ℕ × Priority ℕ) → Pa → Pa
crowd [] pa = pa
crowd ((i, p) ∷ rest) pa = crowd rest (update_priority_assignment pa i p)

abbrev crowded : Pa
crowded = crowd crowded_entries empty

reassign-drops_first_example :
    let (pa', updates', err) =
      reassign_boundary_priorities doubling crowded 105 106 (p1131 ∷ p1130 ∷ []) [] in
    (err ≡ none) × (get pa'.priority_map p1131 ≡ none)
unfolding crowd get put update_priority_assignment empty equals contains collect
    find_reassign_boundaries
reassign-drops_first_example =
    reassign-drops_first doubling crowded 105 106 100 107 p1131 (priority 1 10 0) (p1130 ∷ []) [] []
      refl refl (omega arith) refl refl refl refl

insert_priority-place_example :
    insert_priority p1131 (p1140 ∷ p1130 ∷ []) ≡ p1140 ∷ p1131 ∷ p1130 ∷ []
unfolding place less
insert_priority-place_example =
    insert_priority-place p1131 (p1140 ∷ p1130 ∷ []) ((refl, tt), (tt, tt))

delete_priority-without_example : delete_priority p1130 (p1140 ∷ p1130 ∷ []) ≡ p1140 ∷ []
unfolding without equals less
delete_priority-without_example =
    delete_priority-without p1130 (p1140 ∷ p1130 ∷ []) ((refl, tt), (tt, tt))
