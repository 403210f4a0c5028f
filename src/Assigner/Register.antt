-- ===== src/Assigner/Register.antt =====
-- RegisterPriorities of pkg/agent/controller/networkpolicy/priority.go and what it calls: the choice
-- of the insertion point, the split into runs of consecutive Priorities, and the revert function.
-- The map of updates holds pointers that no one else reads, so it is passed and returned.
use antrea.Common.{
  ℕ, zero, suc, ◌+◌, ◌*◌, ◌/◌, ◌%◌, ◌&&◌, Option, none, some, List, [], ◌∷◌, Eq, nat_eq, ltb, leb,
  ◌==◌, if◌then◌else◌, Map, get, put, length, get_elem?, add16, sub16, u16_mod,
}
use antrea.Priority.{policy_bottom_priority, policy_top_priority, zone_offset}
use antrea.Priority.Order.{Order}
use antrea.Sorted.{insertion_index, sort_priorities}
use antrea.Assigner.State.{
  Assigner, PriorityUpdate, Updates, Error, too_many_priorities, index_out_of_range, get_or_zero,
  delete_priority_mapping, unregister_priority,
}
use antrea.Assigner.Reassign.{assign_from, reassign_boundary_priorities}

-- The number of free OpenFlow priorities between the bounds, at type uint16.
abbrev pub gap16 : ℕ → ℕ → ℕ
gap16 lower upper = sub16 (sub16 upper lower) 1

-- The switch of insertConsecutivePriorities: where `num` Priorities go between the bounds, from
-- the guesses for the lowest and the highest.
unfoldable pub insertion_point : ℕ → ℕ → ℕ → ℕ → ℕ → ℕ
insertion_point point_low point_high lower upper num =
    if ltb lower point_low && ltb point_high upper
    then point_low
    else if leb (add16 num (2 * zone_offset)) (gap16 lower upper)
    then (if leb point_low lower
        then add16 (add16 lower zone_offset) 1
        else sub16 (sub16 upper zone_offset) num)
    else add16 (add16 lower (sub16 (sub16 upper lower) num / 2)) 1

unfoldable pub last_of : {A : Type 0} → A → List A → A
last_of p [] = p
last_of p (q ∷ qs) = last_of q qs

-- The results of a registration; the function that is returned is `revert` at the runs and updates.
pub data Registered (P : Type 0) : Type 0 where
  nothing_new : Registered P
  registered : Map ℕ ℕ → List (List P) → Updates P → Registered P
  failed : Error → Registered P

module _ {P : Type 0} ⦃e : Eq P⦄ ⦃o : Order P⦄ where
  -- The ofPriority of the registered Priority before the index, or the bottom.
  unfoldable pub lower_bound : Assigner P → ℕ → ℕ
  unfolding get_or_zero
  lower_bound pa zero = policy_bottom_priority
  lower_bound pa (suc idx) = elim (get_elem? pa.sorted_priorities idx) [
    | some q ↦ get_or_zero pa.priority_map q
    | none ↦ policy_bottom_priority
  ]

  -- The ofPriority of the registered Priority at the index, or the top.
  unfoldable pub upper_bound : Assigner P → ℕ → ℕ
  unfolding get_or_zero
  upper_bound pa idx = elim (get_elem? pa.sorted_priorities idx) [
    | some q ↦ get_or_zero pa.priority_map q
    | none ↦ policy_top_priority
  ]

  unfoldable pub insert_between :
      (ℕ → ℕ) → Assigner P → ℕ → ℕ → P → List P → Updates P → Assigner P × Updates P × Option Error
  unfolding insertion_point last_of assign_from
  insert_between capacity pa lower upper p ps updates =
      let num = length (p ∷ ps) % u16_mod in
      let point_low = pa.initial_of_priority_func p pa.is_single_tier in
      let point_high = pa.initial_of_priority_func (last_of p ps) pa.is_single_tier in
      if leb (gap16 lower upper) num
      then reassign_boundary_priorities capacity pa lower upper (p ∷ ps) updates
      else (
        assign_from (insertion_point point_low point_high lower upper num) (p ∷ ps) pa,
        updates,
        none,
      )

  -- `priorities[0]` of an empty slice panics.
  unfoldable pub insert_consecutive_priorities :
      (ℕ → ℕ) → Assigner P → List P → Updates P → Assigner P × Updates P × Option Error
  unfolding insert_between lower_bound upper_bound
  insert_consecutive_priorities capacity pa [] updates = (pa, updates, some index_out_of_range)
  insert_consecutive_priorities capacity pa (p ∷ ps) updates =
      let idx = insertion_index p pa.sorted_priorities in
      insert_between capacity pa (lower_bound pa idx) (upper_bound pa idx) p ps updates

  -- The revert function: new Priorities are unregistered, reassigned ones get back what they had.
  unfoldable pub revert_new : List P → Assigner P → Assigner P
  unfolding unregister_priority delete_priority_mapping
  revert_new [] pa = pa
  revert_new (p ∷ ps) pa = revert_new ps (elim (get pa.priority_map p) [
    | some of ↦ delete_priority_mapping (unregister_priority pa p) of p
    | none ↦ pa
  ])

  unfoldable pub revert_one : P → PriorityUpdate → Assigner P → Assigner P
  unfolding delete_priority_mapping
  revert_one p u pa =
      let pa' = elim (get pa.priority_map p) as (λ x. Assigner P) [
        | some of ↦ delete_priority_mapping pa of p
        | none ↦ pa
      ] in
      record pa' {
        of_priority_map = put pa'.of_priority_map u.original p;
        priority_map = put pa'.priority_map p u.original;
      }

  unfoldable pub revert_updates : Updates P → Assigner P → Assigner P
  unfolding revert_one
  revert_updates [] pa = pa
  revert_updates ((p, u) ∷ us) pa = revert_updates us (revert_one p u pa)

  unfoldable pub revert : List (List P) → Updates P → Assigner P → Assigner P
  unfolding revert_new revert_updates
  revert [] updates pa = revert_updates updates pa
  revert (ps ∷ pss) updates pa = revert pss updates (revert_new ps pa)

  -- priorityUpdatesToOFUpdates
  unfoldable pub priority_updates_to_of_updates : Updates P → Map ℕ ℕ → Map ℕ ℕ
  priority_updates_to_of_updates [] processed = processed
  priority_updates_to_of_updates ((p, u) ∷ us) processed =
      priority_updates_to_of_updates us (put processed u.original u.updated)

  -- The loop over the runs: it stops at the first error.
  unfoldable pub insert_all :
      (ℕ → ℕ) → List (List P) → Assigner P → Updates P → Assigner P × Updates P × Option Error
  unfolding insert_consecutive_priorities
  insert_all capacity [] pa updates = (pa, updates, none)
  insert_all capacity (ps ∷ pss) pa updates =
      let (pa', updates', err) = insert_consecutive_priorities capacity pa ps updates in
      let rest = insert_all capacity pss pa' updates' in
      elim err [ none ↦ rest | some x ↦ (pa', updates', some x) ]

  -- On an error all that was registered so far is reverted.
  unfoldable pub register_consecutive_priorities :
      (ℕ → ℕ) → Assigner P → List (List P) → Assigner P × Registered P
  unfolding insert_all revert priority_updates_to_of_updates
  register_consecutive_priorities capacity pa runs =
      let (pa', updates, err) = insert_all capacity runs pa [] in
      elim err [
        | some x ↦ (revert runs updates pa', failed x)
        | none ↦ (pa', registered (priority_updates_to_of_updates updates []) runs updates)
      ]

  unfoldable pub attach : P → List (List P) → List (List P)
  attach p [] = (p ∷ []) ∷ []
  attach p ([] ∷ runs) = (p ∷ []) ∷ runs
  attach p ((q ∷ qs) ∷ runs) =
      if o.is_consecutive q p then (p ∷ q ∷ qs) ∷ runs else (p ∷ []) ∷ (q ∷ qs) ∷ runs

  -- The sorted list cut before each Priority that is not consecutive to the one before it.
  unfoldable pub consecutive_runs : List P → List (List P)
  unfolding attach
  consecutive_runs [] = []
  consecutive_runs (p ∷ ps) = attach p (consecutive_runs ps)

  -- The Priorities that are not registered yet.
  unfoldable pub not_registered : Map P ℕ → List P → List P
  not_registered m [] = []
  not_registered m (p ∷ ps) =
      let rest = not_registered m ps in elim (get m p) [ some of ↦ rest | none ↦ p ∷ rest ]

  unfoldable pub register_priorities : (ℕ → ℕ) → Assigner P → List P → Assigner P × Registered P
  unfolding not_registered consecutive_runs register_consecutive_priorities
  register_priorities capacity pa priorities =
      let new = not_registered pa.priority_map priorities in
      if length new == 0
      then (pa, nothing_new)
      else if ltb (add16 (sub16 policy_top_priority policy_bottom_priority) 1)
          ((length new + length pa.sorted_priorities) % u16_mod)
      then (pa, failed too_many_priorities)
      else register_consecutive_priorities capacity pa (consecutive_runs (sort_priorities new))
