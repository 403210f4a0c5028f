-- ===== src/Assigner/Boundaries.antt =====
-- findReassignBoundaries of pkg/agent/controller/networkpolicy/priority.go: the range of OpenFlow
-- priorities whose rearrangement makes room for new Priorities at the least cost. costMap is a map
-- from the number of empty slots used below the gap.
use antrea.Common.{
  ℕ, zero, suc, ◌+◌, ◌-◌, ◌&&◌, Option, none, some, [], nat_eq, ltb, leb, ◌==◌, if◌then◌else◌, Map,
  get, put, sub16,
}
use antrea.Priority.{policy_bottom_priority, policy_top_priority}

pub record ReassignCost : Type 0 where
  pub lower_bound : ℕ
  pub upper_bound : ℕ
  pub cost : ℕ

-- The variables of a loop: the cost so far, the empty slots found, and costMap.
pub record Search : Type 0 where
  pub sift_cost : ℕ
  pub emptied : ℕ
  pub cost_map : Map ℕ ReassignCost

abbrev max_int32 : ℕ
max_int32 = 2147483647

module _ {P : Type 0} (of_priority_map : Map ℕ P) (lower upper target : ℕ) where
  -- The body of the first loop.
  unfoldable pub low_step : ℕ → Search → Search
  low_step bound s = elim (get of_priority_map bound) [
    | some p ↦ record s { sift_cost = s.sift_cost + 1 }
    | none ↦ record s {
      emptied = s.emptied + 1;
      cost_map =
          put s.cost_map (s.emptied + 1)
            (record { lower_bound = bound; upper_bound = sub16 upper 1; cost = s.sift_cost });
    }
  ]

  -- The first loop goes down from the lower bound and ends below the bottom at the latest.
  unfoldable pub low_loop : ℕ → Search → Search
  unfolding low_step
  low_loop zero s = s
  low_loop (suc bound) s =
      let rest = low_loop bound (low_step (suc bound) s) in
      if leb policy_bottom_priority (suc bound) && ltb s.emptied target then rest else s

  -- The body of the second loop, after a first loop of cost `down`.
  unfoldable pub high_step : ℕ → ℕ → Search → Search
  high_step down bound s = elim (get of_priority_map bound) [
    | some p ↦ record s { sift_cost = s.sift_cost + 1 }
    | none ↦
        let index = target - (s.emptied + 1) in
        record s {
          emptied = s.emptied + 1;
          cost_map = elim (get s.cost_map index) [
            | some c ↦
                put s.cost_map index (record c { cost = down + s.sift_cost; upper_bound = bound })
            | none ↦
                if index == 0
                then put s.cost_map index
                    (record { lower_bound = lower + 1; upper_bound = bound; cost = s.sift_cost })
                else s.cost_map
          ];
        }
  ]

  -- The second loop goes up from the upper bound and ends above the top at the latest; `rounds` is
  -- at least the number of priorities that are left.
  unfoldable pub high_loop : ℕ → ℕ → ℕ → Search → Search
  unfolding high_step
  high_loop down zero bound s = s
  high_loop down (suc rounds) bound s =
      let rest = high_loop down rounds (bound + 1) (high_step down bound s) in
      if leb bound policy_top_priority && ltb s.emptied target then rest else s

  -- The best entry so far: its cost and its index.
  abbrev Best : Type 0
  Best = ℕ × ℕ

  unfoldable pub min_step : ℕ → Map ℕ ReassignCost → ℕ → Best → Best
  min_step num costs i (min_cost, index) = elim (get costs i) [
    | none ↦ (min_cost, index)
    | some c ↦
        if ltb c.cost min_cost && (sub16 c.upper_bound c.lower_bound + 1 == num + c.cost)
        then (c.cost, i)
        else (min_cost, index)
  ]

  -- The third loop goes down from `target` to 0.
  unfoldable pub min_loop : ℕ → Map ℕ ReassignCost → ℕ → Best → Best
  unfolding min_step
  min_loop num costs zero best = min_step num costs zero best
  min_loop num costs (suc i) best = min_loop num costs i (min_step num costs (suc i) best)

-- The bounds to reassign, or the error.
unfoldable pub find_reassign_boundaries : {P : Type 0} → Map ℕ P → ℕ → ℕ → ℕ → ℕ → Option (ℕ × ℕ)
unfolding low_loop high_loop min_loop
find_reassign_boundaries om lower upper num gap =
    let target = num - gap in
    let low =
      low_loop om lower upper target lower (record { sift_cost = 0; emptied = 0; cost_map = [] }) in
    let high =
      high_loop om lower upper target low.sift_cost (policy_top_priority + 1 - upper) upper
        (record { sift_cost = 0; emptied = 0; cost_map = low.cost_map }) in
    let (min_cost, index) =
      min_loop om lower upper target num high.cost_map target (max_int32, 0) in
    if min_cost == max_int32 then none else (elim (get high.cost_map index) [
      | some c ↦ some (c.lower_bound, c.upper_bound)
      | none ↦ none
    ])
