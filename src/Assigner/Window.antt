-- ===== src/Assigner/Window.antt =====
-- The arithmetic of insertConsecutivePriorities in pkg/agent/controller/networkpolicy/priority.go:
-- where new Priorities go between the bounds, at type uint16.
use antrea.Common.{ℕ, ◌+◌, ◌≤◌, ◌<◌, ◌≡◌, false, arith, leb}
use antrea.Priority.{policy_bottom_priority, policy_top_priority}
use antrea.Assigner.Register.{gap16, insertion_point}

-- Where there is more room between the bounds than is needed, all new Priorities go strictly
-- between them, in each of the four cases and with no wrap-around. The guesses for the lowest and the
-- highest must be as far apart as the Priorities are, unless the lowest is the bottom.
pub insertion_point_window :
    (point_low point_high lower upper num : ℕ)
    → policy_bottom_priority ≤ lower
    → lower < upper
    → upper ≤ policy_top_priority
    → 0 < num
    → leb (gap16 lower upper) num ≡ false
    → (policy_bottom_priority < point_low → point_low + num ≤ point_high + 1)
    → (lower < insertion_point point_low point_high lower upper num)
      × (insertion_point point_low point_high lower upper num + num ≤ upper)
unfolding insertion_point
insertion_point_window point_low point_high lower upper num lo lt hi pos room guess = ground arith

-- Where both bounds are the same OpenFlow priority, as when the lowest registered Priority stands
-- at the bottom of the table, and the guess for the lowest new Priority is not above it, the gap
-- wraps to 65535, so no number of new Priorities is refused, and the new ones are put above the
-- bound that they must stay below.
pub insertion_point-equal_bounds :
    (point_low point_high bound num : ℕ)
    → point_low ≤ bound
    → bound ≤ policy_top_priority
    → num ≤ policy_top_priority
    → (gap16 bound bound ≡ 65535)
      × (leb (gap16 bound bound) num ≡ false)
      × (bound < insertion_point point_low point_high bound bound num)
unfolding insertion_point
insertion_point-equal_bounds point_low point_high bound num le top few =
    (ground arith, ground arith, ground arith)
