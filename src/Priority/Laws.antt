-- ===== src/Priority/Laws.antt =====
-- Less of pkg/agent/types/networkpolicy.go is a strict total order, two consecutive Priorities have
-- none between them, and InitialOFPriority stays within the range of the table.
use antrea.Common.{◌&&◌, ◌+◌, ◌≤◌, ◌<◌, ◌≡◌, ◌↔◌, ◌⊎◌, Bool, true, false, arith, Eq, u32_mod}
use antrea.Priority.{
  Float, Priority, less, equals, is_consecutive, initial_of_priority, policy_bottom_priority,
  policy_top_priority,
}
use antrea.Priority.Order.{Order}

module _ {F : Type 0} ⦃e : Eq F⦄ ⦃f : Float F⦄ where
  -- Equals holds of equal Priorities and of no others.
  pub equals_iff : (p q : Priority F) → (equals p q ≡ true) ↔ (p ≡ q)
  unfolding equals
  equals_iff p q = ground (arith, e.beq_iff p.policy_priority q.policy_priority)

  pub less_irrefl : (p : Priority F) → less p p ≡ true → ⊥
  unfolding less
  less_irrefl p h = ground (arith, f.lt_irrefl p.policy_priority)

  pub less_trans : (p q r : Priority F) → less p q ≡ true → less q r ≡ true → less p r ≡ true
  unfolding less
  less_trans p q r h k = ground (
    arith,
    e.beq_iff p.policy_priority q.policy_priority,
    e.beq_iff q.policy_priority r.policy_priority,
    e.beq_iff p.policy_priority r.policy_priority,
    f.lt_trans r.policy_priority q.policy_priority p.policy_priority,
    f.lt_irrefl p.policy_priority,
  )

  pub less_total : (p q : Priority F) → (less p q ≡ true) ⊎ ((p ≡ q) ⊎ (less q p ≡ true))
  unfolding less
  less_total p q = ground (
    arith,
    e.beq_iff p.policy_priority q.policy_priority,
    e.beq_iff q.policy_priority p.policy_priority,
    f.lt_total p.policy_priority q.policy_priority,
  )

  instance abbrev pub priority_eq : Eq (Priority F)
  priority_eq = record { beq = equals; beq_iff = equals_iff }

  instance abbrev pub priority_order : Order (Priority F)
  priority_order = record {
    less = less;
    is_consecutive = is_consecutive;
    less_irrefl = less_irrefl;
    less_trans = less_trans;
    less_total = less_total;
  }

  -- No Priority lies between two consecutive ones, unless their rule priorities are the two ends of
  -- int32, whose difference wraps to 1.
  pub is_consecutive-none_between :
      (p q r : Priority F)
      → p.rule_priority < u32_mod
      → q.rule_priority < u32_mod
      → is_consecutive q p ≡ true
      → ((p.rule_priority + 1 < u32_mod) ⊎ (0 < q.rule_priority))
      → less p r && less r q ≡ false
  unfolding less is_consecutive
  is_consecutive-none_between p q r hp hq c ends = ground (
    arith,
    e.beq_iff p.policy_priority q.policy_priority,
    e.beq_iff q.policy_priority p.policy_priority,
    e.beq_iff p.policy_priority r.policy_priority,
    e.beq_iff r.policy_priority q.policy_priority,
    f.lt_trans r.policy_priority q.policy_priority p.policy_priority,
    f.lt_trans q.policy_priority r.policy_priority p.policy_priority,
    f.lt_irrefl p.policy_priority,
    f.lt_irrefl r.policy_priority,
  )

  -- The initial guess lies between the bottom and the top of the table.
  pub initial_of_priority_bounds :
      (p : Priority F) (single : Bool)
      → (policy_bottom_priority ≤ initial_of_priority p single)
        × (initial_of_priority p single ≤ policy_top_priority)
  unfolding initial_of_priority
  initial_of_priority_bounds p single = ground arith

  -- Unless the guess for a rule is the bottom of the table, the guess for the next rule of the same
  -- policy is the number right below it: no offset wraps between the two.
  pub initial_of_priority_next :
      (p q : Priority F) (single : Bool)
      → q.tier_priority ≡ p.tier_priority
      → q.policy_priority ≡ p.policy_priority
      → q.rule_priority ≡ p.rule_priority + 1
      → policy_bottom_priority < initial_of_priority p single
      → initial_of_priority p single ≡ initial_of_priority q single + 1
  unfolding initial_of_priority
  initial_of_priority_next p q single t pp r lo = ground arith
