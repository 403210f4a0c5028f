-- ===== src/Priority.antt =====
-- The type Priority of pkg/agent/types/networkpolicy.go, and InitialOFPriority of
-- pkg/agent/controller/networkpolicy/priority.go. An int32 is held as its distance from -2^31, so
-- that the order of int32 is the order of numbers. The float64 of a policy's priority is a parameter
-- type `F`, with the comparisons and the one conversion that the code makes.
pub mod Order
pub mod Laws
pub mod Tests
use antrea.Common.{
  ℕ, ◌+◌, ◌-◌, ◌%◌, ◌<◌, ◌≡◌, ◌⊎◌, Bool, true, false, ◌&&◌, ◌||◌, not, Eq, ltb, ◌==◌, if◌then◌else◌,
  add16, sub16, mul16, sub32, u16_mod,
}

-- float64, for values that are numbers: the order is total, and equal values are the same value.
pub record Float (F : Type 0) : Type 0 where
  pub lt : F → F → Bool
  pub lt_irrefl : (a : F) → lt a a ≡ true → ⊥
  pub lt_trans : (a b c : F) → lt a b ≡ true → lt b c ≡ true → lt a c ≡ true
  pub lt_total : (a b : F) → (lt a b ≡ true) ⊎ ((a ≡ b) ⊎ (lt b a ≡ true))
  -- uint16(a * k), for the float64 of a whole number k
  pub scaled16 : F → ℕ → ℕ
  pub scaled16_lt : (a : F) (k : ℕ) → scaled16 a k < u16_mod

pub record Priority (F : Type 0) : Type 0 where
  pub tier_priority : ℕ
  pub policy_priority : F
  pub rule_priority : ℕ

abbrev pub policy_bottom_priority : ℕ
policy_bottom_priority = 100

abbrev pub policy_top_priority : ℕ
policy_top_priority = 65000

abbrev pub zone_offset : ℕ
zone_offset = 5

abbrev pub priority_offset_single_tier : ℕ
priority_offset_single_tier = 640

abbrev pub tier_offset_single_tier : ℕ
tier_offset_single_tier = 0

abbrev pub priority_offset_multi_tier : ℕ
priority_offset_multi_tier = 20

abbrev pub tier_offset_multi_tier : ℕ
tier_offset_multi_tier = 250

module _ {F : Type 0} ⦃e : Eq F⦄ ⦃f : Float F⦄ where
  unfoldable pub less : Priority F → Priority F → Bool
  less p p2 =
      if p.tier_priority == p2.tier_priority
      then (if e.beq p.policy_priority p2.policy_priority
          then ltb p2.rule_priority p.rule_priority
          else f.lt p2.policy_priority p.policy_priority)
      else ltb p2.tier_priority p.tier_priority

  unfoldable pub equals : Priority F → Priority F → Bool
  equals p p2 =
      (p.tier_priority == p2.tier_priority && e.beq p.policy_priority p2.policy_priority)
      && p.rule_priority == p2.rule_priority

  unfoldable pub in_same_priority_zone : Priority F → Priority F → Bool
  in_same_priority_zone p p2 =
      e.beq p.policy_priority p2.policy_priority && p.tier_priority == p2.tier_priority

  unfoldable pub is_consecutive : Priority F → Priority F → Bool
  unfolding in_same_priority_zone
  is_consecutive p p2 =
      if not (in_same_priority_zone p p2)
      then false
      else sub32 p.rule_priority p2.rule_priority == 1
        || sub32 p2.rule_priority p.rule_priority == 1

  -- 2^31 is a multiple of 2^16, so uint16 of an int32 is the same for its distance from -2^31.
  unfoldable pub initial_of_priority : Priority F → Bool → ℕ
  initial_of_priority p is_single_tier =
      let tier_base = if is_single_tier then tier_offset_single_tier else tier_offset_multi_tier in
      let priority_base =
        if is_single_tier then priority_offset_single_tier else priority_offset_multi_tier in
      let tier_offset = mul16 tier_base (p.tier_priority % u16_mod) in
      let offset =
        add16 (add16 tier_offset (f.scaled16 p.policy_priority priority_base))
          (p.rule_priority % u16_mod) in
      if ltb (sub16 policy_top_priority policy_bottom_priority) offset
      then policy_bottom_priority
      else sub16 policy_top_priority offset
