-- ===== src/Priority/Tests.antt =====
-- Priorities of pkg/agent/types/networkpolicy.go at concrete inputs. Policy priorities are tenths:
-- `13` stands for 1.3. An int32 `n` is written as its distance from -2^31.

use antrea.Common.{
  ℕ, ◌+◌, ◌*◌, ◌/◌, ◌%◌, ◌≤◌, ◌<◌, ◌≡◌, ◌⊎◌, inl, refl, true, false, arith, nat_eq, ltb, ◌&&◌,
  u16_mod,
}
use antrea.Priority.{Float, Priority, less, is_consecutive, initial_of_priority}
use antrea.Priority.Laws.{
  priority_eq, priority_order, initial_of_priority_bounds, initial_of_priority_next,
  is_consecutive-none_between,
}

pub ltb_irrefl : (a : ℕ) → ltb a a ≡ true → ⊥
ltb_irrefl a h = ground arith

pub ltb_trans : (a b c : ℕ) → ltb a b ≡ true → ltb b c ≡ true → ltb a c ≡ true
ltb_trans a b c h k = ground arith

pub ltb_total : (a b : ℕ) → (ltb a b ≡ true) ⊎ ((a ≡ b) ⊎ (ltb b a ≡ true))
ltb_total a b = ground arith

pub scaled_lt : (a k : ℕ) → (a * k / 10) % u16_mod < u16_mod
scaled_lt a k = omega arith

instance abbrev pub tenths : Float ℕ
tenths = record {
  lt = ltb;
  lt_irrefl = ltb_irrefl;
  lt_trans = ltb_trans;
  lt_total = ltb_total;
  scaled16 = λ a k. (a * k / 10) % u16_mod;
  scaled16_lt = scaled_lt;
}

abbrev pub int32 : ℕ → ℕ
int32 n = 2147483648 + n

abbrev pub priority : ℕ → ℕ → ℕ → Priority ℕ
priority tier policy rule = record {
  tier_priority = int32 tier;
  policy_priority = policy;
  rule_priority = int32 rule;
}

guess_1130 : initial_of_priority (priority 1 13 0) false ≡ 64724
unfolding initial_of_priority
guess_1130 = refl

guess_1130_single : initial_of_priority (priority 1 13 0) true ≡ 64168
unfolding initial_of_priority
guess_1130_single = refl

initial_of_priority_bounds_example :
    (100 ≤ initial_of_priority (priority 250 1199 9) false)
    × (initial_of_priority (priority 250 1199 9) false ≤ 65000)
initial_of_priority_bounds_example = initial_of_priority_bounds (priority 250 1199 9) false

initial_of_priority_next_example : 64724 ≡ initial_of_priority (priority 1 13 1) false + 1
unfolding initial_of_priority
initial_of_priority_next_example =
    initial_of_priority_next (priority 1 13 0) (priority 1 13 1) false refl refl refl (omega arith)

is_consecutive-none_between_example :
    less (priority 1 13 3) (priority 1 14 2) && less (priority 1 14 2) (priority 1 13 2) ≡ false
unfolding is_consecutive
is_consecutive-none_between_example =
    is_consecutive-none_between (priority 1 13 3) (priority 1 13 2) (priority 1 14 2) (omega arith)
      (omega arith) refl (inl (omega arith))
