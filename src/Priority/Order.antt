-- ===== src/Priority/Order.antt =====
-- What the priority assigner (pkg/agent/controller/networkpolicy/priority.go) needs of a Priority:
-- the methods Less and IsConsecutive, and that Less is a strict total order. Equals and the
-- comparison of map keys are the instance of `Eq`.
use antrea.Common.{Bool, true, ◌≡◌, ◌⊎◌}

pub record Order (P : Type 0) : Type 0 where
  pub less : P → P → Bool
  pub is_consecutive : P → P → Bool
  pub less_irrefl : (a : P) → less a a ≡ true → ⊥
  pub less_trans : (a b c : P) → less a b ≡ true → less b c ≡ true → less a c ≡ true
  pub less_total : (a b : P) → (less a b ≡ true) ⊎ ((a ≡ b) ⊎ (less b a ≡ true))
