-- ===== src/Common/Words.antt =====
-- Unsigned words of 16 and 32 bits, as numbers with the wrap-around of Go's arithmetic.
use Prim.Native.Nat.{ℕ, ◌+◌, ◌-◌, ◌*◌, ◌%◌}

abbrev pub u16_mod : ℕ
u16_mod = 65536

abbrev pub u32_mod : ℕ
u32_mod = 4294967296

-- a + b, a - b and a * b at type uint16.
abbrev pub add16 : ℕ → ℕ → ℕ
add16 a b = (a + b) % u16_mod

abbrev pub sub16 : ℕ → ℕ → ℕ
sub16 a b = (a + u16_mod - b) % u16_mod

abbrev pub mul16 : ℕ → ℕ → ℕ
mul16 a b = (a * b) % u16_mod

-- a - b at 32 bits.
abbrev pub sub32 : ℕ → ℕ → ℕ
sub32 a b = (a + u32_mod - b) % u32_mod
