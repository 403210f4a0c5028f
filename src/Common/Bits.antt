-- ===== src/Common/Bits.antt =====
-- Operations on the binary digits of words, field by field: an operation on two numbers that are
-- written as fields of k digits is the operation on the fields.
use Prim.Native.Nat.{
  ℕ, zero, suc, ◌+◌, ◌-◌, ◌*◌, ◌/◌, ◌%◌, ◌^◌, ◌≤◌, ◌<◌, min, max, digits, bitwise, bit_and, bit_or,
  bit_and-bitwise, bit_or-bitwise,
}
use mathlib.Core.Path.{◌≡◌, refl, ap, ◌∙◌}
use native.Mathlib.Omega.{arith}
use native.Mathlib.Nat.{pow-suc, one-le-pow}

double_field : (p k : ℕ) → p * 2 ^ suc k ≡ 2 * (p * 2 ^ k)
double_field p k = omega (arith, ap (λ (t : ℕ). p * t) (pow-suc 2 k))

-- `low` says that what is left of the second number when the first has run out is the operation with
-- digits 0.
module _ (z : ℕ → ℕ) (f : ℕ → ℕ → ℕ) (low : (b : ℕ) → z b ≡ z (b / 2) * 2 + f 0 (b % 2)) where
  digits_enough : (m n a b : ℕ) → a ≤ m → a ≤ n → digits z f m a b ≡ digits z f n a b
  digits_enough zero zero a b p q = refl
  digits_enough zero (suc n) zero b p q = refl
  digits_enough zero n (suc a) b p q = absurd (omega arith)
  digits_enough (suc m) zero zero b p q = refl
  digits_enough m zero (suc a) b p q = absurd (omega arith)
  digits_enough (suc m) (suc n) zero b p q = refl
  digits_enough (suc m) (suc n) (suc a) b p q =
      rw (digits_enough m n (suc a / 2) (b / 2) (omega arith) (omega arith))

  bitwise_digit : (a b : ℕ) → bitwise z f a b ≡ bitwise z f (a / 2) (b / 2) * 2 + f (a % 2) (b % 2)
  bitwise_digit zero b = low b
  bitwise_digit (suc a) b =
      omega (arith, digits_enough a (suc a / 2) (suc a / 2) (b / 2) (omega arith) (omega arith))

  digit_at :
      (a b p q x y : ℕ)
      → a / 2 ≡ p
      → b / 2 ≡ q
      → a % 2 ≡ x
      → b % 2 ≡ y
      → bitwise z f a b ≡ bitwise z f p q * 2 + f x y
  digit_at a b p q x y ep eq ex ey = rw (bitwise_digit a b, ep, eq, ex, ey) refl

  bitwise_fields :
      (k p q x y : ℕ)
      → x < 2 ^ k
      → y < 2 ^ k
      → bitwise z f (p * 2 ^ k + x) (q * 2 ^ k + y) ≡ bitwise z f p q * 2 ^ k + bitwise z f x y
  bitwise_fields zero p q x y hx hy = ground (arith, low 0)
  bitwise_fields (suc k) p q x y hx hy = omega (
    arith,
    digit_at (p * 2 ^ suc k + x) (q * 2 ^ suc k + y) (p * 2 ^ k + x / 2) (q * 2 ^ k + y / 2) (x % 2)
        (y % 2) (omega (arith, double_field p k)) (omega (arith, double_field q k))
        (omega (arith, double_field p k)) (omega (arith, double_field q k)),
    bitwise_digit x y,
    double_field (bitwise z f p q) k,
    bitwise_fields k p q (x / 2) (y / 2) (omega (arith, pow-suc 2 k)) (omega (arith, pow-suc 2 k)),
  )

or_digits-zero : (n a : ℕ) → a ≤ n → digits (λ b. b) max n a 0 ≡ a
or_digits-zero zero a h = omega arith
or_digits-zero (suc n) zero h = refl
or_digits-zero (suc n) (suc a) h = omega (arith, or_digits-zero n (suc a / 2) (omega arith))

and_digits-zero : (n a : ℕ) → digits (λ b. zero) min n a 0 ≡ 0
and_digits-zero zero a = refl
and_digits-zero (suc n) zero = refl
and_digits-zero (suc n) (suc a) = omega (arith, and_digits-zero n (suc a / 2))

bit_or-zero : (a : ℕ) → bit_or a 0 ≡ a
bit_or-zero a = bit_or-bitwise a 0 ∙ or_digits-zero a a (omega arith)

pub zero-bit_or : (a : ℕ) → bit_or 0 a ≡ a
zero-bit_or a = bit_or-bitwise 0 a

bit_and-zero : (a : ℕ) → bit_and a 0 ≡ 0
bit_and-zero a = bit_and-bitwise a 0 ∙ and_digits-zero a a

or_split :
    (k p q x y : ℕ)
    → x < 2 ^ k
    → y < 2 ^ k
    → bit_or (p * 2 ^ k + x) (q * 2 ^ k + y) ≡ bit_or p q * 2 ^ k + bit_or x y
or_split k p q x y hx hy =
    simp bit_or-bitwise (bitwise_fields (λ b. b) max (λ b. omega arith) k p q x y hx hy)

and_split :
    (k p q x y : ℕ)
    → x < 2 ^ k
    → y < 2 ^ k
    → bit_and (p * 2 ^ k + x) (q * 2 ^ k + y) ≡ bit_and p q * 2 ^ k + bit_and x y
and_split k p q x y hx hy =
    simp bit_and-bitwise (bitwise_fields (λ b. zero) min (λ b. omega arith) k p q x y hx hy)

pub bit_or_fields : (k q r : ℕ) → r < 2 ^ k → bit_or (q * 2 ^ k) r ≡ q * 2 ^ k + r
bit_or_fields k q r h =
    ground
      (arith, or_split k q 0 0 r (one-le-pow k 2 (omega arith)) h, bit_or-zero q, zero-bit_or r)

pub bit_and_fields :
    (k p m x : ℕ) → x < 2 ^ k → bit_and (p * 2 ^ k + x) (m * 2 ^ k) ≡ bit_and p m * 2 ^ k
bit_and_fields k p m x h =
    ground (arith, and_split k p m x 0 h (one-le-pow k 2 (omega arith)), bit_and-zero x)

and_digit : (x m : ℕ) → m % 2 ≡ 1 → bit_and x m ≡ bit_and (x / 2) (m / 2) * 2 + min (x % 2) 1
and_digit x m h =
    simp bit_and-bitwise
      (digit_at (λ b. zero) min (λ b. omega arith) x m (x / 2) (m / 2) (x % 2) 1 refl refl refl h)

min_digit : (b : ℕ) → b < 2 → min b 1 ≡ b
min_digit zero h = refl
min_digit (suc zero) h = refl
min_digit (suc (suc b)) h = absurd (omega arith)

-- The low `k` digits all set.
and_ones : (k x : ℕ) → x < 2 ^ k → bit_and x (2 ^ k - 1) ≡ x
and_ones zero x h = ground (arith, bit_and-zero 0)
and_ones (suc k) x h =
    let pow : 2 ^ suc k ≡ 2 ^ k * 2 = pow-suc 2 k in
    let pos : 0 < 2 ^ k = one-le-pow k 2 (omega arith) in
    let half : (2 ^ suc k - 1) / 2 ≡ 2 ^ k - 1 = omega arith in
    omega (
      arith,
      and_digit x (2 ^ suc k - 1) (omega arith),
      ap (λ (t : ℕ). bit_and (x / 2) t) half,
      and_ones k (x / 2) (omega arith),
      min_digit (x % 2) (omega arith),
    )

pub bit_and_mask : (k a : ℕ) → bit_and a (2 ^ k - 1) ≡ a % 2 ^ k
bit_and_mask k a =
    let pos : 0 < 2 ^ k = one-le-pow k 2 (omega arith) in
    ground (
      arith,
      and_split k (a / 2 ^ k) 0 (a % 2 ^ k) (2 ^ k - 1) (omega arith) (omega arith),
      bit_and-zero (a / 2 ^ k),
      and_ones k (a % 2 ^ k) (omega arith),
    )
