-- ===== src/Cidr/Agree.antt =====
-- Addresses of pkg/util/ip/ip.go that agree on their first bits, and how a mask, an `or` and a
-- flipped bit change that.
use antrea.Common.{
  ℕ, zero, suc, ◌≤◌, ◌<◌, ◌≡◌, refl, arith, Bool, true, false, ◌&&◌, ◌||◌, not, List, [], ◌∷◌,
  length,
}
use antrea.Cidr.{same_bit, agree, mask_ip, flip_at, or_bits}

same_bit_trans : (a b c : Bool) → same_bit a b ≡ true → same_bit b c ≡ same_bit a c
unfolding same_bit
same_bit_trans true true c h = refl
same_bit_trans true false c h = absurd (cc h)
same_bit_trans false true c h = absurd (cc h)
same_bit_trans false false c h = refl

same_bit_self : (a : Bool) → same_bit a a ≡ true
unfolding same_bit
same_bit_self true = refl
same_bit_self false = refl

same_bit_sym : (a b : Bool) → same_bit a b ≡ same_bit b a
unfolding same_bit
same_bit_sym true true = refl
same_bit_sym true false = refl
same_bit_sym false true = refl
same_bit_sym false false = refl

same_bit-not : (a b : Bool) → same_bit (not a) b ≡ not (same_bit a b)
unfolding same_bit
same_bit-not true true = refl
same_bit-not true false = refl
same_bit-not false true = refl
same_bit-not false false = refl

-- The bit `i` is the same in both.
pub agree_at : ℕ → List Bool → List Bool → Bool
unfolding same_bit
agree_at i [] y = true
agree_at i (a ∷ x) [] = true
agree_at zero (a ∷ x) (b ∷ y) = same_bit a b
agree_at (suc i) (a ∷ x) (b ∷ y) = agree_at i x y

pub agree-suc : (p : ℕ) (x y : List Bool) → agree (suc p) x y ≡ agree p x y && agree_at p x y
unfolding agree agree_at
agree-suc zero [] y = refl
agree-suc zero (a ∷ x) [] = refl
agree-suc zero (a ∷ x) (b ∷ y) = ground arith
agree-suc (suc p) [] y = refl
agree-suc (suc p) (a ∷ x) [] = refl
agree-suc (suc p) (a ∷ x) (b ∷ y) = ground (arith, agree-suc p x y)

pub agree_self : (p : ℕ) (x : List Bool) → agree p x x ≡ true
unfolding agree
agree_self zero x = refl
agree_self (suc p) [] = refl
agree_self (suc p) (a ∷ x) = ground (arith, same_bit_self a, agree_self p x)

pub agree_sym : (p : ℕ) (x y : List Bool) → agree p x y ≡ agree p y x
unfolding agree
agree_sym zero x y = refl
agree_sym (suc p) [] [] = refl
agree_sym (suc p) [] (b ∷ y) = refl
agree_sym (suc p) (a ∷ x) [] = refl
agree_sym (suc p) (a ∷ x) (b ∷ y) = ground (arith, same_bit_sym a b, agree_sym p x y)

pub agree_trans :
    (p : ℕ) (x y w : List Bool)
    → length x ≡ length y
    → agree p x y ≡ true
    → agree p y w ≡ agree p x w
unfolding agree
agree_trans zero x y w e h = refl
agree_trans (suc p) [] [] w e h = refl
agree_trans (suc p) [] (b ∷ y) w e h = absurd (omega arith)
agree_trans (suc p) (a ∷ x) [] w e h = absurd (omega arith)
agree_trans (suc p) (a ∷ x) (b ∷ y) [] e h = refl
agree_trans (suc p) (a ∷ x) (b ∷ y) (c ∷ w) e h =
    ground (arith, same_bit_trans a b c, agree_trans p x y w)

-- Fewer bits agree if more do.
pub agree-le : (p q : ℕ) (x y : List Bool) → p ≤ q → agree q x y ≡ true → agree p x y ≡ true
unfolding agree
agree-le zero q x y le h = refl
agree-le (suc p) zero x y le h = absurd (omega arith)
agree-le (suc p) (suc q) [] y le h = refl
agree-le (suc p) (suc q) (a ∷ x) [] le h = refl
agree-le (suc p) (suc q) (a ∷ x) (b ∷ y) le h = ground (arith, agree-le p q x y)

pub length-mask_ip : (p : ℕ) (x : List Bool) → length (mask_ip p x) ≡ length x
unfolding mask_ip
length-mask_ip p [] = refl
length-mask_ip zero (b ∷ x) = omega (arith, length-mask_ip zero x)
length-mask_ip (suc p) (b ∷ x) = omega (arith, length-mask_ip p x)

pub agree-mask_ip : (p q : ℕ) (x y : List Bool) → p ≤ q → agree p (mask_ip q x) y ≡ agree p x y
unfolding agree mask_ip
agree-mask_ip zero q x y le = refl
agree-mask_ip (suc p) zero x y le = absurd (omega arith)
agree-mask_ip (suc p) (suc q) [] y le = refl
agree-mask_ip (suc p) (suc q) (a ∷ x) [] le = refl
agree-mask_ip (suc p) (suc q) (a ∷ x) (b ∷ y) le = ground (arith, agree-mask_ip p q x y)

pub length-flip_at : (i : ℕ) (x : List Bool) → length (flip_at i x) ≡ length x
unfolding flip_at
length-flip_at i [] = refl
length-flip_at zero (b ∷ x) = refl
length-flip_at (suc i) (b ∷ x) = omega (arith, length-flip_at i x)

pub length-or_bits : (x y : List Bool) → length x ≡ length y → length (or_bits x y) ≡ length y
unfolding or_bits
length-or_bits [] y e = refl
length-or_bits (a ∷ x) [] e = refl
length-or_bits (a ∷ x) (b ∷ y) e = omega (arith, length-or_bits x y (omega arith))

-- One bit further than the flipped one, agreeing is to differ there.
pub agree-flip_at :
    (i : ℕ) (x y : List Bool)
    → i < length x
    → length x ≡ length y
    → agree (suc i) (flip_at i x) y ≡ agree i x y && not (agree_at i x y)
unfolding agree agree_at flip_at
agree-flip_at i [] y lt e = absurd (omega arith)
agree-flip_at i (a ∷ x) [] lt e = absurd (omega arith)
agree-flip_at zero (a ∷ x) (b ∷ y) lt e = ground (arith, same_bit-not a b)
agree-flip_at (suc i) (a ∷ x) (b ∷ y) lt e =
    ground (arith, agree-flip_at i x y (omega arith) (omega arith))

pub agree-flip_at_after :
    (p i : ℕ) (x y : List Bool) → p ≤ i → agree p (flip_at i x) y ≡ agree p x y
unfolding agree flip_at
agree-flip_at_after zero i x y le = refl
agree-flip_at_after (suc p) zero x y le = absurd (omega arith)
agree-flip_at_after (suc p) (suc i) [] y le = refl
agree-flip_at_after (suc p) (suc i) (a ∷ x) [] le = refl
agree-flip_at_after (suc p) (suc i) (a ∷ x) (b ∷ y) le = ground (arith, agree-flip_at_after p i x y)

same_or : (a b : Bool) → same_bit a b ≡ true → (a || b) ≡ b
unfolding same_bit
same_or true true h = refl
same_or true false h = absurd (cc h)
same_or false b h = refl

-- The bits after the prefix are 0 in the masked address, and those in it are the same in both.
pub or_bits-mask_ip :
    (p : ℕ) (n x : List Bool)
    → length n ≡ length x
    → agree p n x ≡ true
    → or_bits (mask_ip p n) x ≡ x
unfolding agree or_bits mask_ip
or_bits-mask_ip p [] x e h = refl
or_bits-mask_ip p (a ∷ n) [] e h = absurd (omega arith)
or_bits-mask_ip zero (a ∷ n) (b ∷ x) e h = rw (or_bits-mask_ip zero n x (omega arith) refl) refl
or_bits-mask_ip (suc p) (a ∷ n) (b ∷ x) e h =
    ground (arith, same_or a b, or_bits-mask_ip p n x (omega arith))
