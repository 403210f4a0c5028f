-- ===== src/Cidr/Pieces.antt =====
-- The blocks that pkg/util/ip/ip.go makes of a CIDR less an exception within it.
use antrea.Common.{
  ℕ, zero, suc, ◌+◌, ◌-◌, ◌≤◌, ◌<◌, ◌≡◌, refl, ap, sym, ◌∙◌, arith, Bool, true, false, ◌&&◌, ◌||◌,
  not, List, some, length, any, All,
}
use antrea.Cidr.{
  IpNet, v4_bit_len, agree, contains, mask_ip, flip_at, flip_single_bit, or_bits, new_cidr,
  remaining_cidrs, diff_from_cidr,
}
use antrea.Cidr.Agree.{
  agree_at, agree-suc, agree-le, agree_trans, agree_sym, agree-mask_ip, agree-flip_at,
  agree-flip_at_after, or_bits-mask_ip, length-mask_ip, length-flip_at,
}

-- Whether an address is in one of the blocks.
unfoldable pub covers : List IpNet → List Bool → Bool
unfolding any
covers ns x = any (λ n. contains n x) ns

-- An IPv4 block: the mask is no longer than the address.
abbrev pub Block : IpNet → Type 0
Block n = (length n.ip ≡ v4_bit_len) × (n.prefix ≤ v4_bit_len)

pub contains-agree :
    (n : IpNet) (x : List Bool) → length n.ip ≡ length x → contains n x ≡ agree n.prefix n.ip x
unfolding contains
contains-agree n x e = ground (arith, e)

flip_single_bit-flip_at :
    (t : List Bool) (j : ℕ)
    → length t ≡ 32
    → j < 32
    → flip_single_bit t (v4_bit_len - suc j) ≡ flip_at j t
unfolding flip_single_bit
flip_single_bit-flip_at t j e lt = ap (λ (i : ℕ). flip_at i t) (omega (arith, e))

new_cidr-ip :
    (p j : ℕ) (n t : List Bool)
    → length n ≡ 32
    → length t ≡ 32
    → p ≤ j
    → j < 32
    → agree p n t ≡ true
    → or_bits (mask_ip p n) (flip_single_bit t (v4_bit_len - suc j)) ≡ flip_at j t
new_cidr-ip p j n t en et le lt h =
    let same : agree p n (flip_at j t) ≡ true =
      agree_sym p n (flip_at j t) ∙ agree-flip_at_after p j t n le ∙ agree_sym p t n ∙ h in
    ap (λ (y : List Bool). or_bits (mask_ip p n) y) (flip_single_bit-flip_at t j et lt)
    ∙ or_bits-mask_ip p n (flip_at j t) (omega (arith, en, et, length-flip_at j t)) same

pub new_cidr-Block :
    (p j : ℕ) (n t : List Bool)
    → length n ≡ 32
    → length t ≡ 32
    → p ≤ j
    → j < 32
    → agree p n t ≡ true
    → Block (new_cidr (mask_ip p n) t (suc j))
unfolding new_cidr
new_cidr-Block p j n t en et le lt h = (
  length-mask_ip (suc j) _
      ∙ ap (λ (y : List Bool). length y) (new_cidr-ip p j n t en et le lt h)
      ∙ length-flip_at j t
      ∙ et,
  omega (arith, lt),
)

contains-new_cidr :
    (p j : ℕ) (n t x : List Bool)
    → length n ≡ 32
    → length t ≡ 32
    → length x ≡ 32
    → p ≤ j
    → j < 32
    → agree p n t ≡ true
    → contains (new_cidr (mask_ip p n) t (suc j)) x ≡ agree j t x && not (agree_at j t x)
unfolding new_cidr
contains-new_cidr p j n t x en et ex le lt h =
    contains-agree (new_cidr (mask_ip p n) t (suc j)) x
      ((new_cidr-Block p j n t en et le lt h).0 ∙ (omega (arith, ex)))
    ∙ agree-mask_ip (suc j) (suc j) _ x (omega arith)
    ∙ ap (λ (y : List Bool). agree (suc j) y x) (new_cidr-ip p j n t en et le lt h)
    ∙ agree-flip_at j t x (omega (arith, et)) (omega (arith, et, ex))

and-not_self : (a : Bool) → false ≡ a && not a
and-not_self true = refl
and-not_self false = refl

split_range :
    (a b f : Bool) → (f ≡ true → a && b ≡ true) → (a && not b) || ((a && b) && not f) ≡ a && not f
split_range true true f h = refl
split_range true false true h = absurd (cc (h refl))
split_range true false false h = refl
split_range false b f h = refl

covers-remaining_cidrs :
    (k p j : ℕ) (n t x : List Bool)
    → length n ≡ 32
    → length t ≡ 32
    → length x ≡ 32
    → p ≤ j
    → j + k ≤ 32
    → agree p n t ≡ true
    → covers (remaining_cidrs (mask_ip p n) t k (suc j)) x ≡ agree j t x && not (agree (j + k) t x)
unfolding covers remaining_cidrs any
covers-remaining_cidrs zero p j n t x en et ex le lt h =
    and-not_self (agree j t x) ∙ ap (λ (q : ℕ). agree j t x && not (agree q t x)) (omega arith)
covers-remaining_cidrs (suc k) p j n t x en et ex le lt h =
    let rest = covers-remaining_cidrs k p (suc j) n t x en et ex (omega arith) (omega arith) h in
    let further : agree (j + suc k) t x ≡ true → agree j t x && agree_at j t x ≡ true =
      λ f. sym (agree-suc j t x) ∙ agree-le (suc j) (j + suc k) t x (omega arith) f in
    ap (λ (b : Bool). b || covers (remaining_cidrs (mask_ip p n) t k (suc (suc j))) x)
      (contains-new_cidr p j n t x en et ex le (omega arith) h)
    ∙ ap (λ (b : Bool). (agree j t x && not (agree_at j t x)) || b) rest
    ∙ ap (λ (b : Bool). (agree j t x && not (agree_at j t x)) || (b && not (agree (suc j + k) t x)))
        (agree-suc j t x)
    ∙ ap
        (λ (q : ℕ).
          (agree j t x && not (agree_at j t x))
          || ((agree j t x && agree_at j t x) && not (agree q t x)))
        (omega arith)
    ∙ split_range (agree j t x) (agree_at j t x) (agree (j + suc k) t x) further

new_cidr-prefix : (s t : List Bool) (i m : ℕ) → i ≤ m → (new_cidr s t i).prefix ≤ m
unfolding new_cidr
new_cidr-prefix s t i m h = h

All-remaining_cidrs :
    (k p j m : ℕ) (n t : List Bool)
    → length n ≡ 32
    → length t ≡ 32
    → p ≤ j
    → j + k ≤ m
    → m ≤ 32
    → agree p n t ≡ true
    → All (λ b. Block b × (b.prefix ≤ m)) (remaining_cidrs (mask_ip p n) t k (suc j))
unfolding remaining_cidrs
All-remaining_cidrs zero p j m n t en et le lt hm h = tt
All-remaining_cidrs (suc k) p j m n t en et le lt hm h = (
  (
    new_cidr-Block p j n t en et le (omega (arith, lt, hm)) h,
    new_cidr-prefix (mask_ip p n) t (suc j) m (omega arith),
  ),
  All-remaining_cidrs k p (suc j) m n t en et (omega arith) (omega arith) hm h,
)

-- The blocks that diffFromCIDR makes of a block that has the start of the exception, and whose prefix
-- is not longer, have the addresses of the block that the exception does not have.
pub record Cuts (n e : IpNet) (ms : List IpNet) : Type 0 where
  pub blocks : All (λ b. Block b × (b.prefix ≤ e.prefix)) ms
  pub addresses :
      (x : List Bool) → length x ≡ v4_bit_len → covers ms x ≡ contains n x && not (contains e x)

pub diff_from_cidr-Cuts :
    (n e : IpNet)
    → Block n
    → Block e
    → n.prefix ≤ e.prefix
    → contains n (mask_ip e.prefix e.ip) ≡ true
    → (ms : List IpNet) × (diff_from_cidr n e ≡ some ms) × Cuts n e ms
unfolding diff_from_cidr
diff_from_cidr-Cuts n e bn be le h =
    let t : List Bool = mask_ip e.prefix e.ip in
    let et : length t ≡ 32 = length-mask_ip e.prefix e.ip ∙ be.0 in
    let k : ℕ = e.prefix - n.prefix in
    let starts : agree n.prefix n.ip t ≡ true =
      sym (contains-agree n t (omega (arith, bn.0, et))) ∙ h in
    let in_n : (x : List Bool) → length x ≡ 32 → agree n.prefix t x ≡ contains n x = λ x ex.
      agree_trans n.prefix n.ip t x (omega (arith, bn.0, et)) starts
      ∙ sym (contains-agree n x (omega (arith, bn.0, ex))) in
    let in_e : (x : List Bool) → length x ≡ 32 → agree (n.prefix + k) t x ≡ contains e x = λ x ex.
      ap (λ (q : ℕ). agree q t x) (omega arith)
      ∙ agree-mask_ip e.prefix e.prefix e.ip x (omega arith)
      ∙ sym (contains-agree e x (omega (arith, be.0, ex))) in
    (
      remaining_cidrs (mask_ip n.prefix n.ip) t k (suc n.prefix),
      ground (arith, le),
      record {
        blocks =
            All-remaining_cidrs k n.prefix n.prefix e.prefix n.ip t bn.0 et (omega arith)
              (omega arith) be.1 starts;
        addresses = λ x ex.
            covers-remaining_cidrs k n.prefix n.prefix n.ip t x bn.0 et ex (omega arith)
              (omega (arith, be.1)) starts
            ∙ ap (λ (b : Bool). b && not (agree (n.prefix + k) t x)) (in_n x ex)
            ∙ ap (λ (b : Bool). contains n x && not b) (in_e x ex);
      },
    )
