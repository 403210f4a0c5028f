-- ===== src/Cidr/Tests.antt =====
-- Runs of DiffFromCIDRs on blocks in 10.0.0.0/24.
use antrea.Common.{
  ℕ, zero, suc, ◌+◌, ◌*◌, ◌/◌, ◌%◌, ◌^◌, ◌≤◌, ◌≡◌, refl, arith, Bool, ◌&&◌, not, List, [], ◌∷◌,
  ◌==◌, length, All, keep,
}
use antrea.Cidr.{
  IpNet, v4_bit_len, agree, contains, mask_ip, diff_from_cidr, remaining_cidrs, new_cidr, or_bits,
  flip_single_bit, flip_at, is_v4, mask_less, insert_by_mask, sort_by_mask, merge_loop, merge_cidrs,
  cut, begin_loop, except_loop, diff_from_cidrs, done, failed, same_bit,
}
use antrea.Cidr.Pieces.{covers, Block}
use antrea.Cidr.Merge.{Apart, merge_cidrs-Apart}
use antrea.Cidr.Difference.{diff_from_cidrs-covers}

abbrev bits : ℕ → ℕ → List Bool
bits zero n = []
bits (suc w) n = (n / 2 ^ w % 2 == 1) ∷ bits w n

abbrev ten : ℕ → List Bool
ten last = bits 32 (10 * 2 ^ 24 + last)

abbrev block : ℕ → ℕ → IpNet
block last prefix = record { ip = ten last; prefix = prefix }

abbrev halves : List IpNet
halves = block 128 26 ∷ block 0 25 ∷ block 64 26 ∷ []

merge_run : merge_cidrs halves ≡ block 0 25 ∷ block 128 26 ∷ []
unfolding merge_cidrs merge_loop sort_by_mask insert_by_mask mask_less contains agree same_bit keep
merge_run = refl

-- 10.0.0.192/26 is left.
diff_run : diff_from_cidrs (block 0 24) halves ≡ done (block 192 26 ∷ [])
unfolding merge_cidrs merge_loop sort_by_mask insert_by_mask mask_less contains agree same_bit keep
    diff_from_cidrs except_loop begin_loop cut is_v4 mask_ip diff_from_cidr remaining_cidrs new_cidr
    or_bits flip_single_bit flip_at
diff_run = refl

v6_run :
    diff_from_cidrs (record { ip = bits 128 1; prefix = 64 }) halves
    ≡ failed "allowCIDR IP type is not v4"
unfolding diff_from_cidrs is_v4
v6_run = refl

v6_except_run :
    diff_from_cidrs (block 0 24) (record { ip = bits 128 1; prefix = 64 } ∷ [])
    ≡ failed "exceptCIDR IP type is not v4"
unfolding merge_cidrs merge_loop sort_by_mask insert_by_mask keep diff_from_cidrs except_loop is_v4
v6_except_run = refl

halves-within_24 : All (λ e. Block e × (24 ≤ e.prefix)) halves
halves-within_24 = (
  ((refl, omega arith), omega arith),
  (((refl, omega arith), omega arith), (((refl, omega arith), omega arith), tt)),
)

diff_from_cidrs-covers_example :
    (ms : List IpNet) × (diff_from_cidrs (block 0 24) halves ≡ done ms)
    × ((x : List Bool)
        → length x ≡ v4_bit_len
        → covers ms x ≡ contains (block 0 24) x && not (covers halves x))
diff_from_cidrs-covers_example =
    diff_from_cidrs-covers (block 0 24) halves (refl, omega arith) halves-within_24

merge_cidrs-Apart_example :
    Apart (merge_cidrs halves)
    × ((x : List Bool) → length x ≡ v4_bit_len → covers (merge_cidrs halves) x ≡ covers halves x)
merge_cidrs-Apart_example =
    merge_cidrs-Apart halves ((refl, omega arith), ((refl, omega arith), ((refl, omega arith), tt)))
