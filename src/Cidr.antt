-- ===== src/Cidr.antt =====
-- pkg/util/ip/ip.go: the difference of a CIDR and its exceptions. An IP is the list of its bits, the
-- most significant first: 32 of them if `To4` gives it, else 128. A mask is the length of its prefix,
-- as net.CIDRMask makes it from one.
pub mod Agree
pub mod Pieces
pub mod Sort
pub mod Merge
pub mod Overlap
pub mod Loop
pub mod Difference
pub mod Tests
use antrea.Common.{
  ℕ, suc, zero, ◌+◌, ◌-◌, String, Bool, true, false, ◌&&◌, ◌||◌, not, List, [], ◌∷◌, ◌++◌, Option,
  none, some, ltb, ◌==◌, if◌then◌else◌, length, keep,
}

abbrev pub v4_bit_len : ℕ
v4_bit_len = 32

pub record IpNet : Type 0 where
  pub ip : List Bool
  pub prefix : ℕ

pub same_bit : Bool → Bool → Bool
same_bit true b = b
same_bit false b = not b

-- Whether two addresses have the same first `p` bits.
pub agree : ℕ → List Bool → List Bool → Bool
agree zero x y = true
agree (suc p) [] y = true
agree (suc p) (a ∷ x) [] = true
agree (suc p) (a ∷ x) (b ∷ y) = same_bit a b && agree p x y

-- IPNet.Contains
pub contains : IpNet → List Bool → Bool
contains n x = (length n.ip == length x) && agree n.prefix n.ip x

-- IP.Mask
pub mask_ip : ℕ → List Bool → List Bool
mask_ip p [] = []
mask_ip zero (b ∷ x) = false ∷ mask_ip zero x
mask_ip (suc p) (b ∷ x) = b ∷ mask_ip p x

-- ip.To4() != nil
pub is_v4 : List Bool → Bool
is_v4 x = length x == v4_bit_len

pub flip_at : ℕ → List Bool → List Bool
flip_at i [] = []
flip_at zero (b ∷ x) = not b ∷ x
flip_at (suc i) (b ∷ x) = b ∷ flip_at i x

-- `bit_index` counts from the least significant bit.
pub flip_single_bit : List Bool → ℕ → List Bool
flip_single_bit x bit_index = flip_at (length x - bit_index - 1) x

pub or_bits : List Bool → List Bool → List Bool
or_bits [] y = y
or_bits (a ∷ x) [] = []
or_bits (a ∷ x) (b ∷ y) = (a || b) ∷ or_bits x y

-- The block of the prefix length `i`.
pub new_cidr : List Bool → List Bool → ℕ → IpNet
new_cidr allow_start except_start i = record {
  ip = mask_ip i (or_bits allow_start (flip_single_bit except_start (v4_bit_len - i)));
  prefix = i;
}

-- The loop from the prefix length `i` on, with `k` rounds to go.
pub remaining_cidrs : List Bool → List Bool → ℕ → ℕ → List IpNet
remaining_cidrs allow_start except_start zero i = []
remaining_cidrs allow_start except_start (suc k) i =
    new_cidr allow_start except_start i ∷ remaining_cidrs allow_start except_start k (suc i)

-- `make` panics on a negative capacity, which is none.
pub diff_from_cidr : IpNet → IpNet → Option (List IpNet)
diff_from_cidr allow except =
    if ltb except.prefix allow.prefix
    then none
    else some (
        remaining_cidrs (mask_ip allow.prefix allow.ip) (mask_ip except.prefix except.ip)
          (except.prefix - allow.prefix) (allow.prefix + 1))

-- bytes.Compare of the masks: of two masks of one length the shorter prefix comes first, and a mask
-- that begins another comes before it.
pub mask_less : IpNet → IpNet → Bool
mask_less a b = ltb a.prefix b.prefix || ((a.prefix == b.prefix) && ltb (length a.ip) (length b.ip))

-- sort.Slice, which leaves the order of equal masks open; here they keep theirs.
pub insert_by_mask : IpNet → List IpNet → List IpNet
insert_by_mask n [] = n ∷ []
insert_by_mask n (m ∷ ms) =
    let rest = insert_by_mask n ms in if mask_less m n then m ∷ rest else n ∷ m ∷ ms

pub sort_by_mask : List IpNet → List IpNet
sort_by_mask [] = []
sort_by_mask (n ∷ ns) = insert_by_mask n (sort_by_mask ns)

-- The loop over the blocks that are left; the inner one drops those whose IP the first contains.
pub merge_loop : ℕ → List IpNet → List IpNet
merge_loop zero ns = ns
merge_loop (suc fuel) [] = []
merge_loop (suc fuel) (n ∷ ns) = n ∷ merge_loop fuel (keep (λ m. not (contains n m.ip)) ns)

-- Each round of the loop takes one block off those that are left.
pub merge_cidrs : List IpNet → List IpNet
merge_cidrs ns = merge_loop (length ns) (sort_by_mask ns)

pub data Outcome : Type 0 where
  done : List IpNet → Outcome
  failed : String → Outcome
  panicked out_of_fuel : Outcome

-- The loop after `beginLoop:` up to the block that it cuts or deletes, which comes after `pre`; none
-- if there is no such block. The new list, or none for a panic.
pub cut : IpNet → List IpNet → List IpNet → Option (Option (List IpNet))
cut except pre [] = none
cut except pre (n ∷ ns) =
    let rest = cut except (pre ++ (n ∷ [])) ns in
    if contains n (mask_ip except.prefix except.ip)
    then some (elim (diff_from_cidr n except) [
      | none ↦ none
      | some result ↦ some ((pre ++ ns) ++ result)
    ])
    else if contains except n.ip
    then some (some (pre ++ ns))
    else rest

-- A round is one pass from `beginLoop:` to the `goto` or the end of the loop.
pub begin_loop : ℕ → IpNet → List IpNet → Outcome
begin_loop zero except ns = out_of_fuel
begin_loop (suc fuel) except ns = elim (cut except [] ns) [
  | none ↦ done ns
  | some result ↦ elim result [ none ↦ panicked | some ms ↦ begin_loop fuel except ms ]
]

-- The loop over the exceptions.
pub except_loop : List IpNet → List IpNet → Outcome
except_loop [] ns = done ns
except_loop (except ∷ excepts) ns =
    if is_v4 except.ip
    then (elim (begin_loop (length ns + 1) except ns) [
      | done ms ↦ except_loop excepts ms
      | failed e ↦ failed e
      | panicked ↦ panicked
      | out_of_fuel ↦ out_of_fuel
    ])
    else failed "exceptCIDR IP type is not v4"

pub diff_from_cidrs : IpNet → List IpNet → Outcome
diff_from_cidrs allow excepts =
    if is_v4 allow.ip
    then except_loop (merge_cidrs excepts) (allow ∷ [])
    else failed "allowCIDR IP type is not v4"
