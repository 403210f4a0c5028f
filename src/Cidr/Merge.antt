-- ===== src/Cidr/Merge.antt =====
-- mergeCIDRs of pkg/util/ip/ip.go: the blocks that are left have the same addresses, in the order of
-- their masks, and no two of them share one.
use antrea.Common.{
  ℕ, zero, suc, ◌+◌, ◌≤◌, ◌≡◌, inl, inr, refl, ap, sym, ◌∙◌, arith, Bool, true, false, ◌&&◌, ◌||◌,
  not, List, [], ◌∷◌, length, any, All, All-mono, Bool-cases, keep, length-keep-le,
}
use antrea.Cidr.{
  IpNet, v4_bit_len, agree, contains, insert_by_mask, sort_by_mask, merge_loop, merge_cidrs,
}
use antrea.Cidr.Agree.{agree-le, agree_trans, agree_sym}
use antrea.Cidr.Pieces.{covers, Block, contains-agree}
use antrea.Cidr.Overlap.{covers-cons}
use antrea.Cidr.Sort.{
  Ascending, Ascending-sort_by_mask, any-sort_by_mask, All-sort_by_mask, All-keep, All-merge_loop,
  Ascending-keep, Ascending-merge_loop,
}

-- A block whose IP is in one that is no smaller lies in it.
nested :
    (n m : IpNet) (x : List Bool)
    → Block n
    → Block m
    → n.prefix ≤ m.prefix
    → length x ≡ 32
    → contains n m.ip ≡ true
    → contains m x ≡ true
    → contains n x ≡ true
nested n m x bn bm le ex hn hm =
    let in_n : agree n.prefix n.ip m.ip ≡ true =
      sym (contains-agree n m.ip (omega (arith, bn.0, bm.0))) ∙ hn in
    let in_m : agree m.prefix m.ip x ≡ true =
      sym (contains-agree m x (omega (arith, bm.0, ex))) ∙ hm in
    contains-agree n x (omega (arith, bn.0, ex))
    ∙ sym (agree_trans n.prefix n.ip m.ip x (omega (arith, bn.0, bm.0)) in_n)
    ∙ agree-le n.prefix m.prefix m.ip x le in_m

-- Of two blocks that share an address, the one that is no smaller has the other's IP.
meets :
    (n m : IpNet) (x : List Bool)
    → Block n
    → Block m
    → n.prefix ≤ m.prefix
    → length x ≡ 32
    → contains n x ≡ true
    → contains m x ≡ true
    → contains n m.ip ≡ true
meets n m x bn bm le ex hn hm =
    let in_n : agree n.prefix n.ip x ≡ true =
      sym (contains-agree n x (omega (arith, bn.0, ex))) ∙ hn in
    let in_m : agree m.prefix m.ip x ≡ true =
      sym (contains-agree m x (omega (arith, bm.0, ex))) ∙ hm in
    contains-agree n m.ip (omega (arith, bn.0, bm.0))
    ∙ sym (agree_trans n.prefix n.ip x m.ip (omega (arith, bn.0, ex)) in_n)
    ∙ agree_sym n.prefix x m.ip
    ∙ agree-le n.prefix m.prefix m.ip x le in_m

covers-keep :
    (n : IpNet) (p : ℕ) (ns : List IpNet) (x : List Bool)
    → Block n
    → All Block ns
    → n.prefix ≤ p
    → Ascending p ns
    → length x ≡ 32
    → contains n x || covers (keep (λ m. not (contains n m.ip)) ns) x ≡ contains n x || covers ns x
unfolding covers any keep
covers-keep n p [] x bn bs le h ex = refl
covers-keep n p (m ∷ ms) x bn bs le h ex = ground (
  arith,
  nested n m x bn bs.0 (omega (arith, le, h.0)) ex,
  covers-keep n m.prefix ms x bn bs.1 (omega (arith, le, h.0)) h.1 ex,
)

covers-merge_loop :
    (fuel p : ℕ) (ns : List IpNet) (x : List Bool)
    → All Block ns
    → Ascending p ns
    → length x ≡ 32
    → covers (merge_loop fuel ns) x ≡ covers ns x
unfolding merge_loop
covers-merge_loop zero p ns x bs h ex = refl
covers-merge_loop (suc fuel) p [] x bs h ex = refl
covers-merge_loop (suc fuel) p (n ∷ ns) x bs h ex =
    let kept : List IpNet = keep (λ m. not (contains n m.ip)) ns in
    covers-cons n (merge_loop fuel kept) x
    ∙ ap (λ (b : Bool). contains n x || b)
        (covers-merge_loop fuel n.prefix kept x (All-keep Block _ ns bs.1)
          (Ascending-keep _ n.prefix ns h.1) ex)
    ∙ covers-keep n n.prefix ns x bs.0 bs.1 (omega arith) h.1 ex
    ∙ sym (covers-cons n ns x)

-- No address is in two of the blocks.
abbrev pub Apart : List IpNet → Type 0
Apart [] = Unit
Apart (n ∷ ns) =
    All (λ m. (x : List Bool) → length x ≡ v4_bit_len → contains n x && contains m x ≡ false) ns
    × Apart ns

-- What the blocks that the first one leaves are to it.
abbrev Later : IpNet → IpNet → Type 0
Later n m = Block m × (n.prefix ≤ m.prefix) × (not (contains n m.ip) ≡ true)

Later-apart :
    (n m : IpNet)
    → Block n
    → Later n m
    → (x : List Bool) → length x ≡ 32
    → contains n x && contains m x ≡ false
Later-apart n m bn h x ex = ground (arith, h.2, meets n m x bn h.0 h.1 ex)

Later-keep :
    (n : IpNet) (p : ℕ) (ns : List IpNet)
    → All Block ns
    → n.prefix ≤ p
    → Ascending p ns
    → All (Later n) (keep (λ m. not (contains n m.ip)) ns)
unfolding keep
Later-keep n p [] bs le h = tt
Later-keep n p (m ∷ ms) bs le h =
    let rest = Later-keep n m.prefix ms bs.1 (omega (arith, le, h.0)) h.1 in
    elim (Bool-cases (not (contains n m.ip))) [
      | inl e ↦ rw e ((bs.0, omega (arith, le, h.0), e), rest)
      | inr e ↦ rw e rest
    ]

Apart-merge_loop :
    (fuel p : ℕ) (ns : List IpNet)
    → length ns ≤ fuel
    → All Block ns
    → Ascending p ns
    → Apart (merge_loop fuel ns)
unfolding merge_loop
Apart-merge_loop zero p [] le bs h = tt
Apart-merge_loop zero p (n ∷ ns) le bs h = absurd (omega arith)
Apart-merge_loop (suc fuel) p [] le bs h = tt
Apart-merge_loop (suc fuel) p (n ∷ ns) le bs h =
    let kept : List IpNet = keep (λ m. not (contains n m.ip)) ns in
    (
      All-mono (λ m l. Later-apart n m bs.0 l) _
          (All-merge_loop (Later n) fuel kept (Later-keep n n.prefix ns bs.1 (omega arith) h.1)),
      Apart-merge_loop fuel n.prefix kept (omega (arith, length-keep-le _ ns))
          (All-keep Block _ ns bs.1) (Ascending-keep _ n.prefix ns h.1),
    )

length-insert_by_mask : (n : IpNet) (ns : List IpNet) → length (insert_by_mask n ns) ≡ length ns + 1
unfolding insert_by_mask
length-insert_by_mask n [] = refl
length-insert_by_mask n (m ∷ ms) = ground (arith, length-insert_by_mask n ms)

length-sort_by_mask : (ns : List IpNet) → length (sort_by_mask ns) ≡ length ns
unfolding sort_by_mask
length-sort_by_mask [] = refl
length-sort_by_mask (n ∷ ns) =
    omega (arith, length-insert_by_mask n (sort_by_mask ns), length-sort_by_mask ns)

-- The merged blocks of IPv4 blocks have the same addresses, and no address is in two of them.
pub merge_cidrs-Apart :
    (ns : List IpNet)
    → All Block ns
    → Apart (merge_cidrs ns)
      × ((x : List Bool) → length x ≡ v4_bit_len → covers (merge_cidrs ns) x ≡ covers ns x)
unfolding merge_cidrs covers
merge_cidrs-Apart ns bs =
    let sorted : All Block (sort_by_mask ns) = All-sort_by_mask Block ns bs in
    (
      Apart-merge_loop (length ns) 0 (sort_by_mask ns) (omega (arith, length-sort_by_mask ns))
          sorted (Ascending-sort_by_mask ns),
      λ x ex.
          covers-merge_loop (length ns) 0 (sort_by_mask ns) x sorted (Ascending-sort_by_mask ns) ex
          ∙ any-sort_by_mask (λ n. contains n x) ns,
    )

pub Ascending-merge_cidrs : (ns : List IpNet) → Ascending 0 (merge_cidrs ns)
unfolding merge_cidrs
Ascending-merge_cidrs ns =
    Ascending-merge_loop (length ns) 0 (sort_by_mask ns) (Ascending-sort_by_mask ns)

pub All-merge_cidrs : (P : IpNet → Type 0) (ns : List IpNet) → All P ns → All P (merge_cidrs ns)
unfolding merge_cidrs
All-merge_cidrs P ns hs = All-merge_loop P (length ns) (sort_by_mask ns) (All-sort_by_mask P ns hs)
