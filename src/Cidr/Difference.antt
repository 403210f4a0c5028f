-- ===== src/Cidr/Difference.antt =====
-- DiffFromCIDRs of pkg/util/ip/ip.go: the loop over the exceptions ends, with the addresses that are in
-- none of them.
use antrea.Common.{
  ℕ, suc, ◌+◌, ◌≤◌, ◌<◌, ◌≡◌, refl, ap, ◌∙◌, arith, Bool, true, ◌&&◌, not, List, [], ◌∷◌, none,
  length, keep, any, All, All-mono,
}
use antrea.Cidr.{
  IpNet, v4_bit_len, contains, diff_from_cidr, cut, merge_loop, sort_by_mask, insert_by_mask, is_v4,
  mask_ip, begin_loop, except_loop, panicked, merge_cidrs, diff_from_cidrs, done,
}
use antrea.Cidr.Pieces.{covers, Block}
use antrea.Cidr.Overlap.{covers-cons}
use antrea.Cidr.Loop.{Blocks, begin_loop-Less}
use antrea.Cidr.Sort.{Ascending}
use antrea.Cidr.Merge.{merge_cidrs-Apart, Ascending-merge_cidrs, All-merge_cidrs}

except_loop-cons :
    (e : IpNet) (es ns ms : List IpNet)
    → Block e
    → begin_loop (length ns + 1) e ns ≡ done ms
    → except_loop (e ∷ es) ns ≡ except_loop es ms
unfolding is_v4 except_loop
except_loop-cons e es ns ms be b =
    let v4 : is_v4 e.ip ≡ true = ground (arith, be.0) in rw (v4, b, except_loop) refl

except_loop-nil : (ns : List IpNet) → except_loop [] ns ≡ done ns
unfolding except_loop
except_loop-nil ns = refl

covers-nil : (ns : List IpNet) (x : List Bool) → covers ns x ≡ covers ns x && not (covers [] x)
unfolding covers any
covers-nil ns x = ground arith

covers-one : (n : IpNet) (x : List Bool) → covers (n ∷ []) x ≡ contains n x
unfolding covers any
covers-one n x = ground arith

diff_from_cidrs-v4 :
    (allow : IpNet) (excepts : List IpNet)
    → Block allow
    → diff_from_cidrs allow excepts ≡ except_loop (merge_cidrs excepts) (allow ∷ [])
unfolding is_v4 diff_from_cidrs
diff_from_cidrs-v4 allow excepts ba =
    let v4 : is_v4 allow.ip ≡ true = ground (arith, ba.0) in rw (v4, diff_from_cidrs) refl

Ascending-from :
    (p q : ℕ) (ns : List IpNet)
    → All (λ e. Block e × (p ≤ e.prefix)) ns
    → Ascending q ns
    → Ascending p ns
Ascending-from p q [] hs h = tt
Ascending-from p q (n ∷ ns) hs h = (hs.0.1, h.1)

except_loop-covers :
    (es ns : List IpNet) (p : ℕ)
    → All Block es
    → Ascending p es
    → Blocks p ns
    → (ms : List IpNet) × (except_loop es ns ≡ done ms)
      × ((x : List Bool) → length x ≡ v4_bit_len → covers ms x ≡ covers ns x && not (covers es x))
except_loop-covers [] ns p bs h hs = (ns, except_loop-nil ns, λ x ex. covers-nil ns x)
except_loop-covers (e ∷ es) ns p bs h hs =
    let wide : Blocks e.prefix ns = All-mono (λ n b. (b.0, omega (arith, b.1, h.0))) ns hs in
    let (ms, b, l) = begin_loop-Less e ns bs.0 wide in
    let (out, c, a) = except_loop-covers es ms e.prefix bs.1 h.1 l.blocks in
    (
      out,
      except_loop-cons e es ns ms bs.0 b ∙ c,
      λ x ex. ground (arith, a x ex, l.addresses x ex, covers-cons e es x),
    )

-- For an IPv4 block and exceptions whose masks are no shorter than its own, DiffFromCIDRs returns
-- blocks, and they have the addresses of the block that no exception has.
pub diff_from_cidrs-covers :
    (allow : IpNet) (excepts : List IpNet)
    → Block allow
    → All (λ e. Block e × (allow.prefix ≤ e.prefix)) excepts
    → (ms : List IpNet) × (diff_from_cidrs allow excepts ≡ done ms)
      × ((x : List Bool)
          → length x ≡ v4_bit_len
          → covers ms x ≡ contains allow x && not (covers excepts x))
diff_from_cidrs-covers allow excepts ba bs =
    let blocks : All Block excepts = All-mono (λ e b. b.0) excepts bs in
    let merged = All-merge_cidrs (λ e. Block e × (allow.prefix ≤ e.prefix)) excepts bs in
    let (ms, b, a) =
      except_loop-covers (merge_cidrs excepts) (allow ∷ []) allow.prefix
        (All-merge_cidrs Block excepts blocks)
        (Ascending-from allow.prefix 0 _ merged (Ascending-merge_cidrs excepts))
        ((ba, omega arith), tt) in
    (
      ms,
      diff_from_cidrs-v4 allow excepts ba ∙ b,
      λ x ex. ground (arith, a x ex, covers-one allow x, (merge_cidrs-Apart excepts blocks).1 x ex),
    )

merge_cidrs-one : (e : IpNet) → merge_cidrs (e ∷ []) ≡ e ∷ []
unfolding merge_cidrs merge_loop sort_by_mask insert_by_mask keep
merge_cidrs-one e = refl

diff_from_cidr-none : (n e : IpNet) → e.prefix < n.prefix → diff_from_cidr n e ≡ none
unfolding diff_from_cidr
diff_from_cidr-none n e lt = ground (arith, lt)

begin_loop-panicked :
    (n e : IpNet) (fuel : ℕ)
    → e.prefix < n.prefix
    → contains n (mask_ip e.prefix e.ip) ≡ true
    → begin_loop (suc fuel) e (n ∷ []) ≡ panicked
unfolding begin_loop cut
begin_loop-panicked n e fuel lt h =
    let d : diff_from_cidr n e ≡ none = diff_from_cidr-none n e lt in
    rw (h, d, begin_loop, cut) refl

except_loop-panicked :
    (e : IpNet) (es ns : List IpNet)
    → Block e
    → begin_loop (length ns + 1) e ns ≡ panicked
    → except_loop (e ∷ es) ns ≡ panicked
unfolding is_v4 except_loop
except_loop-panicked e es ns be b =
    let v4 : is_v4 e.ip ≡ true = ground (arith, be.0) in rw (v4, b, except_loop) refl

-- DiffFromCIDRs panics, at the negative capacity of diffFromCIDR, for an IPv4 block and one exception
-- of a shorter mask whose first address is in the block.
diff_from_cidrs-panics :
    (allow except : IpNet)
    → Block allow
    → Block except
    → except.prefix < allow.prefix
    → contains allow (mask_ip except.prefix except.ip) ≡ true
    → diff_from_cidrs allow (except ∷ []) ≡ panicked
diff_from_cidrs-panics allow except ba be lt h =
    diff_from_cidrs-v4 allow (except ∷ []) ba
    ∙ ap (λ (es : List IpNet). except_loop es (allow ∷ [])) (merge_cidrs-one except)
    ∙ except_loop-panicked except [] (allow ∷ []) be (begin_loop-panicked allow except 1 lt h)
