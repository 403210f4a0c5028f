-- ===== src/Cidr/Sort.antt =====
-- The sort and the inner loop of mergeCIDRs in pkg/util/ip/ip.go: what they keep of a list of blocks.
use antrea.Common.{
  ℕ, zero, suc, ◌≤◌, ◌≡◌, inl, inr, refl, ap, ◌∙◌, arith, Bool, ◌||◌, List, [], ◌∷◌, any, All,
  Bool-cases, keep,
}
use antrea.Cidr.{IpNet, mask_less, insert_by_mask, sort_by_mask, merge_loop}

-- The prefixes do not get shorter, from `p` on.
abbrev pub Ascending : ℕ → List IpNet → Type 0
Ascending p [] = Unit
Ascending p (n ∷ ns) = (p ≤ n.prefix) × Ascending n.prefix ns

pub Ascending-le : (p q : ℕ) (ns : List IpNet) → p ≤ q → Ascending q ns → Ascending p ns
Ascending-le p q [] le h = tt
Ascending-le p q (n ∷ ns) le h = (omega (arith, le, h.0), h.1)

Ascending-insert_by_mask :
    (p : ℕ) (n : IpNet) (ns : List IpNet)
    → p ≤ n.prefix
    → Ascending p ns
    → Ascending p (insert_by_mask n ns)
unfolding insert_by_mask mask_less
Ascending-insert_by_mask p n [] le h = (le, tt)
Ascending-insert_by_mask p n (m ∷ ms) le h =
    ground (arith, h.0, h.1, Ascending-insert_by_mask m.prefix n ms)

pub Ascending-sort_by_mask : (ns : List IpNet) → Ascending 0 (sort_by_mask ns)
unfolding sort_by_mask
Ascending-sort_by_mask [] = tt
Ascending-sort_by_mask (n ∷ ns) =
    Ascending-insert_by_mask 0 n (sort_by_mask ns) (omega arith) (Ascending-sort_by_mask ns)

module _ (f : IpNet → Bool) where
  any-insert_by_mask : (n : IpNet) (ns : List IpNet) → any f (insert_by_mask n ns) ≡ f n || any f ns
  unfolding any insert_by_mask
  any-insert_by_mask n [] = refl
  any-insert_by_mask n (m ∷ ms) = ground (arith, any-insert_by_mask n ms)

  pub any-sort_by_mask : (ns : List IpNet) → any f (sort_by_mask ns) ≡ any f ns
  unfolding any sort_by_mask
  any-sort_by_mask [] = refl
  any-sort_by_mask (n ∷ ns) =
      any-insert_by_mask n (sort_by_mask ns) ∙ ap (λ (b : Bool). f n || b) (any-sort_by_mask ns)

module _ (P : IpNet → Type 0) where
  All-insert_by_mask : (n : IpNet) (ns : List IpNet) → P n → All P ns → All P (insert_by_mask n ns)
  unfolding insert_by_mask
  All-insert_by_mask n [] h hs = (h, tt)
  All-insert_by_mask n (m ∷ ms) h hs = elim (Bool-cases (mask_less m n)) [
    | inl e ↦ rw e (hs.0, All-insert_by_mask n ms h hs.1)
    | inr e ↦ rw e (h, hs)
  ]

  pub All-sort_by_mask : (ns : List IpNet) → All P ns → All P (sort_by_mask ns)
  unfolding sort_by_mask
  All-sort_by_mask [] hs = tt
  All-sort_by_mask (n ∷ ns) hs =
      All-insert_by_mask n (sort_by_mask ns) hs.0 (All-sort_by_mask ns hs.1)

  pub All-keep : (f : IpNet → Bool) (ns : List IpNet) → All P ns → All P (keep f ns)
  unfolding keep
  All-keep f [] hs = tt
  All-keep f (n ∷ ns) hs = elim (Bool-cases (f n)) [
    | inl e ↦ rw e (hs.0, All-keep f ns hs.1)
    | inr e ↦ rw e (All-keep f ns hs.1)
  ]

  pub All-merge_loop : (fuel : ℕ) (ns : List IpNet) → All P ns → All P (merge_loop fuel ns)
  unfolding merge_loop
  All-merge_loop zero ns hs = hs
  All-merge_loop (suc fuel) [] hs = tt
  All-merge_loop (suc fuel) (n ∷ ns) hs = (hs.0, All-merge_loop fuel _ (All-keep _ ns hs.1))

pub Ascending-keep :
    (f : IpNet → Bool) (p : ℕ) (ns : List IpNet) → Ascending p ns → Ascending p (keep f ns)
unfolding keep
Ascending-keep f p [] h = tt
Ascending-keep f p (n ∷ ns) h =
    ground (arith, h.0, Ascending-keep f n.prefix ns h.1, Ascending-le p n.prefix (keep f ns))

pub Ascending-merge_loop :
    (fuel p : ℕ) (ns : List IpNet) → Ascending p ns → Ascending p (merge_loop fuel ns)
unfolding merge_loop
Ascending-merge_loop zero p ns h = h
Ascending-merge_loop (suc fuel) p [] h = tt
Ascending-merge_loop (suc fuel) p (n ∷ ns) h =
    (h.0, Ascending-merge_loop fuel n.prefix _ (Ascending-keep _ n.prefix ns h.1))
