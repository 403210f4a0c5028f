-- ===== src/Cidr/Loop.antt =====
-- The loop of DiffFromCIDRs in pkg/util/ip/ip.go for one exception: each `goto beginLoop` leaves fewer
-- blocks with the start of the exception.
use antrea.Common.{
  ℕ, zero, suc, ◌+◌, ◌≤◌, ◌<◌, ◌≡◌, ◌⊎◌, inl, inr, refl, ap, subst, ◌∙◌, arith, Bool, true, false,
  ◌&&◌, not, List, [], ◌∷◌, ◌++◌, none, some, length, any, All, All-append, Bool-cases,
  if◌then◌else◌,
}
use mathlib.Core.List.{append_assoc}
use antrea.Cidr.{IpNet, v4_bit_len, contains, diff_from_cidr, cut, begin_loop, done}
use antrea.Cidr.Pieces.{covers, Block, Cuts, diff_from_cidr-Cuts}
use antrea.Cidr.Overlap.{
  start, length-start, covers-append, covers-cons, overlap, within, contains-start, and-false,
}

-- Blocks that are no smaller than the exception.
abbrev pub Blocks : ℕ → List IpNet → Type 0
Blocks p ns = All (λ b. Block b × (b.prefix ≤ p)) ns

hits : IpNet → List IpNet → ℕ
hits e [] = 0
hits e (n ∷ ns) = (if contains n (start e) then 1 else 0) + hits e ns

hits-append : (e : IpNet) (xs ys : List IpNet) → hits e (xs ++ ys) ≡ hits e xs + hits e ys
unfolding hits
hits-append e [] ys = omega arith
hits-append e (n ∷ xs) ys = omega (arith, hits-append e xs ys)

hits-le : (e : IpNet) (xs : List IpNet) → hits e xs ≤ length xs
unfolding hits
hits-le e [] = omega arith
hits-le e (n ∷ xs) = ground (arith, hits-le e xs)

no_hits : (e : IpNet) (ms : List IpNet) → covers ms (start e) ≡ false → hits e ms ≡ 0
unfolding hits covers any
no_hits e [] h = refl
no_hits e (n ∷ ms) h = ground (arith, no_hits e ms)

Cuts-no_hits : (n e : IpNet) (ms : List IpNet) → Block e → Cuts n e ms → hits e ms ≡ 0
Cuts-no_hits n e ms be c = no_hits e ms (
    c.addresses (start e) (length-start e be)
    ∙ ap (λ (b : Bool). contains n (start e) && not b) (contains-start e be)
    ∙ and-false (contains n (start e)))

-- What one round makes of the blocks `ns`.
record Round (e : IpNet) (ns ms : List IpNet) : Type 0 where
  blocks : Blocks e.prefix ms
  fewer : hits e ms < hits e ns
  addresses :
      (x : List Bool)
      → length x ≡ v4_bit_len
      → covers ms x && not (contains e x) ≡ covers ns x && not (contains e x)

cut-hit :
    (e n : IpNet) (pre ns ms : List IpNet)
    → contains n (start e) ≡ true
    → diff_from_cidr n e ≡ some ms
    → cut e pre (n ∷ ns) ≡ some (some ((pre ++ ns) ++ ms))
unfolding cut
cut-hit e n pre ns ms h d = rw (h, d) refl

cut-miss :
    (e n : IpNet) (pre ns : List IpNet)
    → contains n (start e) ≡ false
    → contains e n.ip ≡ false
    → cut e pre (n ∷ ns) ≡ cut e (pre ++ (n ∷ [])) ns
unfolding cut
cut-miss e n pre ns h g = rw (h, g) refl

-- The block `n` between `pre` and `ns` is replaced by what the exception leaves of it.
Round-cut :
    (e n : IpNet) (pre ns ms : List IpNet)
    → Block e
    → contains n (start e) ≡ true
    → Blocks e.prefix pre
    → Blocks e.prefix ns
    → Cuts n e ms
    → Round e (pre ++ (n ∷ ns)) ((pre ++ ns) ++ ms)
unfolding hits
Round-cut e n pre ns ms be h bp bs c = record {
  blocks = All-append _ (pre ++ ns) ms (All-append _ pre ns bp bs) c.blocks;
  fewer = ground (
    arith,
    h,
    hits-append e pre (n ∷ ns),
    hits-append e (pre ++ ns) ms,
    hits-append e pre ns,
    Cuts-no_hits n e ms be c,
  );
  addresses = λ x ex. ground (
    arith,
    covers-append pre (n ∷ ns) x,
    covers-append (pre ++ ns) ms x,
    covers-append pre ns x,
    covers-cons n ns x,
    c.addresses x ex,
  );
}

cut_nil : (e : IpNet) (pre : List IpNet) → cut e pre [] ≡ none
unfolding cut
cut_nil e pre = refl

hits_nil : (e : IpNet) → hits e [] ≡ 0
unfolding hits
hits_nil e = refl

hits_miss :
    (e n : IpNet) (ns : List IpNet)
    → contains n (start e) ≡ false
    → hits e ns ≡ 0
    → hits e (n ∷ ns) ≡ 0
unfolding hits
hits_miss e n ns h z = ground (arith, h, z)

-- Neither test of the loop holds then.
outside :
    (e n : IpNet)
    → Block e
    → Block n
    → n.prefix ≤ e.prefix
    → contains n (start e) ≡ false
    → contains e n.ip ≡ false
outside e n be bn le h = elim (Bool-cases (contains e n.ip)) [
  | inl g ↦ absurd (cc (within e n be bn le g, h))
  | inr g ↦ g
]

cut-Round :
    (e : IpNet) (pre ns : List IpNet)
    → Block e
    → Blocks e.prefix pre
    → Blocks e.prefix ns
    → ((cut e pre ns ≡ none) × (hits e ns ≡ 0))
      ⊎ ((ms : List IpNet) × (cut e pre ns ≡ some (some ms)) × Round e (pre ++ ns) ms)
cut-Round e pre [] be bp bs = inl (cut_nil e pre, hits_nil e)
cut-Round e pre (n ∷ ns) be bp bs = elim (Bool-cases (contains n (start e))) [
  | inl h ↦
      let (ms, d, c) = diff_from_cidr-Cuts n e bs.0.0 be bs.0.1 h in
      inr ((pre ++ ns) ++ ms, cut-hit e n pre ns ms h d, Round-cut e n pre ns ms be h bp bs.1 c)
  | inr h ↦
      let pre' : List IpNet = pre ++ (n ∷ []) in
      let miss = cut-miss e n pre ns h (outside e n be bs.0.0 bs.0.1 h) in
      elim (cut-Round e pre' ns be (All-append _ pre (n ∷ []) bp (bs.0, tt)) bs.1) [
        | inl (c, z) ↦ inl (miss ∙ c, hits_miss e n ns h z)
        | inr (ms, c, r) ↦
            inr (ms, miss ∙ c, subst (λ (l : List IpNet). Round e l ms) (append_assoc pre _ ns) r)
      ]
]

-- What the loop makes of the blocks `ns`: blocks with the same addresses less those of `e`.
pub record Less (e : IpNet) (ns ms : List IpNet) : Type 0 where
  pub blocks : Blocks e.prefix ms
  pub addresses :
      (x : List Bool) → length x ≡ v4_bit_len → covers ms x ≡ covers ns x && not (contains e x)

-- Without the start of the exception in a block, no block shares an address with it.
apart :
    (e : IpNet) (ns : List IpNet) (x : List Bool)
    → Block e
    → Blocks e.prefix ns
    → hits e ns ≡ 0
    → length x ≡ 32
    → covers ns x ≡ covers ns x && not (contains e x)
unfolding covers any hits
apart e [] x be bs z ex = refl
apart e (n ∷ ns) x be bs z ex =
    ground (arith, overlap e n x be bs.0.0 bs.0.1 ex, apart e ns x be bs.1 (ground (arith, z)) ex)

no_hits-Less :
    (e : IpNet) (ns : List IpNet) → Block e → Blocks e.prefix ns → hits e ns ≡ 0 → Less e ns ns
no_hits-Less e ns be bs z = record { blocks = bs; addresses = λ x ex. apart e ns x be bs z ex }

begin_loop-none :
    (fuel : ℕ) (e : IpNet) (ns : List IpNet)
    → cut e [] ns ≡ none
    → begin_loop (suc fuel) e ns ≡ done ns
unfolding begin_loop
begin_loop-none fuel e ns c = rw (c, begin_loop) refl

begin_loop-some :
    (fuel : ℕ) (e : IpNet) (ns ms : List IpNet)
    → cut e [] ns ≡ some (some ms)
    → begin_loop (suc fuel) e ns ≡ begin_loop fuel e ms
unfolding begin_loop
begin_loop-some fuel e ns ms c = rw (c, begin_loop) refl

begin_loop-hits :
    (fuel : ℕ) (e : IpNet) (ns : List IpNet)
    → Block e
    → Blocks e.prefix ns
    → hits e ns < fuel
    → (ms : List IpNet) × (begin_loop fuel e ns ≡ done ms) × Less e ns ms
begin_loop-hits zero e ns be bs lt = absurd (omega arith)
begin_loop-hits (suc fuel) e ns be bs lt = elim (cut-Round e [] ns be tt bs) [
  | inl (c, z) ↦ (ns, begin_loop-none fuel e ns c, no_hits-Less e ns be bs z)
  | inr (ms, c, r) ↦
      let (out, b, l) = begin_loop-hits fuel e ms be r.blocks (omega (arith, lt, r.fewer)) in
      (
        out,
        begin_loop-some fuel e ns ms c ∙ b,
        record { blocks = l.blocks; addresses = λ x ex. l.addresses x ex ∙ r.addresses x ex },
      )
]

-- As many rounds as there are blocks are enough, and the last one, which finds no block to cut.
pub begin_loop-Less :
    (e : IpNet) (ns : List IpNet)
    → Block e
    → Blocks e.prefix ns
    → (ms : List IpNet) × (begin_loop (length ns + 1) e ns ≡ done ms) × Less e ns ms
begin_loop-Less e ns be bs =
    begin_loop-hits (length ns + 1) e ns be bs (omega (arith, hits-le e ns))
