-- ===== src/Cidr/Overlap.antt =====
-- Blocks of pkg/util/ip/ip.go that share addresses with an exception.
use antrea.Common.{
  ◌≤◌, ◌≡◌, refl, sym, ◌∙◌, arith, Bool, true, false, ◌&&◌, ◌||◌, List, ◌∷◌, ◌++◌, length, any,
  any-append,
}
use antrea.Cidr.{IpNet, agree, contains, mask_ip}
use antrea.Cidr.Agree.{agree-le, agree_trans, agree_sym, agree_self, agree-mask_ip, length-mask_ip}
use antrea.Cidr.Pieces.{covers, Block, contains-agree}

-- The IP that the exception starts with.
abbrev pub start : IpNet → List Bool
start e = mask_ip e.prefix e.ip

pub length-start : (e : IpNet) → Block e → length (start e) ≡ 32
length-start e be = length-mask_ip e.prefix e.ip ∙ be.0

pub covers-append :
    (xs ys : List IpNet) (x : List Bool) → covers (xs ++ ys) x ≡ covers xs x || covers ys x
unfolding covers
covers-append xs ys x = any-append (λ n. contains n x) xs ys

pub covers-cons :
    (n : IpNet) (ns : List IpNet) (x : List Bool) → covers (n ∷ ns) x ≡ contains n x || covers ns x
unfolding covers any
covers-cons n ns x = refl

-- A block that shares an address with the exception has its start.
pub overlap :
    (e n : IpNet) (x : List Bool)
    → Block e
    → Block n
    → n.prefix ≤ e.prefix
    → length x ≡ 32
    → contains n x ≡ true
    → contains e x ≡ true
    → contains n (start e) ≡ true
overlap e n x be bn le ex hn he =
    let in_e : agree n.prefix e.ip x ≡ true =
      agree-le n.prefix e.prefix e.ip x le
        (sym (contains-agree e x (omega (arith, be.0, ex))) ∙ he) in
    let in_n : agree n.prefix n.ip x ≡ true =
      sym (contains-agree n x (omega (arith, bn.0, ex))) ∙ hn in
    contains-agree n (start e) (omega (arith, bn.0, length-start e be))
    ∙ agree_sym n.prefix n.ip (start e)
    ∙ agree-mask_ip n.prefix e.prefix e.ip n.ip le
    ∙ agree_trans n.prefix x e.ip n.ip (omega (arith, be.0, ex)) (agree_sym n.prefix x e.ip ∙ in_e)
    ∙ agree_sym n.prefix x n.ip
    ∙ in_n

pub within :
    (e n : IpNet)
    → Block e
    → Block n
    → n.prefix ≤ e.prefix
    → contains e n.ip ≡ true
    → contains n (start e) ≡ true
within e n be bn le h =
    overlap e n n.ip be bn le bn.0 (contains-agree n n.ip refl ∙ agree_self n.prefix n.ip) h

pub contains-start : (e : IpNet) → Block e → contains e (start e) ≡ true
contains-start e be =
    contains-agree e (start e) (omega (arith, be.0, length-start e be))
    ∙ agree_sym e.prefix e.ip (start e)
    ∙ agree-mask_ip e.prefix e.prefix e.ip e.ip (omega arith)
    ∙ agree_self e.prefix e.ip

pub and-false : (b : Bool) → b && false ≡ false
and-false true = refl
and-false false = refl
