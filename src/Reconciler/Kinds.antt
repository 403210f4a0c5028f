-- ===== src/Reconciler/Kinds.antt =====
-- The kinds of addresses in pkg/agent/controller/networkpolicy/reconciler.go: nets of IP blocks are apart
-- from IPs of members, and the differences of sets of OpenFlow ports are exact.
use antrea.Common.{
  ◌≡◌, refl, ap, ◌∙◌, subst, arith, String, string_eq, Bool, true, false, ◌&&◌, ◌||◌, not, Option,
  none, some, List, [], ◌∷◌, ◌++◌, any, map, keep, Map,
}
use antrea.Conjunctions.Addresses.{Address, ip_address, ip_net_address, of_port_address}
use antrea.Cidr.{IpNet, Outcome, done, failed, panicked, out_of_fuel, diff_from_cidrs}
use antrea.RuleCache.{GroupMember, Endpoint, IpBlock}
use antrea.RuleCache.Indexes.{has}
use antrea.Reconciler.Rules.{
  Environment, texts_without, endpoint_addresses, group_members_to_of_addresses,
  of_ports_to_of_addresses, ip_blocks_to_of_addresses, with_block,
}
use antrea.Reconciler.Flows.{same_address, among}
use antrea.Reconciler.Differences.{among-append, empty-among}

-- Blocks and members have addresses of different kinds.
abbrev pub is_net : Address → Bool
is_net (ip_net_address n) = true
is_net a = false

among-endpoints_net :
    (a : Address) (eps : List Endpoint) → is_net a ≡ true → among a (endpoint_addresses eps) ≡ false
unfolding endpoint_addresses among any same_address
among-endpoints_net a [] h = refl
among-endpoints_net (ip_net_address n) (e ∷ eps) h = among-endpoints_net (ip_net_address n) eps h
among-endpoints_net (ip_address n) (e ∷ eps) h = absurd (cc h)
among-endpoints_net (of_port_address n) (e ∷ eps) h = absurd (cc h)

pub among-members_net :
    (a : Address) (s : Map String GroupMember)
    → is_net a ≡ true
    → among a (group_members_to_of_addresses s) ≡ false
unfolding group_members_to_of_addresses
among-members_net a [] h = empty-among a
among-members_net a ((k, m) ∷ s) h =
    among-append a (endpoint_addresses m.endpoints) (group_members_to_of_addresses s)
    ∙ ground (arith, among-endpoints_net a m.endpoints h, among-members_net a s h)

among-port :
    (x : String) (ys : List String)
    → among (of_port_address x) (of_ports_to_of_addresses ys) ≡ has x ys
unfolding among any same_address has of_ports_to_of_addresses
among-port x [] = refl
among-port x (y ∷ ys) =
    ground (arith, among-port x ys, string_eq.beq_iff x y, string_eq.beq_iff y x)

has-texts_without :
    (x : String) (xs ys : List String) → has x (texts_without xs ys) ≡ has x xs && not (has x ys)
unfolding texts_without keep has any
has-texts_without x [] ys = refl
has-texts_without x (z ∷ xs) ys =
    let same : string_eq.beq z x ≡ true → has z ys ≡ has x ys =
      λ e. ap (λ k. has k ys) ((string_eq.beq_iff z x).0 e) in
    ground (arith, has-texts_without x xs ys, same)

among-no_port :
    (a : Address) (ys : List String)
    → ((y : String) → same_address a (of_port_address y) ≡ false)
    → among a (of_ports_to_of_addresses ys) ≡ false
unfolding among any of_ports_to_of_addresses
among-no_port a [] h = refl
among-no_port a (y ∷ ys) h = ground (arith, h y, among-no_port a ys h)

pub among-ports :
    (old new : List String) (a : Address)
    → ((among a (of_ports_to_of_addresses old)
          || among a (of_ports_to_of_addresses (texts_without new old)))
        && not (among a (of_ports_to_of_addresses (texts_without old new))))
      ≡ among a (of_ports_to_of_addresses new)
unfolding same_address
among-ports old new (of_port_address x) = ground (
  arith,
  among-port x old,
  among-port x new,
  among-port x (texts_without new old),
  among-port x (texts_without old new),
  has-texts_without x new old,
  has-texts_without x old new,
)
among-ports old new (ip_address x) = ground (
  arith,
  among-no_port (ip_address x) old (λ y. refl),
  among-no_port (ip_address x) new (λ y. refl),
  among-no_port (ip_address x) (texts_without new old) (λ y. refl),
)
among-ports old new (ip_net_address x) = ground (
  arith,
  among-no_port (ip_net_address x) old (λ y. refl),
  among-no_port (ip_net_address x) new (λ y. refl),
  among-no_port (ip_net_address x) (texts_without new old) (λ y. refl),
)

among-nets :
    (env : Environment) (nets : List IpNet) (a : Address)
    → is_net a ≡ false
    → among a (map (λ n. ip_net_address (env.net_text n)) nets) ≡ false
unfolding among any same_address
among-nets env [] a h = refl
among-nets env (n ∷ nets) (ip_address x) h = among-nets env nets (ip_address x) h
among-nets env (n ∷ nets) (of_port_address x) h = among-nets env nets (of_port_address x) h
among-nets env (n ∷ nets) (ip_net_address x) h = absurd (cc h)

among-with_block :
    (env : Environment) (o : Outcome) (rest : Option (List Address)) (found : List Address)
    (a : Address)
    → is_net a ≡ false
    → ((r : List Address) → rest ≡ some r → among a r ≡ false)
    → with_block env o rest ≡ some found
    → among a found ≡ false
unfolding with_block
among-with_block env (done nets) none found a n r h = absurd (cc h)
among-with_block env (done nets) (some l) found a n r h =
    let all = map (λ m. ip_net_address (env.net_text m)) nets ++ l in
    let same : all ≡ found = cc h in
    subst (λ x. among a x ≡ false) same
      (among-append a (map (λ m. ip_net_address (env.net_text m)) nets) l
        ∙ ground (arith, among-nets env nets a n, r l refl))
among-with_block env (failed e) rest found a n r h = r found h
among-with_block env panicked rest found a n r h = absurd (cc h)
among-with_block env out_of_fuel rest found a n r h = absurd (cc h)

-- The addresses of IP blocks are all nets.
pub among-blocks :
    (env : Environment) (blocks : List IpBlock) (found : List Address) (a : Address)
    → ip_blocks_to_of_addresses env blocks ≡ some found
    → is_net a ≡ false
    → among a found ≡ false
unfolding ip_blocks_to_of_addresses
among-blocks env [] found a h n =
    let same : [] ≡ found = cc h in subst (λ x. among a x ≡ false) same (empty-among a)
among-blocks env (b ∷ blocks) found a h n =
    among-with_block env (diff_from_cidrs b.cidr b.except) (ip_blocks_to_of_addresses env blocks)
      found a n (λ r e. among-blocks env blocks r a e n) h
