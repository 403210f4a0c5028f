-- ===== src/Reconciler/Differences.antt =====
-- The differences of sets in pkg/agent/controller/networkpolicy/reconciler.go: what is added and what is
-- deleted turn the addresses of the old set into those of the new one.
use antrea.Common.{
  ◌≡◌, refl, ap, ◌∙◌, subst, inl, inr, arith, String, string_eq, Bool, true, false, ◌&&◌, ◌||◌, not,
  Option, none, some, List, [], ◌∷◌, ◌++◌, any, any-append, Map, get, Unique, if◌then◌else◌,
  Bool-cases,
}
use antrea.Conjunctions.Addresses.{Address}
use antrea.RuleCache.{GroupMember, has_key}
use antrea.Reconciler.{difference}
use antrea.Reconciler.Rules.{endpoint_addresses, group_members_to_of_addresses}
use antrea.Reconciler.Flows.{same_address, among}

pub among-append :
    (a : Address) (xs ys : List Address) → among a (xs ++ ys) ≡ among a xs || among a ys
unfolding among
among-append a xs ys = any-append (same_address a) xs ys

unfoldable pub in_member : Address → GroupMember → Bool
in_member a m = among a (endpoint_addresses m.endpoints)

unfoldable pub in_found : Address → Option GroupMember → Bool
in_found a none = false
in_found a (some m) = in_member a m

-- An address is one of the member under its owner's key, and of no other.
abbrev pub Owned : (Address → String) → Map String GroupMember → Type 0
Owned owner [] = Unit
Owned owner ((key, m) ∷ s) = ((a : Address) → in_member a m ≡ true → owner a ≡ key) × Owned owner s

get-difference :
    (s o : Map String GroupMember) (k : String)
    → get (difference s o) k ≡ (if has_key o k then none else get s k)
unfolding difference get
get-difference [] o k = ground arith
get-difference ((j, m) ∷ s) o k =
    let same : string_eq.beq j k ≡ true → has_key o j ≡ has_key o k =
      λ e. ap (has_key o) ((string_eq.beq_iff j k).0 e) in
    ground (arith, same, get-difference s o k)

Owned-difference :
    (owner : Address → String) (s o : Map String GroupMember)
    → Owned owner s
    → Owned owner (difference s o)
unfolding difference
Owned-difference owner [] o h = tt
Owned-difference owner ((j, m) ∷ s) o h = elim (Bool-cases (has_key o j)) [
  | inl e ↦ rw (e, if◌then◌else◌) (Owned-difference owner s o h.1)
  | inr e ↦ rw (e, if◌then◌else◌) (h.0, Owned-difference owner s o h.1)
]

Unique-difference : (s o : Map String GroupMember) → Unique s → Unique (difference s o)
unfolding difference
Unique-difference [] o u = tt
Unique-difference ((j, m) ∷ s) o u = elim (Bool-cases (has_key o j)) [
  | inl e ↦ rw (e, if◌then◌else◌) (Unique-difference s o u.1)
  | inr e ↦
      rw (e, if◌then◌else◌)
        (get-difference s o j ∙ rw (e, if◌then◌else◌) u.0, Unique-difference s o u.1)
]

pub empty-among : (a : Address) → among a [] ≡ false
unfolding among any
empty-among a = refl

or_false : (b : Bool) → (b || false) ≡ b
or_false b = ground arith

-- The members that have an address: only its owner can.
pub among-members :
    (owner : Address → String) (s : Map String GroupMember) (a : Address)
    → Owned owner s
    → Unique s
    → among a (group_members_to_of_addresses s) ≡ in_found a (get s (owner a))
unfolding group_members_to_of_addresses get in_found in_member
among-members owner [] a h u = empty-among a
among-members owner ((j, m) ∷ s) a h u =
    let rest = among-members owner s a h.1 u.1 in
    among-append a (endpoint_addresses m.endpoints) (group_members_to_of_addresses s)
    ∙ elim (Bool-cases (string_eq.beq j (owner a))) [
      | inl e ↦
          let gone : get s (owner a) ≡ none =
            subst (λ k. get s k ≡ none) ((string_eq.beq_iff j (owner a)).0 e) u.0 in
          rw (e, if◌then◌else◌)
            (ap (λ b. among a (endpoint_addresses m.endpoints) || b) rest
              ∙ rw (gone, in_found) (or_false (among a (endpoint_addresses m.endpoints))))
      | inr e ↦
          let other : among a (endpoint_addresses m.endpoints) ≡ false =
            ground (arith, e, h.0 a, string_eq.beq_iff j (owner a)) in
          rw (e, other, if◌then◌else◌) rest
    ]

abbrev known : {M : Type 0} → Option M → Bool
known o = elim o [ none ↦ false | some m ↦ true ]

updated_found :
    (a : Address) (o n : Option GroupMember)
    → ((p q : GroupMember) → o ≡ some p → n ≡ some q → p ≡ q)
    → ((in_found a o || in_found a (if known o then none else n))
        && not (in_found a (if known n then none else o)))
      ≡ in_found a n
unfolding in_found
updated_found a none none alike = refl
updated_found a none (some q) alike = ground arith
updated_found a (some p) none alike = ground arith
updated_found a (some p) (some q) alike =
    subst (λ m. ((in_member a p || false) && true) ≡ in_member a m) (alike p q refl refl)
      (ground arith)

-- What was added and deleted between two versions turns the old addresses into the new ones, where a
-- member that is in both is the same.
pub among-updated :
    (owner : Address → String) (old new : Map String GroupMember) (a : Address)
    → Owned owner old
    → Owned owner new
    → Unique old
    → Unique new
    → ((k : String) (m n : GroupMember) → get old k ≡ some m → get new k ≡ some n → m ≡ n)
    → ((among a (group_members_to_of_addresses old)
          || among a (group_members_to_of_addresses (difference new old)))
        && not (among a (group_members_to_of_addresses (difference old new))))
      ≡ among a (group_members_to_of_addresses new)
unfolding has_key
among-updated owner old new a ho hn uo un alike =
    let k = owner a in
    let added =
      among-members owner (difference new old) a (Owned-difference owner new old hn)
        (Unique-difference new old un) in
    let cut =
      among-members owner (difference old new) a (Owned-difference owner old new ho)
        (Unique-difference old new uo) in
    rw
      (
        among-members owner old a ho uo,
        among-members owner new a hn un,
        added,
        cut,
        get-difference new old k,
        get-difference old new k,
      )
      (updated_found a (get old k) (get new k) (alike k))
