-- ===== src/Reconciler/Sources.antt =====
-- The source addresses of an ingress rule, of pkg/agent/controller/networkpolicy/reconciler.go, before and
-- after the changes of its members.
use antrea.Common.{
  ◌≡◌, inl, inr, arith, String, string_eq, Bool, Option, some, List, ◌++◌, Map, Unique, get,
  Bool-cases,
}
use antrea.Conjunctions.Addresses.{Address}
use antrea.RuleCache.{GroupMember, CompletedRule}
use antrea.Reconciler.{bytes_eq, difference}
use antrea.Reconciler.Rules.{
  Environment, group_members_to_of_addresses, or_empty, ip_blocks_to_of_addresses,
}
use antrea.Reconciler.Flows.{among}
use antrea.Reconciler.Differences.{Owned, among-append, among-updated}
use antrea.Reconciler.Kinds.{is_net, among-members_net, among-blocks}
use antrea.Reconciler.Rounds.{after}

-- Two versions of a set of members: none has an address of another, and one that is in both is the same.
pub record Compatible (old new : Map String GroupMember) : Type 0 where
  pub owner : Address → String
  pub owned_old : Owned owner old
  pub owned_new : Owned owner new
  pub unique_old : Unique old
  pub unique_new : Unique new
  pub alike : (k : String) (m n : GroupMember) → get old k ≡ some m → get new k ≡ some n → m ≡ n

-- The source addresses of a version of the members, with those of the IP blocks.
abbrev pub sources : List Address → Option (Map String GroupMember) → Address → Bool
sources blocks members a = among a (group_members_to_of_addresses (or_empty members) ++ blocks)

pub sources-after :
    (env : Environment) (c : CompletedRule) (blocks : List Address)
    (old : Option (Map String GroupMember)) (a : Address)
    → ip_blocks_to_of_addresses env c.rule.from.ip_blocks ≡ some blocks
    → Compatible (or_empty old) (or_empty c.from_addresses)
    → after
        (group_members_to_of_addresses (difference (or_empty c.from_addresses) (or_empty old)))
        (group_members_to_of_addresses (difference (or_empty old) (or_empty c.from_addresses)))
        (sources blocks old)
        a
      ≡ sources blocks c.from_addresses a
sources-after env c blocks old a found v =
    let new = or_empty c.from_addresses in
    let split = among-append a (group_members_to_of_addresses (or_empty old)) blocks in
    let joined = among-append a (group_members_to_of_addresses new) blocks in
    let updated =
      among-updated v.owner (or_empty old) new a v.owned_old v.owned_new v.unique_old v.unique_new
        v.alike in
    elim (Bool-cases (is_net a)) [
      | inl net ↦
          ground
            (arith, split, joined, updated, among-members_net a (difference (or_empty old) new) net)
      | inr other ↦ ground (
        arith,
        split,
        joined,
        updated,
        among-blocks env c.rule.from.ip_blocks blocks a found other,
      )
    ]
