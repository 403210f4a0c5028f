-- ===== src/RuleCache.antt =====
-- pkg/agent/controller/networkpolicy/cache.go: the rules and groups that the agent knows, and which of
-- its rules a change makes dirty. The members of a group are in the sets of
-- pkg/apis/controlplane/v1beta1/sets.go. The cache of rules is an indexer of client-go, known by its
-- operations, and the hash of a rule is a parameter.
pub mod Groups
pub mod Policies
pub mod Indexes
pub mod Marked
pub mod Updated
pub mod Changes
pub mod Regrouped
pub mod Unmarked
pub mod Listed
pub mod Added
pub mod Synced
pub mod Stored
pub mod Tests
use antrea.Common.{
  ℕ, suc, ◌+◌, String, string_eq, Bool, true, false, ◌&&◌, ◌||◌, not, Option, none, some, List, [],
  ◌∷◌, ◌++◌, ltb, ◌==◌, if◌then◌else◌, Map, get, put, remove, length,
}
use antrea.Conjunctions.Addresses.{Protocol}
use antrea.Cidr.{IpNet}
use antrea.Conjunctions.Rules.{
  Direction, direction_in, direction_out, RuleAction, NetworkPolicyReference, NetworkPolicyType,
  k8s_network_policy, is_antrea_type,
}
use Prim.Native.String.{◌++◌ as concat}

-- A Pod or an external entity by its namespace and name.
pub record Reference : Type 0 where
  pub namespace : String
  pub name : String

-- An int32 port is not negative.
pub record NamedPort : Type 0 where
  pub port : ℕ
  pub name : String
  pub protocol : Protocol

-- An IP is the text of its bytes.
pub record Endpoint : Type 0 where
  pub ip : String
  pub ports : List NamedPort

pub record GroupMemberPod : Type 0 where
  pub pod : Option Reference
  pub ip : String
  pub ports : List NamedPort

pub record GroupMember : Type 0 where
  pub pod : Option Reference
  pub external_entity : Option Reference
  pub endpoints : List Endpoint

unfoldable pub to_group_member : GroupMemberPod → GroupMember
to_group_member p = record {
  pod = p.pod;
  external_entity = none;
  endpoints = (record { ip = p.ip; ports = p.ports }) ∷ [];
}

unfoldable pub namespaced_key : Reference → String
namespaced_key r = concat r.namespace (concat "/" r.name)

unfoldable pub normalize_group_member_pod : GroupMemberPod → String
normalize_group_member_pod p = elim p.pod [ none ↦ p.ip | some r ↦ namespaced_key r ]

unfoldable pub endpoint_ips : List Endpoint → String
endpoint_ips [] = ""
endpoint_ips (e ∷ es) = concat e.ip (endpoint_ips es)

unfoldable pub entity_key : GroupMember → String
entity_key m = elim m.external_entity [
  | none ↦ endpoint_ips m.endpoints
  | some r ↦ namespaced_key r
]

unfoldable pub normalize_group_member : GroupMember → String
normalize_group_member m = elim m.pod [ none ↦ entity_key m | some r ↦ namespaced_key r ]

-- GroupMemberPodSet and GroupMemberSet, whose methods are the same; `key` normalizes a member.
module _ {M : Type 0} where
  unfoldable pub insert : (M → String) → List M → Map String M → Map String M
  insert key [] s = s
  insert key (item ∷ items) s = insert key items (put s (key item) item)

  unfoldable pub delete : (M → String) → List M → Map String M → Map String M
  delete key [] s = s
  delete key (item ∷ items) s = delete key items (remove s (key item))

  unfoldable pub put_all : Map String M → Map String M → Map String M
  put_all [] result = result
  put_all ((key, item) ∷ s) result = put_all s (put result key item)

  unfoldable pub union : Map String M → Map String M → Map String M
  union s o = put_all o (put_all s [])

  unfoldable pub has_key : Map String M → String → Bool
  has_key s key = elim (get s key) [ none ↦ false | some item ↦ true ]

  unfoldable pub is_superset : Map String M → Map String M → Bool
  is_superset s [] = true
  is_superset s ((key, item) ∷ o) = has_key s key && is_superset s o

  unfoldable pub equal : Map String M → Map String M → Bool
  equal s o = (length s == length o) && is_superset s o

-- intstr.IntOrString; a number is an int32 that is not negative.
pub data Port : Type 0 where
  int_port : ℕ → Port
  string_port : String → Port

-- The pointer to the protocol is never nil.
pub record Service : Type 0 where
  pub protocol : Protocol
  pub port : Option Port

pub record IpBlock : Type 0 where
  pub cidr : IpNet
  pub except : List IpNet

pub record NetworkPolicyPeer : Type 0 where
  pub address_groups : List String
  pub ip_blocks : List IpBlock

-- The fields that the cache reads and copies. An int32 is its distance from -2^31, and a float64 the
-- number that its bits are.
pub record Rule : Type 0 where
  pub id : String
  pub direction : Direction
  pub from : NetworkPolicyPeer
  pub to : NetworkPolicyPeer
  pub services : List Service
  pub action : Option RuleAction
  pub priority : ℕ
  pub max_priority : ℕ
  pub policy_priority : Option ℕ
  pub tier_priority : Option ℕ
  pub applied_to_groups : List String
  pub policy_uid : String
  pub policy_name : String
  pub policy_namespace : String
  pub source_ref : NetworkPolicyReference

pub record NetworkPolicyRule : Type 0 where
  pub direction : Direction
  pub from : NetworkPolicyPeer
  pub to : NetworkPolicyPeer
  pub services : List Service
  pub priority : ℕ
  pub action : Option RuleAction

pub record NetworkPolicy : Type 0 where
  pub uid : String
  pub name : String
  pub namespace : String
  pub rules : List NetworkPolicyRule
  pub applied_to_groups : List String
  pub priority : Option ℕ
  pub tier_priority : Option ℕ
  pub source_ref : NetworkPolicyReference

pub record CompletedRule : Type 0 where
  pub rule : Rule
  pub from_addresses : Option (Map String GroupMember)
  pub to_addresses : Option (Map String GroupMember)
  pub pods : Map String GroupMemberPod

-- The operations of the cache of rules, with the three indexes.
pub record RuleIndexer (S : Type 0) : Type 0 where
  pub add : S → Rule → S
  pub delete : S → Rule → S
  pub get_by_key : S → String → Option Rule
  pub by_policy : S → String → List Rule
  pub keys_by_address_group : S → String → List String
  pub keys_by_applied_to_group : S → String → List String

-- addressGroupIndexFunc
unfoldable pub address_groups_of : Rule → List String
address_groups_of r = r.from.address_groups ++ r.to.address_groups

pub record RuleCache (S : Type 0) : Type 0 where
  pub pod_set_by_group : Map String (Map String GroupMemberPod)
  pub address_set_by_group : Map String (Map String GroupMember)
  pub policy_map : Map String Reference
  pub rules : S
