-- ===== src/Conjunctions.antt =====
-- pkg/agent/openflow/network_policy.go: the flows that match one condition of a NetworkPolicy rule
-- and are shared by the rules with that condition, in their contexts. A pointer is a number, under
-- which the heap of the client has the object. A flow is what the OpenFlow library builds it from;
-- the text of an address or port is the value that `String()` or `Sprintf` gives.
pub mod Changes
pub mod Updates
pub mod Actions
pub mod Realized
pub mod Shared
pub mod Leaving
pub mod Unused
pub mod Registry
pub mod Addresses
pub mod Rules
pub mod Clauses
pub mod Install
pub mod Batch
pub mod Reassign
pub mod Priorities
pub mod Cache
pub mod Listed
pub mod Conflicts
pub mod Moved
pub mod Reassigned
pub mod Unmetered
pub mod Stale
pub mod Extends
pub mod Failing
pub mod Samples
pub mod RuleTests
pub mod Lacking
pub mod Tests
use antrea.Common.{
  ℕ, ◌≡◌, refl, ◌↔◌, String, Bool, true, false, ◌&&◌, Option, none, some, List, [], ◌∷◌, nat_eq,
  string_eq, ==_iff, ◌==◌, arith, if◌then◌else◌, Map, get, Eq, beq_self,
}
use Prim.Native.String.{◌++◌ as concat}

pub data MatchKey : Type 0 where
  match_dst_ip match_src_ip match_dst_ip_net match_src_ip_net match_dst_of_port match_src_of_port
        match_tcp_dst_port match_udp_dst_port match_sctp_dst_port unsupported :
      MatchKey

-- `other` is a Service port or an ofport number.
pub data MatchValue : Type 0 where
  ip : String → MatchValue
  ip_net : String → MatchValue
  other : String → MatchValue

pub record ConjunctiveMatch : Type 0 where
  pub table_id : ℕ
  pub priority : Option ℕ
  pub match_key : MatchKey
  pub match_value : MatchValue

-- The constants' numbers.
pub to_int : MatchKey → ℕ
to_int match_dst_ip = 0
to_int match_src_ip = 1
to_int match_dst_ip_net = 2
to_int match_src_ip_net = 3
to_int match_dst_of_port = 4
to_int match_src_of_port = 5
to_int match_tcp_dst_port = 6
to_int match_udp_dst_port = 7
to_int match_sctp_dst_port = 8
to_int unsupported = 9

-- The four parts of the text that generateGlobalMapKey prints.
pub record GlobalKey : Type 0 where
  pub table : ℕ
  pub of_priority : ℕ
  pub match_type : ℕ
  pub value : String

key_beq : GlobalKey → GlobalKey → Bool
key_beq a b =
    (a.table == b.table)
    && (a.of_priority == b.of_priority)
    && (a.match_type == b.match_type)
    && string_eq.beq a.value b.value

key_beq_iff : (a b : GlobalKey) → (key_beq a b ≡ true) ↔ (a ≡ b)
unfolding key_beq
key_beq_iff a b = ground (
  arith,
  ==_iff a.table b.table,
  ==_iff a.of_priority b.of_priority,
  ==_iff a.match_type b.match_type,
  string_eq.beq_iff a.value b.value,
)

instance pub key_eq : Eq GlobalKey
key_eq = record { beq = key_beq; beq_iff = key_beq_iff }

abbrev pub priority_normal : ℕ
priority_normal = 200

abbrev pub or_normal : Option ℕ → ℕ
or_normal none = priority_normal
or_normal (some p) = p

-- An address takes the type of the net that it is, "/32".
pub key_type : MatchKey → MatchValue → ℕ
unfolding to_int
key_type match_dst_ip (ip v) = to_int match_dst_ip_net
key_type match_src_ip (ip v) = to_int match_src_ip_net
key_type k v = to_int k

pub key_value : MatchValue → String
key_value (ip v) = concat v "/32"
key_value (ip_net v) = v
key_value (other v) = v

pub generate_global_map_key : ConjunctiveMatch → GlobalKey
unfolding key_type key_value
generate_global_map_key m = record {
  table = m.table_id;
  of_priority = or_normal m.priority;
  match_type = key_type m.match_key m.match_value;
  value = key_value m.match_value;
}

pub record ConjunctiveAction : Type 0 where
  pub conj_id : ℕ
  pub clause_id : ℕ
  pub n_clause : ℕ

-- The flows of a match, those that act on a conjunction that is met, by its ID, its table, the table
-- that follows and the priority, and those that count, by the ID and whether the rule is for ingress;
-- of the two that count allowed packets one is for those of new connections. A copied flow is one of
-- the latter four with its match, and the actions in place of its own.
pub data Flow : Type 0 where
  conjunctive_match_flow : ℕ → MatchKey → MatchValue → ℕ → List ConjunctiveAction → Flow
  default_drop_flow : ℕ → MatchKey → MatchValue → Flow
  conjunction_action_flow : ℕ → ℕ → ℕ → ℕ → Flow
  conjunction_action_drop_flow : ℕ → ℕ → ℕ → Flow
  allow_rule_metric_flow : ℕ → Bool → Bool → Flow
  drop_rule_metric_flow : ℕ → Bool → Flow
  copied_flow : Flow → List ConjunctiveAction → Flow

pub data ChangeType : Type 0 where
  insertion modification deletion : ChangeType

pub record FlowChange : Type 0 where
  pub flow : Option Flow
  pub change_type : ChangeType

pub record ActionChange : Type 0 where
  pub action : Option ConjunctiveAction
  pub change_type : ChangeType

-- conjMatchFlowContext.
pub record Context : Type 0 where
  pub conjunctive_match : ConjunctiveMatch
  pub actions : Map ℕ ConjunctiveAction
  pub deny_all_rules : Map ℕ Bool
  pub flow : Option Flow
  pub drop_flow : Option Flow

-- A clause with the pointers of its contexts.
pub record Clause : Type 0 where
  pub action : ConjunctiveAction
  pub matches : Map GlobalKey ℕ
  pub rule_table : ℕ
  pub drop_table : Option ℕ

-- conjMatchFlowContextChange, with the pointers of the context and the clause.
pub record ContextChange : Type 0 where
  pub context : ℕ
  pub ctx_change_type : ChangeType
  pub match_flow : Option FlowChange
  pub drop_flow : Option FlowChange
  pub clause : ℕ
  pub act_change : ActionChange

-- The client's cache, with the heap of the contexts and of the clauses.
pub record Client : Type 0 where
  pub contexts : Map ℕ Context
  pub next_context : ℕ
  pub clauses : Map ℕ Clause
  pub global_conj_match_flow_cache : Map GlobalKey ℕ
