-- ===== src/Conjunctions/Clauses.antt =====
-- The clauses of a NetworkPolicy rule, and the changes of contexts when it is created or deleted, in
-- pkg/agent/openflow/network_policy.go.
use antrea.Common.{
  ℕ, ◌+◌, Bool, Option, none, some, List, [], ◌++◌, nat_eq, if◌then◌else◌, get, put, map,
}
use antrea.Conjunctions.{Clause, ContextChange, Client}
use antrea.Conjunctions.Addresses.{
  Address, AddressType, src_address, dst_address, unknown_type, Service, add_addr_flows,
  add_service_flows, delete_all_matches,
}
use antrea.Conjunctions.Rules.{
  PolicyRule, PolicyRuleConjunction, is_set, from_id, to_id, service_id, new_clause,
  from_default_table, to_default_table,
}

-- The heap of clauses, where the next one goes, and the pointer of a clause if it is made.
pub record Heap : Type 0 where
  pub client : Client
  pub next_clause : ℕ

unfoldable pub add_clause : Bool → Clause → Heap → Heap × Option ℕ
add_clause present c h =
    if present
    then (
      record {
        client = record (h.client) { clauses = put h.client.clauses h.next_clause c };
        next_clause = h.next_clause + 1;
      },
      some h.next_clause,
    )
    else (h, none)

-- The heap and the pointers of the three clauses.
unfoldable pub calculate_clauses : PolicyRule → Heap → Heap × Option ℕ × Option ℕ × Option ℕ
calculate_clauses rule h =
    let n_clause = service_id rule in
    let from =
      add_clause (is_set rule.from)
        (new_clause rule.flow_id (from_id rule) n_clause rule.table_id (from_default_table rule))
        h in
    let to =
      add_clause (is_set rule.to)
        (new_clause rule.flow_id (to_id rule) n_clause rule.table_id (to_default_table rule))
        (from.0) in
    let service =
      add_clause (is_set rule.service)
        (new_clause rule.flow_id (service_id rule) n_clause rule.table_id none) (to.0) in
    (service.0, from.1, to.1, service.1)

-- The changes of a clause that may not be there, with those of the contexts that are new.
unfoldable pub from_address_clause :
    Client → Option ℕ → AddressType → Option (List Address) → Option ℕ → Client × List ContextChange
from_address_clause client none addr_type addresses priority = (client, [])
from_address_clause client (some cp) addr_type none priority = (client, [])
from_address_clause client (some cp) addr_type (some addresses) priority =
    elim (get client.clauses cp) [
      | none ↦ (client, [])
      | some c ↦ add_addr_flows client cp c addr_type addresses priority
    ]

unfoldable pub from_service_clause :
    Client → Option ℕ → Option (List Service) → Option ℕ → Client × List (Option ContextChange)
from_service_clause client none ports priority = (client, [])
from_service_clause client (some cp) none priority = (client, [])
from_service_clause client (some cp) (some ports) priority = elim (get client.clauses cp) [
  | none ↦ (client, [])
  | some c ↦ add_service_flows client cp c ports priority
]

unfoldable pub calculate_changes_for_rule_creation :
    Client → PolicyRuleConjunction → PolicyRule → Client × List (Option ContextChange)
calculate_changes_for_rule_creation client conj rule =
    let from = from_address_clause client conj.from_clause src_address rule.from rule.priority in
    let to = from_address_clause from.0 conj.to_clause dst_address rule.to rule.priority in
    let service = from_service_clause to.0 conj.service_clause rule.service rule.priority in
    (service.0, map some from.1 ++ (map some to.1 ++ service.1))

unfoldable pub clause_deletions : Client → Option ℕ → List ContextChange
clause_deletions client none = []
clause_deletions client (some cp) = elim (get client.clauses cp) [
  | none ↦ []
  | some c ↦ delete_all_matches client cp c
]

unfoldable pub calculate_changes_for_rule_deletion :
    Client → PolicyRuleConjunction → List ContextChange
calculate_changes_for_rule_deletion client conj =
    clause_deletions client conj.from_clause
    ++ (clause_deletions client conj.to_clause ++ clause_deletions client conj.service_clause)

unfoldable pub get_address_clause : PolicyRuleConjunction → AddressType → Option ℕ
get_address_clause conj src_address = conj.from_clause
get_address_clause conj dst_address = conj.to_clause
get_address_clause conj unknown_type = none
