-- ===== src/Conjunctions/RuleTests.antt =====
-- Runs of the client of pkg/agent/openflow/network_policy.go with the egress rule 5 of an Antrea policy.
use antrea.Common.{
  ℕ, ◌≡◌, ◌≢◌, ◌↔◌, refl, ap, inl, inr, arith, true, none, some, [], ◌∷◌, nat_eq, string_eq, ◌==◌,
  get, put, remove, keep, any, Bool-cases,
}
use antrea.Conjunctions.{
  conjunction_action_flow, GlobalKey, key_eq, generate_global_map_key, key_type, key_value, to_int,
  key_beq,
}
use antrea.Conjunctions.Addresses.{
  ip_address, src_address, get_match_key, ip_match_key, ip_net_match_key, of_port_match_key,
  get_value, generate_address_conj_match, get_service_match_type, digit, decimal, port_text,
  port_value, generate_service_port_conj_match, add_addr_flows, add_service_flows, delete_keys,
  address_keys, delete_addr_flows, keys_of, delete_all_matches,
}
use antrea.Conjunctions.Rules.{
  PolicyRuleConjunction, is_egress_table, is_antrea_type, is_antrea_network_policy_rule, is_set,
  one_if, from_id, to_id, service_id, new_clause, is_egress_rule, drop_table_of, from_default_table,
  to_default_table, next_table, allow_flows, drop_flows, antrea_flows, flows_of_rule,
}
use antrea.Conjunctions.Clauses.{
  get_address_clause, add_clause, calculate_clauses, from_address_clause, from_service_clause,
  calculate_changes_for_rule_creation, clause_deletions, calculate_changes_for_rule_deletion,
}
use antrea.Conjunctions.Install.{
  succeeded, failed, panicked, Bridge, install_policy_rule_flows, get_stale_priorities,
  action_flow_priorities, flow_priority, add_all, delete_all, all_set, new_conjunction,
  apply_changes, shares_priority, calculate_action_flow_changes_for_rule, finish_install,
  install_conjunction, finish_uninstall, uninstall_policy_rule_flows,
}
use antrea.Conjunctions.Batch.{delete_policy_rule_address}
use antrea.Conjunctions.Reassign.{
  process_flow_updates, conflicts, same_parts, match_parts, updates_for, same_bool, same_value,
  set_priority, copy_to_builder, clause_flow_updates, all_clause, match_flow_updates,
  get_match_flow_updates,
}
use antrea.Conjunctions.Priorities.{
  FlowUpdates, Calculation, calculate_flow_updates, reassign_flow_priorities, update_conjunction,
  flows_so_far, action_flow_update, action_flow_updates, add_match_updates, conjunction_update,
  conjunctions_update, update_conjunction_action_flows, moved_match, moved_flow, moved_context,
  move_contexts, cache_contexts, move_clause, move_clauses, update_conjunction_match_flows,
  calculate_from, update_conjunctions, send_calculation,
}
use antrea.Common.Stores.{find, visible}
use antrea.Conjunctions.Listed.{listed, listed-IsIndexer}
use antrea.Conjunctions.Cache.{has_priority}
use antrea.Conjunctions.Conflicts.{Settles, process_flow_updates-Settles}
use antrea.Conjunctions.Reassigned.{delete_policy_rule_address-misses}
use antrea.Conjunctions.Lacking.{reassign_flow_priorities-panics}
use antrea.Conjunctions.Unmetered.{Unmetered, reassign_flow_priorities-Unmetered}
use antrea.Conjunctions.Stale.{Stale, get_stale_priorities-Stale}
use antrea.Conjunctions.Extends.{Extends}
use antrea.Conjunctions.Failing.{install_policy_rule_flows-KeptBy}
use antrea.Conjunctions.Samples.{
  empty, rule_5, accepts, installed, installed_client, conj_5, clause_of, from_key, from_flow,
  to_flow, service_flow,
}
use antrea.Conjunctions.Changes.{
  actions_of, match_flow_of, with_actions, create_flow, create_or_update_conjunctive_match_flow,
  has_flow, delete_action, add_action, new_context, new_drop_flow, added, add_change,
  add_conjunctive_match_flow, deleted, unused, delete_change, delete_conjunctive_match_flow,
}
use antrea.Conjunctions.Updates.{
  add_deny_all_rule, del_deny_all_rule, update_actions, update_deny, update_flow, update_match_flow,
  set_drop_flow, update_drop_flow, update_context, update_matches, update_context_status,
  update_all, flow_changes, same_change, flows_of, bundle, apply_conjunctive_match_flows,
}

install_run : install_policy_rule_flows listed accepts empty rule_5 ≡ (installed, succeeded)
unfolding listed find visible keep any has_priority get put remove to_int key_beq key_type key_value
    generate_global_map_key key_eq get_match_key ip_match_key ip_net_match_key of_port_match_key
    get_value generate_address_conj_match get_service_match_type digit decimal port_text port_value
    generate_service_port_conj_match add_addr_flows add_service_flows delete_keys address_keys
    delete_addr_flows keys_of delete_all_matches is_egress_table is_antrea_type
    is_antrea_network_policy_rule is_set one_if from_id to_id service_id new_clause is_egress_rule
    drop_table_of from_default_table to_default_table next_table allow_flows drop_flows antrea_flows
    flows_of_rule add_clause calculate_clauses from_address_clause from_service_clause
    calculate_changes_for_rule_creation clause_deletions calculate_changes_for_rule_deletion
    get_address_clause flow_priority action_flow_priorities add_all delete_all all_set
    new_conjunction apply_changes shares_priority calculate_action_flow_changes_for_rule
    finish_install install_conjunction install_policy_rule_flows get_stale_priorities
    finish_uninstall uninstall_policy_rule_flows actions_of match_flow_of with_actions create_flow
    create_or_update_conjunctive_match_flow has_flow delete_action add_action new_context
    new_drop_flow added add_change add_conjunctive_match_flow deleted unused delete_change
    delete_conjunctive_match_flow add_deny_all_rule del_deny_all_rule update_actions update_deny
    update_flow update_match_flow set_drop_flow update_drop_flow update_context update_matches
    update_context_status update_all flow_changes same_change flows_of bundle
    apply_conjunctive_match_flows
install_run = refl

process_flow_updates-Settles_example :
    Settles
      (from_flow 99 ∷ [])
      (from_flow 100 ∷ from_flow 99 ∷ [])
      (process_flow_updates (from_flow 99 ∷ []) (from_flow 100 ∷ from_flow 99 ∷ []))
process_flow_updates-Settles_example =
    process_flow_updates-Settles (from_flow 99 ∷ []) (from_flow 100 ∷ from_flow 99 ∷ [])

abbrev moves : FlowUpdates
moves = record { new_action_flows = conjunction_action_flow 5 45 61 101 ∷ []; new_priority = 101 }

only_key : (key : GlobalKey) (q : ℕ) → get ((from_key, 0) ∷ []) key ≡ some q → key.of_priority ≢ 101
unfolding get
only_key key q h e = elim (Bool-cases (key_eq.beq from_key key)) [
  | inl b ↦
      let same : 100 ≡ key.of_priority =
        ap (λ (k : GlobalKey). k.of_priority) ((key_eq.beq_iff from_key key).0 b) in
      absurd (omega (arith, same, e))
  | inr b ↦ absurd (ground (arith, b, h))
]

cached_5 : listed.get_by_key installed.policy_cache 5 ≡ some conj_5
unfolding listed find
cached_5 = refl

addressed_5 : get_address_clause conj_5 src_address ≡ some 0
unfolding get_address_clause
addressed_5 = refl

at_0 : get installed_client.clauses 0 ≡ some (clause_of 1 from_key 0)
unfolding get
at_0 = refl

delete_policy_rule_address-misses_example :
    (delete_policy_rule_address listed accepts
      (update_conjunction listed 5 moves installed)
      5
      src_address
      (ip_address "10.0.0.1" ∷ [])
      (some 101)).0
    ≡ update_conjunction listed 5 moves installed
delete_policy_rule_address-misses_example =
    delete_policy_rule_address-misses listed listed-IsIndexer accepts installed 5 moves src_address
      (ip_address "10.0.0.1" ∷ []) conj_5 0 (clause_of 1 from_key 0) cached_5 addressed_5 at_0
      only_key

abbrev without_services : PolicyRuleConjunction
without_services = record conj_5 { service_clause = none }

indexed : listed.by_index (without_services ∷ []) 100 ≡ without_services ∷ []
unfolding listed visible keep has_priority any action_flow_priorities flow_priority
indexed = refl

reassign_flow_priorities-panics_example :
    reassign_flow_priorities listed accepts
      (record installed { policy_cache = without_services ∷ [] })
      ((100, 101) ∷ [])
      45
    ≡ (record installed { policy_cache = without_services ∷ [] }, panicked)
reassign_flow_priorities-panics_example =
    reassign_flow_priorities-panics listed accepts
      (record installed { policy_cache = without_services ∷ [] }) 45 100 101 [] [] [] []
      without_services indexed refl (inr (inr refl))

abbrev calculation : Calculation
calculation = record {
  add_flows =
      conjunction_action_flow 5 45 61 101 ∷ from_flow 101 ∷ to_flow 101 ∷ service_flow 101 ∷ [];
  del_flows =
      conjunction_action_flow 5 45 61 100 ∷ from_flow 100 ∷ to_flow 100 ∷ service_flow 100 ∷ [];
  conj_flow_updates = (5, moves) ∷ [];
}

calculated :
    calculate_flow_updates listed installed_client (conj_5 ∷ []) ((100, 101) ∷ []) 45
    ≡ some calculation
unfolding listed find visible keep any has_priority get put remove to_int key_beq key_type key_value
    generate_global_map_key key_eq is_egress_table is_antrea_type is_antrea_network_policy_rule
    is_set one_if from_id to_id service_id new_clause is_egress_rule drop_table_of
    from_default_table to_default_table next_table allow_flows drop_flows antrea_flows flows_of_rule
    flow_priority action_flow_priorities add_all delete_all all_set new_conjunction apply_changes
    shares_priority calculate_action_flow_changes_for_rule finish_install install_conjunction
    install_policy_rule_flows get_stale_priorities finish_uninstall uninstall_policy_rule_flows
    match_parts same_bool same_value same_parts conflicts updates_for process_flow_updates
    set_priority copy_to_builder clause_flow_updates all_clause match_flow_updates
    get_match_flow_updates flows_so_far action_flow_update action_flow_updates add_match_updates
    conjunction_update conjunctions_update update_conjunction_action_flows moved_match moved_flow
    moved_context move_contexts cache_contexts move_clause move_clauses
    update_conjunction_match_flows calculate_from calculate_flow_updates update_conjunction
    update_conjunctions send_calculation reassign_flow_priorities
calculated = refl

updated_5 : get calculation.conj_flow_updates 5 ≡ some moves
unfolding get
updated_5 = refl

reassigned : (reassign_flow_priorities listed accepts installed ((100, 101) ∷ []) 45).1 ≡ succeeded
unfolding listed find visible keep any has_priority get put remove to_int key_beq key_type key_value
    generate_global_map_key key_eq is_egress_table is_antrea_type is_antrea_network_policy_rule
    is_set one_if from_id to_id service_id new_clause is_egress_rule drop_table_of
    from_default_table to_default_table next_table allow_flows drop_flows antrea_flows flows_of_rule
    flow_priority action_flow_priorities add_all delete_all all_set new_conjunction apply_changes
    shares_priority calculate_action_flow_changes_for_rule finish_install install_conjunction
    install_policy_rule_flows get_stale_priorities finish_uninstall uninstall_policy_rule_flows
    match_parts same_bool same_value same_parts conflicts updates_for process_flow_updates
    set_priority copy_to_builder clause_flow_updates all_clause match_flow_updates
    get_match_flow_updates flows_so_far action_flow_update action_flow_updates add_match_updates
    conjunction_update conjunctions_update update_conjunction_action_flows moved_match moved_flow
    moved_context move_contexts cache_contexts move_clause move_clauses
    update_conjunction_match_flows calculate_from calculate_flow_updates update_conjunction
    update_conjunctions send_calculation reassign_flow_priorities
reassigned = refl

reassign_flow_priorities-Unmetered_example :
    Unmetered listed 5
      (reassign_flow_priorities listed accepts installed ((100, 101) ∷ []) 45).0.policy_cache
reassign_flow_priorities-Unmetered_example =
    reassign_flow_priorities-Unmetered listed listed-IsIndexer accepts installed ((100, 101) ∷ [])
      45 5 calculation moves conj_5 calculated updated_5 cached_5 reassigned

get_stale_priorities-Stale_example :
    (any (λ q. q == 100) (get_stale_priorities listed (conj_5 ∷ []) conj_5) ≡ true)
    ↔ Stale listed (conj_5 ∷ []) conj_5 100
get_stale_priorities-Stale_example =
    get_stale_priorities-Stale listed listed-IsIndexer (conj_5 ∷ []) conj_5 100

-- The action flow is refused.
abbrev refuses : Bridge
refuses n bundle = n == 0

refused : (install_policy_rule_flows listed refuses empty rule_5).1 ≡ failed
unfolding listed find visible keep any has_priority get put remove to_int key_beq key_type key_value
    generate_global_map_key key_eq get_match_key ip_match_key ip_net_match_key of_port_match_key
    get_value generate_address_conj_match get_service_match_type digit decimal port_text port_value
    generate_service_port_conj_match add_addr_flows add_service_flows delete_keys address_keys
    delete_addr_flows keys_of delete_all_matches is_egress_table is_antrea_type
    is_antrea_network_policy_rule is_set one_if from_id to_id service_id new_clause is_egress_rule
    drop_table_of from_default_table to_default_table next_table allow_flows drop_flows antrea_flows
    flows_of_rule add_clause calculate_clauses from_address_clause from_service_clause
    calculate_changes_for_rule_creation clause_deletions calculate_changes_for_rule_deletion
    get_address_clause flow_priority action_flow_priorities add_all delete_all all_set
    new_conjunction apply_changes shares_priority calculate_action_flow_changes_for_rule
    finish_install install_conjunction install_policy_rule_flows get_stale_priorities
    finish_uninstall uninstall_policy_rule_flows actions_of match_flow_of with_actions create_flow
    create_or_update_conjunctive_match_flow has_flow delete_action add_action new_context
    new_drop_flow added add_change add_conjunctive_match_flow deleted unused delete_change
    delete_conjunctive_match_flow add_deny_all_rule del_deny_all_rule update_actions update_deny
    update_flow update_match_flow set_drop_flow update_drop_flow update_context update_matches
    update_context_status update_all flow_changes same_change flows_of bundle
    apply_conjunctive_match_flows
refused = refl

install_policy_rule_flows-KeptBy_example :
    Extends empty.heap (install_policy_rule_flows listed refuses empty rule_5).0.heap
    × ((install_policy_rule_flows listed refuses empty rule_5).0.policy_cache ≡ [])
install_policy_rule_flows-KeptBy_example =
    install_policy_rule_flows-KeptBy listed refuses empty rule_5 refused
