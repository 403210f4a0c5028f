-- ===== src/Conjunctions/Samples.antt =====
-- The egress rule 5 of an Antrea policy for the tests of pkg/agent/openflow/network_policy.go, and the
-- client in which it is installed.
use antrea.Common.{ℕ, true, false, none, some, List, [], ◌∷◌, nat_eq, string_eq}
use antrea.Conjunctions.{
  Flow, conjunctive_match_flow, conjunction_action_flow, allow_rule_metric_flow, Client, Context,
  Clause, GlobalKey, key_eq, match_src_ip, match_dst_ip_net, match_tcp_dst_port, ip, ip_net, other,
  ConjunctiveAction, ConjunctiveMatch, MatchKey, MatchValue,
}
use antrea.Conjunctions.Addresses.{ip_address, ip_net_address, tcp}
use antrea.Conjunctions.Rules.{
  PolicyRule, PolicyRuleConjunction, direction_out, allow, antrea_network_policy,
}
use antrea.Conjunctions.Install.{Policies, Bridge}

abbrev pub empty : Policies (List PolicyRuleConjunction)
empty = record {
  heap = record {
    client = record {
      contexts = [];
      next_context = 0;
      clauses = [];
      global_conj_match_flow_cache = [];
    };
    next_clause = 0;
  };
  policy_cache = [];
}

abbrev pub rule_5 : PolicyRule
rule_5 = record {
  direction = direction_out;
  from = some (ip_address "10.0.0.1" ∷ []);
  to = some (ip_net_address "10.1.0.0/16" ∷ []);
  service = some (record { protocol = tcp; port = some 80 } ∷ []);
  action = some allow;
  priority = some 100;
  flow_id = 5;
  table_id = 45;
  policy_ref = record {
    policy_type = antrea_network_policy;
    namespace = "default";
    name = "allow";
  };
}

abbrev pub accepts : Bridge
accepts n bundle = true

abbrev pub action_of : ℕ → ConjunctiveAction
action_of n = record { conj_id = 5; clause_id = n; n_clause = 3 }

abbrev pub from_key : GlobalKey
from_key = record { table = 45; of_priority = 100; match_type = 3; value = "10.0.0.1/32" }

abbrev pub to_key : GlobalKey
to_key = record { table = 45; of_priority = 100; match_type = 2; value = "10.1.0.0/16" }

abbrev pub service_key : GlobalKey
service_key = record { table = 45; of_priority = 100; match_type = 6; value = "%!s(uint16=80)" }

abbrev pub from_flow : ℕ → Flow
from_flow p = conjunctive_match_flow 45 match_src_ip (ip "10.0.0.1") p (action_of 1 ∷ [])

abbrev pub to_flow : ℕ → Flow
to_flow p = conjunctive_match_flow 45 match_dst_ip_net (ip_net "10.1.0.0/16") p (action_of 2 ∷ [])

abbrev pub service_flow : ℕ → Flow
service_flow p =
    conjunctive_match_flow 45 match_tcp_dst_port (other "%!s(uint16=80)") p (action_of 3 ∷ [])

abbrev pub context_of : ConjunctiveMatch → ConjunctiveAction → Flow → Context
context_of m act f = record {
  conjunctive_match = m;
  actions = (5, act) ∷ [];
  deny_all_rules = [];
  flow = some f;
  drop_flow = none;
}

abbrev pub clause_of : ℕ → GlobalKey → ℕ → Clause
clause_of n key p = record {
  action = action_of n;
  matches = (key, p) ∷ [];
  rule_table = 45;
  drop_table = none;
}

abbrev pub match_of : MatchKey → MatchValue → ConjunctiveMatch
match_of key value = record {
  table_id = 45;
  priority = some 100;
  match_key = key;
  match_value = value;
}

abbrev pub installed_client : Client
installed_client = record {
  contexts =
      (0, context_of (match_of match_src_ip (ip "10.0.0.1")) (action_of 1) (from_flow 100))
      ∷ (
        1,
        context_of (match_of match_dst_ip_net (ip_net "10.1.0.0/16")) (action_of 2) (to_flow 100),
      )
      ∷ (
        2,
        context_of (match_of match_tcp_dst_port (other "%!s(uint16=80)")) (action_of 3)
            (service_flow 100),
      )
      ∷ [];
  next_context = 3;
  clauses =
      (0, clause_of 1 from_key 0) ∷ (1, clause_of 2 to_key 1) ∷ (2, clause_of 3 service_key 2) ∷ [];
  global_conj_match_flow_cache = (from_key, 0) ∷ (to_key, 1) ∷ (service_key, 2) ∷ [];
}

abbrev pub conj_5 : PolicyRuleConjunction
conj_5 = record {
  id = 5;
  from_clause = some 0;
  to_clause = some 1;
  service_clause = some 2;
  action_flows = conjunction_action_flow 5 45 61 100 ∷ [];
  metric_flows = allow_rule_metric_flow 5 false true ∷ allow_rule_metric_flow 5 false false ∷ [];
  np_ref = rule_5.policy_ref;
  rule_table_id = 45;
}

abbrev pub installed : Policies (List PolicyRuleConjunction)
installed = record {
  heap = record { client = installed_client; next_clause = 3 };
  policy_cache = conj_5 ∷ [];
}
