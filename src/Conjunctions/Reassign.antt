-- ===== src/Conjunctions/Reassign.antt =====
-- ReassignFlowPriorities of pkg/agent/openflow/network_policy.go: the flows of installed rules move to
-- other priorities. A flow's match is its MatchString in pkg/ovs/openflow/ofctrl_flow.go, by the parts
-- that the text has.
use antrea.Common.{
  ℕ, string_eq, Bool, true, false, ◌&&◌, not, Option, none, some, List, [], ◌∷◌, ◌++◌, nat_eq, ◌==◌,
  if◌then◌else◌, Map, get, keep, any,
}
use antrea.Conjunctions.{
  MatchKey, to_int, MatchValue, ip, ip_net, other, Flow, conjunctive_match_flow, default_drop_flow,
  conjunction_action_flow, conjunction_action_drop_flow, allow_rule_metric_flow,
  drop_rule_metric_flow, copied_flow, Client, GlobalKey, key_eq,
}
use antrea.Conjunctions.Rules.{PolicyRuleConjunction}
use antrea.Conjunctions.Install.{flow_priority}

pub data MatchParts : Type 0 where
  address_parts : ℕ → MatchKey → MatchValue → MatchParts
  conj_id_parts : ℕ → ℕ → MatchParts
  ct_label_parts : ℕ → Bool → Bool → MatchParts
  drop_mark_parts : ℕ → Bool → MatchParts

unfoldable pub match_parts : Flow → MatchParts
match_parts (conjunctive_match_flow t k v p actions) = address_parts t k v
match_parts (default_drop_flow t k v) = address_parts t k v
match_parts (conjunction_action_flow id t next p) = conj_id_parts t id
match_parts (conjunction_action_drop_flow id t p) = conj_id_parts t id
match_parts (allow_rule_metric_flow id ingress new) = ct_label_parts id ingress new
match_parts (drop_rule_metric_flow id ingress) = drop_mark_parts id ingress
match_parts (copied_flow f actions) = match_parts f

unfoldable pub same_bool : Bool → Bool → Bool
same_bool true b = b
same_bool false b = not b

unfoldable pub same_value : MatchValue → MatchValue → Bool
same_value (ip v) (ip w) = string_eq.beq v w
same_value (ip_net v) (ip_net w) = string_eq.beq v w
same_value (other v) (other w) = string_eq.beq v w
same_value v w = false

unfoldable pub same_parts : MatchParts → MatchParts → Bool
same_parts (address_parts t k v) (address_parts u l w) =
    (t == u) && (to_int k == to_int l) && same_value v w
same_parts (conj_id_parts t id) (conj_id_parts u jd) = (t == u) && (id == jd)
same_parts (ct_label_parts id a b) (ct_label_parts jd c d) =
    (id == jd) && same_bool a c && same_bool b d
same_parts (drop_mark_parts id a) (drop_mark_parts jd c) = (id == jd) && same_bool a c
same_parts a b = false

-- The test of processFlowUpdates.
unfoldable pub conflicts : Flow → Flow → Bool
conflicts a d = (flow_priority a == flow_priority d) && same_parts (match_parts a) (match_parts d)

-- One update for each flow that is not deleted.
unfoldable pub updates_for : Flow → List Flow → List Flow
updates_for a [] = []
updates_for a (d ∷ ds) = let rest = updates_for a ds in if conflicts a d then a ∷ rest else rest

-- The flows to add, to update and to delete.
unfoldable pub process_flow_updates : List Flow → List Flow → List Flow × List Flow × List Flow
process_flow_updates [] del_flows = ([], [], del_flows)
process_flow_updates (a ∷ add_flows) del_flows =
    let rest = process_flow_updates add_flows (keep (λ d. not (conflicts a d)) del_flows) in
    (
      if any (conflicts a) del_flows then rest.0 else a ∷ rest.0,
      updates_for a del_flows ++ rest.1,
      rest.2,
    )

-- CopyToBuilder with its actions and a priority that is not 0. It is called on flows of matches and
-- conjunctions only; the others have their priority for ever.
unfoldable pub set_priority : ℕ → Flow → Flow
set_priority p (conjunctive_match_flow t k v old actions) = conjunctive_match_flow t k v p actions
set_priority p (conjunction_action_flow id t next old) = conjunction_action_flow id t next p
set_priority p (conjunction_action_drop_flow id t old) = conjunction_action_drop_flow id t p
set_priority p (copied_flow f actions) = copied_flow (set_priority p f) actions
set_priority p (default_drop_flow t k v) = default_drop_flow t k v
set_priority p (allow_rule_metric_flow id ingress new) = allow_rule_metric_flow id ingress new
set_priority p (drop_rule_metric_flow id ingress) = drop_rule_metric_flow id ingress

unfoldable pub copy_to_builder : ℕ → Flow → Flow
copy_to_builder p f = if p == 0 then f else set_priority p f

-- The flows to add and to delete for the contexts of a clause; none if one has no flow.
unfoldable pub clause_flow_updates : Client → ℕ → Map GlobalKey ℕ → Option (List Flow × List Flow)
clause_flow_updates client new_priority [] = some ([], [])
clause_flow_updates client new_priority ((key, p) ∷ m) = elim (get client.contexts p) [
  | none ↦ none
  | some ctx ↦ elim ctx.flow [
    | none ↦ none
    | some f ↦ elim (clause_flow_updates client new_priority m) [
      | none ↦ none
      | some rest ↦ some (copy_to_builder new_priority f ∷ rest.0, f ∷ rest.1)
    ]
  ]
]

-- The pointers of the three clauses; a nil one is followed all the same.
unfoldable pub all_clause : PolicyRuleConjunction → List (Option ℕ)
all_clause conj = conj.from_clause ∷ conj.to_clause ∷ conj.service_clause ∷ []

unfoldable pub match_flow_updates : Client → ℕ → List (Option ℕ) → Option (List Flow × List Flow)
match_flow_updates client new_priority [] = some ([], [])
match_flow_updates client new_priority (none ∷ cps) = none
match_flow_updates client new_priority (some cp ∷ cps) = elim (get client.clauses cp) [
  | none ↦ none
  | some c ↦ elim (clause_flow_updates client new_priority c.matches) [
    | none ↦ none
    | some here ↦ elim (match_flow_updates client new_priority cps) [
      | none ↦ none
      | some rest ↦ some (here.0 ++ rest.0, here.1 ++ rest.1)
    ]
  ]
]

unfoldable pub get_match_flow_updates :
    Client → PolicyRuleConjunction → ℕ → Option (List Flow × List Flow)
get_match_flow_updates client conj new_priority =
    match_flow_updates client new_priority (all_clause conj)
