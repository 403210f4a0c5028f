-- ===== src/Conjunctions/Batch.antt =====
-- The batch install of rules, the addresses of an installed rule, and the replay of flows, in
-- pkg/agent/openflow/network_policy.go.
use antrea.Common.{
  ℕ, string_eq, Bool, Option, none, some, List, [], ◌∷◌, ◌++◌, nat_eq, if◌then◌else◌, Map, get,
}
use antrea.Conjunctions.{Flow, Clause, ContextChange, Client, GlobalKey}
use antrea.Conjunctions.Updates.{update_all, bundle}
use antrea.Conjunctions.Addresses.{Address, AddressType, add_addr_flows, delete_addr_flows}
use antrea.Conjunctions.Rules.{PolicyRule, PolicyRuleConjunction, NetworkPolicyReference}
use antrea.Conjunctions.Clauses.{Heap, calculate_changes_for_rule_creation, get_address_clause}
use antrea.Conjunctions.Install.{
  Indexer, Policies, Status, succeeded, failed, not_found, no_clause, panicked, Bridge, all_set,
  apply_changes, conjunction, already_added, nil_pointer, some_flows,
  calculate_action_flow_changes_for_rule,
}

-- What the loop over the rules has gathered.
pub record Gathered : Type 0 where
  pub heap : Heap
  pub all_ctx_changes : List ContextChange
  pub all_flows : List Flow
  pub updated_conjunctions : List PolicyRuleConjunction

unfoldable pub optional_flow : Option Flow → List Flow
optional_flow none = []
optional_flow (some f) = f ∷ []

-- The flows of the contexts in the cache, each with its drop flow first.
unfoldable pub match_flows : Client → Map GlobalKey ℕ → List Flow
match_flows client [] = []
match_flows client ((key, p) ∷ m) =
    let rest = match_flows client m in
    elim (get client.contexts p) [
      | none ↦ rest
      | some ctx ↦ optional_flow ctx.drop_flow ++ (optional_flow ctx.flow ++ rest)
    ]

unfoldable pub conjunction_flows : List PolicyRuleConjunction → List Flow
conjunction_flows [] = []
conjunction_flows (conj ∷ conjs) =
    conj.action_flows ++ (conj.metric_flows ++ conjunction_flows conjs)

module _ {S : Type 0} (ix : Indexer S) where
  -- The contexts are updated at once, before any flow is sent. None for a nil pointer.
  unfoldable pub gather_rule : S → PolicyRule → Gathered → Option Gathered
  gather_rule cache rule g =
      elim (calculate_action_flow_changes_for_rule ix
        (record { heap = g.heap; policy_cache = cache }) rule) [
          | already_added ↦ none
          | nil_pointer ↦ none
          | conjunction h conj ↦
              let changes = calculate_changes_for_rule_creation h.client conj rule in
              elim (all_set changes.1) [
                | none ↦ none
                | some chs ↦ some (record {
                  heap = record h { client = update_all chs changes.0 };
                  all_ctx_changes = g.all_ctx_changes ++ chs;
                  all_flows = g.all_flows ++ (conj.action_flows ++ conj.metric_flows);
                  updated_conjunctions = g.updated_conjunctions ++ (conj ∷ []);
                })
              ]
        ]

  unfoldable pub gather_rules : S → List PolicyRule → Gathered → Option Gathered
  gather_rules cache [] g = some g
  gather_rules cache (rule ∷ rules) g = elim (gather_rule cache rule g) [
    | none ↦ none
    | some next ↦ gather_rules cache rules next
  ]

  unfoldable pub add_conjunctions : S → List PolicyRuleConjunction → S
  add_conjunctions cache [] = cache
  add_conjunctions cache (conj ∷ conjs) = add_conjunctions (ix.add cache conj) conjs

  unfoldable pub batch_install_policy_rule_flows :
      Bridge → Policies S → List PolicyRule → Policies S × Status
  batch_install_policy_rule_flows send st rules =
      let start : Gathered = record {
        heap = st.heap;
        all_ctx_changes = [];
        all_flows = [];
        updated_conjunctions = [];
      } in
      elim (gather_rules st.policy_cache rules start) [
        | none ↦ (st, panicked)
        | some g ↦
            if send 0 (bundle g.all_ctx_changes (some_flows g.all_flows))
            then (
              record {
                heap = g.heap;
                policy_cache = add_conjunctions st.policy_cache g.updated_conjunctions;
              },
              succeeded,
            )
            else (record { heap = g.heap; policy_cache = st.policy_cache }, failed)
      ]

  unfoldable pub finish_address : Policies S → Heap × Bool → Policies S × Status
  finish_address st (heap, ok) =
      (record { heap = heap; policy_cache = st.policy_cache }, if ok then succeeded else failed)

  -- A clause that the conjunction points to is in the heap.
  unfoldable pub with_address_clause :
      Policies S → ℕ → AddressType → (ℕ → Clause → Policies S × Status) → Policies S × Status
  with_address_clause st rule_id addr_type go = elim (ix.get_by_key st.policy_cache rule_id) [
    | none ↦ (st, not_found)
    | some conj ↦ elim (get_address_clause conj addr_type) [
      | none ↦ (st, no_clause)
      | some cp ↦ elim (get st.heap.client.clauses cp) [ none ↦ (st, no_clause) | some c ↦ go cp c ]
    ]
  ]

  unfoldable pub add_policy_rule_address :
      Bridge → Policies S → ℕ → AddressType → List Address → Option ℕ → Policies S × Status
  add_policy_rule_address send st rule_id addr_type addresses priority =
      with_address_clause st rule_id addr_type (λ cp c.
        let added = add_addr_flows st.heap.client cp c addr_type addresses priority in
        finish_address st (apply_changes send (record (st.heap) { client = added.0 }) added.1))

  unfoldable pub delete_policy_rule_address :
      Bridge → Policies S → ℕ → AddressType → List Address → Option ℕ → Policies S × Status
  delete_policy_rule_address send st rule_id addr_type addresses priority =
      with_address_clause st rule_id addr_type (λ cp c. finish_address st (
        apply_changes send st.heap
          (delete_addr_flows st.heap.client cp c addr_type addresses priority)))

  -- The flows that replayPolicyFlows adds again.
  unfoldable pub replay_policy_flows : Policies S → List Flow
  replay_policy_flows st =
      conjunction_flows (ix.list st.policy_cache)
      ++ match_flows st.heap.client st.heap.client.global_conj_match_flow_cache

  unfoldable pub get_policy_from_conjunction : S → ℕ → Option NetworkPolicyReference
  get_policy_from_conjunction cache rule_id = elim (ix.get_by_key cache rule_id) [
    | none ↦ none
    | some conj ↦ some conj.np_ref
  ]
