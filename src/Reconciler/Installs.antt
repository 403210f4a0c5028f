-- ===== src/Reconciler/Installs.antt =====
-- The state of the reconciler of pkg/agent/controller/networkpolicy/reconciler.go and its calls of the
-- OpenFlow client, which is known by its operations, each with whether it was without an error. A rule that is
-- last realized is a pointer in the map, so what an unfinished call changed of it stays.
use antrea.Common.{
  ℕ, String, Bool, true, false, Option, none, some, List, [], ◌∷◌, if◌then◌else◌, Map, get, put,
  remove, Eq, nat_eq, string_eq,
}
use antrea.Conjunctions.Addresses.{Address, AddressType, src_address, dst_address}
use antrea.Conjunctions.Rules.{PolicyRule}
use antrea.RuleCache.{CompletedRule}
use antrea.RuleId.{IdAllocator, allocate, release as release_id}
use antrea.Priority.Order.{Order}
use antrea.Assigner.State.{Assigner, release as release_priority}
use antrea.Reconciler.{ServicesKey, bytes_eq}
use antrea.Reconciler.Rules.{Environment}

-- UninstallPolicyRuleFlows gives the stale priorities, none for an error.
pub record FlowClient (C : Type 0) : Type 0 where
  pub install_policy_rule_flows : C → PolicyRule → C × Bool
  pub uninstall_policy_rule_flows : C → ℕ → C × Option (List String)
  pub add_policy_rule_address : C → ℕ → AddressType → List Address → Option ℕ → C × Bool
  pub delete_policy_rule_address : C → ℕ → AddressType → List Address → Option ℕ → C × Bool
  pub reassign_flow_priorities : C → Map ℕ ℕ → ℕ → C × Bool

pub record LastRealized : Type 0 where
  pub of_ids : Map ServicesKey ℕ
  pub completed : CompletedRule
  pub pod_of_ports : Map ServicesKey (List String)
  pub pod_ips : List String

unfoldable pub new_last_realized : CompletedRule → LastRealized
new_last_realized c = record { of_ids = []; completed = c; pod_of_ports = []; pod_ips = [] }

-- What a call on one rule changes: its last realized state, and the parts that all rules share.
pub record Work (C P : Type 0) : Type 0 where
  pub last : LastRealized
  pub client : C
  pub id_allocator : IdAllocator
  pub priority_assigners : Map ℕ (Assigner P)

module _ {C : Type 0} (client : FlowClient C) where
  -- A call of the client with addresses, which is made if there are any and none has failed.
  unfoldable pub with_addresses : (C → List Address → C × Bool) → List Address → C × Bool → C × Bool
  with_addresses call addresses (c, false) = (c, false)
  with_addresses call [] (c, true) = (c, true)
  with_addresses call (a ∷ addresses) (c, true) = call c (a ∷ addresses)

  unfoldable pub update_of_rule :
      C → ℕ → List Address → List Address → List Address → List Address → Option ℕ → C × Bool
  update_of_rule c of_id added_from added_to deleted_from deleted_to priority =
      with_addresses (λ c' l. client.delete_policy_rule_address c' of_id dst_address l priority)
        deleted_to
        (with_addresses (λ c' l. client.delete_policy_rule_address c' of_id src_address l priority)
          deleted_from
          (with_addresses (λ c' l. client.add_policy_rule_address c' of_id dst_address l priority)
            added_to
            (with_addresses (λ c' l. client.add_policy_rule_address c' of_id src_address l priority)
              added_from (c, true))))

module _ {C P : Type 0} ⦃eq_p : Eq P⦄ ⦃order : Order P⦄ (client : FlowClient C) where
  unfoldable pub install_of_rule : Work C P → PolicyRule → Work C P × Bool
  install_of_rule w r =
      let (c, ok) = client.install_policy_rule_flows w.client r in
      if ok
      then (record w { client = c }, true)
      else (record w { client = c; id_allocator = (release_id w.id_allocator r.flow_id).0 }, false)

  -- The ID is recorded only if the rule is installed.
  unfoldable pub install_new : Work C P → ServicesKey → PolicyRule → Work C P × Bool
  install_new w key r =
      let (ids, given) = allocate w.id_allocator in
      elim given [
        | none ↦ (record w { id_allocator = ids }, false)
        | some of_id ↦
            let (w', ok) =
              install_of_rule (record w { id_allocator = ids }) (record r { flow_id = of_id }) in
            if ok
            then (
              record w' { last = record (w'.last) { of_ids = put w'.last.of_ids key of_id } },
              true,
            )
            else (w', false)
      ]

  unfoldable pub add_rules : Work C P → Map ServicesKey PolicyRule → Work C P × Bool
  add_rules w [] = (w, true)
  add_rules w ((key, r) ∷ rules) =
      let (w', ok) = install_new w key r in
      let rest = add_rules w' rules in if ok then rest else (w', false)

  unfoldable pub release_all : (String → Option ℕ) → List String → Assigner P → Assigner P × Bool
  release_all parse [] pa = (pa, true)
  release_all parse (p ∷ ps) pa = elim (parse p) [
    | none ↦ (pa, false)
    | some n ↦ release_all parse ps (release_priority pa n)
  ]

  -- Priorities are stale only in tables that have an assigner.
  unfoldable pub release_stale :
      (String → Option ℕ) → Map ℕ (Assigner P) → ℕ → List String → Map ℕ (Assigner P) × Bool
  release_stale parse assigners table stale = elim (get assigners table) [
    | none ↦ (assigners, true)
    | some pa ↦ let (pa', ok) = release_all parse stale pa in (put assigners table pa', ok)
  ]

  module _ (env : Environment) where
    unfoldable pub uninstall_of_rule : Work C P → ℕ → ℕ → Work C P × Bool
    uninstall_of_rule w of_id table =
        let (c, stale) = client.uninstall_policy_rule_flows w.client of_id in
        elim stale [
          | none ↦ (record w { client = c }, false)
          | some priorities ↦
              let (assigners, ok) =
                release_stale env.parse_uint w.priority_assigners table priorities in
              if ok
              then (
                record w {
                  client = c;
                  priority_assigners = assigners;
                  id_allocator = (release_id w.id_allocator of_id).0;
                },
                true,
              )
              else (record w { client = c; priority_assigners = assigners }, false)
        ]

    -- The last loop of `update` and that of `Forget`.
    unfoldable pub uninstall_all : Work C P → Map ServicesKey ℕ → ℕ → Work C P × Bool
    uninstall_all w [] table = (w, true)
    uninstall_all w ((key, of_id) ∷ stale) table =
        let (w', ok) = uninstall_of_rule w of_id table in
        let rest =
          uninstall_all
            (record w' {
              last = record (w'.last) {
                of_ids = remove w'.last.of_ids key;
                pod_of_ports = remove w'.last.pod_of_ports key;
              };
            })
            stale table in
        if ok then rest else (w', false)
