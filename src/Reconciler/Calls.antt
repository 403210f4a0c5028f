-- ===== src/Reconciler/Calls.antt =====
-- Reconcile, Forget and BatchReconcile of pkg/agent/controller/networkpolicy/reconciler.go. None is a
-- panic. The priority of a rule is made by `priority_of` of its tier and its policy and of a rule
-- priority.
use antrea.Common.{
  ℕ, suc, zero, ◌+◌, ◌-◌, ◌==◌, String, string_eq, Bool, true, false, not, Option, none, some, List,
  [], ◌∷◌, if◌then◌else◌, get, put, remove, Eq, nat_eq, length,
}
use antrea.RuleCache.{Rule, CompletedRule}
use antrea.Priority.Order.{Order}
use antrea.Assigner.State.{Assigner, get_of_priority, release}
use antrea.Assigner.Register.{
  register_priorities, revert, Registered, nothing_new, registered, failed,
}
use antrea.Reconciler.Rules.{Environment, is_antrea_network_policy_rule, get_of_rule_table}
use antrea.Reconciler.Installs.{FlowClient, uninstall_all}
use antrea.Reconciler.Adds.{Reconciler, work, worked, add_or_update}

module _ (env : Environment) {C P : Type 0} ⦃eq_p : Eq P⦄ ⦃order : Order P⦄ (client : FlowClient C)
    (capacity : ℕ → ℕ) (priority_of : Rule → ℕ → P) where
  -- The rule priorities from 0, which is 2147483648, on.
  unfoldable pub priorities_from : Rule → ℕ → ℕ → List P
  priorities_from r zero i = []
  priorities_from r (suc n) i = priority_of r i ∷ priorities_from r n (suc i)

  unfoldable pub all_priorities_in_policy : Rule → List P
  all_priorities_in_policy r = priorities_from r (r.max_priority + 1 - 2147483648) 2147483648

  unfoldable pub reassign_if_any :
      Reconciler C P → ℕ → Assigner P → Registered P → Reconciler C P × Bool
  reassign_if_any st table pa (failed e) =
      (record st { priority_assigners = put st.priority_assigners table pa }, false)
  reassign_if_any st table pa nothing_new = (st, true)
  reassign_if_any st table pa (registered updates runs by_priority) =
      let kept = record st { priority_assigners = put st.priority_assigners table pa } in
      let (c, ok) = client.reassign_flow_priorities st.client updates table in
      if length updates == 0
      then (kept, true)
      else if ok
      then (record kept { client = c }, true)
      else (
        record st {
          client = c;
          priority_assigners = put st.priority_assigners table (revert runs by_priority pa);
        },
        false,
      )

  unfoldable pub register_policy : Reconciler C P → Rule → ℕ → Assigner P → Reconciler C P × Bool
  register_policy st r table pa =
      let (pa', result) = register_priorities capacity pa (all_priorities_in_policy r) in
      reassign_if_any st table pa' result

  unfoldable pub registered_priority : Reconciler C P → Rule → ℕ → ℕ
  registered_priority st r table = elim (get st.priority_assigners table) [
    | none ↦ 0
    | some pa ↦ elim (get_of_priority pa (priority_of r r.priority)) [ none ↦ 0 | some p ↦ p ]
  ]

  -- The priority, none for an error; a rule of a Kubernetes policy has a nil priority. In the tables
  -- of Antrea policies there is an assigner, and a Priority that was registered is found.
  unfoldable pub get_rule_priority :
      Reconciler C P → Rule → ℕ → Option (Reconciler C P × Option (Option ℕ))
  get_rule_priority st r table =
      if not (is_antrea_network_policy_rule r)
      then some (st, some none)
      else (elim (get st.priority_assigners table) [
        | none ↦ none
        | some pa ↦ elim (get_of_priority pa (priority_of r r.priority)) [
          | some p ↦ some (st, some (some p))
          | none ↦
              let (st', ok) = register_policy st r table pa in
              if ok
              then some (st', some (some (registered_priority st' r table)))
              else some (st', none)
        ]
      ])

  -- A priority that was assigned is released if the rule is not installed.
  unfoldable pub release_priority : Reconciler C P → ℕ → Option ℕ → Reconciler C P
  release_priority st table none = st
  release_priority st table (some p) = elim (get st.priority_assigners table) [
    | none ↦ st
    | some pa ↦ record st { priority_assigners = put st.priority_assigners table (release pa p) }
  ]

  unfoldable pub install_with :
      Reconciler C P → CompletedRule → ℕ → Option ℕ → Option (Reconciler C P × Bool)
  install_with st c table of_priority = elim (add_or_update env client st c of_priority table) [
    | none ↦ none
    | some done ↦
        some (if done.1 then (done.0, true) else (release_priority done.0 table of_priority, false))
  ]

  unfoldable pub reconcile : Reconciler C P → CompletedRule → Option (Reconciler C P × Bool)
  reconcile st c =
      let table = get_of_rule_table c.rule in
      elim (get_rule_priority st c.rule table) [
        | none ↦ none
        | some found ↦ elim found.1 [
          | none ↦ some (found.0, false)
          | some of_priority ↦ install_with found.0 c table of_priority
        ]
      ]

  unfoldable pub forget : Reconciler C P → String → Reconciler C P × Bool
  forget st id = elim (get st.last_realizeds id) [
    | none ↦ (st, true)
    | some l ↦
        let (w, ok) =
          uninstall_all client env (work st l) l.of_ids (get_of_rule_table l.completed.rule) in
        let after = worked st id w in
        if ok
        then (record after { last_realizeds = remove after.last_realizeds id }, true)
        else (after, false)
  ]
