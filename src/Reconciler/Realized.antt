-- ===== src/Reconciler/Realized.antt =====
-- What a successful `update` of pkg/agent/controller/networkpolicy/reconciler.go leaves of an ingress rule.
use antrea.Common.{
  ℕ, ◌≡◌, refl, ap, sym, ◌∙◌, subst, inl, inr, ◌⊎◌, String, string_eq, Bool, true, false, Option,
  none, some, List, ◌++◌, Map, Unique, get, Bool-cases, Option-cases, if◌then◌else◌, ==_iff, ◌==◌,
  Eq,
}
use antrea.Conjunctions.Addresses.{Address}
use antrea.Conjunctions.Rules.{Direction, direction_in, direction_out}
use antrea.Priority.Order.{Order}
use antrea.RuleCache.{GroupMemberPod, CompletedRule}
use antrea.Reconciler.{ServicesKey, bytes_eq, resolve_service_for_pod, group_by_services}
use antrea.Reconciler.Rules.{
  Environment, get_pod_of_ports, group_members_to_of_addresses, of_ports_to_of_addresses, or_empty,
  ip_blocks_to_of_addresses, pods_by_services,
}
use antrea.Reconciler.Installs.{FlowClient, Work, uninstall_all}
use antrea.Reconciler.Updates.{
  RuleChange, old_ports, update_groups, ingress_change, rule_change, egress_change, update_with,
  update, finish_update, set_pod_ips,
}
use antrea.Reconciler.Flows.{among, IsFlowClient}
use antrea.Reconciler.Steps.{ValidIds, Shows, Has}
use antrea.Reconciler.Loops.{has_group, Distinct, loop-of_ids, loop-ValidIds}
use antrea.Reconciler.Targets.{loop_self}
use antrea.Reconciler.Leftovers.{
  loop-Unique, loop-stale, Foreign, Foreign-keys, uninstall_all-Has, uninstall_all-of_ids,
}
use antrea.Reconciler.Ingress.{
  group_by_services-Unique, known, has_group-changes, changes-Distinct, port_test, old_test,
  changes-Fits,
}
use antrea.Reconciler.Sources.{Compatible, sources, sources-after}

module _ {C P : Type 0} ⦃eq_p : Eq P⦄ ⦃order : Order P⦄ (client : FlowClient C)
    (ok : IsFlowClient client) (env : Environment) (c : CompletedRule) (p : Option ℕ) (table : ℕ)
    (blocks : List Address) where
  -- The rules of the last version are installed with its addresses.
  abbrev pub Realized : Work C P → Type 0
  Realized w =
      (k : ServicesKey) (id : ℕ)
      → get w.last.of_ids k ≡ some id
      → Shows ok w.client id (sources blocks w.last.completed.from_addresses)
          (λ a. among a (of_ports_to_of_addresses (old_ports w.last k)))

  -- The group of Pods of the key has its rule, with the addresses of this version; a key with no group
  -- has no rule.
  abbrev pub Reached : Work C P → ServicesKey → Option (Map String GroupMemberPod) → Type 0
  Reached w k none = get w.last.of_ids k ≡ none
  Reached w k (some pods) =
      Has client ok w k (sources blocks c.from_addresses)
        (λ a. among a (of_ports_to_of_addresses (get_pod_of_ports env pods)))

  abbrev grouped : Work C P → RuleChange → Work C P × Map ServicesKey ℕ × Bool
  grouped w ch = update_groups client w w.last.of_ids ch.groups ch.added_from ch.deleted_from p

  abbrev ready : Work C P → RuleChange → Work C P
  ready w ch = record ((grouped w ch).0) { last = set_pod_ips (grouped w ch).0.last ch.pod_ips }

  abbrev cleared : Work C P → RuleChange → Work C P × Bool
  cleared w ch = uninstall_all client env (ready w ch) (grouped w ch).1 table

  abbrev closed : Work C P → RuleChange → Work C P
  closed w ch = record ((cleared w ch).0) {
    last = record ((cleared w ch).0.last) { completed = c };
  }

  -- An update without an error: both loops were without one.
  update_with-done :
      (w : Work C P) (ch : RuleChange)
      → (update_with client env w c p table ch).1 ≡ true
      → ((grouped w ch).2 ≡ true)
        × ((cleared w ch).1 ≡ true)
        × ((update_with client env w c p table ch).0 ≡ closed w ch)
  unfolding update_with finish_update
  update_with-done w ch h = elim (Bool-cases (grouped w ch).2) [
    | inl e ↦ elim (Bool-cases (cleared w ch).1) [
      | inl f ↦ (e, f, rw (e, if◌then◌else◌) (rw (f, if◌then◌else◌) refl))
      | inr f ↦
          let fails : (update_with client env w c p table ch).1 ≡ false =
            rw (e, if◌then◌else◌) (rw (f, if◌then◌else◌) refl) in
          let both : true ≡ false = sym h ∙ fails in cc both
    ]
    | inr e ↦
        let fails : (update_with client env w c p table ch).1 ≡ false =
          rw (e, if◌then◌else◌) refl in
        let both : true ≡ false = sym h ∙ fails in cc both
  ]

  abbrev change_of : Work C P → RuleChange
  change_of w = ingress_change env w.last c p table blocks

  -- The rules that are left over have other IDs than the rule of a group that is there.
  still-Foreign :
      (w : Work C P) (ch : RuleChange) (k : ServicesKey) (id : ℕ)
      → ValidIds w
      → Unique w.last.of_ids
      → (grouped w ch).2 ≡ true
      → Distinct ch.groups
      → has_group k ch.groups ≡ true
      → get (grouped w ch).0.last.of_ids k ≡ some id
      → Foreign id (grouped w ch).1
  still-Foreign w ch k id v u e distinct there at =
      let gone : (j : ServicesKey) → has_group j ch.groups ≡ true → get (grouped w ch).1 j ≡ none =
        λ j listed.
          loop-stale client ok ch.added_from ch.deleted_from p ch.groups w w.last.of_ids j v e
            listed distinct refl in
      let v1 : ValidIds (grouped w ch).0 =
        loop-ValidIds client ok ch.added_from ch.deleted_from p ch.groups w w.last.of_ids v e in
      Foreign-keys (grouped w ch).1 id
        (loop-Unique client ok ch.added_from ch.deleted_from p ch.groups w w.last.of_ids v e u)
        (λ j i left. elim (Bool-cases (has_group j ch.groups)) [
          | inl listed ↦ let both : none ≡ some i = sym (gone j listed) ∙ left in cc both
          | inr apart ↦
              let (ids, kept) =
                loop-of_ids client ok ch.added_from ch.deleted_from p ch.groups w w.last.of_ids j v
                  e apart in
              let own : get (grouped w ch).0.last.of_ids j ≡ some i = ids ∙ sym kept ∙ left in
              elim (Bool-cases (i == id)) [
                | inl equal ↦
                    let same : j ≡ k = v1.apart j k id (own ∙ ap some ((==_iff i id).0 equal)) at in
                    cc (gone k there, same, left)
                | inr other ↦ other
              ]
        ])

  group_there :
      (w : Work C P) (k : ServicesKey) (pods : Map String GroupMemberPod)
      → ip_blocks_to_of_addresses env c.rule.from.ip_blocks ≡ some blocks
      → ValidIds w
      → Unique w.last.of_ids
      → Realized w
      → Compatible (or_empty w.last.completed.from_addresses) (or_empty c.from_addresses)
      → get (pods_by_services c).0 k ≡ some pods
      → (grouped w (change_of w)).2 ≡ true
      → (cleared w (change_of w)).1 ≡ true
      → Reached (closed w (change_of w)) k (some pods)
  unfolding ingress_change set_pod_ips port_test pods_by_services group_by_services
  group_there w k pods found v u realized same here e f =
      let ch = change_of w in
      let all = (pods_by_services c).0 in
      let unique = group_by_services-Unique resolve_service_for_pod c.rule.services c.pods in
      let from = group_members_to_of_addresses (or_empty c.from_addresses) ++ blocks in
      let services = (pods_by_services c).1 in
      let ports = get_pod_of_ports env in
      let there : has_group k ch.groups ≡ true =
        has_group-changes w.last c p table from ports services all k
        ∙ ap (known w.last c p table from ports services) here in
      let old = w.last.completed.from_addresses in
      let stale = (grouped w ch).1 in
      let distinct = changes-Distinct w.last c p table from ports services all unique in
      let before : (get w.last.of_ids k ≡ none)
          ⊎ Has client ok w k (sources blocks old)
              (λ a. among a (of_ports_to_of_addresses (old_ports w.last k))) =
        elim (Option-cases (get w.last.of_ids k)) [
          | inl absent ↦ inl absent
          | inr (id, found_id) ↦ inr (id, found_id, realized k id found_id)
        ] in
      let (id, at, shown) =
        loop_self client ok ch.added_from ch.deleted_from p (sources blocks old)
          (sources blocks c.from_addresses) (old_test w.last c p table from ports services)
          (λ j. port_test w.last c p table from ports services (get all j)) ch.groups w
          w.last.of_ids k v e there distinct
          (changes-Fits w.last c p table from ports services all all (λ j q h. h) unique)
          (λ a. sources-after env c blocks old a found same) before in
      let gone : get stale k ≡ none =
        loop-stale client ok ch.added_from ch.deleted_from p ch.groups w w.last.of_ids k v e there
          distinct refl in
      let (src, dst) = shown in
      let now : (a : Address)
          → port_test w.last c p table from ports services (get all k) a
            ≡ among a (of_ports_to_of_addresses (get_pod_of_ports env pods)) =
        λ a. ap (λ o. port_test w.last c p table from ports services o a) here in
      uninstall_all-Has client ok env table stale (ready w ch) k (sources blocks c.from_addresses)
        (λ a. among a (of_ports_to_of_addresses (get_pod_of_ports env pods))) id f gone
        (still-Foreign w ch k id v u e distinct there at) at (src, λ a. dst a ∙ now a)

  group_gone :
      (w : Work C P) (k : ServicesKey)
      → ValidIds w
      → Unique w.last.of_ids
      → get (pods_by_services c).0 k ≡ none
      → (grouped w (change_of w)).2 ≡ true
      → (cleared w (change_of w)).1 ≡ true
      → Reached (closed w (change_of w)) k none
  unfolding ingress_change set_pod_ips
  group_gone w k v u here e f =
      let ch = change_of w in
      let from = group_members_to_of_addresses (or_empty c.from_addresses) ++ blocks in
      let services = (pods_by_services c).1 in
      let apart : has_group k ch.groups ≡ false =
        has_group-changes w.last c p table from (get_pod_of_ports env) services
          (pods_by_services c).0 k
        ∙ ap (known w.last c p table from (get_pod_of_ports env) services) here in
      let (ids, left) =
        loop-of_ids client ok ch.added_from ch.deleted_from p ch.groups w w.last.of_ids k v e
          apart in
      uninstall_all-of_ids client ok env table (grouped w ch).1 (ready w ch) k f
        (loop-Unique client ok ch.added_from ch.deleted_from p ch.groups w w.last.of_ids v e u)
        (left ∙ sym ids)

  rule_change_in :
      (w : Work C P)
      → c.rule.direction ≡ direction_in
      → ip_blocks_to_of_addresses env c.rule.from.ip_blocks ≡ some blocks
      → rule_change env w.last c p table ≡ some (change_of w)
  unfolding rule_change
  rule_change_in w inward found =
      let by_blocks : Option (List Address) → Option RuleChange = λ o. elim o [
        | none ↦ none
        | some found ↦ some (ingress_change env w.last c p table found)
      ] in
      let by_direction : Direction → Option RuleChange = λ d. elim d [
        | direction_in ↦ by_blocks (ip_blocks_to_of_addresses env c.rule.from.ip_blocks)
        | direction_out ↦ some (egress_change env w.last c p table)
      ] in
      ap by_direction inward ∙ ap by_blocks found

  -- After an update of an ingress rule without an error its groups, and no others, have rules that show
  -- the new addresses.
  pub update-Reached :
      (w w' : Work C P)
      → c.rule.direction ≡ direction_in
      → ip_blocks_to_of_addresses env c.rule.from.ip_blocks ≡ some blocks
      → ValidIds w
      → Unique w.last.of_ids
      → Realized w
      → Compatible (or_empty w.last.completed.from_addresses) (or_empty c.from_addresses)
      → update client env w c p table ≡ some (w', true)
      → (k : ServicesKey) → Reached w' k (get (pods_by_services c).0 k)
  unfolding update
  update-Reached w w' inward found v u realized same h k =
      let changed : update client env w c p table
          ≡ some (update_with client env w c p table (change_of w)) =
        rw (rule_change_in w inward found, update) refl in
      let run : update_with client env w c p table (change_of w) ≡ (w', true) =
        cc (sym changed ∙ h) in
      let (e, f, g) = update_with-done w (change_of w) (ap (λ (x : Work C P × Bool). x.1) run) in
      let end : closed w (change_of w) ≡ w' = sym g ∙ ap (λ (x : Work C P × Bool). x.0) run in
      subst (λ x. Reached x k (get (pods_by_services c).0 k)) end
        (elim (Option-cases (get (pods_by_services c).0 k)) [
          | inl absent ↦
              subst (Reached (closed w (change_of w)) k) (sym absent)
                (group_gone w k v u absent e f)
          | inr (pods, here) ↦
              subst (Reached (closed w (change_of w)) k) (sym here)
                (group_there w k pods found v u realized same here e f)
        ])
