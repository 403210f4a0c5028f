-- ===== src/Reconciler/Ingress.antt =====
-- The changes that `update` of pkg/agent/controller/networkpolicy/reconciler.go makes for an ingress rule.
use antrea.Common.{
  ℕ, ◌≡◌, refl, ap, sym, ◌∙◌, subst, inl, inr, arith, String, Bool, true, false, Option, none, some,
  List, [], ◌∷◌, All, any, map, Map, Unique, Unique-put, get, put, string_eq, Bool-cases,
  Option-cases, if◌then◌else◌, beq_self,
}
use antrea.Conjunctions.Addresses.{Address}
use antrea.RuleCache.{GroupMemberPod, Service, CompletedRule}
use antrea.Reconciler.{
  ServicesKey, bytes_eq, is_named, Groups, group_loop, group_by_services, normalize_services,
}
use antrea.Reconciler.Rules.{of_ports_to_of_addresses, policy_rule}
use antrea.Reconciler.Installs.{LastRealized}
use antrea.Reconciler.Updates.{GroupChange, ingress_changes, old_ports}
use antrea.Reconciler.Flows.{among, listed_in}
use antrea.Reconciler.Kinds.{among-ports}
use antrea.Reconciler.Loops.{has_group, Distinct}
use antrea.Reconciler.Targets.{Fits}

group_loop-Unique :
    {M : Type 0} (resolve : M → Service → Service) (services : List Service)
    (members : Map String M) (groups : Groups M)
    → Unique groups.0
    → Unique (group_loop resolve services members groups).0
unfolding group_loop
group_loop-Unique resolve services [] groups u = u
group_loop-Unique resolve services ((key, m) ∷ members) groups u =
    let k = normalize_services (map (resolve m) services) in
    elim (Option-cases (get groups.0 k)) [
      | inl e ↦
          rw (e, group_loop)
            (group_loop-Unique resolve services members
              (put groups.0 k ((key, m) ∷ []), put groups.1 k (map (resolve m) services))
              (Unique-put groups.0 k ((key, m) ∷ []) u))
      | inr (g, e) ↦
          rw (e, group_loop)
            (group_loop-Unique resolve services members (put groups.0 k (put g key m), groups.1)
              (Unique-put groups.0 k (put g key m) u))
    ]

pub group_by_services-Unique :
    {M : Type 0} (resolve : M → Service → Service) (services : List Service)
    (members : Map String M)
    → Unique (group_by_services resolve services members).0
unfolding group_by_services get
group_by_services-Unique resolve services members = elim (Bool-cases (any is_named services)) [
  | inl e ↦ rw (e, if◌then◌else◌) (group_loop-Unique resolve services members ([], []) tt)
  | inr e ↦ rw (e, if◌then◌else◌) (refl, tt)
]

module _ (l : LastRealized) (c : CompletedRule) (p : Option ℕ) (table : ℕ) (from : List Address)
    (ports : Map String GroupMemberPod → List String)
    (services : Map ServicesKey (List Service)) where
  abbrev pub changes : Map ServicesKey (Map String GroupMemberPod) → List GroupChange
  changes groups = ingress_changes l c p table from ports groups services

  abbrev pub known : Option (Map String GroupMemberPod) → Bool
  known o = elim o [ none ↦ false | some pods ↦ true ]

  pub has_group-changes :
      (groups : Map ServicesKey (Map String GroupMemberPod)) (k : ServicesKey)
      → has_group k (changes groups) ≡ known (get groups k)
  unfolding has_group any ingress_changes get
  has_group-changes [] k = refl
  has_group-changes ((key, pods) ∷ groups) k = ground (arith, has_group-changes groups k)

  pub changes-Distinct :
      (groups : Map ServicesKey (Map String GroupMemberPod))
      → Unique groups
      → Distinct (changes groups)
  unfolding ingress_changes
  changes-Distinct [] u = tt
  changes-Distinct ((key, pods) ∷ groups) u =
      (has_group-changes groups key ∙ ap known u.0, changes-Distinct groups u.1)

  -- The addresses of the new ports of the group of a key.
  unfoldable pub port_test : Option (Map String GroupMemberPod) → Address → Bool
  port_test none a = false
  port_test (some pods) a = among a (of_ports_to_of_addresses (ports pods))

  abbrev pub old_test : ServicesKey → Address → Bool
  old_test k a = among a (of_ports_to_of_addresses (old_ports l k))

  pub changes-Fits :
      (all groups : Map ServicesKey (Map String GroupMemberPod))
      → ((k : ServicesKey) (pods : Map String GroupMemberPod)
          → get groups k ≡ some pods
          → get all k ≡ some pods)
      → Unique groups
      → All (Fits (λ a. among a from) old_test (λ k. port_test (get all k))) (changes groups)
  unfolding ingress_changes policy_rule listed_in port_test get
  changes-Fits all [] found u = tt
  changes-Fits all ((key, pods) ∷ groups) found u =
      let here : get all key ≡ some pods =
        found key pods (rw (beq_self ⦃e = bytes_eq⦄ key, if◌then◌else◌) refl) in
      (
        (
          λ a. refl,
          λ a. sym (ap (λ o. port_test o a) here),
          λ a. among-ports (old_ports l key) (ports pods) a ∙ sym (ap (λ o. port_test o a) here),
        ),
        changes-Fits all groups
            (λ k q f. found k q (rw (later groups key k q u.0 f, if◌then◌else◌) f)) u.1,
      )
    where
      later :
          (groups : Map ServicesKey (Map String GroupMemberPod)) (key k : ServicesKey)
          (q : Map String GroupMemberPod)
          → get groups key ≡ none
          → get groups k ≡ some q
          → bytes_eq.beq key k ≡ false
      later groups key k q n f = elim (Bool-cases (bytes_eq.beq key k)) [
        | inl e ↦
            let both : none ≡ some q =
              sym (subst (λ x. get groups x ≡ none) ((bytes_eq.beq_iff key k).0 e) n) ∙ f in
            cc both
        | inr e ↦ e
      ]
