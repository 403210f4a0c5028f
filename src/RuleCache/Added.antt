-- ===== src/RuleCache/Added.antt =====
-- Which rules of a policy the loop of UpdateNetworkPolicy of pkg/agent/controller/networkpolicy/cache.go
-- leaves cached.
use antrea.Common.{
  ◌≡◌, refl, ap, sym, subst, ◌∙◌, inl, inr, arith, String, string_eq, true, false, none, List, [],
  ◌∷◌, any, if◌then◌else◌, Map, get, get-remove, remove, Bool-cases, Option-cases,
}
use antrea.RuleCache.{Rule, NetworkPolicyRule, NetworkPolicy, RuleIndexer}
use antrea.RuleCache.Policies.{add_rules, to_rule, unnamed_rule}
use antrea.RuleCache.Indexes.{has, IsRuleIndexer}
use antrea.RuleCache.Updated.{has_cons, step_old, step_new, new_rule, get-add_apart}
use antrea.RuleCache.Listed.{ids_of, Listed, Left}

module _ {S : Type 0} (ix : RuleIndexer S) (ok : IsRuleIndexer ix) where
  module _ (hash_rule : Rule → String) (policy : NetworkPolicy) where
    abbrev new : NetworkPolicyRule → Rule
    new r = new_rule ix ok hash_rule policy r

    pub get-left :
        (rs : List NetworkPolicyRule) (m : Map String Rule) (s : S) (id : String)
        → get (add_rules hash_rule ix policy rs m s).0 id
          ≡ (if has id (ids_of hash_rule policy rs) then none else get m id)
    unfolding add_rules ids_of has any
    get-left [] m s id = refl
    get-left (r ∷ rs) m s id = elim (Option-cases (get m (new r).id)) [
      | inl e ↦
          let before : string_eq.beq (new r).id id ≡ true → get m id ≡ none =
            λ t. subst (λ k. get m k ≡ none) ((string_eq.beq_iff (new r).id id).0 t) e in
          ap (λ a. get a.0 id) (step_new ix ok hash_rule policy r rs m s e)
          ∙ get-left rs m (ix.add s (new r)) id
          ∙ ground (arith, before)
      | inr (old, e) ↦
          ap (λ a. get a.0 id) (step_old ix ok hash_rule policy r rs m s old e)
          ∙ get-left rs (remove m (new r).id) s id
          ∙ ground (arith, get-remove m (new r).id id)
    ]

    pub dirty_apart :
        (rs : List NetworkPolicyRule) (m : Map String Rule) (s : S) (id : String)
        → has id (ids_of hash_rule policy rs) ≡ false
        → has id (add_rules hash_rule ix policy rs m s).2 ≡ false
    unfolding add_rules ids_of has any
    dirty_apart [] m s id h = refl
    dirty_apart (r ∷ rs) m s id h =
        let (apart, rest) = has_cons id (new r).id (ids_of hash_rule policy rs) h in
        elim (Option-cases (get m (new r).id)) [
          | inl e ↦
              ap (λ a. has id a.2) (step_new ix ok hash_rule policy r rs m s e)
              ∙ ground (arith, apart, dirty_apart rs m (ix.add s (new r)) id rest)
          | inr (old, e) ↦
              ap (λ a. has id a.2) (step_old ix ok hash_rule policy r rs m s old e)
              ∙ dirty_apart rs (remove m (new r).id) s id rest
        ]

    Listed-add_here :
        (s : S) (r : NetworkPolicyRule) (id : String)
        → string_eq.beq (new r).id id ≡ true
        → Listed ix ok policy.uid (ix.add s (new r)) id
    unfolding to_rule unnamed_rule
    Listed-add_here s r id e = (new r, ok.get-add s (new r) id ∙ rw (e, if◌then◌else◌) refl, refl)

    Listed-add :
        (s : S) (r : NetworkPolicyRule) (id : String)
        → Listed ix ok policy.uid s id
        → Listed ix ok policy.uid (ix.add s (new r)) id
    Listed-add s r id (q, found, mine) = elim (Bool-cases (string_eq.beq (new r).id id)) [
      | inl e ↦ Listed-add_here s r id e
      | inr e ↦ (q, get-add_apart ix ok hash_rule policy s (new r) id e ∙ found, mine)
    ]

    Listed-add_rules :
        (rs : List NetworkPolicyRule) (m : Map String Rule) (s : S) (id : String)
        → Listed ix ok policy.uid s id
        → Listed ix ok policy.uid (add_rules hash_rule ix policy rs m s).1 id
    unfolding add_rules
    Listed-add_rules [] m s id l = l
    Listed-add_rules (r ∷ rs) m s id l = elim (Option-cases (get m (new r).id)) [
      | inl e ↦
          subst (λ a. Listed ix ok policy.uid a.1 id)
            (sym (step_new ix ok hash_rule policy r rs m s e))
            (Listed-add_rules rs m (ix.add s (new r)) id (Listed-add s r id l))
      | inr (old, e) ↦
          subst (λ a. Listed ix ok policy.uid a.1 id)
            (sym (step_old ix ok hash_rule policy r rs m s old e))
            (Listed-add_rules rs (remove m (new r).id) s id l)
    ]

    Left-remove :
        (m : Map String Rule) (s : S) (key : String)
        → Left ix ok policy.uid m s
        → Left ix ok policy.uid (remove m key) s
    Left-remove m s key left id q h = left id q (ground (arith, h, get-remove m key id))

    pub added-Listed :
        (rs : List NetworkPolicyRule) (m : Map String Rule) (s : S) (id : String)
        → Left ix ok policy.uid m s
        → has id (ids_of hash_rule policy rs) ≡ true
        → Listed ix ok policy.uid (add_rules hash_rule ix policy rs m s).1 id
    unfolding add_rules ids_of has any
    added-Listed [] m s id left h = cc h
    added-Listed (r ∷ rs) m s id left h = elim (Option-cases (get m (new r).id)) [
      | inl e ↦
          let next = ix.add s (new r) in
          subst (λ a. Listed ix ok policy.uid a.1 id)
            (sym (step_new ix ok hash_rule policy r rs m s e))
            (elim (Bool-cases (string_eq.beq (new r).id id)) [
              | inl here ↦ Listed-add_rules rs m next id (Listed-add_here s r id here)
              | inr apart ↦
                  added-Listed rs m next id (λ j q g. Listed-add s r j (left j q g))
                    (ground (arith, apart, h))
            ])
      | inr (old, e) ↦
          subst (λ a. Listed ix ok policy.uid a.1 id)
            (sym (step_old ix ok hash_rule policy r rs m s old e))
            (elim (Bool-cases (string_eq.beq (new r).id id)) [
              | inl here ↦ Listed-add_rules rs (remove m (new r).id) s id (
                  subst (λ k. Listed ix ok policy.uid s k)
                    ((string_eq.beq_iff (new r).id id).0 here) (left (new r).id old e))
              | inr apart ↦
                  added-Listed rs (remove m (new r).id) s id (Left-remove m s (new r).id left)
                    (ground (arith, apart, h))
            ])
    ]
