-- ===== src/RuleCache/Updated.antt =====
-- Which rules the loops of UpdateNetworkPolicy and of deleteNetworkPolicyLocked in
-- pkg/agent/controller/networkpolicy/cache.go add and delete.
use antrea.Common.{
  ◌≡◌, refl, ap, sym, subst, ◌∙◌, inl, inr, arith, String, string_eq, true, false, none, some, List,
  [], ◌∷◌, any, if◌then◌else◌, Map, get, put, remove, Bool-cases, Option-cases,
}
use antrea.RuleCache.{Rule, NetworkPolicyRule, NetworkPolicy, RuleIndexer}
use antrea.RuleCache.Policies.{
  rules_by_id, to_rule, get_max_priority, add_rules, delete_orphans, delete_rules,
}
use antrea.RuleCache.Indexes.{has, IsRuleIndexer}

-- Each rule is under its own ID.
abbrev pub Own : Map String Rule → Type 0
Own [] = Unit
Own ((key, r) ∷ m) = (key ≡ r.id) × Own m

Own-put : (m : Map String Rule) (r : Rule) → Own m → Own (put m r.id r)
unfolding put
Own-put [] r o = (refl, tt)
Own-put ((key, q) ∷ m) r o = ground (arith, Own-put m r o.1)

Own-remove : (m : Map String Rule) (key : String) → Own m → Own (remove m key)
unfolding remove
Own-remove [] key o = tt
Own-remove ((j, q) ∷ m) key o = ground (arith, Own-remove m key o.1)

pub Own-rules_by_id : (rs : List Rule) (m : Map String Rule) → Own m → Own (rules_by_id rs m)
unfolding rules_by_id
Own-rules_by_id [] m o = o
Own-rules_by_id (r ∷ rs) m o = Own-rules_by_id rs (put m r.id r) (Own-put m r o)

pub has_cons :
    (id key : String) (ids : List String)
    → has id (key ∷ ids) ≡ false
    → (string_eq.beq key id ≡ false) × (has id ids ≡ false)
unfolding has any
has_cons id key ids h = (ground (arith, h), ground (arith, h))

module _ {S : Type 0} (ix : RuleIndexer S) (ok : IsRuleIndexer ix) where
  get-delete_apart :
      (s : S) (r : Rule) (id : String)
      → string_eq.beq r.id id ≡ false
      → ix.get_by_key (ix.delete s r) id ≡ ix.get_by_key s id
  get-delete_apart s r id h = ok.get-delete s r id ∙ rw (h, if◌then◌else◌) refl

  pub get-delete_rules :
      (rs : List Rule) (s : S) (id : String)
      → has id (delete_rules ix rs s).1 ≡ false
      → ix.get_by_key (delete_rules ix rs s).0 id ≡ ix.get_by_key s id
  unfolding delete_rules
  get-delete_rules [] s id h = refl
  get-delete_rules (r ∷ rs) s id h =
      let (apart, rest) = has_cons id r.id (delete_rules ix rs (ix.delete s r)).1 h in
      get-delete_rules rs (ix.delete s r) id rest ∙ get-delete_apart s r id apart

  pub get-delete_orphans :
      (m : Map String Rule) (s : S) (id : String)
      → Own m
      → has id (delete_orphans ix m s).1 ≡ false
      → ix.get_by_key (delete_orphans ix m s).0 id ≡ ix.get_by_key s id
  unfolding delete_orphans
  get-delete_orphans [] s id o h = refl
  get-delete_orphans ((key, r) ∷ m) s id o h =
      let (apart, rest) = has_cons id key (delete_orphans ix m (ix.delete s r)).1 h in
      get-delete_orphans m (ix.delete s r) id o.1 rest
      ∙ get-delete_apart s r id (subst (λ k. string_eq.beq k id ≡ false) o.0 apart)

  get-cons_apart :
      (m : Map String Rule) (key id : String) (r : Rule)
      → get ((key, r) ∷ m) id ≡ none
      → (string_eq.beq key id ≡ false) × (get m id ≡ none)
  unfolding get
  get-cons_apart m key id r h = (ground (arith, h), ground (arith, h))

  pub get-delete_kept :
      (m : Map String Rule) (s : S) (id : String)
      → Own m
      → get m id ≡ none
      → ix.get_by_key (delete_orphans ix m s).0 id ≡ ix.get_by_key s id
  unfolding delete_orphans
  get-delete_kept [] s id o h = refl
  get-delete_kept ((key, r) ∷ m) s id o h =
      let (apart, rest) = get-cons_apart m key id r h in
      get-delete_kept m (ix.delete s r) id o.1 rest
      ∙ get-delete_apart s r id (subst (λ k. string_eq.beq k id ≡ false) o.0 apart)

  get-delete_none :
      (s : S) (r : Rule) (id : String)
      → ix.get_by_key s id ≡ none
      → ix.get_by_key (ix.delete s r) id ≡ none
  get-delete_none s r id h = elim (Bool-cases (string_eq.beq r.id id)) [
    | inl e ↦ ok.get-delete s r id ∙ rw (e, if◌then◌else◌) refl
    | inr e ↦ get-delete_apart s r id e ∙ h
  ]

  stays_none :
      (m : Map String Rule) (s : S) (id : String)
      → ix.get_by_key s id ≡ none
      → ix.get_by_key (delete_orphans ix m s).0 id ≡ none
  unfolding delete_orphans
  stays_none [] s id h = h
  stays_none ((key, r) ∷ m) s id h = stays_none m (ix.delete s r) id (get-delete_none s r id h)

  get-cons_skip :
      (m : Map String Rule) (key id : String) (r q : Rule)
      → string_eq.beq key id ≡ false
      → get ((key, r) ∷ m) id ≡ some q
      → get m id ≡ some q
  unfolding get
  get-cons_skip m key id r q e h = ground (arith, e, h)

  pub get-delete_gone :
      (m : Map String Rule) (s : S) (id : String) (q : Rule)
      → Own m
      → get m id ≡ some q
      → ix.get_by_key (delete_orphans ix m s).0 id ≡ none
  unfolding delete_orphans get
  get-delete_gone [] s id q o h = cc h
  get-delete_gone ((key, r) ∷ m) s id q o h = elim (Bool-cases (string_eq.beq key id)) [
    | inl e ↦
        let own : string_eq.beq r.id id ≡ true = subst (λ k. string_eq.beq k id ≡ true) o.0 e in
        stays_none m (ix.delete s r) id (ok.get-delete s r id ∙ rw (own, if◌then◌else◌) refl)
    | inr e ↦ get-delete_gone m (ix.delete s r) id q o.1 (get-cons_skip m key id r q e h)
  ]

  module _ (hash_rule : Rule → String) (policy : NetworkPolicy) where
    abbrev pub new_rule : NetworkPolicyRule → Rule
    new_rule r = to_rule hash_rule r policy (get_max_priority policy)

    -- A rule that is there already.
    pub step_old :
        (r : NetworkPolicyRule) (rs : List NetworkPolicyRule) (m : Map String Rule) (s : S)
        (old : Rule)
        → get m (new_rule r).id ≡ some old
        → add_rules hash_rule ix policy (r ∷ rs) m s
          ≡ add_rules hash_rule ix policy rs (remove m (new_rule r).id) s
    unfolding add_rules
    step_old r rs m s old e = rw (e, add_rules) refl

    -- A new rule.
    pub step_new :
        (r : NetworkPolicyRule) (rs : List NetworkPolicyRule) (m : Map String Rule) (s : S)
        → get m (new_rule r).id ≡ none
        → let rest : Map String Rule × S × List String =
            add_rules hash_rule ix policy rs m (ix.add s (new_rule r)) in
          add_rules hash_rule ix policy (r ∷ rs) m s ≡ (rest.0, rest.1, (new_rule r).id ∷ rest.2)
    unfolding add_rules
    step_new r rs m s e = rw (e, add_rules) refl

    pub get-add_apart :
        (s : S) (r : Rule) (id : String)
        → string_eq.beq r.id id ≡ false
        → ix.get_by_key (ix.add s r) id ≡ ix.get_by_key s id
    get-add_apart s r id h = ok.get-add s r id ∙ rw (h, if◌then◌else◌) refl

    pub get-add_rules :
        (rs : List NetworkPolicyRule) (m : Map String Rule) (s : S) (id : String)
        → has id (add_rules hash_rule ix policy rs m s).2 ≡ false
        → ix.get_by_key (add_rules hash_rule ix policy rs m s).1 id ≡ ix.get_by_key s id
    unfolding add_rules
    get-add_rules [] m s id h = refl
    get-add_rules (r ∷ rs) m s id h = elim (Option-cases (get m (new_rule r).id)) [
      | inl e ↦
          let step = step_new r rs m s e in
          let rest = add_rules hash_rule ix policy rs m (ix.add s (new_rule r)) in
          let (apart, later) =
            has_cons id (new_rule r).id rest.2 (subst (λ a. has id a.2 ≡ false) step h) in
          ap (λ a. ix.get_by_key a.1 id) step
          ∙ get-add_rules rs m (ix.add s (new_rule r)) id later
          ∙ get-add_apart s (new_rule r) id apart
      | inr (old, e) ↦
          let step = step_old r rs m s old e in
          ap (λ a. ix.get_by_key a.1 id) step
          ∙ get-add_rules rs (remove m (new_rule r).id) s id
              (subst (λ a. has id a.2 ≡ false) step h)
    ]

    pub Own-add_rules :
        (rs : List NetworkPolicyRule) (m : Map String Rule) (s : S)
        → Own m
        → Own (add_rules hash_rule ix policy rs m s).0
    unfolding add_rules
    Own-add_rules [] m s o = o
    Own-add_rules (r ∷ rs) m s o = elim (Option-cases (get m (new_rule r).id)) [
      | inl e ↦
          subst (λ a. Own a.0) (sym (step_new r rs m s e))
            (Own-add_rules rs m (ix.add s (new_rule r)) o)
      | inr (old, e) ↦
          subst (λ a. Own a.0) (sym (step_old r rs m s old e))
            (Own-add_rules rs (remove m (new_rule r).id) s (Own-remove m (new_rule r).id o))
    ]
