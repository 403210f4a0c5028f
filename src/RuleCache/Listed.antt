-- ===== src/RuleCache/Listed.antt =====
-- The rules of a policy in the cache of pkg/agent/controller/networkpolicy/cache.go.
use antrea.Common.{
  ◌≡◌, refl, sym, subst, ◌∙◌, inl, inr, arith, String, string_eq, Bool, true, false, none, some,
  List, [], ◌∷◌, any, Map, get, put, get-put, Bool-cases,
}
use antrea.RuleCache.{Rule, NetworkPolicyRule, NetworkPolicy, RuleIndexer}
use antrea.RuleCache.Policies.{rules_by_id, to_rule, get_max_priority}
use antrea.RuleCache.Indexes.{IsRuleIndexer}

-- The IDs that the rules of the policy have.
unfoldable pub ids_of : (Rule → String) → NetworkPolicy → List NetworkPolicyRule → List String
ids_of hash_rule policy [] = []
ids_of hash_rule policy (r ∷ rs) =
    (to_rule hash_rule r policy (get_max_priority policy)).id ∷ ids_of hash_rule policy rs

unfoldable pub has_id : String → Rule → Bool
has_id id r = string_eq.beq r.id id

get-rules_by_id :
    (rs : List Rule) (m : Map String Rule) (id : String)
    → any (has_id id) rs ≡ false
    → get (rules_by_id rs m) id ≡ get m id
unfolding rules_by_id any has_id
get-rules_by_id [] m id h = refl
get-rules_by_id (r ∷ rs) m id h =
    let rest : any (has_id id) rs ≡ false = ground (arith, h) in
    get-rules_by_id rs (put m r.id r) id rest ∙ ground (arith, h, get-put m r.id id r)

pub rules_by_id-none :
    (rs : List Rule) (m : Map String Rule) (id : String)
    → get (rules_by_id rs m) id ≡ none
    → (any (has_id id) rs ≡ false) × (get m id ≡ none)
unfolding rules_by_id any has_id
rules_by_id-none [] m id h = (refl, h)
rules_by_id-none (r ∷ rs) m id h =
    let (rest, first) = rules_by_id-none rs (put m r.id r) id h in
    (ground (arith, rest, first, get-put m r.id id r), ground (arith, first, get-put m r.id id r))

module _ {S : Type 0} (ix : RuleIndexer S) (ok : IsRuleIndexer ix) where
  -- The cache has a rule of the policy under the ID.
  abbrev pub Listed : String → S → String → Type 0
  Listed uid s id = (r : Rule) × (ix.get_by_key s id ≡ some r) × (r.policy_uid ≡ uid)

  -- Each rule that is left to delete is cached, for the policy.
  abbrev pub Left : String → Map String Rule → S → Type 0
  Left uid m s = (id : String) (q : Rule) → get m id ≡ some q → Listed uid s id

  pub Listed-by_policy :
      (s : S) (uid id : String) → any (has_id id) (ix.by_policy s uid) ≡ true → Listed uid s id
  unfolding has_id
  Listed-by_policy s uid id h =
      let found = (ok.by_policy-found s uid (has_id id)).0 h in
      let own : found.0.id ≡ id = (string_eq.beq_iff found.0.id id).0 found.3 in
      (found.0, subst (λ k. ix.get_by_key s k ≡ some found.0) own found.1, found.2)

  pub by_policy-Listed :
      (s : S) (uid id : String) → Listed uid s id → any (has_id id) (ix.by_policy s uid) ≡ true
  unfolding has_id
  by_policy-Listed s uid id (r, found, mine) =
      let own = ok.key_of s id r found in
      (ok.by_policy-found s uid (has_id id)).1 (
        r,
        subst (λ k. ix.get_by_key s k ≡ some r) (sym own) found,
        mine,
        (string_eq.beq_iff r.id id).1 own,
      )

  pub Left-rules_by_id : (s : S) (uid : String) → Left uid (rules_by_id (ix.by_policy s uid) []) s
  unfolding get
  Left-rules_by_id s uid id q h = elim (Bool-cases (any (has_id id) (ix.by_policy s uid))) [
    | inl e ↦ Listed-by_policy s uid id e
    | inr e ↦
        let same : none ≡ some q = sym (get-rules_by_id (ix.by_policy s uid) [] id e) ∙ h in cc same
  ]
