-- ===== src/RuleCache/Indexes.antt =====
-- What pkg/agent/controller/networkpolicy/cache.go relies on of its indexer of rules: that of client-go's
-- documentation.
use antrea.Common.{String, string_eq, ◌≡◌, ◌↔◌, Bool, true, none, some, List, any, if◌then◌else◌}
use antrea.RuleCache.{Rule, RuleIndexer, address_groups_of}

unfoldable pub has : String → List String → Bool
has id ids = any (λ k. string_eq.beq k id) ids

pub record IsRuleIndexer {S : Type 0} (ix : RuleIndexer S) : Type 0 where
  pub get-add :
      (s : S) (r : Rule) (id : String)
      → ix.get_by_key (ix.add s r) id
        ≡ (if string_eq.beq r.id id then some r else ix.get_by_key s id)
  pub get-delete :
      (s : S) (r : Rule) (id : String)
      → ix.get_by_key (ix.delete s r) id
        ≡ (if string_eq.beq r.id id then none else ix.get_by_key s id)
  pub key_of : (s : S) (id : String) (r : Rule) → ix.get_by_key s id ≡ some r → r.id ≡ id
  pub by_address_group :
      (s : S) (r : Rule) (group : String)
      → ix.get_by_key s r.id ≡ some r
      → has group (address_groups_of r) ≡ true
      → has r.id (ix.keys_by_address_group s group) ≡ true
  pub by_applied_to_group :
      (s : S) (r : Rule) (group : String)
      → ix.get_by_key s r.id ≡ some r
      → has group r.applied_to_groups ≡ true
      → has r.id (ix.keys_by_applied_to_group s group) ≡ true
  pub by_policy-found :
      (s : S) (uid : String) (test : Rule → Bool)
      → (any test (ix.by_policy s uid) ≡ true)
        ↔ ((r : Rule) × (ix.get_by_key s r.id ≡ some r) × (r.policy_uid ≡ uid) × (test r ≡ true))
