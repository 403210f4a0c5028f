-- ===== src/Conjunctions/Cache.antt =====
-- What pkg/agent/openflow/network_policy.go relies on of its cache of conjunctions: that of client-go's
-- documentation of an indexer.
use antrea.Common.{ℕ, ◌≡◌, ◌↔◌, Bool, true, ◌&&◌, none, some, if◌then◌else◌, ◌==◌, any}
use antrea.Conjunctions.Rules.{PolicyRuleConjunction}
use antrea.Conjunctions.Install.{Indexer, action_flow_priorities}

-- An action flow of the conjunction has the priority.
unfoldable pub has_priority : ℕ → PolicyRuleConjunction → Bool
has_priority p conj = any (λ q. q == p) (action_flow_priorities conj)

pub record IsIndexer {S : Type 0} (ix : Indexer S) : Type 0 where
  pub get-add :
      (s : S) (conj : PolicyRuleConjunction) (id : ℕ)
      → ix.get_by_key (ix.add s conj) id ≡ (if conj.id == id then some conj else ix.get_by_key s id)
  pub get-delete :
      (s : S) (conj : PolicyRuleConjunction) (id : ℕ)
      → ix.get_by_key (ix.delete s conj) id ≡ (if conj.id == id then none else ix.get_by_key s id)
  pub key_of :
      (s : S) (id : ℕ) (conj : PolicyRuleConjunction)
      → ix.get_by_key s id ≡ some conj
      → conj.id ≡ id
  pub by_index-found :
      (s : S) (p : ℕ) (test : PolicyRuleConjunction → Bool)
      → (any test (ix.by_index s p) ≡ true) ↔ (
          (conj : PolicyRuleConjunction) × ((ix.get_by_key s conj.id ≡ some conj)
            × (has_priority p conj && test conj ≡ true)))
