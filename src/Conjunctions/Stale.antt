-- ===== src/Conjunctions/Stale.antt =====
-- getStalePriorities of pkg/agent/openflow/network_policy.go: which priorities no rule has any more when
-- one is uninstalled.
use antrea.Common.{
  ℕ, ◌≡◌, ◌≢◌, ◌↔◌, refl, ap, ◌∙◌, inl, inr, arith, Bool, true, false, ◌&&◌, not, some, List, [],
  ◌∷◌, ◌==◌, ==_iff, if◌then◌else◌, keep, any, Bool-cases,
}
use antrea.Conjunctions.Rules.{PolicyRuleConjunction, ingress_rule_table, egress_rule_table}
use antrea.Conjunctions.Install.{
  Indexer, action_flow_priorities, shares_priority, get_stale_priorities,
}
use antrea.Conjunctions.Cache.{IsIndexer, has_priority}

any-keep_at :
    (p : ℕ) (f : ℕ → Bool) (ps : List ℕ)
    → any (λ q. q == p) (keep f ps) ≡ any (λ q. q == p) ps && f p
unfolding any keep
any-keep_at p f [] = refl
any-keep_at p f (q ∷ ps) = elim (Bool-cases (q == p)) [
  | inl e ↦ ground (arith, e, ap f ((==_iff q p).0 e), any-keep_at p f ps)
  | inr e ↦ ground (arith, e, any-keep_at p f ps)
]

module _ {S : Type 0} (ix : Indexer S) where
  -- A priority of an action flow of the conjunction, which stands in a table of Antrea policies, and no
  -- other conjunction in that table has a flow of it.
  pub record Stale (cache : S) (conj : PolicyRuleConjunction) (p : ℕ) : Type 0 where
    pub not_ingress : conj.rule_table_id ≢ ingress_rule_table
    pub not_egress : conj.rule_table_id ≢ egress_rule_table
    pub own : has_priority p conj ≡ true
    pub alone :
        (c : PolicyRuleConjunction)
        → ix.get_by_key cache c.id ≡ some c
        → has_priority p c ≡ true
        → c.rule_table_id ≡ conj.rule_table_id
        → conj.id ≡ c.id

  antrea_table : PolicyRuleConjunction → Bool
  antrea_table conj =
      not (conj.rule_table_id == ingress_rule_table)
      && not (conj.rule_table_id == egress_rule_table)

  any-if :
      (p : ℕ) (b : Bool) (ps : List ℕ)
      → any (λ q. q == p) (if b then ps else []) ≡ b && any (λ q. q == p) ps
  unfolding any
  any-if p true ps = refl
  any-if p false ps = refl

  any-get_stale_priorities :
      (cache : S) (conj : PolicyRuleConjunction) (p : ℕ)
      → any (λ q. q == p) (get_stale_priorities ix cache conj)
        ≡ antrea_table conj
          && (has_priority p conj && not (any (shares_priority conj) (ix.by_index cache p)))
  unfolding get_stale_priorities has_priority antrea_table
  any-get_stale_priorities cache conj p =
      any-if p (antrea_table conj) _
      ∙ ap (λ (b : Bool). antrea_table conj && b)
          (any-keep_at p (λ q. not (any (shares_priority conj) (ix.by_index cache q)))
            (action_flow_priorities conj))

  module _ (laws : IsIndexer ix) where
    shared :
        (cache : S) (conj c : PolicyRuleConjunction) (p : ℕ)
        → ix.get_by_key cache c.id ≡ some c
        → has_priority p c ≡ true
        → c.rule_table_id ≡ conj.rule_table_id
        → conj.id ≢ c.id
        → any (shares_priority conj) (ix.by_index cache p) ≡ true
    unfolding shares_priority
    shared cache conj c p g h t n =
        (laws.by_index-found cache p (shares_priority conj)).1 (c, (g, ground (arith, h, t, n)))

    to-Stale :
        (cache : S) (conj : PolicyRuleConjunction) (p : ℕ)
        → any (λ q. q == p) (get_stale_priorities ix cache conj) ≡ true
        → Stale cache conj p
    unfolding antrea_table
    to-Stale cache conj p h =
        let e = any-get_stale_priorities cache conj p in
        record {
          not_ingress = λ t. ground (arith, h, e, t);
          not_egress = λ t. ground (arith, h, e, t);
          own = ground (arith, h, e);
          alone = λ c g k t. elim (Bool-cases (conj.id == c.id)) [
            | inl b ↦ (==_iff conj.id c.id).0 b
            | inr b ↦ absurd (
                ground (arith, h, e, shared cache conj c p g k t (λ same. ground (arith, b, same))))
          ];
        }

    not_shared :
        (cache : S) (conj : PolicyRuleConjunction) (p : ℕ)
        → Stale cache conj p
        → any (shares_priority conj) (ix.by_index cache p) ≡ false
    unfolding shares_priority
    not_shared cache conj p s =
        elim (Bool-cases (any (shares_priority conj) (ix.by_index cache p))) [
          | inl b ↦
              let (c, (g, k)) = (laws.by_index-found cache p (shares_priority conj)).0 b in
              absurd (ground (arith, k, s.alone c g (ground (arith, k)) (ground (arith, k))))
          | inr b ↦ b
        ]

    -- getStalePriorities returns exactly the stale priorities of the conjunction, if the cache is an
    -- indexer: those of its action flows, if it stands in a table of Antrea policies, that no other
    -- conjunction in the table has.
    pub get_stale_priorities-Stale :
        (cache : S) (conj : PolicyRuleConjunction) (p : ℕ)
        → (any (λ q. q == p) (get_stale_priorities ix cache conj) ≡ true) ↔ Stale cache conj p
    unfolding antrea_table
    get_stale_priorities-Stale cache conj p = (
      to-Stale cache conj p,
      λ s.
          any-get_stale_priorities cache conj p
          ∙ ground (arith, s.not_ingress, s.not_egress, s.own, not_shared cache conj p s),
    )
