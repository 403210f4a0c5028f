-- ===== src/Conjunctions/Listed.antt =====
-- A cache of the conjunctions of pkg/agent/openflow/network_policy.go that is a list, the newest first:
-- what the code relies on of an indexer can be had.
use antrea.Common.{ℕ, refl, ◌∙◌, sym, not, ◌&&◌, List, ◌∷◌, keep, nat_eq}
use antrea.Common.Stores.{
  find, visible, find-keep, find-key, any-keep_and, Found, any-Found, Found-any,
}
use antrea.Conjunctions.Rules.{PolicyRuleConjunction}
use antrea.Conjunctions.Install.{Indexer}
use antrea.Conjunctions.Cache.{IsIndexer, has_priority}

-- ConjunctionKeyFunc
abbrev conjunction_key : PolicyRuleConjunction → ℕ
conjunction_key c = c.id

unfoldable pub listed : Indexer (List PolicyRuleConjunction)
listed = record {
  add = λ s c. c ∷ s;
  delete = λ s c. keep (λ d. not (nat_eq.beq d.id c.id)) s;
  get_by_key = find conjunction_key;
  by_index = λ s p. keep (has_priority p) (visible conjunction_key s);
  list = visible conjunction_key;
}

pub listed-IsIndexer : IsIndexer listed
unfolding listed Found find
listed-IsIndexer = record {
  get-add = λ s conj id. refl;
  get-delete = find-keep conjunction_key;
  key_of = find-key conjunction_key;
  by_index-found = λ s p test. (
    λ h.
        any-Found conjunction_key (λ c. has_priority p c && test c) s
          (sym (any-keep_and conjunction_key test (has_priority p) (visible conjunction_key s))
            ∙ h),
    λ h.
        any-keep_and conjunction_key test (has_priority p) (visible conjunction_key s)
        ∙ Found-any conjunction_key (λ c. has_priority p c && test c) s h,
  );
}
