-- ===== src/RuleCache/Stored.antt =====
-- A cache of the rules of pkg/agent/controller/networkpolicy/cache.go that is a list, the newest first:
-- what the code relies on of an indexer can be had.
use antrea.Common.{
  ◌≡◌, refl, sym, ◌∙◌, String, string_eq, Bool, true, not, ◌&&◌, some, List, [], ◌∷◌, keep, any,
  map, arith,
}
use antrea.Common.Stores.{
  find, visible, find-keep, find-key, any-keep_and, Found, any-Found, Found-any,
}
use antrea.RuleCache.{Rule, RuleIndexer, address_groups_of}
use antrea.RuleCache.Indexes.{has, IsRuleIndexer}

-- ruleKeyFunc
abbrev rule_key : Rule → String
rule_key r = r.id

unfoldable pub in_policy : String → Rule → Bool
in_policy uid r = string_eq.beq r.policy_uid uid

unfoldable pub ids : (Rule → Bool) → List Rule → List String
ids test s = map rule_key (keep test (visible rule_key s))

unfoldable pub stored : RuleIndexer (List Rule)
stored = record {
  add = λ s r. r ∷ s;
  delete = λ s r. keep (λ q. not (string_eq.beq q.id r.id)) s;
  get_by_key = find rule_key;
  by_policy = λ s uid. keep (in_policy uid) (visible rule_key s);
  keys_by_address_group = λ s g. ids (λ r. has g (address_groups_of r)) s;
  keys_by_applied_to_group = λ s g. ids (λ r. has g r.applied_to_groups) s;
}

-- The keys of those that pass a test.
has-map :
    (test : Rule → Bool) (id : String) (s : List Rule)
    → has id (map rule_key (keep test s)) ≡ any (λ q. test q && string_eq.beq q.id id) s
unfolding has any keep
has-map test id [] = refl
has-map test id (r ∷ s) = ground (arith, has-map test id s)

has-ids :
    (test : Rule → Bool) (s : List Rule) (r : Rule)
    → find rule_key s r.id ≡ some r
    → test r ≡ true
    → has r.id (ids test s) ≡ true
unfolding ids Found
has-ids test s r found t =
    has-map test r.id (visible rule_key s)
    ∙ Found-any rule_key (λ q. test q && string_eq.beq q.id r.id) s
        (r, (found, ground (arith, t, string_eq.beq_iff r.id r.id)))

abbrev PolicyRule : List Rule → String → (Rule → Bool) → Type 0
PolicyRule s uid test =
    (r : Rule) × (find rule_key s r.id ≡ some r) × (r.policy_uid ≡ uid) × (test r ≡ true)

in_policy-PolicyRule :
    (s : List Rule) (uid : String) (test : Rule → Bool)
    → any test (keep (in_policy uid) (visible rule_key s)) ≡ true
    → PolicyRule s uid test
unfolding Found in_policy
in_policy-PolicyRule s uid test h =
    let (r, (found, t)) =
      any-Found rule_key (λ q. in_policy uid q && test q) s
        (sym (any-keep_and rule_key test (in_policy uid) (visible rule_key s)) ∙ h) in
    (r, found, ground (arith, t, string_eq.beq_iff r.policy_uid uid), ground (arith, t))

PolicyRule-in_policy :
    (s : List Rule) (uid : String) (test : Rule → Bool)
    → PolicyRule s uid test
    → any test (keep (in_policy uid) (visible rule_key s)) ≡ true
unfolding Found in_policy
PolicyRule-in_policy s uid test (r, found, mine, t) =
    any-keep_and rule_key test (in_policy uid) (visible rule_key s)
    ∙ Found-any rule_key (λ q. in_policy uid q && test q) s
        (r, (found, ground (arith, mine, t, string_eq.beq_iff r.policy_uid uid)))

pub stored-IsRuleIndexer : IsRuleIndexer stored
unfolding stored Found find in_policy
stored-IsRuleIndexer = record {
  get-add = λ s r id. refl;
  get-delete = find-keep rule_key;
  key_of = λ s id r h. find-key rule_key s id r h;
  by_address_group = λ s r g found h. has-ids (λ q. has g (address_groups_of q)) s r found h;
  by_applied_to_group = λ s r g found h. has-ids (λ q. has g q.applied_to_groups) s r found h;
  by_policy-found =
      λ s uid test. (in_policy-PolicyRule s uid test, PolicyRule-in_policy s uid test);
}
