-- ===== src/Conjunctions/Actions.antt =====
-- The actions of a context in pkg/agent/openflow/network_policy.go, as a map and as the list in a
-- flow.
use antrea.Common.{
  ℕ, suc, ◌≡◌, ◌≢◌, refl, inl, inr, not, Option, none, some, List, [], ◌∷◌, arith, nat_eq, ◌==◌,
  if◌then◌else◌, Map, get, put, remove, Unique, length, keep, Bool-cases, ==_iff,
}
use antrea.Conjunctions.{
  ConjunctiveAction, Flow, conjunctive_match_flow, default_drop_flow, conjunction_action_flow,
  conjunction_action_drop_flow, allow_rule_metric_flow, drop_rule_metric_flow, copied_flow,
}
use antrea.Conjunctions.Changes.{actions_of, with_actions}

-- The action of a rule in a flow.
unfoldable pub find_action : List ConjunctiveAction → ℕ → Option ConjunctiveAction
find_action [] id = none
find_action (act ∷ acts) id =
    let rest = find_action acts id in if act.conj_id == id then some act else rest

unfoldable pub flow_actions : Flow → List ConjunctiveAction
flow_actions (conjunctive_match_flow t k v p actions) = actions
flow_actions (copied_flow f actions) = actions
flow_actions f = []

-- Each action stands under its rule.
abbrev pub Own : Map ℕ ConjunctiveAction → Type 0
Own [] = Unit
Own ((id, act) ∷ m) = (act.conj_id ≡ id) × Own m

pub find_action-actions_of :
    (m : Map ℕ ConjunctiveAction) (id : ℕ) → Own m → find_action (actions_of m) id ≡ get m id
unfolding find_action actions_of get
find_action-actions_of [] id h = refl
find_action-actions_of ((j, act) ∷ m) id h = ground (arith, h.0, find_action-actions_of m id h.1)

pub find_action-keep :
    (acts : List ConjunctiveAction) (k id : ℕ)
    → find_action (keep (λ act. not (act.conj_id == k)) acts) id
      ≡ (if k == id then none else find_action acts id)
unfolding find_action keep
find_action-keep [] k id = ground arith
find_action-keep (act ∷ acts) k id = ground (arith, find_action-keep acts k id)

pub flow_actions-with_actions :
    (f : Flow) (acts : List ConjunctiveAction) → flow_actions (with_actions f acts) ≡ acts
unfolding flow_actions with_actions
flow_actions-with_actions (conjunctive_match_flow t k v p old) acts = refl
flow_actions-with_actions (default_drop_flow t k v) acts = refl
flow_actions-with_actions (conjunction_action_flow i t n p) acts = refl
flow_actions-with_actions (conjunction_action_drop_flow i t p) acts = refl
flow_actions-with_actions (allow_rule_metric_flow i d n) acts = refl
flow_actions-with_actions (drop_rule_metric_flow i d) acts = refl
flow_actions-with_actions (copied_flow f old) acts = refl

pub Own-put :
    (m : Map ℕ ConjunctiveAction) (act : ConjunctiveAction) → Own m → Own (put m act.conj_id act)
unfolding put
Own-put [] act h = (refl, tt)
Own-put ((j, b) ∷ m) act h = ground (arith, h.0, h.1, Own-put m act h.1)

pub Own-remove : (m : Map ℕ ConjunctiveAction) (k : ℕ) → Own m → Own (remove m k)
unfolding remove
Own-remove [] k h = tt
Own-remove ((j, b) ∷ m) k h = ground (arith, h.0, Own-remove m k h.1)

pub put-nonempty :
    (m : Map ℕ ConjunctiveAction) (k : ℕ) (act : ConjunctiveAction) → put m k act ≢ []
unfolding put
put-nonempty [] k act e = cc e
put-nonempty ((j, b) ∷ m) k act e = ground (arith, e)

pub remove_absent : {V : Type 0} (m : Map ℕ V) (k : ℕ) → get m k ≡ none → remove m k ≡ m
unfolding remove get
remove_absent [] k h = refl
remove_absent ((j, b) ∷ m) k h = ground (arith, h, remove_absent m k)

pub length-remove :
    {V : Type 0} (m : Map ℕ V) (k : ℕ) (act : V)
    → Unique m
    → get m k ≡ some act
    → length m ≡ suc (length (remove m k))
unfolding remove get
length-remove [] k act u h = absurd (cc h)
length-remove ((j, b) ∷ m) k act u h = elim (Bool-cases (j == k)) [
  | inl e ↦ ground (arith, e, ==_iff j k, u.0, remove_absent m k)
  | inr e ↦ ground (arith, e, length-remove m k act u.1, h)
]

pub length-nil : (m : Map ℕ ConjunctiveAction) → length m ≡ 0 → m ≡ []
length-nil [] h = refl
length-nil (x ∷ xs) h = absurd (omega (arith, h))

pub find_head :
    (act : ConjunctiveAction) (acts : List ConjunctiveAction)
    → find_action (act ∷ acts) act.conj_id ≡ some act
unfolding find_action
find_head act acts = ground arith

pub get_nil : (k : ℕ) → get {V = ConjunctiveAction} [] k ≡ none
unfolding get
get_nil k = refl

-- A map with no entry to be found is empty.
pub all_absent : (m : Map ℕ ConjunctiveAction) → ((j : ℕ) → get m j ≡ none) → m ≡ []
unfolding get
all_absent [] h = refl
all_absent ((j, b) ∷ m) h = absurd (ground (arith, h j))

pub Own-get :
    (m : Map ℕ ConjunctiveAction) (k : ℕ) (act : ConjunctiveAction)
    → Own m
    → get m k ≡ some act
    → act.conj_id ≡ k
unfolding get
Own-get [] k act h e = absurd (cc e)
Own-get ((j, b) ∷ m) k act h e = ground (arith, h.0, e, Own-get m k act h.1, ==_iff j k)
