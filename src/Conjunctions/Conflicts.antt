-- ===== src/Conjunctions/Conflicts.antt =====
-- processFlowUpdates of pkg/agent/openflow/network_policy.go: a flow that moves to the place of another
-- that leaves is not deleted with that one.
use antrea.Common.{
  ◌≡◌, refl, ap, sym, subst, ◌∙◌, inl, inr, Bool, true, false, ◌&&◌, ◌||◌, not, List, [], ◌∷◌,
  arith, if◌then◌else◌, keep, any, any-append, All, All-append, All-mono, Bool-cases,
}
use antrea.Conjunctions.{Flow}
use antrea.Conjunctions.Reassign.{conflicts, updates_for, process_flow_updates}

-- What is made of the flows to add and to delete: the flows to add, to update and to delete.
pub record Settles (adds dels : List Flow) (result : List Flow × List Flow × List Flow)
    : Type 0 where
  pub deletes : result.2 ≡ keep (λ d. not (any (λ a. conflicts a d) adds)) dels
  pub sends : (test : Flow → Bool) → any test result.0 || any test result.1 ≡ any test adds
  pub updates : All (λ u. any (conflicts u) dels ≡ true) result.1

keep-keep :
    (f g : Flow → Bool) (ds : List Flow)
    → keep (λ d. not (g d)) (keep (λ d. not (f d)) ds) ≡ keep (λ d. not (f d || g d)) ds
unfolding keep
keep-keep f g [] = refl
keep-keep f g (d ∷ ds) = elim (Bool-cases (f d)) [
  | inl e ↦ rw (e, keep) (keep-keep f g ds)
  | inr e ↦
      rw (e, keep)
        (ap (λ (rest : List Flow). if not (g d) then d ∷ rest else rest) (keep-keep f g ds))
]

any-updates_for :
    (test : Flow → Bool) (a : Flow) (ds : List Flow)
    → any test (updates_for a ds) ≡ any (conflicts a) ds && test a
unfolding any updates_for
any-updates_for test a [] = refl
any-updates_for test a (d ∷ ds) = ground (arith, any-updates_for test a ds)

any-keep : (f g : Flow → Bool) (ds : List Flow) → any f (keep g ds) ≡ true → any f ds ≡ true
unfolding any keep
any-keep f g [] h = h
any-keep f g (d ∷ ds) h = ground (arith, h, any-keep f g ds)

All-updates_for :
    (a : Flow) (ds es : List Flow)
    → any (conflicts a) es ≡ true
    → All (λ u. any (conflicts u) es ≡ true) (updates_for a ds)
unfolding updates_for
All-updates_for a [] es h = tt
All-updates_for a (d ∷ ds) es h = elim (Bool-cases (conflicts a d)) [
  | inl e ↦ rw e (h, All-updates_for a ds es h)
  | inr e ↦ rw e (All-updates_for a ds es h)
]

updates_for-none :
    (a : Flow) (ds : List Flow) → any (conflicts a) ds ≡ false → updates_for a ds ≡ []
unfolding updates_for any
updates_for-none a [] h = refl
updates_for-none a (d ∷ ds) h = ground (arith, h, updates_for-none a ds)

updates-All :
    (a : Flow) (ds : List Flow) → All (λ u. any (conflicts u) ds ≡ true) (updates_for a ds)
updates-All a ds = elim (Bool-cases (any (conflicts a) ds)) [
  | inl e ↦ All-updates_for a ds ds e
  | inr e ↦ subst (All (λ u. any (conflicts u) ds ≡ true)) (sym (updates_for-none a ds e)) tt
]

keep_all : (ds : List Flow) → ds ≡ keep (λ d. not (any (λ a. conflicts a d) [])) ds
unfolding keep any
keep_all [] = refl
keep_all (d ∷ ds) = ap (λ (rest : List Flow). d ∷ rest) (keep_all ds)

-- processFlowUpdates deletes exactly the flows that no added flow replaces, with its priority and match;
-- it sends each added flow as one to add or to update, and no others, and one that it updates
-- replaces a flow.
pub process_flow_updates-Settles :
    (adds dels : List Flow) → Settles adds dels (process_flow_updates adds dels)
unfolding process_flow_updates any
process_flow_updates-Settles [] dels = record {
  deletes = keep_all dels;
  sends = λ test. refl;
  updates = tt;
}
process_flow_updates-Settles (a ∷ adds) dels =
    let kept : List Flow = keep (λ d. not (conflicts a d)) dels in
    let rest = process_flow_updates-Settles adds kept in
    record {
      deletes = rest.deletes ∙ keep-keep (conflicts a) (λ d. any (λ b. conflicts b d) adds) dels;
      sends = λ test. ground (
        arith,
        any-append test (updates_for a dels) (process_flow_updates adds kept).1,
        any-updates_for test a dels,
        rest.sends test,
      );
      updates =
          All-append _ (updates_for a dels) _ (updates-All a dels)
            (All-mono (λ u h. any-keep (conflicts u) _ dels h) _ rest.updates);
    }
