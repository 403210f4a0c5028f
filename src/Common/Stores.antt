-- ===== src/Common/Stores.antt =====
-- A store that is a list, the newest first: the indexers that the modelled code uses can be had.
use antrea.Common.{
  ◌≡◌, refl, ap, sym, subst, ◌∙◌, inl, inr, arith, Bool, true, false, ◌&&◌, not, Option, none, some,
  List, [], ◌∷◌, if◌then◌else◌, keep, any, Bool-cases, Eq, beq_self,
}

module _ {A K : Type 0} ⦃eq_key : Eq K⦄ (key : A → K) where
  unfoldable pub find : List A → K → Option A
  find [] id = none
  find (c ∷ s) id = let rest = find s id in if eq_key.beq (key c) id then some c else rest

  -- Without those that a newer one hides.
  unfoldable pub visible : List A → List A
  visible [] = []
  visible (c ∷ s) = c ∷ keep (λ d. not (eq_key.beq (key d) (key c))) (visible s)

  pub find-keep :
      (s : List A) (c : A) (id : K)
      → find (keep (λ d. not (eq_key.beq (key d) (key c))) s) id
        ≡ (if eq_key.beq (key c) id then none else find s id)
  unfolding find keep
  find-keep [] c id = ground arith
  find-keep (d ∷ s) c id = ground (
    arith,
    find-keep s c id,
    eq_key.beq_iff (key d) (key c),
    eq_key.beq_iff (key c) id,
    eq_key.beq_iff (key d) id,
  )

  find-here :
      (s : List A) (d : A) (id : K) → eq_key.beq (key d) id ≡ true → find (d ∷ s) id ≡ some d
  unfolding find
  find-here s d id e = rw (e, find) refl

  -- The newest one is the one that is found.
  here_same :
      (s : List A) (d c : A) (id : K)
      → eq_key.beq (key d) id ≡ true
      → find (d ∷ s) id ≡ some c
      → d ≡ c
  here_same s d c id e h = let same : some d ≡ some c = sym (find-here s d id e) ∙ h in cc same

  apart_sym : (a b : K) → eq_key.beq a b ≡ false → eq_key.beq b a ≡ false
  apart_sym a b h = ground (arith, eq_key.beq_iff a b, eq_key.beq_iff b a, h)

  find-later :
      (s : List A) (d : A) (id : K) → eq_key.beq (key d) id ≡ false → find (d ∷ s) id ≡ find s id
  unfolding find
  find-later s d id e = rw (e, find) refl

  pub find-key : (s : List A) (id : K) (c : A) → find s id ≡ some c → key c ≡ id
  unfolding find
  find-key [] id c h = absurd (cc h)
  find-key (d ∷ s) id c h = elim (Bool-cases (eq_key.beq (key d) id)) [
    | inl e ↦ ap (λ (x : A). key x) (sym (here_same s d c id e h)) ∙ (eq_key.beq_iff (key d) id).0 e
    | inr e ↦ find-key s id c (sym (find-later s d id e) ∙ h)
  ]

  pub any-keep_and : (f g : A → Bool) (s : List A) → any f (keep g s) ≡ any (λ c. g c && f c) s
  unfolding any keep
  any-keep_and f g [] = refl
  any-keep_and f g (c ∷ s) = ground (arith, any-keep_and f g s)

  unfoldable pub Found : (A → Bool) → List A → Type 0
  Found f s = (c : A) × ((find s (key c) ≡ some c) × (f c ≡ true))

  pub any-Found : (f : A → Bool) (s : List A) → any f (visible s) ≡ true → Found f s
  unfolding any visible find Found
  any-Found f [] h = absurd (cc h)
  any-Found f (c ∷ s) h = elim (Bool-cases (f c)) [
    | inl e ↦ (c, (rw (beq_self (key c)) refl, e))
    | inr e ↦
        let (d, (g, k)) =
          any-Found (λ d. not (eq_key.beq (key d) (key c)) && f d) s
            (sym (any-keep_and f _ (visible s)) ∙ ground (arith, e, h)) in
        let other : eq_key.beq (key d) (key c) ≡ false = ground (arith, k) in
        (d, (find-later s c (key d) (apart_sym (key d) (key c) other) ∙ g, ground (arith, k)))
  ]

  pub Found-any : (f : A → Bool) (s : List A) → Found f s → any f (visible s) ≡ true
  unfolding any visible find Found
  Found-any f [] (c, (g, k)) = absurd (cc g)
  Found-any f (c ∷ s) (d, (g, k)) = elim (Bool-cases (eq_key.beq (key c) (key d))) [
    | inl e ↦
        let head : f c ≡ true =
          subst (λ (x : A). f x ≡ true) (sym (here_same s c d (key d) e g)) k in
        ground (arith, head)
    | inr e ↦
        let rest : any (λ d. not (eq_key.beq (key d) (key c)) && f d) (visible s) ≡ true =
          Found-any (λ d. not (eq_key.beq (key d) (key c)) && f d) s
            (
              d,
              (sym (find-later s c (key d) e) ∙ g, ground (arith, apart_sym (key c) (key d) e, k)),
            ) in
        ground (arith, any-keep_and f (λ d. not (eq_key.beq (key d) (key c))) (visible s), rest)
  ]
