-- ===== src/Assigner/Faults.antt =====
-- Where RegisterPriorities of pkg/agent/controller/networkpolicy/priority.go does not do what its
-- comments say: a gap of exactly the needed size, and a backing array that two slices share.
use antrea.Common.{
  ℕ, zero, suc, ◌+◌, ◌-◌, ◌%◌, ◌≤◌, ◌<◌, ◌≡◌, refl, sym, subst, ◌∙◌, true, false, ◌||◌, none, some,
  List, [], ◌∷◌, ◌++◌, arith, Eq, nat_eq, leb, Map, get, length, u16_mod,
}
use antrea.Priority.Order.{Order}
use antrea.Sorted.Slices.{contains}
use antrea.Assigner.State.{Assigner, Updates, push_failed}
use antrea.Assigner.Boundaries.{Search, low_loop, high_loop, find_reassign_boundaries}
use antrea.Assigner.Reassign.{collect, overwrite, all_priorities, reassign_boundary_priorities}
use antrea.Assigner.Register.{gap16, insert_consecutive_priorities}
use antrea.Assigner.Mapping.{get-assign_from}
use antrea.Assigner.Insert.{lower_of, upper_of}

module _ {P : Type 0} (om : Map ℕ P) (lower upper : ℕ) where
  low_loop-zero : (bound : ℕ) (s : Search) → low_loop om lower upper 0 bound s ≡ s
  unfolding low_loop
  low_loop-zero zero s = refl
  low_loop-zero (suc bound) s = ground arith

  high_loop-zero :
      (down rounds bound : ℕ) (s : Search) → high_loop om lower upper 0 down rounds bound s ≡ s
  unfolding high_loop
  high_loop-zero down zero bound s = refl
  high_loop-zero down (suc rounds) bound s = ground arith

find_reassign_boundaries-none :
    {P : Type 0} (om : Map ℕ P) (lower upper num gap : ℕ)
    → num ≡ gap
    → find_reassign_boundaries om lower upper num gap ≡ none
unfolding find_reassign_boundaries get
find_reassign_boundaries-none om lower upper num gap h =
    let no_target : num - gap ≡ 0 = omega arith in
    rw (no_target, find_reassign_boundaries)
      (rw (low_loop-zero om lower upper lower) (rw (high_loop-zero om lower upper) refl))

module _ {P : Type 0} ⦃e : Eq P⦄ ⦃o : Order P⦄ where
  -- A gap that is exactly as large as the number of new Priorities is refused with an error: the
  -- reassignment is entered for a target of no slots, and finds no entry in costMap.
  pub insert_consecutive-exact_gap :
      (capacity : ℕ → ℕ) (pa : Assigner P) (p : P) (ps : List P) (updates : Updates P)
      → length (p ∷ ps) < u16_mod
      → gap16 (lower_of pa p) (upper_of pa p) ≡ length (p ∷ ps)
      → insert_consecutive_priorities capacity pa (p ∷ ps) updates ≡ (pa, updates, some push_failed)
  unfolding insert_consecutive_priorities reassign_boundary_priorities
  insert_consecutive-exact_gap capacity pa p ps updates few gap =
      let num : length (p ∷ ps) % u16_mod ≡ length (p ∷ ps) = omega arith in
      let le : leb (gap16 (lower_of pa p) (upper_of pa p)) (length (p ∷ ps) % u16_mod) ≡ true =
        ground (arith, num) in
      rw le (
        rw
          (
            find_reassign_boundaries-none pa.of_priority_map (lower_of pa p) (upper_of pa p)
                (length (p ∷ ps)) (gap16 (lower_of pa p) (upper_of pa p)) (sym gap),
            reassign_boundary_priorities,
          )
          refl)

  contains-append :
      (a : P) (xs ys : List P) → contains a (xs ++ ys) ≡ contains a xs || contains a ys
  unfolding contains
  contains-append a [] ys = refl
  contains-append a (x ∷ xs) ys = ground (arith, contains-append a xs ys)

  contains-overwrite :
      (a : P) (xs ys : List P)
      → contains a xs ≡ false
      → contains a ys ≡ false
      → contains a (overwrite xs ys) ≡ false
  unfolding contains overwrite
  contains-overwrite a [] [] h k = refl
  contains-overwrite a (x ∷ xs) [] h k = h
  contains-overwrite a [] (y ∷ ys) h k = refl
  contains-overwrite a (x ∷ xs) (y ∷ ys) h k = ground (arith, contains-overwrite a xs ys)

  contains-all_priorities :
      (capacity : ℕ → ℕ) (a h : P) (low new hs : List P)
      → length low + length (a ∷ new) + length (h ∷ hs) ≤ capacity (length low)
      → contains a low ≡ false
      → contains a new ≡ false
      → contains a (h ∷ hs) ≡ false
      → contains a (all_priorities capacity low (a ∷ new) (h ∷ hs)) ≡ false
  unfolding all_priorities contains
  contains-all_priorities capacity a h low new hs fits nl nn nh =
      let shared : leb (length low + length (a ∷ new) + length (h ∷ hs)) (capacity (length low))
          ≡ true =
        ground arith in
      rw shared (
        ground (
          arith,
          contains-append a low (h ∷ overwrite (new ++ h ∷ hs) hs),
          contains-overwrite a (new ++ h ∷ hs) hs,
          contains-append a new (h ∷ hs),
        ))

  -- The Priorities that a reassignment sifts below and above the gap.
  abbrev pub sifted_low : Assigner P → ℕ → ℕ → List P
  sifted_low pa lower low = collect (lower + 1 - low) low pa.of_priority_map

  abbrev pub sifted_high : Assigner P → ℕ → ℕ → List P
  sifted_high pa upper high = collect (high + 1 - upper) upper pa.of_priority_map

  -- Where a reassignment sifts Priorities below and above the gap, and all of them fit into the
  -- backing array of the lower ones, the first new Priority is written over: the call returns no
  -- error, and this Priority has no number.
  pub reassign-drops_first :
      (capacity : ℕ → ℕ) (pa : Assigner P) (lower upper low high : ℕ) (a h : P) (new hs : List P)
      (updates : Updates P)
      → find_reassign_boundaries pa.of_priority_map lower upper
          (length (a ∷ new))
          (gap16 lower upper)
        ≡ some (low, high)
      → sifted_high pa upper high ≡ h ∷ hs
      → length (sifted_low pa lower low) + length (a ∷ new) + length (h ∷ hs)
        ≤ capacity (length (sifted_low pa lower low))
      → get pa.priority_map a ≡ none
      → contains a (sifted_low pa lower low) ≡ false
      → contains a new ≡ false
      → contains a (h ∷ hs) ≡ false
      → let (pa', updates', err) =
          reassign_boundary_priorities capacity pa lower upper (a ∷ new) updates in
        (err ≡ none) × (get pa'.priority_map a ≡ none)
  unfolding reassign_boundary_priorities
  reassign-drops_first capacity pa lower upper low high a h new hs updates found at_high fits
        unregistered not_low not_new not_high =
      rw (found, reassign_boundary_priorities)
        (
          refl,
          get-assign_from low
                (all_priorities capacity (sifted_low pa lower low) (a ∷ new)
                  (sifted_high pa upper high))
                pa a
                (subst
                  (λ xs.
                    contains a (all_priorities capacity (sifted_low pa lower low) (a ∷ new) xs)
                    ≡ false)
                  (sym at_high)
                  (contains-all_priorities capacity a h (sifted_low pa lower low) new hs fits
                    not_low not_new not_high))
              ∙ unregistered,
        )
