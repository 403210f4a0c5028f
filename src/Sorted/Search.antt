-- ===== src/Sorted/Search.antt =====
-- sort.Search on a test that stays true once it is true finds the first index where it holds.
use antrea.Common.{
  ℕ, zero, suc, ◌+◌, ◌/◌, ◌≤◌, ◌<◌, ◌≡◌, inl, inr, Bool, true, false, arith, ltb, Bool-cases,
}
use antrea.Sorted.{search_loop, sort_search}

-- What Search promises of its answer `k` on the indices from `i` up to `j`.
pub record FirstIndex (i j : ℕ) (f : ℕ → Bool) (k : ℕ) : Type 0 where
  pub lower : i ≤ k
  pub upper : k ≤ j
  pub before : (a : ℕ) → i ≤ a → a < k → f a ≡ false
  pub from : (a : ℕ) → k ≤ a → a < j → f a ≡ true

module _ (n : ℕ) (f : ℕ → Bool) (stays : (a b : ℕ) → a ≤ b → b < n → f a ≡ true → f b ≡ true) where
  not_before : (a b : ℕ) → a ≤ b → b < n → f b ≡ false → f a ≡ false
  not_before a b h lt n = ground (arith, stays a b h lt)

  search_loop-FirstIndex :
      (fuel i j : ℕ) → i ≤ j → j ≤ i + fuel → j ≤ n → FirstIndex i j f (search_loop fuel i j f)
  unfolding search_loop
  search_loop-FirstIndex zero i j h k l = record {
    lower = omega arith;
    upper = omega arith;
    before = λ a x y. absurd (omega arith);
    from = λ a x y. absurd (omega arith);
  }
  search_loop-FirstIndex (suc fuel) i j h k l = elim (Bool-cases (ltb i j)) [
    | inr over ↦ rw over (record {
      lower = omega arith;
      upper = omega arith;
      before = λ a x y. absurd (omega arith);
      from = λ a x y. absurd (ground arith);
    })
    | inl more ↦ elim (Bool-cases (f ((i + j) / 2))) [
      | inl yes' ↦
          let r =
            search_loop-FirstIndex fuel i ((i + j) / 2) (ground arith) (ground arith)
              (ground arith) in
          rw more (
            rw yes' (record {
              lower = r.lower;
              upper = ground (arith, r.upper);
              before = r.before;
              from = λ a x y. elim (Bool-cases (ltb a ((i + j) / 2))) [
                | inl low ↦ r.from a x (ground arith)
                | inr high ↦ stays ((i + j) / 2) a (ground arith) (ground arith) yes'
              ];
            }))
      | inr no' ↦
          let r =
            search_loop-FirstIndex fuel ((i + j) / 2 + 1) j (ground arith) (ground arith)
              (ground arith) in
          rw more (
            rw no' (record {
              lower = ground (arith, r.lower);
              upper = r.upper;
              before = λ a x y. elim (Bool-cases (ltb ((i + j) / 2) a)) [
                | inl high ↦ r.before a (ground arith) y
                | inr low ↦ not_before a ((i + j) / 2) (ground arith) (ground arith) no'
              ];
              from = r.from;
            }))
    ]
  ]

  pub sort_search-FirstIndex : FirstIndex 0 n f (sort_search n f)
  unfolding sort_search
  sort_search-FirstIndex = search_loop-FirstIndex n 0 n (omega arith) (omega arith) (omega arith)
