-- ===== src/RuleId/Restart.antt =====
-- newIDAllocator of pkg/agent/controller/networkpolicy/allocator.go: the agent restarts with the IDs
-- that it finds in its flows.
use antrea.Common.{
  ℕ, zero, suc, ◌+◌, ◌-◌, ◌≤◌, ◌<◌, ◌≡◌, ◌≢◌, refl, subst, ◌∙◌, ◌⊎◌, inl, inr, Bool, true, false,
  ◌&&◌, ◌||◌, not, List, [], ◌∷◌, ◌++◌, arith, nat_eq, ltb, ◌==◌, if◌then◌else◌, get, put, any, All,
  All-append, All-mono, Bool-cases, ltb→lt,
}
use antrea.RuleId.{IdSet, IdAllocator, max_uint32, exists, collect_ids, fill, new_id_allocator}
use antrea.RuleId.Usage.{
  queued, in_use, Distinct, IsValid, exists-put, queued-append, Distinct-append,
}

exists-collect_ids :
    (ids : List ℕ) (m : IdSet) (top j : ℕ)
    → exists (collect_ids ids m top).0 j ≡ queued ids j || exists m j
unfolding collect_ids queued any
exists-collect_ids [] m top j = refl
exists-collect_ids (x ∷ xs) m top j =
    ground
      (arith, exists-collect_ids xs (put m x tt) (if ltb top x then x else top) j, exists-put m x j)

collect_ids-ge : (ids : List ℕ) (m : IdSet) (top : ℕ) → top ≤ (collect_ids ids m top).1
unfolding collect_ids
collect_ids-ge [] m top = omega arith
collect_ids-ge (x ∷ xs) m top =
    ground (arith, collect_ids-ge xs (put m x tt) (if ltb top x then x else top))

-- Every collected ID is at most the greatest.
collect_upper :
    (ids : List ℕ) (m : IdSet) (top j : ℕ) → queued ids j ≡ true → j ≤ (collect_ids ids m top).1
unfolding collect_ids queued any
collect_upper [] m top j h = absurd (cc h)
collect_upper (x ∷ xs) m top j h = elim (Bool-cases (x == j)) [
  | inl e ↦ ground (arith, collect_ids-ge xs (put m x tt) (if ltb top x then x else top), e)
  | inr e ↦ collect_upper xs (put m x tt) (if ltb top x then x else top) j (ground (arith, h, e))
]

-- The greatest is the first bound or an ID of the list.
collect_found :
    (ids : List ℕ) (m : IdSet) (top : ℕ)
    → ((collect_ids ids m top).1 ≡ top) ⊎ (queued ids (collect_ids ids m top).1 ≡ true)
unfolding collect_ids queued any
collect_found [] m top = inl refl
collect_found (x ∷ xs) m top =
    ground (arith, collect_found xs (put m x tt) (if ltb top x then x else top))

collect_ids-le :
    (b : ℕ) (ids : List ℕ) (m : IdSet) (top : ℕ)
    → top ≤ b
    → All (λ i. i ≤ b) ids
    → (collect_ids ids m top).1 ≤ b
unfolding collect_ids
collect_ids-le b [] m top t h = t
collect_ids-le b (x ∷ xs) m top t h =
    collect_ids-le b xs (put m x tt) (if ltb top x then x else top) (ground (arith, t, h.0)) h.1

-- The allocator after the second loop has passed the IDs below `id`.
record Filled (allocated : IdSet) (id : ℕ) (a : IdAllocator) : Type 0 where
  same : (j : ℕ) → queued a.available_slice j ≡ exists a.available_set j
  distinct : Distinct a.available_slice
  range : All (λ i. (0 < i) × (i < id)) a.available_slice
  free : (j : ℕ) → exists a.available_set j ≡ ltb 0 j && ltb j id && not (exists allocated j)

skip-Filled :
    (allocated : IdSet) (id : ℕ) (a : IdAllocator)
    → 0 < id
    → exists allocated id ≡ true
    → Filled allocated id a
    → Filled allocated (id + 1) a
skip-Filled allocated id a low e h = record {
  same = h.same;
  distinct = h.distinct;
  range =
      All-mono (λ i (k : (0 < i) × (i < id)). (k.0, omega (arith, k.1))) a.available_slice h.range;
  free = λ j. elim (Bool-cases (id == j)) [
    | inl q ↦ ground (arith, h.free j, e, q)
    | inr q ↦ ground (arith, h.free j, q)
  ];
}

queue-Filled :
    (allocated : IdSet) (id : ℕ) (a : IdAllocator)
    → 0 < id
    → exists allocated id ≡ false
    → Filled allocated id a
    → Filled allocated (id + 1) (record a {
      available_set = put a.available_set id tt;
      available_slice = a.available_slice ++ (id ∷ []);
    })
queue-Filled allocated id a low e h = record {
  same = λ j.
      ground
        (arith, queued-append a.available_slice id j, exists-put a.available_set id j, h.same j);
  distinct =
      Distinct-append a.available_slice id h.distinct (h.same id ∙ ground (arith, h.free id));
  range =
      All-append (λ (i : ℕ). (0 < i) × (i < id + 1)) a.available_slice (id ∷ [])
        (All-mono (λ i (k : (0 < i) × (i < id)). (k.0, omega (arith, k.1))) a.available_slice
          h.range)
        ((low, omega arith), tt);
  free = λ j. elim (Bool-cases (id == j)) [
    | inl q ↦ ground (arith, h.free j, e, q, low, exists-put a.available_set id j)
    | inr q ↦ ground (arith, h.free j, q, exists-put a.available_set id j)
  ];
}

-- One round of the loop.
round-Filled :
    (allocated : IdSet) (id : ℕ) (a : IdAllocator)
    → 0 < id
    → Filled allocated id a
    → Filled allocated (id + 1) (
        if exists allocated id then a else record a {
          available_set = put a.available_set id tt;
          available_slice = a.available_slice ++ (id ∷ []);
        })
round-Filled allocated id a low h = go (exists allocated id) refl
  where
    go :
        (b : Bool)
        → exists allocated id ≡ b
        → Filled allocated (id + 1) (
            if b then a else record a {
              available_set = put a.available_set id tt;
              available_slice = a.available_slice ++ (id ∷ []);
            })
    go true e = skip-Filled allocated id a low e h
    go false e = queue-Filled allocated id a low e h

fill-Filled :
    (rounds id : ℕ) (allocated : IdSet) (a : IdAllocator)
    → 0 < id
    → Filled allocated id a
    → Filled allocated (id + rounds) (fill rounds id allocated a)
unfolding fill
fill-Filled zero id allocated a low h = subst (λ n. Filled allocated n a) (omega arith) h
fill-Filled (suc rounds) id allocated a low h =
    let again =
      fill-Filled rounds (id + 1) allocated
        (if exists allocated id then a else record a {
          available_set = put a.available_set id tt;
          available_slice = a.available_slice ++ (id ∷ []);
        })
        (omega arith) (round-Filled allocated id a low h) in
    subst (λ n. Filled allocated n (fill (suc rounds) id allocated a)) (omega arith) again

abbrev empty : IdAllocator
empty = record { last_allocated_id = 0; available_set = []; available_slice = [] }

empty-Filled : (allocated : IdSet) → Filled allocated 1 empty
unfolding exists queued any get
empty-Filled allocated = record {
  same = λ j. refl;
  distinct = tt;
  range = tt;
  free = λ j. ground arith;
}

collected : (ids : List ℕ) (j : ℕ) → exists (collect_ids ids [] 0).0 j ≡ queued ids j
unfolding exists get
collected ids j = ground (arith, exists-collect_ids ids [] 0 j)

-- The greatest ID is in the list, unless it is 0.
greatest : (ids : List ℕ) (j : ℕ) → queued ids j ≡ false → 0 < j → j ≢ (collect_ids ids [] 0).1
greatest ids j q low e = elim (collect_found ids [] 0) [
  | inl zero_top ↦ ground (arith, e, zero_top, low)
  | inr top ↦ cc (top, e, q)
]

-- The allocator that newIDAllocator makes of 32-bit IDs is valid, and exactly these IDs, but for 0,
-- are in use.
pub new_id_allocator-in_use :
    (ids : List ℕ)
    → All (λ i. i ≤ max_uint32) ids
    → IsValid (new_id_allocator ids)
      × ((j : ℕ) → in_use (new_id_allocator ids) j ≡ ltb 0 j && queued ids j)
unfolding new_id_allocator in_use
new_id_allocator-in_use ids fits =
    let found = collect_ids ids [] 0 in
    let f : Filled found.0 (1 + (found.1 - 1)) (fill (found.1 - 1) 1 found.0 empty) =
      fill-Filled (found.1 - 1) 1 found.0 empty (omega arith) (empty-Filled found.0) in
    (
      record {
        same = f.same;
        distinct = f.distinct;
        range =
            All-mono (λ i (k : (0 < i) × (i < 1 + (found.1 - 1))). (k.0, omega (arith, k.0, k.1))) _
              f.range;
        bound = collect_ids-le max_uint32 ids [] 0 (omega arith) fits;
      },
      λ j. elim (Bool-cases (queued ids j)) [
        | inl q ↦ ground (arith, f.free j, collected ids j, q, collect_upper ids [] 0 j q)
        | inr q ↦ elim (Bool-cases (ltb 0 j)) [
          | inl low ↦
              ground (arith, f.free j, collected ids j, q, low, greatest ids j q (ltb→lt 0 j low))
          | inr low ↦ ground (arith, low, q)
        ]
      ],
    )
