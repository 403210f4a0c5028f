-- ===== src/RuleId/Usage.antt =====
-- Which IDs are in use, through allocate and release of
-- pkg/agent/controller/networkpolicy/allocator.go.
use antrea.Common.{
  ℕ, ◌+◌, ◌≤◌, ◌<◌, ◌≡◌, refl, sym, ap, subst, ◌∙◌, Bool, true, false, ◌&&◌, ◌||◌, not, Option,
  none, some, List, [], ◌∷◌, ◌++◌, arith, nat_eq, ltb, leb, ◌==◌, if◌then◌else◌, put, remove,
  get-put, get-remove, any, any-append, All, All-append, All-mono, ==_iff,
}
use antrea.RuleId.{
  IdSet, IdAllocator, max_uint32, Error, already_released, never_allocated, exists, allocate,
  allocate_from, release,
}

-- Whether an ID is in the queue of released ones.
unfoldable pub queued : List ℕ → ℕ → Bool
queued ids id = any (λ i. i == id) ids

-- Whether an ID was given out and not released.
unfoldable pub in_use : IdAllocator → ℕ → Bool
in_use a id = ltb 0 id && leb id a.last_allocated_id && not (exists a.available_set id)

-- No ID twice.
abbrev pub Distinct : List ℕ → Type 0
Distinct [] = Unit
Distinct (i ∷ ids) = (queued ids i ≡ false) × Distinct ids

pub record IsValid (a : IdAllocator) : Type 0 where
  pub same : (id : ℕ) → queued a.available_slice id ≡ exists a.available_set id
  pub distinct : Distinct a.available_slice
  pub range : All (λ i. (0 < i) × (i ≤ a.last_allocated_id)) a.available_slice
  pub bound : a.last_allocated_id ≤ max_uint32

pub exists-put : (m : IdSet) (id j : ℕ) → exists (put m id tt) j ≡ (id == j) || exists m j
unfolding exists
exists-put m id j = ground (arith, get-put m id j tt)

exists-remove : (m : IdSet) (id j : ℕ) → exists (remove m id) j ≡ not (id == j) && exists m j
unfolding exists
exists-remove m id j = ground (arith, get-remove m id j)

pub queued-append : (xs : List ℕ) (id j : ℕ) → queued (xs ++ (id ∷ [])) j ≡ queued xs j || (id == j)
unfolding queued any
queued-append xs id j = ground (arith, any-append (λ (i : ℕ). i == j) xs (id ∷ []))

pub Distinct-append :
    (xs : List ℕ) (id : ℕ) → Distinct xs → queued xs id ≡ false → Distinct (xs ++ (id ∷ []))
unfolding queued any
Distinct-append [] id d q = (refl, tt)
Distinct-append (x ∷ xs) id d q =
    (ground (arith, d.0, q, queued-append xs id x), Distinct-append xs id d.1 (ground (arith, q)))

-- What allocate does, by its answer.
pub data Allocates (a : IdAllocator) : IdAllocator × Option ℕ → Type 0 where
  given :
      (b : IdAllocator) (id : ℕ)
      → IsValid b
      → in_use a id ≡ false
      → 0 < id
      → id ≤ max_uint32
      → ((j : ℕ) → in_use b j ≡ (id == j) || in_use a j)
      → Allocates a (b, some id)
  exhausted : ((j : ℕ) → 0 < j → j ≤ max_uint32 → in_use a j ≡ true) → Allocates a (a, none)

reuse-IsValid :
    (a : IdAllocator) (id : ℕ) (rest : List ℕ)
    → a.available_slice ≡ id ∷ rest
    → IsValid a
    → IsValid (record a { available_slice = rest; available_set = remove a.available_set id })
unfolding queued any
reuse-IsValid a id rest e v =
    let d : Distinct (id ∷ rest) = subst Distinct e v.distinct in
    let q : All (λ i. (0 < i) × (i ≤ a.last_allocated_id)) (id ∷ rest) =
      subst (All (λ i. (0 < i) × (i ≤ a.last_allocated_id))) e v.range in
    record {
      same = λ j.
          let s : queued (id ∷ rest) j ≡ exists a.available_set j =
            subst (λ ids. queued ids j ≡ exists a.available_set j) e (v.same j) in
          ground (arith, s, d.0, exists-remove a.available_set id j, ==_iff id j);
      distinct = d.1;
      range = q.1;
      bound = v.bound;
    }

queued_head : (id : ℕ) (rest : List ℕ) → queued (id ∷ rest) id ≡ true
unfolding queued any
queued_head id rest = ground arith

-- An ID that is taken from the queue.
reuse-Allocates :
    (a : IdAllocator) (id : ℕ) (rest : List ℕ)
    → a.available_slice ≡ id ∷ rest
    → IsValid a
    → Allocates a (allocate_from (id ∷ rest) a)
unfolding allocate_from in_use
reuse-Allocates a id rest e v =
    let q : All (λ i. (0 < i) × (i ≤ a.last_allocated_id)) (id ∷ rest) =
      subst (All (λ i. (0 < i) × (i ≤ a.last_allocated_id))) e v.range in
    let s : queued (id ∷ rest) id ≡ exists a.available_set id =
      subst (λ ids. queued ids id ≡ exists a.available_set id) e (v.same id) in
    given _ id (reuse-IsValid a id rest e v) (ground (arith, s, queued_head id rest)) q.0.0
      (omega (arith, q.0.1, v.bound))
      (λ j. ground (arith, q.0.0, q.0.1, exists-remove a.available_set id j, ==_iff id j))

none_free :
    (a : IdAllocator)
    → a.available_slice ≡ []
    → IsValid a
    → (j : ℕ) → exists a.available_set j ≡ false
unfolding queued any
none_free a e v j = sym (v.same j) ∙ ap (λ ids. queued ids j) e

next-IsValid :
    (a : IdAllocator)
    → IsValid a
    → a.last_allocated_id < max_uint32
    → IsValid (record a { last_allocated_id = a.last_allocated_id + 1 })
next-IsValid a v less = record {
  same = v.same;
  distinct = v.distinct;
  range =
      All-mono (λ i (h : (0 < i) × (i ≤ a.last_allocated_id)). (h.0, omega (arith, h.1)))
        a.available_slice v.range;
  bound = omega (arith, less);
}

-- A new ID, or none where all are given out.
next-Allocates :
    (a : IdAllocator) → a.available_slice ≡ [] → IsValid a → Allocates a (allocate_from [] a)
unfolding allocate_from in_use
next-Allocates a e v = go (a.last_allocated_id == max_uint32) refl
  where
    go :
        (b : Bool)
        → (a.last_allocated_id == max_uint32) ≡ b
        → Allocates a (
            if b then (a, none) else (
              record a { last_allocated_id = a.last_allocated_id + 1 },
              some (a.last_allocated_id + 1),
            ))
    go true last = exhausted (λ j low high. ground (arith, none_free a e v j, last, low, high))
    go false more =
        let less : a.last_allocated_id < max_uint32 = ground (arith, more, v.bound) in
        given _ (a.last_allocated_id + 1) (next-IsValid a v less) (ground arith) (omega arith)
          (omega (arith, less)) (λ j. ground (arith, none_free a e v j))

-- allocate of a valid allocator gives an ID from 1 to the greatest 32-bit number that is not in use
-- and changes the use of no other, the allocator staying valid; it fails, with no change, only if
-- all these IDs are in use.
pub allocate-Allocates : (a : IdAllocator) → IsValid a → Allocates a (allocate a)
unfolding allocate
allocate-Allocates a v = go a.available_slice refl
  where
    go : (ids : List ℕ) → a.available_slice ≡ ids → Allocates a (allocate_from ids a)
    go [] e = next-Allocates a e v
    go (id ∷ rest) e = reuse-Allocates a id rest e v

-- What release does: an ID that is in use is free afterwards, and no other changes; any other is
-- refused.
pub data Releases (a : IdAllocator) (id : ℕ) : IdAllocator × Option Error → Type 0 where
  released :
      (b : IdAllocator)
      → IsValid b
      → in_use a id ≡ true
      → ((j : ℕ) → in_use b j ≡ not (id == j) && in_use a j)
      → Releases a id (b, none)
  refused : (err : Error) → in_use a id ≡ false → Releases a id (a, some err)

queue-IsValid :
    (a : IdAllocator) (id : ℕ)
    → 0 < id
    → id ≤ a.last_allocated_id
    → exists a.available_set id ≡ false
    → IsValid a
    → IsValid (record a {
      available_set = put a.available_set id tt;
      available_slice = a.available_slice ++ (id ∷ []);
    })
queue-IsValid a id low high free v = record {
  same = λ j.
      ground
        (arith, queued-append a.available_slice id j, exists-put a.available_set id j, v.same j);
  distinct = Distinct-append a.available_slice id v.distinct (v.same id ∙ free);
  range =
      All-append (λ (i : ℕ). (0 < i) × (i ≤ a.last_allocated_id)) a.available_slice (id ∷ [])
        v.range ((low, high), tt);
  bound = v.bound;
}

-- release of an ID other than 0 by a valid allocator frees it if it is in use, and refuses it with
-- no change if not; the use of no other ID changes, and the allocator stays valid.
pub release-Releases :
    (a : IdAllocator) (id : ℕ) → 0 < id → IsValid a → Releases a id (release a id)
unfolding release in_use
release-Releases a id low v = go (exists a.available_set id) refl (ltb a.last_allocated_id id) refl
  where
    go :
        (b : Bool)
        → exists a.available_set id ≡ b
        → (c : Bool) → ltb a.last_allocated_id id ≡ c
        → Releases a id (
            if b
            then (a, some already_released)
            else (if c then (a, some never_allocated) else (
              record a {
                available_set = put a.available_set id tt;
                available_slice = a.available_slice ++ (id ∷ []);
              },
              none,
            )))
    go true e c f = refused already_released (ground (arith, e))
    go false e true f = refused never_allocated (ground (arith, f))
    go false e false f =
        let high : id ≤ a.last_allocated_id = ground (arith, f) in
        released _ (queue-IsValid a id low high e v) (ground (arith, e, low, high))
          (λ j. ground (arith, exists-put a.available_set id j, e, ==_iff id j, low, high))

-- After ID 0, which allocate never gives by itself, was released by a valid allocator with an empty
-- queue, which is no error, allocate gives 0.
release-zero :
    (a : IdAllocator)
    → a.available_slice ≡ []
    → IsValid a
    → ((release a 0).1 ≡ none) × ((allocate (release a 0).0).1 ≡ some 0)
unfolding release allocate allocate_from
release-zero a e v = ground (arith, e, none_free a e v 0)
