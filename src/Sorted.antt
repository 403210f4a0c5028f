-- ===== src/Sorted.antt =====
-- The sorted slice of Priorities in pkg/agent/controller/networkpolicy/priority.go: sort.Search and
-- sort.Sort of Go's library as the code uses them, insertion at an index and deletion of one.
pub mod Search
pub mod Slices
pub mod Members
pub mod Neighbours
use antrea.Common.{
  ℕ, zero, suc, ◌+◌, ◌-◌, ◌/◌, Bool, true, false, not, ◌||◌, Option, none, some, List, [], ◌∷◌,
  ◌++◌, Eq, ltb, ◌==◌, if◌then◌else◌, length, get_elem?, take, drop,
}
use antrea.Priority.Order.{Order}

-- sort.Search: `for i < j { h := (i+j)/2; if !f(h) { i = h+1 } else { j = h } }`.
unfoldable pub search_loop : ℕ → ℕ → ℕ → (ℕ → Bool) → ℕ
search_loop zero i j f = i
search_loop (suc fuel) i j f =
    let h = (i + j) / 2 in
    let left = search_loop fuel i h f in
    let right = search_loop fuel (h + 1) j f in if ltb i j then (if f h then left else right) else i

-- The interval is at least halved in a round; its length is fuel enough.
unfoldable pub sort_search : ℕ → (ℕ → Bool) → ℕ
unfolding search_loop
sort_search n f = search_loop n 0 n f

module _ {P : Type 0} ⦃e : Eq P⦄ ⦃o : Order P⦄ where
  -- func(i int) bool { return p.Less(sorted[i]) }; Search asks it only of indices in range.
  unfoldable pub is_after : P → List P → ℕ → Bool
  is_after p sorted i = elim (get_elem? sorted i) [ some q ↦ o.less p q | none ↦ false ]

  -- The insertion point of `p`.
  unfoldable pub insertion_index : P → List P → ℕ
  unfolding sort_search is_after
  insertion_index p sorted = sort_search (length sorted) (is_after p sorted)

  -- append, copy and assignment: the elements from idx on move one back.
  unfoldable pub insert_at : ℕ → P → List P → List P
  insert_at idx p sorted = take idx sorted ++ p ∷ drop idx sorted

  -- append(sorted[:idx], sorted[idx+1:]...)
  unfoldable pub delete_at : ℕ → List P → List P
  delete_at idx sorted = take idx sorted ++ drop (idx + 1) sorted

  unfoldable pub insert_priority : P → List P → List P
  unfolding insertion_index insert_at
  insert_priority p sorted = insert_at (insertion_index p sorted) p sorted

  -- The element at index `i` is deleted if it is `p`.
  unfoldable pub delete_if_equal : ℕ → P → List P → List P
  unfolding delete_at
  delete_if_equal i p sorted = elim (get_elem? sorted i) [
    | some q ↦ if not (e.beq p q) then sorted else delete_at i sorted
    | none ↦ sorted
  ]

  -- unregisterPriority, on the slice: the element before the insertion point is looked at.
  unfoldable pub delete_priority : P → List P → List P
  unfolding insertion_index delete_if_equal
  delete_priority p sorted =
      let idx = insertion_index p sorted in
      if idx == 0 then sorted else delete_if_equal (idx - 1) p sorted

  -- sort.Sort(ByPriority(xs)). Priorities that compare equal are equal, so every sorting algorithm
  -- gives this list.
  unfoldable pub insert_ordered : P → List P → List P
  insert_ordered p [] = p ∷ []
  insert_ordered p (q ∷ qs) =
      let rest = insert_ordered p qs in if o.less q p then q ∷ rest else p ∷ q ∷ qs

  unfoldable pub sort_priorities : List P → List P
  unfolding insert_ordered
  sort_priorities [] = []
  sort_priorities (p ∷ ps) = insert_ordered p (sort_priorities ps)
