-- ===== src/RuleId/Tests.antt =====
-- An allocator of pkg/agent/controller/networkpolicy/allocator.go that restarts with three IDs.
use antrea.Common.{ℕ, ◌≡◌, ◌≤◌, refl, any, ◌&&◌, List, [], ◌∷◌, nat_eq, ltb, All, arith, get, put}
use antrea.RuleId.{
  IdAllocator, max_uint32, exists, collect_ids, fill, new_id_allocator, allocate, release,
}
use antrea.RuleId.Usage.{
  queued, in_use, IsValid, Allocates, Releases, allocate-Allocates, release-Releases,
}
use antrea.RuleId.Restart.{new_id_allocator-in_use}

abbrev ids : List ℕ
ids = 5 ∷ 2 ∷ 3 ∷ []

ids_fit : All (λ i. i ≤ max_uint32) ids
ids_fit = (omega arith, (omega arith, (omega arith, tt)))

-- The IDs 1 and 4 are taken first, then 6.
restarted : (new_id_allocator ids).available_slice ≡ 1 ∷ 4 ∷ []
unfolding new_id_allocator collect_ids fill exists get put
restarted = refl

restarted-IsValid : IsValid (new_id_allocator ids)
restarted-IsValid = (new_id_allocator-in_use ids ids_fit).0

new_id_allocator-in_use_example :
    IsValid (new_id_allocator ids)
    × ((j : ℕ) → in_use (new_id_allocator ids) j ≡ ltb 0 j && queued ids j)
new_id_allocator-in_use_example = new_id_allocator-in_use ids ids_fit

allocate-Allocates_example : Allocates (new_id_allocator ids) (allocate (new_id_allocator ids))
allocate-Allocates_example = allocate-Allocates (new_id_allocator ids) restarted-IsValid

release-Releases_example : Releases (new_id_allocator ids) 2 (release (new_id_allocator ids) 2)
release-Releases_example = release-Releases (new_id_allocator ids) 2 (omega arith) restarted-IsValid

-- An allocator that gave out 1 and 2.
abbrev two : IdAllocator
two = record { last_allocated_id = 2; available_set = []; available_slice = [] }

two-IsValid : IsValid two
unfolding queued any exists get
two-IsValid = record { same = λ id. refl; distinct = tt; range = tt; bound = omega arith }
