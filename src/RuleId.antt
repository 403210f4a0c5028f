-- ===== src/RuleId.antt =====
-- pkg/agent/controller/networkpolicy/allocator.go: the allocator of the 32-bit IDs of rules, which
-- name the conjunctions of their flows. A method holds the lock from its start to its end.
pub mod Usage
pub mod Restart
pub mod Tests
use antrea.Common.{
  ℕ, zero, suc, ◌+◌, ◌-◌, Bool, true, false, Option, none, some, List, [], ◌∷◌, ◌++◌, nat_eq, ltb,
  ◌==◌, if◌then◌else◌, Map, get, put, remove,
}

-- map[uint32]struct{}
abbrev pub IdSet : Type 0
IdSet = Map ℕ (Unit {0})

pub record IdAllocator : Type 0 where
  pub last_allocated_id : ℕ
  pub available_set : IdSet
  pub available_slice : List ℕ

-- math.MaxUint32
abbrev pub max_uint32 : ℕ
max_uint32 = 4294967295

pub data Error : Type 0 where
  no_id_available already_released never_allocated : Error

-- `_, exists := m[id]`
pub exists : IdSet → ℕ → Bool
exists m id = elim (get m id) [ none ↦ false | some u ↦ true ]

-- The first loop of newIDAllocator: the set of the IDs and the greatest.
pub collect_ids : List ℕ → IdSet → ℕ → IdSet × ℕ
collect_ids [] allocated max_id = (allocated, max_id)
collect_ids (id ∷ ids) allocated max_id =
    collect_ids ids (put allocated id tt) (if ltb max_id id then id else max_id)

-- The second loop, by the rounds left: each ID below the greatest that is not allocated.
pub fill : ℕ → ℕ → IdSet → IdAllocator → IdAllocator
fill zero id allocated a = a
fill (suc rounds) id allocated a = fill rounds (id + 1) allocated (
    if exists allocated id then a else record a {
      available_set = put a.available_set id tt;
      available_slice = a.available_slice ++ (id ∷ []);
    })

pub new_id_allocator : List ℕ → IdAllocator
unfolding collect_ids fill
new_id_allocator ids =
    let found = collect_ids ids [] 0 in
    let empty : IdAllocator = record {
      last_allocated_id = 0;
      available_set = [];
      available_slice = [];
    } in
    let filled = fill (found.1 - 1) 1 found.0 empty in record filled { last_allocated_id = found.1 }

pub allocate_from : List ℕ → IdAllocator → IdAllocator × (Option ℕ)
allocate_from (id ∷ rest) a =
    (record a { available_slice = rest; available_set = remove a.available_set id }, some id)
allocate_from [] a =
    if a.last_allocated_id == max_uint32
    then (a, none)
    else (record a { last_allocated_id = a.last_allocated_id + 1 }, some (a.last_allocated_id + 1))

-- The ID, or `none` for the error.
pub allocate : IdAllocator → IdAllocator × Option ℕ
allocate a = allocate_from a.available_slice a

pub release : IdAllocator → ℕ → IdAllocator × Option Error
release a id =
    if exists a.available_set id
    then (a, some already_released)
    else (if ltb a.last_allocated_id id then (a, some never_allocated) else (
      record a {
        available_set = put a.available_set id tt;
        available_slice = a.available_slice ++ (id ∷ []);
      },
      none,
    ))
