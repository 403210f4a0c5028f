-- ===== src/Assigner/State.antt =====
-- The state of the priorityAssigner of pkg/agent/controller/networkpolicy/priority.go and its small
-- methods: assignment of one OpenFlow priority, lookup and release.
use antrea.Common.{ℕ, Bool, Option, none, some, List, [], Eq, nat_eq, Map, get, put, remove}
use antrea.Priority.Order.{Order}
use antrea.Sorted.{insert_priority, delete_priority}

pub record Assigner (P : Type 0) : Type 0 where
  pub priority_map : Map P ℕ
  pub of_priority_map : Map ℕ P
  pub sorted_priorities : List P
  pub initial_of_priority_func : P → Bool → ℕ
  pub is_single_tier : Bool

pub record PriorityUpdate : Type 0 where
  pub original : ℕ
  pub updated : ℕ

-- The updates of one registration, by Priority.
abbrev pub Updates : Type 0 → Type 0
Updates P = Map P PriorityUpdate

pub data Error : Type 0 where
  push_failed too_many_priorities index_out_of_range : Error

-- m[k] with the zero value for a missing key.
unfoldable pub get_or_zero {κ} : {K : Type κ} ⦃e : Eq K⦄ → Map K ℕ → K → ℕ
get_or_zero m k = elim (get m k) [ some v ↦ v | none ↦ 0 ]

module _ {P : Type 0} where
  unfoldable pub new_priority_assigner : (P → Bool → ℕ) → Bool → Assigner P
  new_priority_assigner f single = record {
    priority_map = [];
    of_priority_map = [];
    sorted_priorities = [];
    initial_of_priority_func = f;
    is_single_tier = single;
  }

module _ {P : Type 0} ⦃e : Eq P⦄ ⦃o : Order P⦄ where
  unfoldable pub update_priority_assignment : Assigner P → ℕ → P → Assigner P
  update_priority_assignment pa of_priority p = record pa {
    priority_map = put pa.priority_map p of_priority;
    of_priority_map = put pa.of_priority_map of_priority p;
    sorted_priorities = elim (get pa.priority_map p) [
      | some old ↦ pa.sorted_priorities
      | none ↦ insert_priority p pa.sorted_priorities
    ];
  }

  unfoldable pub get_of_priority : Assigner P → P → Option ℕ
  get_of_priority pa p = get pa.priority_map p

  unfoldable pub delete_priority_mapping : Assigner P → ℕ → P → Assigner P
  delete_priority_mapping pa of_priority p = record pa {
    priority_map = remove pa.priority_map p;
    of_priority_map = remove pa.of_priority_map of_priority;
  }

  unfoldable pub unregister_priority : Assigner P → P → Assigner P
  unregister_priority pa p = record pa {
    sorted_priorities = delete_priority p pa.sorted_priorities;
  }

  unfoldable pub release : Assigner P → ℕ → Assigner P
  unfolding delete_priority_mapping unregister_priority
  release pa of_priority = elim (get pa.of_priority_map of_priority) [
    | none ↦ pa
    | some p ↦ unregister_priority (delete_priority_mapping pa of_priority p) p
  ]
