-- ===== src/Ram/Calls.antt =====
-- pkg/apiserver/storage/ram/store.go: the calls on the store, the dispatch of events, and runs.
use antrea.Common.{
  ℕ, ◌+◌, ◌%◌, ◌^◌, ◌⊎◌, inl, inr, String, Bool, true, false, not, Option, none, some, List, [],
  ◌∷◌, ◌++◌, map, string_eq, nat_eq, ◌==◌, if◌then◌else◌, Map, get, put, remove, length, keep,
}
use antrea.Ram.{
  make_channel, send, has_room, incoming_size, Resource, Error, no_key, already_exists, not_found,
  event_failed, initial, Watcher, Store, Call, create, update, delete, watch, dispatch, process,
  cancel, receive, stop,
}
use antrea.Ram.Watch.{process_step, cancel_from, add, stop_step, stop_watcher}

module _ {Obj Event Selectors Out : Type 0} (r : Resource Obj Event Selectors Out) where
  -- What dispatchEvent does to one watcher. Watchers share no state but the timer.
  unfoldable pub dispatch_to :
      Event → (ℕ → ℕ) → Watcher Event Selectors Out → Watcher Event Selectors Out
  unfolding add
  dispatch_to e waits w =
      if w.registered
      then (elim (add r e (waits w.index) w) [ some v ↦ v | none ↦ stop_watcher r w ])
      else w

  unfoldable pub next_resource_version :
      Store Obj Event Selectors Out → Store Obj Event Selectors Out
  next_resource_version s = record s { resource_version = (s.resource_version + 1) % 2 ^ 64 }

  unfoldable pub process_event :
      Option Event → Store Obj Event Selectors Out → Store Obj Event Selectors Out
  process_event none s = s
  process_event (some e) s = record s { incoming = send e s.incoming }

  -- The event of a change, from the store with the next version; without gen_event_func none is
  -- made and the version stays.
  unfoldable pub gen_event :
      Store Obj Event Selectors Out
      → String
      → Option Obj
      → Option Obj
      → Store Obj Event Selectors Out × (String ⊎ Option Event)
  gen_event s key prev obj = elim r.gen_event_func [
    | none ↦ (s, inr none)
    | some f ↦ let t = next_resource_version s in (t, f key prev obj t.resource_version)
  ]

  -- The rest of Create, Update and Delete: an error, or the change of the storage and the event.
  unfoldable pub commit :
      (Map String Obj → Map String Obj)
      → Store Obj Event Selectors Out × (String ⊎ Option Event)
      → Store Obj Event Selectors Out × Option Error
  commit change (s, inl err) = (s, some event_failed)
  commit change (s, inr event) =
      (process_event event (record s { storage = change s.storage }), none)

  unfoldable pub create_obj :
      Store Obj Event Selectors Out → Obj → Store Obj Event Selectors Out × Option Error
  create_obj s obj = elim (r.key_func obj) [
    | none ↦ (s, some no_key)
    | some key ↦ elim (get s.storage key) [
      | some prev ↦ (s, some already_exists)
      | none ↦ commit (λ m. put m key obj) (gen_event s key none (some obj))
    ]
  ]

  unfoldable pub update_obj :
      Store Obj Event Selectors Out → Obj → Store Obj Event Selectors Out × Option Error
  update_obj s obj = elim (r.key_func obj) [
    | none ↦ (s, some no_key)
    | some key ↦ elim (get s.storage key) [
      | none ↦ (s, some not_found)
      | some prev ↦ commit (λ m. put m key obj) (gen_event s key (some prev) (some obj))
    ]
  ]

  -- `s.storage.Delete(prevObj)`, whose error is dropped.
  unfoldable pub delete_from : Option String → Map String Obj → Map String Obj
  delete_from none m = m
  delete_from (some key) m = remove m key

  unfoldable pub delete_obj :
      Store Obj Event Selectors Out → String → Store Obj Event Selectors Out × Option Error
  delete_obj s key = elim (get s.storage key) [
    | none ↦ (s, some not_found)
    | some prev ↦ commit (delete_from (r.key_func prev)) (gen_event s key (some prev) none)
  ]

  unfoldable pub selected : Selectors → String → Obj → Bool
  selected sel key obj = elim r.select_func [ none ↦ true | some f ↦ f sel key obj ]

  -- The loop of Watch over the objects, with the version of now; `none` on an error.
  unfoldable pub init_events_of :
      (String → Option Obj → Option Obj → ℕ → String ⊎ Option Event)
      → Selectors
      → ℕ
      → Map String Obj
      → Option (List (Option Event))
  unfolding selected
  init_events_of f sel v [] = some []
  init_events_of f sel v ((key, obj) ∷ m) =
      let rest = init_events_of f sel v m in
      if not (selected sel key obj) then rest else (elim (f key none (some obj) v) [
        | inl err ↦ none
        | inr e ↦ elim rest [ none ↦ none | some es ↦ some (e ∷ es) ]
      ])

  unfoldable pub add_watcher :
      Store Obj Event Selectors Out
      → Selectors
      → List (Option Event)
      → Store Obj Event Selectors Out
  add_watcher s sel es =
      let w : Watcher Event Selectors Out = record {
        index = s.watcher_idx;
        registered = true;
        selectors = sel;
        init_events = es;
        resource_version = s.resource_version;
        stage = initial es;
        input = make_channel;
        result = make_channel;
        done = false;
      } in
      record s { watchers = s.watchers ++ (w ∷ []); watcher_idx = s.watcher_idx + 1 }

  -- The store, and the index of the new watcher or `none` for an error.
  unfoldable pub watch_store :
      Store Obj Event Selectors Out → Selectors → Store Obj Event Selectors Out × Option ℕ
  watch_store s sel = elim r.gen_event_func [
    | none ↦ (s, none)
    | some f ↦ elim (init_events_of f sel s.resource_version s.storage) [
      | none ↦ (s, none)
      | some es ↦ (add_watcher s sel es, some s.watcher_idx)
    ]
  ]

  unfoldable pub get_watchers_num : Store Obj Event Selectors Out → ℕ
  get_watchers_num s = length (keep (λ w. w.registered) s.watchers)

  unfoldable pub dispatch_buffer :
      List Event → (ℕ → ℕ) → Store Obj Event Selectors Out → Store Obj Event Selectors Out
  unfolding dispatch_to
  dispatch_buffer [] waits s = s
  dispatch_buffer (e ∷ es) waits s = record s {
    incoming = record s.incoming { received = s.incoming.received ++ (e ∷ []); buffer = es };
    watchers = map (dispatch_to e waits) s.watchers;
  }

  unfoldable pub at_index :
      ℕ
      → (Watcher Event Selectors Out → Watcher Event Selectors Out)
      → Store Obj Event Selectors Out
      → Store Obj Event Selectors Out
  at_index i f s = record s { watchers = map (λ w. if w.index == i then f w else w) s.watchers }

  unfoldable pub or_same :
      (Watcher Event Selectors Out → Option (Watcher Event Selectors Out))
      → Watcher Event Selectors Out
      → Watcher Event Selectors Out
  or_same f w = elim (f w) [ none ↦ w | some v ↦ v ]

  -- The client takes an event from ResultChan.
  unfoldable pub receive_from : List Out → Watcher Event Selectors Out → Watcher Event Selectors Out
  receive_from [] w = w
  receive_from (o ∷ os) w = record w {
    result = record w.result { received = w.result.received ++ (o ∷ []); buffer = os };
  }

  -- A call that would block on a full `incoming` is made waitsr.
  unfoldable pub step :
      Call Obj Selectors → Store Obj Event Selectors Out → Store Obj Event Selectors Out
  step (create obj) s = if has_room incoming_size s.incoming then (create_obj s obj).0 else s
  step (update obj) s = if has_room incoming_size s.incoming then (update_obj s obj).0 else s
  step (delete key) s = if has_room incoming_size s.incoming then (delete_obj s key).0 else s
  step (watch sel) s = (watch_store s sel).0
  step (dispatch waits) s = dispatch_buffer s.incoming.buffer waits s
  step (process i) s = at_index i (or_same (process_step r)) s
  step (cancel i) s = at_index i (λ w. cancel_from r w.stage w) s
  step (receive i) s = at_index i (λ w. receive_from w.result.buffer w) s
  step (stop i) s = at_index i (stop_step r) s

  unfoldable pub run :
      List (Call Obj Selectors) → Store Obj Event Selectors Out → Store Obj Event Selectors Out
  run [] s = s
  run (c ∷ cs) s = run cs (step c s)
