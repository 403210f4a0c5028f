-- ===== src/Ram/Keys.antt =====
-- Every object in the store of pkg/apiserver/storage/ram stands under its own key, after any run; so
-- the calls of store.go are those of a map.
use antrea.Common.{
  ◌≡◌, refl, sym, subst, inl, inr, true, false, Option, none, some, List, [], ◌∷◌, arith, string_eq,
  if◌then◌else◌, Map, put, String, Unique, Unique-put, Unique-remove,
}
use antrea.Ram.{
  has_room, incoming_size, Resource, Store, new_store, Call, create, update, delete, watch,
  dispatch, process, cancel, receive, stop,
}
use antrea.Ram.Calls.{watch_store, add_watcher, dispatch_buffer, at_index, step, run}
use antrea.Ram.Contents.{
  OwnKeys, OwnKeys-put, OwnKeys-remove, answer, Allowed, Ends, changed, answer-Ends,
}

module _ {Obj Event Selectors Out : Type 0} (r : Resource Obj Event Selectors Out) where
  -- Keyed for the objects alone.
  abbrev KeyedMap : Map String Obj → Type 0
  KeyedMap m = OwnKeys r m × Unique m

  put-KeyedMap :
      (m : Map String Obj) (obj : Obj) (o : Option String)
      → r.key_func obj ≡ o
      → KeyedMap m
      → KeyedMap (elim o [ none ↦ m | some key ↦ put m key obj ])
  put-KeyedMap m obj none e h = h
  put-KeyedMap m obj (some key) e h = (OwnKeys-put r m key obj e h.0, Unique-put m key obj h.1)

  changed-KeyedMap :
      (c : Call Obj Selectors) (m : Map String Obj) → KeyedMap m → KeyedMap (changed r c m)
  unfolding changed
  changed-KeyedMap (create obj) m h = put-KeyedMap m obj (r.key_func obj) refl h
  changed-KeyedMap (update obj) m h = put-KeyedMap m obj (r.key_func obj) refl h
  changed-KeyedMap (delete key) m h = (OwnKeys-remove r m key h.0, Unique-remove m key h.1)
  changed-KeyedMap (watch sel) m h = h
  changed-KeyedMap (dispatch late) m h = h
  changed-KeyedMap (process i) m h = h
  changed-KeyedMap (cancel i) m h = h
  changed-KeyedMap (receive i) m h = h
  changed-KeyedMap (stop i) m h = h

  answer-KeyedMap :
      (c : Call Obj Selectors) (s : Store Obj Event Selectors Out)
      → KeyedMap s.storage
      → KeyedMap (answer r c s).0.storage
  answer-KeyedMap c s h = elim (answer-Ends r c s h) [
    | inl failed ↦ subst KeyedMap (sym failed.2.0) h
    | inr done ↦ subst KeyedMap (sym done.2) (changed-KeyedMap c s.storage h)
  ]

  called :
      (c : Call Obj Selectors) (s : Store Obj Event Selectors Out)
      → KeyedMap s.storage
      → KeyedMap (if has_room incoming_size s.incoming then (answer r c s).0 else s).storage
  called c s h =
      elim (has_room incoming_size s.incoming)
        as (λ b. KeyedMap (if b then (answer r c s).0 else s).storage) [
          | true ↦ answer-KeyedMap c s h
          | false ↦ h
        ]

  watched :
      (s : Store Obj Event Selectors Out) (sel : Selectors)
      → (watch_store r s sel).0.storage ≡ s.storage
  unfolding watch_store add_watcher
  watched s sel = ground arith

  dispatched :
      (es : List Event) (late : _) (s : Store Obj Event Selectors Out)
      → (dispatch_buffer r es late s).storage ≡ s.storage
  unfolding dispatch_buffer
  dispatched [] late s = refl
  dispatched (e ∷ es) late s = refl

  step-KeyedMap :
      (c : Call Obj Selectors) (s : Store Obj Event Selectors Out)
      → KeyedMap s.storage
      → KeyedMap (step r c s).storage
  unfolding step at_index answer
  step-KeyedMap (create obj) s h = called (create obj) s h
  step-KeyedMap (update obj) s h = called (update obj) s h
  step-KeyedMap (delete key) s h = called (delete key) s h
  step-KeyedMap (watch sel) s h = subst KeyedMap (sym (watched s sel)) h
  step-KeyedMap (dispatch late) s h = subst KeyedMap (sym (dispatched s.incoming.buffer late s)) h
  step-KeyedMap (process i) s h = h
  step-KeyedMap (cancel i) s h = h
  step-KeyedMap (receive i) s h = h
  step-KeyedMap (stop i) s h = h

  run-KeyedMap :
      (cs : List (Call Obj Selectors)) (s : Store Obj Event Selectors Out)
      → KeyedMap s.storage
      → KeyedMap (run r cs s).storage
  unfolding run
  run-KeyedMap [] s h = h
  run-KeyedMap (c ∷ cs) s h = run-KeyedMap cs (step r c s) (step-KeyedMap c s h)

  -- After any run, Create, Update and Delete are the operations of a map: each either ends in an
  -- error that leaves the objects, the events and the watchers as they were, or finds its key free
  -- (Create) or taken (Update, Delete) and changes the entry of that key only.
  pub run-answer :
      (cs : List (Call Obj Selectors)) (c : Call Obj Selectors)
      → Ends r
          (run r cs new_store)
          (answer r c (run r cs new_store))
          (Allowed r c (run r cs new_store))
          (changed r c (run r cs new_store).storage)
  run-answer cs c = answer-Ends r c (run r cs new_store) (run-KeyedMap cs new_store (tt, tt))
