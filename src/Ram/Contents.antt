-- ===== src/Ram/Contents.antt =====
-- Create, Update and Delete of pkg/apiserver/storage/ram/store.go against a map from keys to objects.
use antrea.Common.{
  ℕ, ◌≡◌, refl, sym, subst, ◌⊎◌, inl, inr, String, Option, none, some, [], ◌∷◌, arith, string_eq,
  Map, get, put, remove, Unique, Option-cases,
}
use antrea.Ram.{
  Resource, Store, Error, no_key, already_exists, not_found, event_failed, Call, create, update,
  delete, watch, dispatch, process, cancel, receive, stop,
}
use antrea.Ram.Calls.{
  next_resource_version, gen_event, process_event, commit, create_obj, update_obj, delete_from,
  delete_obj,
}

module _ {Obj Event Selectors Out : Type 0} (r : Resource Obj Event Selectors Out) where
  -- Each object stands under its own key.
  abbrev pub OwnKeys : Map String Obj → Type 0
  OwnKeys [] = Unit
  OwnKeys ((k, o) ∷ m) = (r.key_func o ≡ some k) × OwnKeys m

  pub OwnKeys-put :
      (m : Map String Obj) (k : String) (o : Obj)
      → r.key_func o ≡ some k
      → OwnKeys m
      → OwnKeys (put m k o)
  unfolding put
  OwnKeys-put [] k o e h = (e, tt)
  OwnKeys-put ((j, p) ∷ m) k o e h = ground (arith, h.0, h.1, e, OwnKeys-put m k o e h.1)

  pub OwnKeys-remove : (m : Map String Obj) (k : String) → OwnKeys m → OwnKeys (remove m k)
  unfolding remove
  OwnKeys-remove [] k h = tt
  OwnKeys-remove ((j, p) ∷ m) k h = ground (arith, h.0, OwnKeys-remove m k h.1)

  OwnKeys-get :
      (m : Map String Obj) (k : String) (o : Obj)
      → OwnKeys m
      → get m k ≡ some o
      → r.key_func o ≡ some k
  unfolding get
  OwnKeys-get [] k o h e = cc e
  OwnKeys-get ((j, p) ∷ m) k o h e =
      ground (arith, h.0, e, OwnKeys-get m k o h.1, string_eq.beq_iff j k)

  abbrev pub Keyed : Store Obj Event Selectors Out → Type 0
  Keyed s = OwnKeys s.storage × Unique s.storage

  -- What Create, Update or Delete answers; other calls leave the objects alone.
  unfoldable pub answer :
      Call Obj Selectors
      → Store Obj Event Selectors Out
      → Store Obj Event Selectors Out × Option Error
  answer (create obj) s = create_obj r s obj
  answer (update obj) s = update_obj r s obj
  answer (delete key) s = delete_obj r s key
  answer other s = (s, none)

  -- When a call may succeed: Create needs a key that is free, Update and Delete one that is taken.
  abbrev pub Allowed : Call Obj Selectors → Store Obj Event Selectors Out → Type 0
  Allowed (create obj) s = (key : String) × (r.key_func obj ≡ some key) × (get s.storage key ≡ none)
  Allowed (update obj) s =
      (key : String) × (prev : Obj) × (r.key_func obj ≡ some key) × (get s.storage key ≡ some prev)
  Allowed (delete key) s = (prev : Obj) × (get s.storage key ≡ some prev)
  Allowed other s = Unit

  -- A call that ends in an error leaves the objects, the events and the watchers; only the version
  -- may have grown.
  abbrev pub Untouched : Store Obj Event Selectors Out → Store Obj Event Selectors Out → Type 0
  Untouched s t = (t.storage ≡ s.storage) × (t.incoming ≡ s.incoming) × (t.watchers ≡ s.watchers)

  -- The two ends of a call: an error that touches nothing, or an allowed change.
  abbrev pub Ends :
      Store Obj Event Selectors Out
      → Store Obj Event Selectors Out × Option Error
      → Type 0
      → Map String Obj
      → Type 0
  Ends s a allowed changed =
      ((err : Error) × (a.1 ≡ some err) × Untouched s a.0)
      ⊎ ((a.1 ≡ none) × allowed × (a.0.storage ≡ changed))

  commit-Ends :
      (allowed : Type 0) (change : Map String Obj → Map String Obj)
      (s : Store Obj Event Selectors Out) (key : String) (prev obj : Option Obj)
      → allowed
      → Ends s (commit r change (gen_event r s key prev obj)) allowed (change s.storage)
  unfolding gen_event next_resource_version commit process_event
  commit-Ends allowed change s key prev obj ok = go r.gen_event_func
    where
      open_commit :
          (v : ℕ) (res : String ⊎ Option Event)
          → Ends s
              (commit r change (record s { resource_version = v }, res))
              allowed
              (change s.storage)
      open_commit v (inl err) = inl (event_failed, refl, (refl, refl, refl))
      open_commit v (inr none) = inr (refl, ok, refl)
      open_commit v (inr (some e)) = inr (refl, ok, refl)

      go :
          (f : Option (String → Option Obj → Option Obj → ℕ → String ⊎ Option Event))
          → Ends s
              (commit r change (elim f [
                | none ↦ (s, inr none)
                | some f ↦
                    let t = next_resource_version r s in (t, f key prev obj t.resource_version)
              ]))
              allowed
              (change s.storage)
      go none = inr (refl, ok, refl)
      go (some f) =
          open_commit (next_resource_version r s).resource_version
            (f key prev obj (next_resource_version r s).resource_version)

  refused :
      (s : Store Obj Event Selectors Out) (a : Store Obj Event Selectors Out × Option Error)
      (err : Error) (allowed : Type 0) (changed : Map String Obj)
      → a ≡ (s, some err)
      → Ends s a allowed changed
  refused s a err allowed changed e =
      subst (λ b. Ends s b allowed changed) (sym e) (inl (err, refl, (refl, refl, refl)))

  permitted :
      (s : Store Obj Event Selectors Out) (a b : Store Obj Event Selectors Out × Option Error)
      (allowed : Type 0) (m n : Map String Obj)
      → a ≡ b
      → m ≡ n
      → Ends s b allowed n
      → Ends s a allowed m
  permitted s a b allowed m n e e' h =
      subst (λ c. Ends s c allowed m) (sym e) (subst (Ends s b allowed) (sym e') h)

  -- The objects after a call that succeeds.
  unfoldable pub changed : Call Obj Selectors → Map String Obj → Map String Obj
  changed (create obj) m = elim (r.key_func obj) [ none ↦ m | some key ↦ put m key obj ]
  changed (update obj) m = elim (r.key_func obj) [ none ↦ m | some key ↦ put m key obj ]
  changed (delete key) m = remove m key
  changed other m = m

  create_obj-Ends :
      (s : Store Obj Event Selectors Out) (obj : Obj)
      → Ends s (create_obj r s obj) (Allowed (create obj) s) (changed (create obj) s.storage)
  unfolding changed create_obj
  create_obj-Ends s obj = elim (Option-cases (r.key_func obj)) [
    | inl e ↦
        refused s (create_obj r s obj) no_key (Allowed (create obj) s)
          (changed (create obj) s.storage) (rw (e, create_obj) refl)
    | inr (key, e) ↦ elim (Option-cases (get s.storage key)) [
      | inl absent ↦
          permitted s (create_obj r s obj)
            (commit r (λ m. put m key obj) (gen_event r s key none (some obj)))
            (Allowed (create obj) s) (changed (create obj) s.storage) (put s.storage key obj)
            (rw (e, create_obj) (rw (absent, create_obj) refl)) (rw (e, changed) refl)
            (commit-Ends (Allowed (create obj) s) (λ m. put m key obj) s key none (some obj)
              (key, e, absent))
      | inr (prev, present) ↦
          refused s (create_obj r s obj) already_exists (Allowed (create obj) s)
            (changed (create obj) s.storage) (rw (e, create_obj) (rw (present, create_obj) refl))
    ]
  ]

  update_obj-Ends :
      (s : Store Obj Event Selectors Out) (obj : Obj)
      → Ends s (update_obj r s obj) (Allowed (update obj) s) (changed (update obj) s.storage)
  unfolding changed update_obj
  update_obj-Ends s obj = elim (Option-cases (r.key_func obj)) [
    | inl e ↦
        refused s (update_obj r s obj) no_key (Allowed (update obj) s)
          (changed (update obj) s.storage) (rw (e, update_obj) refl)
    | inr (key, e) ↦ elim (Option-cases (get s.storage key)) [
      | inl absent ↦
          refused s (update_obj r s obj) not_found (Allowed (update obj) s)
            (changed (update obj) s.storage) (rw (e, update_obj) (rw (absent, update_obj) refl))
      | inr (prev, present) ↦
          permitted s (update_obj r s obj)
            (commit r (λ m. put m key obj) (gen_event r s key (some prev) (some obj)))
            (Allowed (update obj) s) (changed (update obj) s.storage) (put s.storage key obj)
            (rw (e, update_obj) (rw (present, update_obj) refl)) (rw (e, changed) refl)
            (commit-Ends (Allowed (update obj) s) (λ m. put m key obj) s key (some prev) (some obj)
              (key, prev, e, present))
    ]
  ]

  -- The object that is removed is found under its own key again.
  delete_obj-Ends :
      (s : Store Obj Event Selectors Out) (key : String)
      → OwnKeys s.storage
      → Ends s (delete_obj r s key) (Allowed (delete key) s) (changed (delete key) s.storage)
  unfolding changed delete_obj delete_from
  delete_obj-Ends s key h = elim (Option-cases (get s.storage key)) [
    | inl absent ↦
        refused s (delete_obj r s key) not_found (Allowed (delete key) s) (remove s.storage key)
          (rw (absent, delete_obj) refl)
    | inr (prev, present) ↦
        permitted s (delete_obj r s key)
          (commit r (delete_from r (r.key_func prev)) (gen_event r s key (some prev) none))
          (Allowed (delete key) s) (remove s.storage key)
          (delete_from r (r.key_func prev) s.storage) (rw (present, delete_obj) refl)
          (rw (OwnKeys-get s.storage key prev h present, delete_from) refl)
          (commit-Ends (Allowed (delete key) s) (delete_from r (r.key_func prev)) s key (some prev)
            none (prev, present))
  ]

  -- In a store whose objects stand under their own keys, Create, Update and Delete either end in an
  -- error that leaves the objects, the events and the watchers as they were, or are allowed and
  -- change exactly the entry of their key.
  pub answer-Ends :
      (c : Call Obj Selectors) (s : Store Obj Event Selectors Out)
      → Keyed s
      → Ends s (answer c s) (Allowed c s) (changed c s.storage)
  unfolding answer changed
  answer-Ends (create obj) s h = create_obj-Ends s obj
  answer-Ends (update obj) s h = update_obj-Ends s obj
  answer-Ends (delete key) s h = delete_obj-Ends s key h.0
  answer-Ends (watch sel) s h = inr (refl, tt, refl)
  answer-Ends (dispatch late) s h = inr (refl, tt, refl)
  answer-Ends (process i) s h = inr (refl, tt, refl)
  answer-Ends (cancel i) s h = inr (refl, tt, refl)
  answer-Ends (receive i) s h = inr (refl, tt, refl)
  answer-Ends (stop i) s h = inr (refl, tt, refl)
