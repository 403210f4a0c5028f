-- ===== src/Ram/Steps.antt =====
-- store.go of pkg/apiserver/storage/ram: each call of the store, dispatch and step of a watcher keeps
-- the promises to all watchers, and a run of them in any order.
use mathlib.Core.List.{append_assoc}
use antrea.Common.{
  ℕ, ◌+◌, ◌^◌, ◌≤◌, ◌<◌, ◌≡◌, refl, sym, ap, subst, ◌∙◌, ◌⊎◌, String, true, false, Option, none,
  some, List, [], ◌∷◌, ◌++◌, map, arith, ◌==◌, if◌then◌else◌, length, keep, All, All-append,
}
use antrea.Ram.{
  has_room, incoming_size, Resource, Watcher, Store, new_store, Call, create, update, delete, watch,
  dispatch, process, cancel, receive, stop,
}
use antrea.Ram.Watch.{process_step, cancel_from, stop_step}
use antrea.Ram.Calls.{
  dispatch_to, create_obj, update_obj, delete_obj, add_watcher, watch_store, init_events_of,
  dispatch_buffer, at_index, or_same, receive_from, step, run,
}
use antrea.Ram.Delivery.{sent, newer, expected, remaining, outs_live, outs_initial, Delivers}
use antrea.Ram.Process.{process_from-Delivers, cancel_from-Delivers, receive_from-Delivers}
use antrea.Ram.Dispatch.{or_same-Delivers, stop_step-Delivers, dispatch_to-Delivers}
use antrea.Ram.Versions.{
  Stamps, UpTo, Increasing, Versions, Advances, create_obj-Advances, update_obj-Advances,
  delete_obj-Advances,
}

All-map :
    {A : Type 0} (P Q : A → Type 0) (f : A → A)
    → ((x : A) → P x → Q (f x))
    → (xs : List A) → All P xs
    → All Q (map f xs)
All-map P Q f h [] k = tt
All-map P Q f h (x ∷ xs) k = (h x k.0, All-map P Q f h xs k.1)

module _ {Obj Event Selectors Out : Type 0} (r : Resource Obj Event Selectors Out) where
  -- What holds between the calls.
  pub record IsValid (s : Store Obj Event Selectors Out) : Type 0 where
    pub versions : Versions r s
    pub promises : All (Delivers r s.incoming.received) s.watchers

  new_store-IsValid : IsValid new_store
  unfolding sent
  new_store-IsValid = record { versions = record { up_to = tt; increasing = tt }; promises = tt }

  advanced : (s t : Store Obj Event Selectors Out) → Advances r s t → IsValid s → IsValid t
  advanced s t a v = record {
    versions = a.versions;
    promises =
        subst (λ ws. All (Delivers r t.incoming.received) ws) (sym a.watchers)
          (subst (λ log. All (Delivers r log) s.watchers) (sym a.received) v.promises);
  }

  at_index-IsValid :
      (i : ℕ) (f : Watcher Event Selectors Out → Watcher Event Selectors Out)
      (s : Store Obj Event Selectors Out)
      → ((w : Watcher Event Selectors Out)
          → Delivers r s.incoming.received w
          → Delivers r s.incoming.received (f w))
      → IsValid s
      → IsValid (at_index r i f s)
  unfolding at_index
  at_index-IsValid i f s keeps v = record {
    versions = record { up_to = v.versions.up_to; increasing = v.versions.increasing };
    promises =
        All-map (Delivers r s.incoming.received) (Delivers r s.incoming.received)
          (λ w. if w.index == i then f w else w)
          (λ w h.
            elim (w.index == i) as (λ b. Delivers r s.incoming.received (if b then f w else w)) [
              | true ↦ keeps w h
              | false ↦ h
            ])
          s.watchers v.promises;
  }

  dispatch_buffer-IsValid :
      (es : List Event) (waits : ℕ → ℕ) (s : Store Obj Event Selectors Out)
      → s.incoming.buffer ≡ es
      → IsValid s
      → IsValid (dispatch_buffer r es waits s)
  unfolding dispatch_buffer sent
  dispatch_buffer-IsValid [] waits s b v = v
  dispatch_buffer-IsValid (e ∷ es) waits s b v =
      let same : (s.incoming.received ++ (e ∷ [])) ++ es ≡ sent s.incoming =
        append_assoc s.incoming.received (e ∷ []) es ∙ ap (λ t. s.incoming.received ++ t) (sym b) in
      record {
        versions = record {
          up_to = subst (UpTo r s.resource_version) (sym same) v.versions.up_to;
          increasing = subst (Increasing r) (sym same) v.versions.increasing;
        };
        promises =
            All-map (Delivers r s.incoming.received) (Delivers r (s.incoming.received ++ (e ∷ [])))
              (dispatch_to r e waits) (dispatch_to-Delivers r s.incoming.received e waits)
              s.watchers v.promises;
      }

  -- Nothing that was dispatched before is newer than the version of a new watcher.
  newer-none : (v : ℕ) (es : List Event) → UpTo r v es → newer r v es ≡ []
  unfolding newer keep
  newer-none v [] h = refl
  newer-none v (x ∷ xs) h = ground (arith, h.0, newer-none v xs h.1)

  UpTo-left : (v : ℕ) (xs ys : List Event) → UpTo r v (xs ++ ys) → UpTo r v xs
  UpTo-left v [] ys h = tt
  UpTo-left v (x ∷ xs) ys h = (h.0, UpTo-left v xs ys h.1)

  add_watcher-IsValid :
      (s : Store Obj Event Selectors Out) (sel : Selectors) (es : List (Option Event))
      → IsValid s
      → IsValid (add_watcher r s sel es)
  unfolding add_watcher sent newer keep expected remaining outs_live outs_initial
  add_watcher-IsValid s sel es v = record {
    versions = record { up_to = v.versions.up_to; increasing = v.versions.increasing };
    promises = All-append (Delivers r s.incoming.received) s.watchers (_ ∷ []) v.promises (
      record {
        not_done = λ g. refl;
        open_input = λ g. refl;
        delivered = λ d. refl;
        dispatched = λ g. sym (
            newer-none s.resource_version s.incoming.received (
              UpTo-left s.resource_version s.incoming.received s.incoming.buffer v.versions.up_to));
      },
      tt,
    );
  }

  -- A step keeps the store valid and its version grows by at most one.
  abbrev Steps : Store Obj Event Selectors Out → Store Obj Event Selectors Out → Type 0
  Steps s t = IsValid t × (t.resource_version ≤ s.resource_version + 1)

  same-Steps :
      (s t : Store Obj Event Selectors Out)
      → IsValid t
      → t.resource_version ≡ s.resource_version
      → Steps s t
  same-Steps s t v e = (v, omega (arith, e))

  called :
      (s t : Store Obj Event Selectors Out)
      → IsValid s
      → Advances r s t
      → Steps s (if has_room incoming_size s.incoming then t else s)
  called s t v a = elim (has_room incoming_size s.incoming) as (λ b. Steps s (if b then t else s)) [
    | true ↦ (advanced s t a v, a.upper)
    | false ↦ same-Steps s s v refl
  ]

  watch_store-Steps :
      (s : Store Obj Event Selectors Out) (sel : Selectors)
      → IsValid s
      → Steps s (watch_store r s sel).0
  unfolding watch_store add_watcher
  watch_store-Steps s sel v = go r.gen_event_func
    where
      added :
          (o : Option (List (Option Event)))
          → Steps s (
              let answer : Store Obj Event Selectors Out × Option ℕ = elim o [
                | none ↦ (s, none)
                | some es ↦ (add_watcher r s sel es, some s.watcher_idx)
              ] in
              answer.0)
      added none = same-Steps s s v refl
      added (some es) = same-Steps s (add_watcher r s sel es) (add_watcher-IsValid s sel es v) refl

      go :
          (o : Option (String → Option Obj → Option Obj → ℕ → String ⊎ Option Event))
          → Steps s (
              let answer : Store Obj Event Selectors Out × Option ℕ = elim o [
                | none ↦ (s, none)
                | some f ↦ elim (init_events_of r f sel s.resource_version s.storage) [
                  | none ↦ (s, none)
                  | some es ↦ (add_watcher r s sel es, some s.watcher_idx)
                ]
              ] in
              answer.0)
      go none = same-Steps s s v refl
      go (some f) = added (init_events_of r f sel s.resource_version s.storage)

  dispatched-Steps :
      (s : Store Obj Event Selectors Out) (waits : ℕ → ℕ) (es : List Event)
      → s.incoming.buffer ≡ es
      → IsValid s
      → Steps s (dispatch_buffer r es waits s)
  unfolding dispatch_buffer
  dispatched-Steps s waits [] b v = same-Steps s s v refl
  dispatched-Steps s waits (e ∷ es) b v =
      (dispatch_buffer-IsValid (e ∷ es) waits s b v, omega arith)

  module _ (stamps : Stamps r) where
    step-Steps :
        (c : Call Obj Selectors) (s : Store Obj Event Selectors Out)
        → s.resource_version + 1 < 2 ^ 64
        → IsValid s
        → Steps s (step r c s)
    unfolding step at_index process_step
    step-Steps (create obj) s small v =
        called s (create_obj r s obj).0 v (create_obj-Advances r stamps s obj small v.versions)
    step-Steps (update obj) s small v =
        called s (update_obj r s obj).0 v (update_obj-Advances r stamps s obj small v.versions)
    step-Steps (delete key) s small v =
        called s (delete_obj r s key).0 v (delete_obj-Advances r stamps s key small v.versions)
    step-Steps (watch sel) s small v = watch_store-Steps s sel v
    step-Steps (dispatch waits) s small v = dispatched-Steps s waits s.incoming.buffer refl v
    step-Steps (process i) s small v = (
      at_index-IsValid i (or_same r (process_step r)) s
          (λ w h.
            or_same-Delivers r s.incoming.received (process_step r) w
              (process_from-Delivers r s.incoming.received w.stage w refl h) h)
          v,
      omega arith,
    )
    step-Steps (cancel i) s small v = (
      at_index-IsValid i (λ w. cancel_from r w.stage w) s
          (λ w h. cancel_from-Delivers r s.incoming.received w.stage w refl h) v,
      omega arith,
    )
    step-Steps (receive i) s small v = (
      at_index-IsValid i (λ w. receive_from r w.result.buffer w) s
          (λ w h. receive_from-Delivers r s.incoming.received w.result.buffer w refl h) v,
      omega arith,
    )
    step-Steps (stop i) s small v = (
      at_index-IsValid i (stop_step r) s (λ w h. stop_step-Delivers r s.incoming.received w h) v,
      omega arith,
    )

    run-IsValid_from :
        (cs : List (Call Obj Selectors)) (s : Store Obj Event Selectors Out)
        → s.resource_version + length cs < 2 ^ 64
        → IsValid s
        → IsValid (run r cs s)
    unfolding run
    run-IsValid_from [] s small v = v
    run-IsValid_from (c ∷ cs) s small v =
        let after : Steps s (step r c s) = step-Steps c s (omega (arith, small)) v in
        run-IsValid_from cs (step r c s) (omega (arith, small, after.1)) after.0

    pub run-IsValid :
        (cs : List (Call Obj Selectors)) → length cs < 2 ^ 64 → IsValid (run r cs new_store)
    run-IsValid cs small = run-IsValid_from cs new_store (omega (arith, small)) new_store-IsValid
