-- ===== src/Ram/Versions.antt =====
-- The resource versions of pkg/apiserver/storage/ram/store.go: each change of the store takes the
-- next one under the lock, so the events stand in the channel in their order.

use antrea.Common.{
  ℕ, ◌+◌, ◌%◌, ◌^◌, ◌≤◌, ◌<◌, ◌≡◌, refl, sym, subst, ◌⊎◌, inl, inr, String, Option, none, some,
  List, [], ◌∷◌, ◌++◌, arith, string_eq, Map, get, put, All, All-append, All-mono, Option-cases,
}
use antrea.Ram.{send, Resource, Store}
use antrea.Ram.Calls.{
  next_resource_version, process_event, gen_event, commit, create_obj, update_obj, delete_obj,
  delete_from,
}
use antrea.Ram.Delivery.{sent, sent-send}

module _ {Obj Event Selectors Out : Type 0} (r : Resource Obj Event Selectors Out) where
  -- An event carries the version that it was made with.
  abbrev pub Stamps : Type 0
  Stamps =
      (f : String → Option Obj → Option Obj → ℕ → String ⊎ Option Event) (key : String)
      (prev obj : Option Obj) (v : ℕ) (e : Event)
      → r.gen_event_func ≡ some f
      → f key prev obj v ≡ inr (some e)
      → r.get_resource_version e ≡ v

  -- No event is newer than a version.
  abbrev pub UpTo : ℕ → List Event → Type 0
  UpTo v es = All (λ e. r.get_resource_version e ≤ v) es

  -- Each event is older than those after it.
  abbrev pub Increasing : List Event → Type 0
  Increasing [] = Unit
  Increasing (x ∷ xs) =
      All (λ e. r.get_resource_version x < r.get_resource_version e) xs × Increasing xs

  Increasing-append :
      (v : ℕ) (xs : List Event) (e : Event)
      → UpTo v xs
      → v < r.get_resource_version e
      → Increasing xs
      → Increasing (xs ++ (e ∷ []))
  Increasing-append v [] e below new inc = (tt, tt)
  Increasing-append v (x ∷ xs) e below new inc = (
    All-append (λ (y : Event). r.get_resource_version x < r.get_resource_version y) xs (e ∷ [])
        inc.0 (omega (arith, below.0), tt),
    Increasing-append v xs e below.1 new inc.1,
  )

  UpTo-mono : (v u : ℕ) (es : List Event) → v ≤ u → UpTo v es → UpTo u es
  UpTo-mono v u es le h = All-mono (λ e (b : r.get_resource_version e ≤ v). omega (arith)) es h

  -- The versions of the events in the channel, against the store's.
  pub record Versions (s : Store Obj Event Selectors Out) : Type 0 where
    pub up_to : UpTo s.resource_version (sent s.incoming)
    pub increasing : Increasing (sent s.incoming)

  -- What a call does to the versions: the store's grows by at most one, nothing is received, and
  -- the watchers stay.
  pub record Advances (s t : Store Obj Event Selectors Out) : Type 0 where
    pub versions : Versions t
    pub lower : s.resource_version ≤ t.resource_version
    pub upper : t.resource_version ≤ s.resource_version + 1
    pub received : t.incoming.received ≡ s.incoming.received
    pub watchers : t.watchers ≡ s.watchers
    pub watcher_idx : t.watcher_idx ≡ s.watcher_idx

  pub same-Advances : (s : Store Obj Event Selectors Out) → Versions s → Advances s s
  same-Advances s h = record {
    versions = h;
    lower = omega arith;
    upper = omega arith;
    received = refl;
    watchers = refl;
    watcher_idx = refl;
  }

  module _ (stamps : Stamps) where
    -- A change whose event, if any, has the version `v`, the next one.
    stamped-Advances :
        (change : Map String Obj → Map String Obj) (s : Store Obj Event Selectors Out) (v : ℕ)
        (res : String ⊎ Option Event)
        → v ≡ s.resource_version + 1
        → ((e : Event) → res ≡ inr (some e) → r.get_resource_version e ≡ v)
        → Versions s
        → Advances s (commit r change (record s { resource_version = v }, res)).0
    unfolding commit process_event send sent
    stamped-Advances change s v (inl err) next st h = record {
      versions = record {
        up_to = UpTo-mono s.resource_version v (sent s.incoming) (omega (arith, next)) h.up_to;
        increasing = h.increasing;
      };
      lower = omega (arith, next);
      upper = omega (arith, next);
      received = refl;
      watchers = refl;
      watcher_idx = refl;
    }
    stamped-Advances change s v (inr none) next st h = record {
      versions = record {
        up_to = UpTo-mono s.resource_version v (sent s.incoming) (omega (arith, next)) h.up_to;
        increasing = h.increasing;
      };
      lower = omega (arith, next);
      upper = omega (arith, next);
      received = refl;
      watchers = refl;
      watcher_idx = refl;
    }
    stamped-Advances change s v (inr (some e)) next st h =
        let new : r.get_resource_version e ≡ v = st e refl in
        record {
          versions = record {
            up_to = subst (UpTo v) (sym (sent-send e s.incoming)) (
                All-append (λ (y : Event). r.get_resource_version y ≤ v) (sent s.incoming) (e ∷ [])
                  (UpTo-mono s.resource_version v (sent s.incoming) (omega (arith, next)) h.up_to)
                  (omega (arith, new), tt));
            increasing = subst Increasing (sym (sent-send e s.incoming)) (
                Increasing-append s.resource_version (sent s.incoming) e h.up_to
                  (omega (arith, new, next)) h.increasing);
          };
          lower = omega (arith, next);
          upper = omega (arith, next);
          received = refl;
          watchers = refl;
          watcher_idx = refl;
        }

    -- Without genEventFunc only the storage changes.
    silent-Advances :
        (change : Map String Obj → Map String Obj) (s : Store Obj Event Selectors Out)
        → Versions s
        → Advances s (commit r change (s, inr none)).0
    unfolding commit process_event
    silent-Advances change s h = record {
      versions = record { up_to = h.up_to; increasing = h.increasing };
      lower = omega arith;
      upper = omega arith;
      received = refl;
      watchers = refl;
      watcher_idx = refl;
    }

    commit-Advances :
        (change : Map String Obj → Map String Obj) (s : Store Obj Event Selectors Out)
        (key : String) (prev obj : Option Obj)
        → s.resource_version + 1 < 2 ^ 64
        → Versions s
        → Advances s (commit r change (gen_event r s key prev obj)).0
    unfolding gen_event next_resource_version
    commit-Advances change s key prev obj small h = go r.gen_event_func refl
      where
        next : (s.resource_version + 1) % 2 ^ 64 ≡ s.resource_version + 1
        next = omega (arith, small)

        go :
            (f : Option (String → Option Obj → Option Obj → ℕ → String ⊎ Option Event))
            → r.gen_event_func ≡ f
            → Advances s
                (commit r change (elim f [
                  | none ↦ (s, inr none)
                  | some f ↦
                      let t = next_resource_version r s in (t, f key prev obj t.resource_version)
                ])).0
        go none q = silent-Advances change s h
        go (some f) q =
            stamped-Advances change s ((s.resource_version + 1) % 2 ^ 64)
              (f key prev obj ((s.resource_version + 1) % 2 ^ 64)) next
              (λ e made. stamps f key prev obj ((s.resource_version + 1) % 2 ^ 64) e q made) h

    pub create_obj-Advances :
        (s : Store Obj Event Selectors Out) (obj : Obj)
        → s.resource_version + 1 < 2 ^ 64
        → Versions s
        → Advances s (create_obj r s obj).0
    unfolding create_obj
    create_obj-Advances s obj small h = elim (Option-cases (r.key_func obj)) [
      | inl e ↦ rw (e, create_obj) (same-Advances s h)
      | inr (key, e) ↦ elim (Option-cases (get s.storage key)) [
        | inl absent ↦
            rw (e, create_obj)
              (rw (absent, create_obj)
                (commit-Advances (λ m. put m key obj) s key none (some obj) small h))
        | inr (prev, present) ↦ rw (e, create_obj) (rw (present, create_obj) (same-Advances s h))
      ]
    ]

    pub update_obj-Advances :
        (s : Store Obj Event Selectors Out) (obj : Obj)
        → s.resource_version + 1 < 2 ^ 64
        → Versions s
        → Advances s (update_obj r s obj).0
    unfolding update_obj
    update_obj-Advances s obj small h = elim (Option-cases (r.key_func obj)) [
      | inl e ↦ rw (e, update_obj) (same-Advances s h)
      | inr (key, e) ↦ elim (Option-cases (get s.storage key)) [
        | inl absent ↦ rw (e, update_obj) (rw (absent, update_obj) (same-Advances s h))
        | inr (prev, present) ↦
            rw (e, update_obj)
              (rw (present, update_obj)
                (commit-Advances (λ m. put m key obj) s key (some prev) (some obj) small h))
      ]
    ]

    pub delete_obj-Advances :
        (s : Store Obj Event Selectors Out) (key : String)
        → s.resource_version + 1 < 2 ^ 64
        → Versions s
        → Advances s (delete_obj r s key).0
    unfolding delete_obj
    delete_obj-Advances s key small h = elim (Option-cases (get s.storage key)) [
      | inl absent ↦ rw (absent, delete_obj) (same-Advances s h)
      | inr (prev, present) ↦
          rw (present, delete_obj)
            (commit-Advances (delete_from r (r.key_func prev)) s key (some prev) none small h)
    ]
