-- ===== src/Ram/Delivery.antt =====
-- What a watcher of pkg/apiserver/storage/ram delivers: watch.go's process against the list of the
-- events that it should send.
use mathlib.Core.List.{append_assoc}
use antrea.Common.{
  ℕ, ◌≡◌, refl, sym, true, false, Option, none, some, List, [], ◌∷◌, ◌++◌, arith, ltb, keep,
}
use antrea.Ram.{Channel, send, Resource, Stage, initial, serving, sending, ended, Watcher}

-- Everything that was sent on a channel, in order.
unfoldable pub sent : {A : Type 0} → Channel A → List A
sent c = c.received ++ c.buffer

abbrev pub to_list : {A : Type 0} → Option A → List A
to_list none = []
to_list (some x) = x ∷ []

-- A statement about the value that is returned, if there is one.
abbrev pub Holds : {A : Type 0} → (A → Type 0) → Option A → Type 0
Holds P none = Unit
Holds P (some x) = P x

pub sent-send : {A : Type 0} (x : A) (c : Channel A) → sent (send x c) ≡ sent c ++ (x ∷ [])
unfolding sent send
sent-send x c = sym (append_assoc c.received c.buffer (x ∷ []))

pub sent-receive : {A : Type 0} (xs ys : List A) (x : A) → (xs ++ (x ∷ [])) ++ ys ≡ xs ++ (x ∷ ys)
sent-receive xs ys x = append_assoc xs (x ∷ []) ys

module _ {Obj Event Selectors Out : Type 0} (r : Resource Obj Event Selectors Out) where
  -- The events of a list that are newer than a version.
  unfoldable pub newer : ℕ → List Event → List Event
  newer v es = keep (λ e. ltb v (r.get_resource_version e)) es

  -- What the client gets for the objects of the time when the watch began.
  unfoldable pub outs_initial : Selectors → List (Option Event) → List Out
  outs_initial sel [] = []
  outs_initial sel (none ∷ es) = outs_initial sel es
  outs_initial sel (some e ∷ es) = to_list (r.to_watch_event e sel true) ++ outs_initial sel es

  -- What the client gets for later events.
  unfoldable pub outs_live : Selectors → List Event → List Out
  outs_live sel [] = []
  outs_live sel (e ∷ es) = to_list (r.to_watch_event e sel false) ++ outs_live sel es

  -- What `process` still sends for what it has in hand.
  unfoldable pub remaining : Selectors → Stage Event → List Out
  remaining sel (initial es) = outs_initial sel es ++ (r.bookmark ∷ [])
  remaining sel serving = []
  remaining sel (sending e) = to_list (r.to_watch_event e sel false)
  remaining sel ended = []

  -- The events that a client should get: the initial ones, the bookmark, then each newer event.
  unfoldable pub expected : Watcher Event Selectors Out → List Event → List Out
  expected w es =
      outs_initial w.selectors w.init_events
      ++ (r.bookmark ∷ outs_live w.selectors (newer w.resource_version es))

  -- A watcher in a store that has dispatched the events `log`.
  pub record Delivers (log : List Event) (w : Watcher Event Selectors Out) : Type 0 where
    pub not_done : w.registered ≡ true → w.done ≡ false
    pub open_input : w.done ≡ false → w.input.closed ≡ false
    pub delivered :
        w.done ≡ false
        → sent w.result ++ remaining w.selectors w.stage ≡ expected w w.input.received
    pub dispatched :
        w.registered ≡ true → newer w.resource_version (sent w.input) ≡ newer w.resource_version log

  pub newer-append : (v : ℕ) (xs ys : List Event) → newer v (xs ++ ys) ≡ newer v xs ++ newer v ys
  unfolding newer keep
  newer-append v [] ys = refl
  newer-append v (x ∷ xs) ys = ground (arith, newer-append v xs ys)

  pub outs_live-append :
      (sel : Selectors) (xs ys : List Event)
      → outs_live sel (xs ++ ys) ≡ outs_live sel xs ++ outs_live sel ys
  unfolding outs_live
  outs_live-append sel [] ys = refl
  outs_live-append sel (x ∷ xs) ys = rw (
    outs_live-append sel xs ys,
    append_assoc (to_list (r.to_watch_event x sel false)) (outs_live sel xs) (outs_live sel ys),
  )

  pub expected-append :
      (w : Watcher Event Selectors Out) (xs ys : List Event)
      → expected w (xs ++ ys) ≡ expected w xs ++ outs_live w.selectors (newer w.resource_version ys)
  unfolding expected
  expected-append w xs ys =
      rw
        (
          newer-append w.resource_version xs ys,
          outs_live-append w.selectors (newer w.resource_version xs) (newer w.resource_version ys),
        )
        (sym (
          append_assoc (outs_initial w.selectors w.init_events)
            (r.bookmark ∷ outs_live w.selectors (newer w.resource_version xs))
            (outs_live w.selectors (newer w.resource_version ys))))
