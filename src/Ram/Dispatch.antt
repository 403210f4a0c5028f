-- ===== src/Ram/Dispatch.antt =====
-- dispatchEvent of pkg/apiserver/storage/ram/store.go: what each watcher has received after it, and
-- which watchers it stops.

use antrea.Common.{
  zero, suc, subst, ℕ, ◌≡◌, refl, sym, ap, ◌∙◌, Bool, true, false, Option, none, some, List, [],
  ◌∷◌, ◌++◌, if◌then◌else◌,
}
use antrea.Ram.{
  Channel, send, has_room, close, watcher_chan_size, Resource, Stage, initial, serving, sending,
  ended, Watcher,
}
use antrea.Ram.Watch.{
  process_step, non_blocking_add, wait_to_add, add, forget, close_done, close_input, stop_step,
  stop_watcher,
}
use antrea.Ram.Calls.{dispatch_to, or_same}
use antrea.Ram.Delivery.{sent, Holds, sent-send, newer, Delivers, newer-append}
use antrea.Ram.Process.{process_from-Delivers}

-- The value of an option, or another.
or_else :
    {A : Type 0} (P : A → Type 0) (w : A) (o : Option A)
    → Holds P o
    → P w
    → P (elim o [ none ↦ w | some v ↦ v ])
or_else P w none h k = k
or_else P w (some v) h k = h

module _ {Obj Event Selectors Out : Type 0} (r : Resource Obj Event Selectors Out) where
  pub or_same-Delivers :
      (log : List Event) (f : Watcher Event Selectors Out → Option (Watcher Event Selectors Out))
      (w : Watcher Event Selectors Out)
      → Holds (Delivers r log) (f w)
      → Delivers r log w
      → Delivers r log (or_same r f w)
  unfolding or_same
  or_same-Delivers log f w after before = or_else (Delivers r log) w (f w) after before

  -- A watcher that Stop forgot gets nothing more and is promised only what it was sent.
  forgotten :
      (log later : List Event) (w : Watcher Event Selectors Out)
      → Delivers r log w
      → Delivers r later (forget r w)
  unfolding forget antrea.Ram.Delivery.expected
  forgotten log later w h = record {
    not_done = λ g. cc g;
    open_input = h.open_input;
    delivered = h.delivered;
    dispatched = λ g. cc g;
  }

  stopped :
      (log : List Event) (w : Watcher Event Selectors Out)
      → w.done ≡ true
      → w.registered ≡ false
      → Delivers r log w
  stopped log w d g = record {
    not_done = λ g'. cc (g, g');
    open_input = λ d'. cc (d, d');
    delivered = λ d'. cc (d, d');
    dispatched = λ g'. cc (g, g');
  }

  pub stop_step-Delivers :
      (log : List Event) (w : Watcher Event Selectors Out)
      → Delivers r log w
      → Delivers r log (stop_step r w)
  unfolding stop_step close_done close_input
  stop_step-Delivers log w h = go w.registered w.done w.input.closed refl refl
    where
      go :
          (g d c : Bool)
          → w.registered ≡ g
          → w.done ≡ d
          → Delivers r log (
              if g
              then forget r w
              else if d
              then (if c then w else close_input r w)
              else close_done r w)
      go true d c e f = forgotten log log w h
      go false true true e f = stopped log w f e
      go false true false e f = stopped log (close_input r w) f e
      go false false c e f = stopped log (close_done r w) refl e

  forget_first :
      (w : Watcher Event Selectors Out) → w.registered ≡ true → stop_step r w ≡ forget r w
  unfolding stop_step
  forget_first w g =
      ap
        (λ b.
          if b
          then forget r w
          else if w.done
          then (if w.input.closed then w else close_input r w)
          else close_done r w)
        g

  stop_watcher-Delivers :
      (log later : List Event) (w : Watcher Event Selectors Out)
      → w.registered ≡ true
      → Delivers r log w
      → Delivers r later (stop_watcher r w)
  unfolding stop_watcher
  stop_watcher-Delivers log later w g h = stop_step-Delivers later (stop_step r (stop_step r w)) (
      stop_step-Delivers later (stop_step r w)
        (subst (Delivers r later) (sym (forget_first w g)) (forgotten log later w h)))

  -- A registered watcher with room takes the event.
  sent_to :
      (log : List Event) (e : Event) (w : Watcher Event Selectors Out)
      → Delivers r log w
      → Delivers r (log ++ (e ∷ [])) (record w { input = send e w.input })
  unfolding send antrea.Ram.Delivery.expected
  sent_to log e w h = record {
    not_done = h.not_done;
    open_input = h.open_input;
    delivered = h.delivered;
    dispatched = λ g.
        ap (newer r w.resource_version) (sent-send e w.input)
        ∙ newer-append r w.resource_version (sent w.input) (e ∷ [])
        ∙ ap (λ t. t ++ newer r w.resource_version (e ∷ [])) (h.dispatched g)
        ∙ sym (newer-append r w.resource_version log (e ∷ []));
  }

  non_blocking_add-Delivers :
      (log : List Event) (e : Event) (w : Watcher Event Selectors Out)
      → Delivers r log w
      → Holds (Delivers r (log ++ (e ∷ []))) (non_blocking_add r e w)
  unfolding non_blocking_add
  non_blocking_add-Delivers log e w h =
      elim (has_room watcher_chan_size w.input)
        as (λ b.
          Holds (Delivers r (log ++ (e ∷ [])))
            (if b then some (record w { input = send e w.input }) else none)) [
              | true ↦ sent_to log e w h
              | false ↦ tt
            ]

  wait_to_add-Delivers :
      (log : List Event) (e : Event) (waits : ℕ) (w : Watcher Event Selectors Out)
      → Delivers r log w
      → Holds (Delivers r (log ++ (e ∷ []))) (wait_to_add r e waits w)
  unfolding wait_to_add process_step
  wait_to_add-Delivers log e zero w h = tt
  wait_to_add-Delivers log e (suc waits) w h =
      stepped (λ v k. wait_to_add-Delivers log e waits v k) (process_step r w)
        (process_from-Delivers r log w.stage w refl h)
    where
      retried :
          (again : (v : Watcher Event Selectors Out)
            → Delivers r log v
            → Holds (Delivers r (log ++ (e ∷ []))) (wait_to_add r e waits v))
          (v : Watcher Event Selectors Out) (o : Option (Watcher Event Selectors Out))
          → Delivers r log v
          → Holds (Delivers r (log ++ (e ∷ []))) o
          → Holds
              (Delivers r (log ++ (e ∷ [])))
              (elim o [ some u ↦ some u | none ↦ wait_to_add r e waits v ])
      retried again v (some u) k l = l
      retried again v none k l = again v k

      stepped :
          (again : (v : Watcher Event Selectors Out)
            → Delivers r log v
            → Holds (Delivers r (log ++ (e ∷ []))) (wait_to_add r e waits v))
          (o : Option (Watcher Event Selectors Out))
          → Holds (Delivers r log) o
          → Holds (Delivers r (log ++ (e ∷ []))) (elim o [
            | none ↦ none
            | some v ↦ elim (non_blocking_add r e v) [
              | some u ↦ some u
              | none ↦ wait_to_add r e waits v
            ]
          ])
      stepped again none k = tt
      stepped again (some v) k =
          retried again v (non_blocking_add r e v) k (non_blocking_add-Delivers log e v k)

  add-Delivers :
      (log : List Event) (e : Event) (waits : ℕ) (w : Watcher Event Selectors Out)
      → Delivers r log w
      → Holds (Delivers r (log ++ (e ∷ []))) (add r e waits w)
  unfolding add
  add-Delivers log e waits w h = go (non_blocking_add r e w) (non_blocking_add-Delivers log e w h)
    where
      go :
          (o : Option (Watcher Event Selectors Out))
          → Holds (Delivers r (log ++ (e ∷ []))) o
          → Holds
              (Delivers r (log ++ (e ∷ [])))
              (elim o [ some v ↦ some v | none ↦ wait_to_add r e waits w ])
      go (some v) k = k
      go none k = wait_to_add-Delivers log e waits w h

  -- A watcher outside the map gets nothing and is promised nothing.
  unregistered :
      (log later : List Event) (w : Watcher Event Selectors Out)
      → w.registered ≡ false
      → Delivers r log w
      → Delivers r later w
  unregistered log later w g h = record {
    not_done = h.not_done;
    open_input = h.open_input;
    delivered = h.delivered;
    dispatched = λ g'. cc (g, g');
  }

  pub dispatch_to-Delivers :
      (log : List Event) (e : Event) (waits : ℕ → ℕ) (w : Watcher Event Selectors Out)
      → Delivers r log w
      → Delivers r (log ++ (e ∷ [])) (dispatch_to r e waits w)
  unfolding dispatch_to
  dispatch_to-Delivers log e waits w h = go w.registered refl
    where
      served :
          w.registered ≡ true
          → (o : Option (Watcher Event Selectors Out)) → Holds (Delivers r (log ++ (e ∷ []))) o
          → Delivers r (log ++ (e ∷ [])) (elim o [ some v ↦ v | none ↦ stop_watcher r w ])
      served g (some v) k = k
      served g none k = stop_watcher-Delivers log (log ++ (e ∷ [])) w g h

      go :
          (b : Bool)
          → w.registered ≡ b
          → Delivers r (log ++ (e ∷ [])) (
              if b
              then (elim (add r e (waits w.index) w) [ some v ↦ v | none ↦ stop_watcher r w ])
              else w)
      go true g = served g (add r e (waits w.index) w) (add-Delivers log e (waits w.index) w h)
      go false g = unregistered log (log ++ (e ∷ [])) w g h
