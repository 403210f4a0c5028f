-- ===== src/Ram/Watch.antt =====
-- pkg/apiserver/storage/ram/watch.go: what one watcher does.
use antrea.Common.{
  ℕ, zero, suc, true, false, Option, none, some, List, [], ◌∷◌, ◌++◌, string_eq, nat_eq, ltb,
  if◌then◌else◌,
}
use antrea.Ram.{
  send, has_room, close, watcher_chan_size, Resource, Stage, initial, serving, sending, ended,
  Watcher,
}

module _ {Obj Event Selectors Out : Type 0} (r : Resource Obj Event Selectors Out) where
  -- `none` while the send blocks.
  unfoldable pub send_watch_event :
      Option Out → Watcher Event Selectors Out → Option (Watcher Event Selectors Out)
  send_watch_event none w = some w
  send_watch_event (some o) w =
      if w.done
      then some w
      else (if has_room watcher_chan_size w.result
          then some (record w { result = send o w.result })
          else none)

  unfoldable pub at_stage :
      Stage Event → Option (Watcher Event Selectors Out) → Option (Watcher Event Selectors Out)
  at_stage st none = none
  at_stage st (some w) = some (record w { stage = st })

  -- One round of the loop of `process`: what `event, ok := <-w.input` gives.
  unfoldable pub take_input :
      List Event → Watcher Event Selectors Out → Option (Watcher Event Selectors Out)
  take_input (e ∷ es) w =
      let input = record w.input { received = w.input.received ++ (e ∷ []); buffer = es } in
      let next = if ltb w.resource_version (r.get_resource_version e) then sending e else serving in
      some (record w { input = input; stage = next })
  take_input [] w =
      if w.input.closed then some (record w { stage = ended; result = close w.result }) else none

  -- The next atomic step of `process`, `none` while it is blocked, once it has returned, and at a
  -- nil event, where it panics.
  unfoldable pub process_from :
      Stage Event → Watcher Event Selectors Out → Option (Watcher Event Selectors Out)
  unfolding take_input
  process_from (initial (none ∷ es)) w = none
  process_from (initial (some e ∷ es)) w =
      at_stage (initial es) (send_watch_event (r.to_watch_event e w.selectors true) w)
  process_from (initial []) w = at_stage serving (send_watch_event (some r.bookmark) w)
  process_from serving w = take_input w.input.buffer w
  process_from (sending e) w =
      at_stage serving (send_watch_event (r.to_watch_event e w.selectors false) w)
  process_from ended w = none

  unfoldable pub process_step : Watcher Event Selectors Out → Option (Watcher Event Selectors Out)
  process_step w = process_from w.stage w

  -- `<-ctx.Done()`, which the loop reads.
  unfoldable pub cancel_from :
      Stage Event → Watcher Event Selectors Out → Watcher Event Selectors Out
  cancel_from serving w = record w { stage = ended; result = close w.result }
  cancel_from other w = w

  -- `none` if the buffer is full.
  unfoldable pub non_blocking_add :
      Event → Watcher Event Selectors Out → Option (Watcher Event Selectors Out)
  non_blocking_add e w =
      if has_room watcher_chan_size w.input
      then some (record w { input = send e w.input })
      else none

  -- The wait for a free place, in which `process` makes `waits` steps before the timer fires. A step of
  -- a blocked `process` changes nothing.
  unfoldable pub wait_to_add :
      Event → ℕ → Watcher Event Selectors Out → Option (Watcher Event Selectors Out)
  unfolding non_blocking_add process_step
  wait_to_add e zero w = none
  wait_to_add e (suc waits) w = elim (process_step w) [
    | none ↦ none
    | some v ↦
        let rest = wait_to_add e waits v in
        elim (non_blocking_add e v) [ some u ↦ some u | none ↦ rest ]
  ]

  unfoldable pub add :
      Event → ℕ → Watcher Event Selectors Out → Option (Watcher Event Selectors Out)
  unfolding non_blocking_add wait_to_add
  add e waits w = elim (non_blocking_add e w) [ some v ↦ some v | none ↦ wait_to_add e waits w ]

  -- The three statements of Stop, in their order.
  unfoldable pub forget : Watcher Event Selectors Out → Watcher Event Selectors Out
  forget w = record w { registered = false }

  unfoldable pub close_done : Watcher Event Selectors Out → Watcher Event Selectors Out
  close_done w = record w { done = true }

  unfoldable pub close_input : Watcher Event Selectors Out → Watcher Event Selectors Out
  close_input w = record w { input = close w.input }

  -- The next statement of Stop, which is the first that was not run: stopOnce runs each once.
  unfoldable pub stop_step : Watcher Event Selectors Out → Watcher Event Selectors Out
  unfolding forget close_done close_input
  stop_step w =
      if w.registered
      then forget w
      else if w.done
      then (if w.input.closed then w else close_input w)
      else close_done w

  -- A whole call of Stop, or the rest of one that runs: what comes second waits for it.
  unfoldable pub stop_watcher : Watcher Event Selectors Out → Watcher Event Selectors Out
  unfolding stop_step
  stop_watcher w = stop_step (stop_step (stop_step w))
