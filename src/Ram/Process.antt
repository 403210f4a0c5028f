-- ===== src/Ram/Process.antt =====
-- watch.go of pkg/apiserver/storage/ram: each step of a watcher keeps what Delivery says of it.
use mathlib.Core.List.{append_assoc, append-nil}
use antrea.Common.{
  ◌≡◌, refl, sym, ap, subst, ◌∙◌, ◌⊎◌, inl, inr, true, false, Option, none, some, List, [], ◌∷◌,
  ◌++◌, arith, ltb, if◌then◌else◌, keep, Bool-cases,
}
use antrea.Ram.{
  send, has_room, close, watcher_chan_size, Resource, Stage, initial, serving, sending, ended,
  Watcher,
}
use antrea.Ram.Watch.{send_watch_event, at_stage, take_input, process_from, cancel_from}
use antrea.Ram.Calls.{receive_from}
use antrea.Ram.Delivery.{
  sent, to_list, Holds, sent-send, sent-receive, newer, outs_initial, outs_live, remaining,
  expected, Delivers, expected-append,
}

module _ {Obj Event Selectors Out : Type 0} (r : Resource Obj Event Selectors Out) where
  send-done :
      (o : Out) (w : Watcher Event Selectors Out)
      → w.done ≡ true
      → send_watch_event r (some o) w ≡ some w
  unfolding send_watch_event
  send-done o w d = ground (arith, d)

  send-cases :
      (o : Out) (w : Watcher Event Selectors Out)
      → w.done ≡ false
      → (send_watch_event r (some o) w ≡ none)
        ⊎ (send_watch_event r (some o) w ≡ some (record w { result = send o w.result }))
  unfolding send_watch_event
  send-cases o w d = elim (Bool-cases (has_room watcher_chan_size w.result)) [
    | inl room ↦ inr (ground (arith, d, room))
    | inr full ↦ inl (ground (arith, d, full))
  ]

  -- The stage is left for the next one by a send, which adds what the stage owed to the result.
  advance :
      (log : List Event) (st next : Stage Event) (o : Option Out) (w : Watcher Event Selectors Out)
      → w.stage ≡ st
      → remaining r w.selectors st ≡ to_list o ++ remaining r w.selectors next
      → Delivers r log w
      → Holds (Delivers r log) (at_stage r next (send_watch_event r o w))
  unfolding at_stage send_watch_event expected
  advance log st next none w at owed h = record {
    not_done = h.not_done;
    open_input = h.open_input;
    delivered = λ d.
        ap (λ t. sent w.result ++ t) (sym owed ∙ ap (remaining r w.selectors) (sym at))
        ∙ h.delivered d;
    dispatched = h.dispatched;
  }
  advance log st next (some o) w at owed h = elim (Bool-cases w.done) [
    | inl d ↦
        subst (λ t. Holds (Delivers r log) (at_stage r next t)) (sym (send-done o w d))
          (record {
            not_done = h.not_done;
            open_input = h.open_input;
            delivered = λ d'. cc (d, d');
            dispatched = h.dispatched;
          })
    | inr d ↦ elim (send-cases o w d) [
      | inl full ↦ subst (λ t. Holds (Delivers r log) (at_stage r next t)) (sym full) tt
      | inr room ↦
          subst (λ t. Holds (Delivers r log) (at_stage r next t)) (sym room)
            (record {
              not_done = h.not_done;
              open_input = h.open_input;
              delivered = λ d'.
                  ap (λ t. t ++ remaining r w.selectors next) (sent-send o w.result)
                  ∙ append_assoc (sent w.result) (o ∷ []) (remaining r w.selectors next)
                  ∙ ap (λ t. sent w.result ++ t) (sym owed ∙ ap (remaining r w.selectors) (sym at))
                  ∙ h.delivered d';
              dispatched = h.dispatched;
            })
    ]
  ]

  -- The stage after an event was taken owes exactly what the event adds.
  taken :
      (w : Watcher Event Selectors Out) (e : Event)
      → remaining r w.selectors
          (if ltb w.resource_version (r.get_resource_version e) then sending e else serving)
        ≡ outs_live r w.selectors (newer r w.resource_version (e ∷ []))
  unfolding remaining outs_live newer keep
  taken w e = elim (Bool-cases (ltb w.resource_version (r.get_resource_version e))) [
    | inl new ↦ rw new (sym (append-nil (to_list (r.to_watch_event e w.selectors false))))
    | inr old ↦ rw old refl
  ]

  -- `process` returns from its loop, and the result is closed.
  ended-Delivers :
      (log : List Event) (w : Watcher Event Selectors Out)
      → w.stage ≡ serving
      → Delivers r log w
      → Delivers r log (record w { stage = ended; result = close w.result })
  unfolding remaining sent close expected
  ended-Delivers log w at h = record {
    not_done = h.not_done;
    open_input = h.open_input;
    delivered = λ d. ap (λ t. sent w.result ++ remaining r w.selectors t) (sym at) ∙ h.delivered d;
    dispatched = h.dispatched;
  }

  take_input-Delivers :
      (log buffer : List Event) (w : Watcher Event Selectors Out)
      → w.stage ≡ serving
      → w.input.buffer ≡ buffer
      → Delivers r log w
      → Holds (Delivers r log) (take_input r buffer w)
  unfolding take_input remaining expected sent newer
  take_input-Delivers log (e ∷ es) w at b h = record {
    not_done = h.not_done;
    open_input = h.open_input;
    delivered = λ d.
        ap (λ t. sent w.result ++ t) (taken w e)
        ∙ ap (λ t. t ++ outs_live r w.selectors (newer r w.resource_version (e ∷ [])))
            (sym (append-nil (sent w.result))
              ∙ ap (λ t. sent w.result ++ remaining r w.selectors t) (sym at)
              ∙ h.delivered d)
        ∙ sym (expected-append r w w.input.received (e ∷ []));
    dispatched = λ g.
        ap (newer r w.resource_version)
          (sent-receive w.input.received es e ∙ ap (λ t. w.input.received ++ t) (sym b))
        ∙ h.dispatched g;
  }
  take_input-Delivers log [] w at b h =
      elim w.input.closed
        as (λ c.
          Holds (Delivers r log)
            (if c then some (record w { stage = ended; result = close w.result }) else none)) [
              | true ↦ ended-Delivers log w at h
              | false ↦ tt
            ]

  pub process_from-Delivers :
      (log : List Event) (st : Stage Event) (w : Watcher Event Selectors Out)
      → w.stage ≡ st
      → Delivers r log w
      → Holds (Delivers r log) (process_from r st w)
  unfolding process_from remaining outs_initial
  process_from-Delivers log (initial (none ∷ es)) w at h = tt
  process_from-Delivers log (initial (some e ∷ es)) w at h =
      advance log (initial (some e ∷ es)) (initial es) (r.to_watch_event e w.selectors true) w at
        (append_assoc (to_list (r.to_watch_event e w.selectors true))
          (outs_initial r w.selectors es) (r.bookmark ∷ []))
        h
  process_from-Delivers log (initial []) w at h =
      advance log (initial []) serving (some r.bookmark) w at refl h
  process_from-Delivers log serving w at h = take_input-Delivers log w.input.buffer w at refl h
  process_from-Delivers log (sending e) w at h =
      advance log (sending e) serving (r.to_watch_event e w.selectors false) w at
        (sym (append-nil (to_list (r.to_watch_event e w.selectors false)))) h
  process_from-Delivers log ended w at h = tt

  pub cancel_from-Delivers :
      (log : List Event) (st : Stage Event) (w : Watcher Event Selectors Out)
      → w.stage ≡ st
      → Delivers r log w
      → Delivers r log (cancel_from r st w)
  unfolding cancel_from
  cancel_from-Delivers log (initial es) w at h = h
  cancel_from-Delivers log serving w at h = ended-Delivers log w at h
  cancel_from-Delivers log (sending e) w at h = h
  cancel_from-Delivers log ended w at h = h

  pub receive_from-Delivers :
      (log : List Event) (buffer : List Out) (w : Watcher Event Selectors Out)
      → w.result.buffer ≡ buffer
      → Delivers r log w
      → Delivers r log (receive_from r buffer w)
  unfolding receive_from sent expected
  receive_from-Delivers log [] w b h = h
  receive_from-Delivers log (o ∷ os) w b h = record {
    not_done = h.not_done;
    open_input = h.open_input;
    delivered = λ d.
        ap (λ t. t ++ remaining r w.selectors w.stage)
          (sent-receive w.result.received os o ∙ ap (λ t. w.result.received ++ t) (sym b))
        ∙ h.delivered d;
    dispatched = h.dispatched;
  }
