-- ===== src/Ram/Tests.antt =====
-- A store of pkg/apiserver/storage/ram at work: two objects and a watcher of one of them.
use antrea.Common.{
  ℕ, ◌≡◌, refl, ap, ◌⊎◌, inr, String, true, false, Option, none, some, List, [], ◌∷◌, string_eq,
  if◌then◌else◌, get_elem?, arith, keep, get, put, remove,
}
use antrea.Ram.{
  send, has_room, Resource, Watcher, Store, new_store, Call, create, update, delete, watch,
  dispatch, process, serving, close,
}
use antrea.Ram.Calls.{
  run, step, dispatch_to, at_index, dispatch_buffer, watch_store, init_events_of, create_obj,
  commit, gen_event, process_event, next_resource_version, add_watcher, update_obj, delete_from,
  delete_obj, or_same, receive_from, selected,
}
use antrea.Ram.Delivery.{sent, newer, expected, outs_live, outs_initial}
use antrea.Ram.Versions.{Stamps, Increasing}
use antrea.Ram.Contents.{answer, Ends, Allowed, changed}
use antrea.Ram.Runs.{run_open_input, run-Increasing}
use antrea.Ram.Watch.{
  add, wait_to_add, non_blocking_add, stop_watcher, stop_step, forget, close_done, close_input,
  at_stage, cancel_from, process_from, process_step, send_watch_event, take_input,
}
use antrea.Ram.Keys.{run-answer}

abbrev Object : Type 0
Object = String × ℕ

-- The version and the key.
abbrev Notice : Type 0
Notice = ℕ × String

abbrev Generator : Type 0
Generator = String → Option Object → Option Object → ℕ → String ⊎ Option Notice

abbrev notices : Resource Object Notice String String
notices = record {
  key_func = λ o. some o.0;
  select_func = some (λ sel key o. string_eq.beq sel key);
  gen_event_func = some (λ key prev obj v. inr (some (v, key)));
  to_watch_event = λ e sel init. if string_eq.beq sel e.1 then some e.1 else none;
  get_resource_version = λ e. e.0;
  bookmark = "bookmark";
}

notices-Stamps : Stamps notices
notices-Stamps f key prev obj v e q made =
    let made_by =
      ap (λ (o : Option Generator). (elim o [ none ↦ inr none | some g ↦ g key prev obj v ])) q in
    ground (arith, made, made_by)

abbrev calls : List (Call Object String)
calls =
    create ("a", 1)
    ∷ create ("b", 2)
    ∷ watch "a"
    ∷ process 0
    ∷ process 0
    ∷ update ("a", 3)
    ∷ dispatch (λ i. 1)
    ∷ dispatch (λ i. 1)
    ∷ dispatch (λ i. 1)
    ∷ process 0
    ∷ process 0
    ∷ process 0
    ∷ process 0
    ∷ delete "b"
    ∷ []

abbrev after : Store Object Notice String String
unfolding run step
after = run notices calls new_store

abbrev watcher : Watcher Notice String String
watcher = record {
  index = 0;
  registered = true;
  selectors = "a";
  init_events = some (2, "a") ∷ [];
  resource_version = 2;
  stage = serving;
  input = record { received = (1, "a") ∷ (2, "b") ∷ (3, "a") ∷ []; buffer = []; closed = false };
  result = record { received = []; buffer = "a" ∷ "bookmark" ∷ "a" ∷ []; closed = false };
  done = false;
}

expected_of_watcher : expected notices watcher (sent after.incoming) ≡ "a" ∷ "bookmark" ∷ "a" ∷ []
unfolding expected sent outs_initial outs_live newer keep after has_room at_index dispatch_buffer
    watch_store init_events_of create_obj get commit gen_event process_event send
    next_resource_version put add_watcher update_obj remove delete_from delete_obj dispatch_to
    or_same receive_from run selected step add wait_to_add at_stage cancel_from non_blocking_add
    process_from process_step send_watch_event stop_watcher stop_step forget close_done close_input
    take_input close
expected_of_watcher = refl

watcher_at : get_elem? (run notices calls new_store).watchers 0 ≡ some watcher
unfolding keep has_room at_index dispatch_buffer watch_store init_events_of create_obj get commit
    gen_event process_event send next_resource_version put add_watcher update_obj remove delete_from
    delete_obj dispatch_to or_same receive_from run selected step add wait_to_add at_stage
    cancel_from non_blocking_add process_from process_step send_watch_event stop_watcher stop_step
    forget close_done close_input take_input close
watcher_at = refl

run_open_input_example : (watcher.input.closed ≡ false) × (watcher.done ≡ false)
run_open_input_example =
    run_open_input notices notices-Stamps calls 0 watcher (omega arith) watcher_at refl

run-Increasing_example : Increasing notices (sent (run notices calls new_store).incoming)
run-Increasing_example = run-Increasing notices notices-Stamps calls (omega arith)

run-answer_example :
    Ends notices
      (run notices calls new_store)
      (answer notices (delete "a") (run notices calls new_store))
      (Allowed notices (delete "a") (run notices calls new_store))
      (changed notices (delete "a") (run notices calls new_store).storage)
run-answer_example = run-answer notices calls (delete "a")
