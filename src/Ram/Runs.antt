-- ===== src/Ram/Runs.antt =====
-- Runs of the store of pkg/apiserver/storage/ram: what every watcher gets after any sequence of calls,
-- dispatches and steps.
use mathlib.Core.List.{append_assoc}
use antrea.Common.{
  ℕ, zero, suc, ◌^◌, ◌<◌, ◌≡◌, refl, sym, ap, subst, ◌∙◌, true, false, some, List, [], ◌∷◌, ◌++◌,
  length, get_elem?, All,
}
use antrea.Ram.{Resource, Watcher, Store, new_store, Call}
use antrea.Ram.Calls.{run}
use antrea.Ram.Delivery.{sent, newer, expected, remaining, outs_live, Delivers, expected-append}
use antrea.Ram.Versions.{Stamps, Increasing}
use antrea.Ram.Steps.{run-IsValid}

All-get_elem? :
    {A : Type 0} (P : A → Type 0) (xs : List A) (i : ℕ) (x : A)
    → All P xs
    → get_elem? xs i ≡ some x
    → P x
All-get_elem? P [] i x h e = cc e
All-get_elem? P (y ∷ ys) zero x h e = subst P (cc e) h.0
All-get_elem? P (y ∷ ys) (suc i) x h e = All-get_elem? P ys i x h.1 e

module _ {Obj Event Selectors Out : Type 0} (r : Resource Obj Event Selectors Out) where
  -- Two lists with the same newer events are the same to a watcher.
  expected-newer :
      (w : Watcher Event Selectors Out) (xs ys : List Event)
      → newer r w.resource_version xs ≡ newer r w.resource_version ys
      → expected r w xs ≡ expected r w ys
  unfolding expected
  expected-newer w xs ys e = rw e refl

  -- What a watcher has sent, holds and will take makes up what it should send.
  complete :
      (s : Store Obj Event Selectors Out) (w : Watcher Event Selectors Out)
      → Delivers r s.incoming.received w
      → w.registered ≡ true
      → (sent w.result ++ remaining r w.selectors w.stage)
          ++ outs_live r w.selectors
              (newer r w.resource_version (w.input.buffer ++ s.incoming.buffer))
        ≡ expected r w (sent s.incoming)
  unfolding sent
  complete s w h d =
      ap
        (λ t.
          t
          ++ outs_live r w.selectors
              (newer r w.resource_version (w.input.buffer ++ s.incoming.buffer)))
        (h.delivered (h.not_done d))
      ∙ sym (expected-append r w w.input.received (w.input.buffer ++ s.incoming.buffer))
      ∙ ap (expected r w) (sym (append_assoc w.input.received w.input.buffer s.incoming.buffer))
      ∙ expected-append r w (sent w.input) s.incoming.buffer
      ∙ ap (λ t. t ++ outs_live r w.selectors (newer r w.resource_version s.incoming.buffer))
          (expected-newer w (sent w.input) s.incoming.received (h.dispatched d))
      ∙ sym (expected-append r w s.incoming.received s.incoming.buffer)

  -- After any run of fewer than 2^64 calls and steps, a watcher that dispatchEvent still sends to
  -- has its input open, so no send on a closed channel can panic, and its done is open. Between the
  -- three statements of a Stop that a client calls, any other calls and steps can come.
  pub run_open_input :
      (stamps : Stamps r) (cs : List (Call Obj Selectors)) (i : ℕ) (w : Watcher Event Selectors Out)
      → length cs < 2 ^ 64
      → get_elem? (run r cs new_store).watchers i ≡ some w
      → w.registered ≡ true
      → (w.input.closed ≡ false) × (w.done ≡ false)
  run_open_input stamps cs i w small at g =
      let s = run r cs new_store in
      let h : Delivers r s.incoming.received w =
        All-get_elem? (Delivers r s.incoming.received) s.watchers i w
          (run-IsValid r stamps cs small).promises at in
      (h.open_input (h.not_done g), h.not_done g)

  -- After any run of fewer than 2^64 calls and steps, the events that the store made have strictly
  -- increasing resource versions.
  pub run-Increasing :
      (stamps : Stamps r) (cs : List (Call Obj Selectors))
      → length cs < 2 ^ 64
      → Increasing r (sent (run r cs new_store).incoming)
  run-Increasing stamps cs small = (run-IsValid r stamps cs small).versions.increasing
