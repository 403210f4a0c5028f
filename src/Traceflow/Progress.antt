-- ===== src/Traceflow/Progress.antt =====
-- How a running Traceflow ends: the scan of its observations, the timeout, and the tags loaded when
-- the controller starts. Code: pkg/controller/traceflow/controller.go.
use antrea.Common.{
  ℕ, ◌+◌, ◌<◌, ◌≡◌, ◌≢◌, refl, inl, inr, String, Bool, false, ◌&&◌, ◌||◌, Option, none, some, List,
  [], ◌∷◌, ◌++◌, All, arith, nat_eq, string_eq, ltb, if◌then◌else◌, get, get-put, Bool-cases,
  ==_iff, lt→ltb, any, any-append,
}
use antrea.Traceflow.{
  Controller, Traceflow, Environment, Observation, NodeResult, Phase, unset, pending, running,
  succeeded, failed, found, check_traceflow_status, sync_phase, sync_traceflow, finish,
  scan_observations, scan_results, is_sender, is_receiver, with_results, timeout_seconds,
  traceflow_timeout, load_tag, load_tags, occupy_tag, new_controller,
}
use antrea.Traceflow.Tags.{IsValid, get-deallocate_tag, occupy_tag-IsValid, new_controller-IsValid}

abbrev pub all_observations : List NodeResult → List Observation
all_observations [] = []
all_observations (r ∷ rs) = r.observations ++ all_observations rs

-- The sender reported: an observation of the SpoofGuard component.
abbrev pub sender_seen : List NodeResult → Bool
sender_seen rs = any is_sender (all_observations rs)

-- The packet was delivered or dropped somewhere.
abbrev pub receiver_seen : List NodeResult → Bool
receiver_seen rs = any is_receiver (all_observations rs)

scan_observations_flags :
    (env : Environment) (s r : Bool) (obs : List Observation)
    → ((scan_observations env s r obs).1 ≡ any is_sender obs || s)
      × ((scan_observations env s r obs).2 ≡ any is_receiver obs || r)
unfolding scan_observations any
scan_observations_flags env s r [] = (refl, refl)
scan_observations_flags env s r (ob ∷ obs) =
    ground (arith, scan_observations_flags env (is_sender ob || s) (is_receiver ob || r) obs)

-- The two flags of the nested loops say whether any observation of any node is a sender's or a
-- receiver's, from whatever the flags were before.
scan_results_flags :
    (env : Environment) (s r : Bool) (rs : List NodeResult)
    → ((scan_results env s r rs).1 ≡ sender_seen rs || s)
      × ((scan_results env s r rs).2 ≡ receiver_seen rs || r)
unfolding scan_results any
scan_results_flags env s r [] = (refl, refl)
scan_results_flags env s r (x ∷ rs) =
    let (obs, s', r') = scan_observations env s r x.observations in
    ground (
      arith,
      scan_observations_flags env s r x.observations,
      scan_results_flags env s' r' rs,
      any-append is_sender x.observations (all_observations rs),
      any-append is_receiver x.observations (all_observations rs),
    )

-- The phase that a call writes, if it sends an update.
abbrev pub sent_phase : List Traceflow → Option Phase
sent_phase [] = none
sent_phase (tf ∷ rest) = some tf.phase

-- A running Traceflow is marked Succeeded exactly when both a sender's observation and a delivery or
-- drop were reported by any node, else Failed exactly when more than the timeout has passed since it
-- was created, and else no update is sent.
pub check_traceflow_status-phase :
    (env : Environment) (c : Controller) (tf : Traceflow)
    → sent_phase (check_traceflow_status env c tf).1 ≡ (
        if sender_seen tf.results && receiver_seen tf.results
        then some succeeded
        else if ltb (tf.creation_timestamp + timeout_seconds) env.now
        then some failed
        else none)
unfolding check_traceflow_status
check_traceflow_status-phase env c tf =
    ground (arith, scan_results_flags env false false tf.results)

-- One update was sent, and it clears the tag.
abbrev pub ClearsTag : List Traceflow → Type 0
ClearsTag [] = ⊥
ClearsTag (tf ∷ []) = tf.dataplane_tag ≡ 0
ClearsTag (tf ∷ more) = ⊥

finish-ClearsTag :
    (env : Environment) (c : Controller) (tf : Traceflow) (p : Phase) (reason : String)
    → tf.dataplane_tag ≢ 0
    → get c.running_traceflows tf.dataplane_tag ≡ some tf.name
    → (get (finish env c tf p reason).0.running_traceflows tf.dataplane_tag ≡ none)
      × ClearsTag (finish env c tf p reason).1
unfolding finish
finish-ClearsTag env c tf p reason nz owned = (
  ground (
    arith,
    get-deallocate_tag c tf.name tf.dataplane_tag tf.dataplane_tag,
    ==_iff tf.dataplane_tag tf.dataplane_tag,
    ==_iff tf.dataplane_tag 0,
    string_eq.beq_iff tf.name tf.name,
  ),
  refl,
)

check-ClearsTag :
    (env : Environment) (c : Controller) (tf : Traceflow)
    → tf.creation_timestamp + timeout_seconds < env.now
    → tf.dataplane_tag ≢ 0
    → get c.running_traceflows tf.dataplane_tag ≡ some tf.name
    → (get (check_traceflow_status env c tf).0.running_traceflows tf.dataplane_tag ≡ none)
      × ClearsTag (check_traceflow_status env c tf).1
unfolding check_traceflow_status
check-ClearsTag env c tf late nz owned =
    let (rs, s, r) = scan_results env false false tf.results in
    elim (Bool-cases (s && r)) [
      | inl seen ↦ rw seen (finish-ClearsTag env c (with_results tf rs) succeeded "" nz owned)
      | inr unseen ↦ rw unseen (
          rw (lt→ltb (tf.creation_timestamp + timeout_seconds) env.now late)
            (finish-ClearsTag env c (with_results tf rs) failed traceflow_timeout nz owned))
    ]

-- A running Traceflow that holds a tag loses it in the first sync after its timeout, whatever its
-- observations are and whether or not the update succeeds; one update is sent, with tag 0.
pub sync_traceflow-timeout :
    (env : Environment) (c : Controller) (name : String) (tf : Traceflow)
    → env.lister name ≡ found tf
    → tf.phase ≡ running
    → tf.creation_timestamp + timeout_seconds < env.now
    → tf.dataplane_tag ≢ 0
    → get c.running_traceflows tf.dataplane_tag ≡ some tf.name
    → (get (sync_traceflow env c name).0.running_traceflows tf.dataplane_tag ≡ none)
      × ClearsTag (sync_traceflow env c name).1
unfolding sync_traceflow
sync_traceflow-timeout env c name tf l p late nz owned =
    rw (l, sync_traceflow) (rw (p, sync_phase) (check-ClearsTag env c tf late nz owned))

-- Traceflows with different names, and a name that has no tag.
abbrev Distinct : List Traceflow → Type 0
Distinct [] = Unit
Distinct (tf ∷ tfs) = All (λ other. other.name ≢ tf.name) tfs × Distinct tfs

abbrev HasNone : Controller → Traceflow → Type 0
HasNone c tf = (t : ℕ) → get c.running_traceflows t ≢ some tf.name

occupy_tag-HasNone :
    (c : Controller) (tf other : Traceflow)
    → other.name ≢ tf.name
    → HasNone c other
    → HasNone (occupy_tag c tf).0 other
unfolding occupy_tag
occupy_tag-HasNone c tf other ne h t =
    ground (arith, get-put c.running_traceflows tf.dataplane_tag t tf.name, h t)

load_tag_cases {ℓ} :
    (P : Controller → Type ℓ) (c : Controller) (tf : Traceflow)
    → P c
    → P (occupy_tag c tf).0
    → P (load_tag c tf)
unfolding load_tag
load_tag_cases P c tf same taken = go tf.phase refl
  where
    go : (p : Phase) → tf.phase ≡ p → P (load_tag c tf)
    go running e = rw (e, load_tag) taken
    go unset e = rw (e, load_tag) same
    go pending e = rw (e, load_tag) same
    go succeeded e = rw (e, load_tag) same
    go failed e = rw (e, load_tag) same

load_tag-HasNone :
    (c : Controller) (tf : Traceflow) (tfs : List Traceflow)
    → All (λ other. other.name ≢ tf.name) tfs
    → All (HasNone c) tfs
    → All (HasNone (load_tag c tf)) tfs
load_tag-HasNone c tf [] d h = tt
load_tag-HasNone c tf (other ∷ tfs) d h = (
  load_tag_cases (λ c'. HasNone c' other) c tf h.0 (occupy_tag-HasNone c tf other d.0 h.0),
  load_tag-HasNone c tf tfs d.1 h.1,
)

load_tags_from :
    (c : Controller) (tfs : List Traceflow)
    → IsValid c
    → Distinct tfs
    → All (HasNone c) tfs
    → IsValid (load_tags c tfs)
unfolding load_tags
load_tags_from c [] v d h = v
load_tags_from c (tf ∷ tfs) v d h =
    load_tags_from (load_tag c tf) tfs
      (load_tag_cases IsValid c tf v (occupy_tag-IsValid c tf v h.0)) d.1
      (load_tag-HasNone c tf tfs d.0 h.1)

nothing_taken : (tfs : List Traceflow) → All (HasNone new_controller) tfs
nothing_taken [] = tt
nothing_taken (tf ∷ tfs) = ((λ t. unfold new_controller get in (λ g. cc)), nothing_taken tfs)

-- The tags that the controller takes over at its start, from Traceflows with different names, make
-- a valid map: those out of range, and a second claim to one tag, are left out.
load_tags-IsValid : (tfs : List Traceflow) → Distinct tfs → IsValid (load_tags new_controller tfs)
load_tags-IsValid tfs d =
    load_tags_from new_controller tfs new_controller-IsValid d (nothing_taken tfs)
