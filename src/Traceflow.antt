-- ===== src/Traceflow.antt =====
-- pkg/controller/traceflow/controller.go: the controller that starts Traceflow requests, gives each
-- a data plane tag, and ends it when its observations are complete or its time is over; with the
-- types of pkg/apis/ops/v1alpha1/types.go that it reads. The lister, the API client, the Pod
-- indexer and the clock are `Environment`; the work queue is the list of calls made on it.
pub mod Tags
pub mod Sync
pub mod Progress
pub mod Tests
use Prim.Native.String.{◌++◌ as concat}
use antrea.Common.{
  ℕ, zero, suc, ◌+◌, String, Bool, true, false, ◌&&◌, ◌||◌, not, Option, none, some, List, [], ◌∷◌,
  map, string_eq, nat_eq, ltb, ◌==◌, if◌then◌else◌, Map, get, put, remove,
}

pub data Component : Type 0 where
  spoof_guard lb routing network_policy forwarding : Component

pub data Action : Type 0 where
  delivered received forwarded dropped : Action

-- `unset` is the empty phase of a Traceflow that was just created.
pub data Phase : Type 0 where
  unset pending running succeeded failed : Phase

-- An empty Component or Action is `none`.
pub record Observation : Type 0 where
  pub component : Option Component
  pub action : Option Action
  pub pod : String
  pub translated_dst_ip : String

pub record NodeResult : Type 0 where
  pub node : String
  pub observations : List Observation

pub record Status : Type 0 where
  pub phase : Phase
  pub reason : String
  pub dataplane_tag : ℕ
  pub results : List NodeResult

pub record Traceflow : Type 0 where
  pub name : String
  pub creation_timestamp : ℕ
  pub status : Status
  pub open status use *

abbrev pub min_tag_num : ℕ
min_tag_num = 1

abbrev pub max_tag_num : ℕ
max_tag_num = 14

-- timeoutDuration.Seconds()
abbrev pub timeout_seconds : ℕ
timeout_seconds = 120

abbrev pub traceflow_timeout : String
traceflow_timeout = "Traceflow timeout"

pub data Error : Type 0 where
  tag_out_of_range tag_already_taken upper_limit_reached lister_failed update_failed : Error

-- What a Get of the lister answers.
pub data Lookup : Type 0 where
  found : Traceflow → Lookup
  not_found : Lookup
  lookup_error : Lookup

-- An entry of the Pod indexer; `invalid` is an object that is no Pod.
pub data PodEntry : Type 0 where
  pod_entry : String → String → PodEntry
  invalid : PodEntry

-- What the code reads of its surroundings during one call.
pub record Environment : Type 0 where
  pub lister : String → Lookup
  -- whether UpdateStatus succeeds
  pub update_status : Traceflow → Bool
  -- ByIndex("podIP", ip), `none` on an error
  pub pods_by_ip : String → Option (List PodEntry)
  -- time.Now().Unix()
  pub now : ℕ

-- runningTraceflows: tag to name.
pub record Controller : Type 0 where
  pub running_traceflows : Map ℕ String

pub new_controller : Controller
new_controller = record { running_traceflows = [] }

-- `some e` is an error that the call returned.
abbrev pub Err : Type 0
Err = Option Error

pub occupy_tag : Controller → Traceflow → Controller × Err
occupy_tag c tf =
    if ltb tf.dataplane_tag min_tag_num || ltb max_tag_num tf.dataplane_tag
    then (c, some tag_out_of_range)
    else (elim (get c.running_traceflows tf.dataplane_tag) [
      | some existing ↦
          if string_eq.beq tf.name existing then (c, none) else (c, some tag_already_taken)
      | none ↦
          (record { running_traceflows = put c.running_traceflows tf.dataplane_tag tf.name }, none)
    ])

-- The loop that looks for `name` among the values of the map.
pub has_name : Map ℕ String → String → Bool
has_name [] name = false
has_name ((tag, n) ∷ m) name = string_eq.beq n name || has_name m name

-- The loop `for i := minTagNum; i <= maxTagNum; i++`, by the rounds left: the first free tag.
pub first_free : ℕ → ℕ → Map ℕ String → Option ℕ
first_free zero i m = none
first_free (suc rounds) i m =
    let rest = first_free rounds (i + 1) m in elim (get m i) [ none ↦ some i | some n ↦ rest ]

-- The tag, 0 if the request has one already, and an error if no tag is free.
pub allocate_tag : Controller → String → Controller × ℕ × Err
unfolding has_name first_free
allocate_tag c name =
    if has_name c.running_traceflows name
    then (c, 0, none)
    else (elim (first_free 14 min_tag_num c.running_traceflows) [
      | some i ↦ (record { running_traceflows = put c.running_traceflows i name }, i, none)
      | none ↦ (c, 0, some upper_limit_reached)
    ])

pub deallocate_tag : Controller → String → ℕ → Controller
deallocate_tag c name tag = elim (get c.running_traceflows tag) [
  | some existing ↦
      if string_eq.beq name existing
      then record { running_traceflows = remove c.running_traceflows tag }
      else c
  | none ↦ c
]

pub deallocate_tag_for_tf : Controller → Traceflow → Controller
deallocate_tag_for_tf c tf =
    if not (tf.dataplane_tag == 0) then deallocate_tag c tf.name tf.dataplane_tag else c

-- The object that updateTraceflowStatus sends.
pub updated : Traceflow → Phase → String → ℕ → Traceflow
updated tf phase reason tag = record tf {
  status = record {
    phase = phase;
    reason = if string_eq.beq reason "" then tf.reason else reason;
    dataplane_tag = tag;
    results = tf.results;
  };
}

-- The update that is sent, and the error.
pub update_traceflow_status : Environment → Traceflow → Phase → String → ℕ → List Traceflow × Err
unfolding updated
update_traceflow_status env tf phase reason tag =
    let update = updated tf phase reason tag in
    (update ∷ [], if env.update_status update then none else some update_failed)

-- A call: the new state, the updates that were sent, and the error.
abbrev pub Outcome : Type 0
Outcome = Controller × List Traceflow × Err

pub start_traceflow : Environment → Controller → Traceflow → Outcome
start_traceflow env c tf =
    let (c', tag, err) = allocate_tag c tf.name in
    elim err [
      | some e ↦ (c', [], some e)
      | none ↦
          if tag == 0
          then (c', [], none)
          else (let (sent, failure) = update_traceflow_status env tf running "" tag in
              elim failure [
                | some e ↦ (deallocate_tag c' tf.name tag, sent, some e)
                | none ↦ (c', sent, none)
              ])
    ]

pub is_sender : Observation → Bool
is_sender ob = elim ob.component [ some spoof_guard ↦ true | _ ↦ false ]

pub is_receiver : Observation → Bool
is_receiver ob = elim ob.action [ some delivered ↦ true | some dropped ↦ true | _ ↦ false ]

-- The Pod that an Observation's translated address belongs to is written into it.
pub annotate : Environment → Observation → Observation
annotate env ob =
    if string_eq.beq ob.translated_dst_ip ""
    then ob
    else (elim (env.pods_by_ip ob.translated_dst_ip) [
      | none ↦ ob
      | some [] ↦ ob
      | some (invalid ∷ rest) ↦ ob
      | some (pod_entry namespace name ∷ rest) ↦ record ob {
        pod = concat namespace (concat "/" name);
      }
    ])

-- The inner loop of checkTraceflowStatus, with the two flags.
pub scan_observations :
    Environment → Bool → Bool → List Observation → List Observation × Bool × Bool
unfolding is_sender is_receiver annotate
scan_observations env sender receiver [] = ([], sender, receiver)
scan_observations env sender receiver (ob ∷ rest) =
    let (obs, s, r) =
      scan_observations env (is_sender ob || sender) (is_receiver ob || receiver) rest in
    (annotate env ob ∷ obs, s, r)

-- The outer loop.
pub scan_results : Environment → Bool → Bool → List NodeResult → List NodeResult × Bool × Bool
unfolding scan_observations
scan_results env sender receiver [] = ([], sender, receiver)
scan_results env sender receiver (result ∷ rest) =
    let (obs, s, r) = scan_observations env sender receiver result.observations in
    let (results, s', r') = scan_results env s r rest in
    (record result { observations = obs } ∷ results, s', r')

-- The object with its Pods filled in.
abbrev pub with_results : Traceflow → List NodeResult → Traceflow
with_results tf results = record tf { status = record (tf.status) { results = results } }

-- The end of a request: its tag is given back and its last phase is sent.
pub finish : Environment → Controller → Traceflow → Phase → String → Outcome
unfolding deallocate_tag_for_tf update_traceflow_status
finish env c tf phase reason =
    let (sent, err) = update_traceflow_status env tf phase reason 0 in
    (deallocate_tag_for_tf c tf, sent, err)

pub check_traceflow_status : Environment → Controller → Traceflow → Outcome
unfolding scan_results finish
check_traceflow_status env c tf =
    let (results, sender, receiver) = scan_results env false false tf.results in
    let tf' = with_results tf results in
    if sender && receiver
    then finish env c tf' succeeded ""
    else if ltb (tf.creation_timestamp + timeout_seconds) env.now
    then finish env c tf' failed traceflow_timeout
    else (c, [], none)

-- The switch of syncTraceflow on the phase.
pub sync_phase : Environment → Controller → Traceflow → Phase → Outcome
unfolding deallocate_tag_for_tf
sync_phase env c tf unset = start_traceflow env c tf
sync_phase env c tf pending = start_traceflow env c tf
sync_phase env c tf running = check_traceflow_status env c tf
sync_phase env c tf succeeded = (c, [], none)
sync_phase env c tf failed = (deallocate_tag_for_tf c tf, [], none)

pub sync_traceflow : Environment → Controller → String → Outcome
unfolding sync_phase
sync_traceflow env c name = elim (env.lister name) [
  | found tf ↦ sync_phase env c tf tf.phase
  | not_found ↦ (c, [], none)
  | lookup_error ↦ (c, [], some lister_failed)
]

-- The calls made on the work queue.
pub data QueueCall : Type 0 where
  add forget add_rate_limited : String → QueueCall

pub enqueue_traceflow : Traceflow → QueueCall
enqueue_traceflow tf = add tf.name

-- Takes `key` off the queue: an item whose sync fails is put back with a delay.
pub process_traceflow_item :
    Environment → Controller → String → Controller × List Traceflow × QueueCall
process_traceflow_item env c key =
    let (c', sent, err) = sync_traceflow env c key in
    (c', sent, elim err [ some e ↦ add_rate_limited key | none ↦ forget key ])

-- Every running Traceflow is put on the queue again.
pub check_traceflow_timeout : Controller → List QueueCall
check_traceflow_timeout c = map (λ entry. add (entry.1)) c.running_traceflows

-- Start: the tags of the Traceflows that run already. An error is logged and passed over.
load_tag : Controller → Traceflow → Controller
unfolding occupy_tag
load_tag c tf = elim tf.phase [ running ↦ (occupy_tag c tf).0 | _ ↦ c ]

pub load_tags : Controller → List Traceflow → Controller
unfolding load_tag
load_tags c [] = c
load_tags c (tf ∷ tfs) = load_tags (load_tag c tf) tfs
