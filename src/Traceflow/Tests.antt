-- ===== src/Traceflow/Tests.antt =====
-- Runs of the Traceflow controller (pkg/controller/traceflow/controller.go), and the theorems about
-- it at concrete inputs.
use antrea.Common.{◌≡◌, refl, false, none, some, [], ◌∷◌, arith, nat_eq, string_eq, get, any}
use antrea.Traceflow.{
  Controller, Traceflow, Environment, unset, running, found, failed, update_failed,
  update_traceflow_status, check_traceflow_status, allocate_tag, start_traceflow, sync_traceflow,
}
use antrea.Traceflow.Tags.{IsValid, Allocates, allocate_tag-Allocates}
use antrea.Traceflow.Sync.{sync_traceflow-IsValid, sync_traceflow_other, start_traceflow-rollback}
use antrea.Traceflow.Progress.{
  ClearsTag, sent_phase, sync_traceflow-timeout, check_traceflow_status-phase,
}

abbrev tf1 : Traceflow
tf1 = record {
  name = "tf1";
  creation_timestamp = 100;
  status = record { phase = running; reason = ""; dataplane_tag = 1; results = [] };
}

abbrev tf2 : Traceflow
tf2 = record {
  name = "tf2";
  creation_timestamp = 200;
  status = record { phase = unset; reason = ""; dataplane_tag = 0; results = [] };
}

-- The API server refuses every update; every lookup finds `tf`.
abbrev late_env : Traceflow → Environment
late_env tf = record {
  lister = λ name. found tf;
  update_status = λ tf. false;
  pods_by_ip = λ ip. some [];
  now = 221;
}

abbrev one_running : Controller
one_running = record { running_traceflows = (1, "tf1") ∷ [] }

one_running-IsValid : IsValid one_running
unfolding get
one_running-IsValid = record {
  unique = (refl, tt);
  in_range = λ t n g. ground arith;
  one_tag = λ t u n g h. ground arith;
}

second_tag : (allocate_tag one_running "tf2").1 ≡ 2
unfolding allocate_tag get
second_tag = refl

allocate_tag-Allocates_example :
    Allocates one_running "tf2"
      (allocate_tag one_running "tf2").0
      (allocate_tag one_running "tf2").1
      (allocate_tag one_running "tf2").2
allocate_tag-Allocates_example = allocate_tag-Allocates one_running "tf2" one_running-IsValid.unique

sync_traceflow-IsValid_example : IsValid (sync_traceflow (late_env tf2) one_running "tf2").0
sync_traceflow-IsValid_example =
    sync_traceflow-IsValid (late_env tf2) one_running "tf2" one_running-IsValid

sync_traceflow_other_example :
    get (sync_traceflow (late_env tf2) one_running "tf2").0.running_traceflows 1 ≡ some "tf1"
unfolding get
sync_traceflow_other_example =
    sync_traceflow_other (late_env tf2) one_running "tf2" 1 "tf1" one_running-IsValid.unique refl
      (λ tf e. ground (arith, string_eq.beq_iff "tf2" "tf1"))

start_traceflow-rollback_example :
    get (start_traceflow (late_env tf2) one_running tf2).0.running_traceflows 2 ≡ none
unfolding get start_traceflow allocate_tag update_traceflow_status
start_traceflow-rollback_example =
    start_traceflow-rollback (late_env tf2) one_running tf2 update_failed 2
      one_running-IsValid.unique refl

sync_traceflow-timeout_example :
    (get (sync_traceflow (late_env tf1) one_running "tf1").0.running_traceflows 1 ≡ none)
    × ClearsTag (sync_traceflow (late_env tf1) one_running "tf1").1
unfolding get
sync_traceflow-timeout_example =
    sync_traceflow-timeout (late_env tf1) one_running "tf1" tf1 refl refl (omega arith)
      (omega arith) refl

check_traceflow_status-phase_example :
    sent_phase (check_traceflow_status (late_env tf1) one_running tf1).1 ≡ some failed
unfolding any
check_traceflow_status-phase_example = check_traceflow_status-phase (late_env tf1) one_running tf1
