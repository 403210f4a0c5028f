-- ===== src/Ram.antt =====
-- pkg/apiserver/storage/ram/store.go and watch.go: the in-memory store from which the controller
-- serves NetworkPolicies and groups to the agents, and its watchers. A goroutine is the list of
-- its atomic steps, and a run is a sequence of calls and steps in any order. The functions that
-- NewStore is given are the record `Resource`.
pub mod Watch
pub mod Calls
-- pub mod Channels
pub mod Versions
pub mod Delivery
pub mod Process
pub mod Dispatch
pub mod Steps
pub mod Runs
pub mod Contents
pub mod Keys
pub mod Tests
use antrea.Common.{
  ℕ, suc, ◌+◌, ◌%◌, ◌^◌, ◌⊎◌, inl, inr, String, Bool, true, false, ◌&&◌, not, Option, none, some,
  List, [], ◌∷◌, ◌++◌, map, string_eq, ltb, ◌==◌, if◌then◌else◌, Map, get, put, remove, length,
  keep,
}

-- A buffered channel, with what was received from it; the bound is its senders'.
pub record Channel (A : Type 0) : Type 0 where
  pub received : List A
  pub buffer : List A
  pub closed : Bool

abbrev pub make_channel : {A : Type 0} → Channel A
make_channel = record { received = []; buffer = []; closed = false }

module _ {A : Type 0} where
  unfoldable pub send : A → Channel A → Channel A
  send x c = record c { buffer = c.buffer ++ (x ∷ []) }

  unfoldable pub has_room : ℕ → Channel A → Bool
  has_room bound c = ltb (length c.buffer) bound

  unfoldable pub close : Channel A → Channel A
  close c = record c { closed = true }

-- `make(chan antreastorage.InternalEvent, 100)`
abbrev pub incoming_size : ℕ
incoming_size = 100

abbrev pub watcher_chan_size : ℕ
watcher_chan_size = 1000

-- What the store is made with. `none` is an error of key_func, an event that a watcher ignores,
-- and a nil function.
pub record Resource (Obj Event Selectors Out : Type 0) : Type 0 where
  pub key_func : Obj → Option String
  pub select_func : Option (Selectors → String → Obj → Bool)
  pub gen_event_func : Option (String → Option Obj → Option Obj → ℕ → String ⊎ Option Event)
  pub to_watch_event : Event → Selectors → Bool → Option Out
  pub get_resource_version : Event → ℕ
  -- the watch event of a bookmarkEvent with newFunc()
  pub bookmark : Out

pub data Error : Type 0 where
  no_key already_exists not_found event_failed : Error

-- Where the goroutine `process` is: sending the initial events that are left, and the bookmark
-- after them; waiting for input; sending an event it took; returned.
pub data Stage (Event : Type 0) : Type 0 where
  initial : List (Option Event) → Stage Event
  serving : Stage Event
  sending : Event → Stage Event
  ended : Stage Event

-- A storeWatcher with the arguments of its `process` goroutine. `registered` is whether the store's
-- map has the watcher, under its index.
pub record Watcher (Event Selectors Out : Type 0) : Type 0 where
  pub index : ℕ
  pub registered : Bool
  pub selectors : Selectors
  pub init_events : List (Option Event)
  pub resource_version : ℕ
  pub stage : Stage Event
  pub input : Channel Event
  pub result : Channel Out
  pub done : Bool

pub record Store (Obj Event Selectors Out : Type 0) : Type 0 where
  pub storage : Map String Obj
  pub incoming : Channel Event
  pub resource_version : ℕ
  pub watcher_idx : ℕ
  pub watchers : List (Watcher Event Selectors Out)

abbrev pub new_store : {Obj Event Selectors Out : Type 0} → Store Obj Event Selectors Out
new_store = record {
  storage = [];
  incoming = make_channel;
  resource_version = 0;
  watcher_idx = 0;
  watchers = [];
}

-- A call on the store or a step of one of its goroutines. A dispatch has the number of steps that
-- the `process` of each watcher makes before the timer fires.
pub data Call (Obj Selectors : Type 0) : Type 0 where
  create : Obj → Call Obj Selectors
  update : Obj → Call Obj Selectors
  delete : String → Call Obj Selectors
  watch : Selectors → Call Obj Selectors
  dispatch : (ℕ → ℕ) → Call Obj Selectors
  process : ℕ → Call Obj Selectors
  cancel : ℕ → Call Obj Selectors
  receive : ℕ → Call Obj Selectors
  stop : ℕ → Call Obj Selectors
