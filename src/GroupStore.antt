-- ===== src/GroupStore.antt =====
-- pkg/controller/networkpolicy/store/addressgroup.go and util.go: the events that the store of address
-- groups makes of two versions of a group, and what a watcher is sent of them. The messages are those
-- that the agent's rule cache takes; their UID, which the agent does not read, and the selector
-- of a group, which the events do not read, are left out.
pub mod Patches
pub mod Delivered
pub mod Tests
use antrea.Common.{
  ℕ, zero, suc, ◌+◌, String, string_eq, Bool, true, false, ◌&&◌, not, Option, none, some, List, [],
  ◌∷◌, any, length, ltb, if◌then◌else◌, Map, ◌⊎◌, inl, inr, ◌==◌,
}
use antrea.RuleCache.{GroupMember, GroupMemberPod, has_key}
use antrea.RuleCache.Groups.{AddressGroup as AddressGroupMsg, AddressGroupPatch}
use antrea.Ram.{Resource}

pub record AddressGroup : Type 0 where
  pub node_names : List String
  pub uid : String
  pub name : String
  pub pods : Map String GroupMemberPod
  pub group_members : Map String GroupMember

-- `node_name` is what the field selector requires of nodeName.
pub record Selectors : Type 0 where
  pub key : String
  pub node_name : Option String

pub record AddressGroupEvent : Type 0 where
  pub curr_group : Option AddressGroup
  pub prev_group : Option AddressGroup
  pub curr_object : Option AddressGroupMsg
  pub prev_object : Option AddressGroupMsg
  pub patch_object : Option AddressGroupPatch
  pub key : String
  pub resource_version : ℕ

pub data WatchEvent : Type 0 where
  added : Option AddressGroupMsg → WatchEvent
  modified : AddressGroupPatch → WatchEvent
  deleted : Option AddressGroupMsg → WatchEvent
  bookmark : WatchEvent

unfoldable pub span_has : AddressGroup → String → Bool
span_has g node_name = any (λ n. string_eq.beq n node_name) g.node_names

unfoldable pub node_selected : Option String → AddressGroup → Bool
node_selected none g = true
node_selected (some node_name) g = span_has g node_name

unfoldable pub key_and_span_select_func : Selectors → String → AddressGroup → Bool
key_and_span_select_func selectors key g =
    if not (string_eq.beq selectors.key "") && not (string_eq.beq key selectors.key)
    then false
    else node_selected selectors.node_name g

unfoldable pub object_selected : Selectors → String → Option AddressGroup → Bool
object_selected selectors key none = false
object_selected selectors key (some g) = key_and_span_select_func selectors key g

unfoldable pub is_selected :
    String → Option AddressGroup → Option AddressGroup → Selectors → Bool → Bool × Bool
is_selected key prev_obj curr_obj selectors is_init_event =
    if is_init_event
    then (false, true)
    else (object_selected selectors key prev_obj, object_selected selectors key curr_obj)

unfoldable pub modified_event : Option AddressGroupPatch → Option WatchEvent
modified_event none = none
modified_event (some patch) = some (modified patch)

unfoldable pub event_for : AddressGroupEvent → Bool → Bool → Option WatchEvent
event_for event false false = none
event_for event false true = some (added event.curr_object)
event_for event true true = modified_event event.patch_object
event_for event true false = some (deleted event.prev_object)

unfoldable pub to_watch_event : AddressGroupEvent → Selectors → Bool → Option WatchEvent
to_watch_event event selectors is_init_event =
    let (prev, curr) =
      is_selected event.key event.prev_group event.curr_group selectors is_init_event in
    event_for event prev curr

unfoldable pub values : {M : Type 0} → Map String M → List M
values [] = []
values ((key, item) ∷ s) = item ∷ values s

unfoldable pub to_address_group_msg : AddressGroup → Bool → AddressGroupMsg
to_address_group_msg g include_body =
    if include_body
    then (record { name = g.name; pods = values g.pods; group_members = values g.group_members })
    else (record { name = g.name; pods = []; group_members = [] })

-- The members of the first set whose hash is not in the other.
unfoldable pub members_without : {M : Type 0} → Map String M → Map String M → List M
members_without [] o = []
members_without ((key, item) ∷ s) o =
    let rest = members_without s o in if has_key o key then rest else item ∷ rest

unfoldable pub calculated_patch : AddressGroup → AddressGroup → AddressGroupPatch
calculated_patch prev curr = record {
  name = curr.name;
  added_pods = members_without curr.pods prev.pods;
  removed_pods = members_without prev.pods curr.pods;
  added_group_members = members_without curr.group_members prev.group_members;
  removed_group_members = members_without prev.group_members curr.group_members;
}

unfoldable pub patch_size : AddressGroupPatch → ℕ
patch_size p =
    length p.added_pods
    + length p.removed_pods
    + length p.added_group_members
    + length p.removed_group_members

unfoldable pub patch_of : Option AddressGroup → Option AddressGroup → Option AddressGroupPatch
patch_of (some prev) (some curr) =
    let patch = calculated_patch prev curr in if ltb 0 (patch_size patch) then some patch else none
patch_of prev curr = none

unfoldable pub message : Option AddressGroup → Bool → Option AddressGroupMsg
message none include_body = none
message (some g) include_body = some (to_address_group_msg g include_body)

-- `deep_equal` is reflect.DeepEqual on two versions.
module _ (deep_equal : Option AddressGroup → Option AddressGroup → Bool) where
  unfoldable pub gen_address_group_event :
      String → Option AddressGroup → Option AddressGroup → ℕ → String ⊎ Option AddressGroupEvent
  gen_address_group_event key prev curr rv =
      if deep_equal prev curr
      then inr none
      else inr (
          some (record {
            curr_group = curr;
            prev_group = prev;
            curr_object = message curr true;
            prev_object = message prev false;
            patch_object = patch_of prev curr;
            key = key;
            resource_version = rv;
          }))

  unfoldable pub new_address_group_store :
      Resource AddressGroup AddressGroupEvent Selectors WatchEvent
  new_address_group_store = record {
    key_func = λ g. some g.name;
    select_func = some key_and_span_select_func;
    gen_event_func = some gen_address_group_event;
    to_watch_event = to_watch_event;
    get_resource_version = λ event. event.resource_version;
    bookmark = bookmark;
  }
