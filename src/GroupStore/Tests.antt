-- ===== src/GroupStore/Tests.antt =====
-- Runs of the events of pkg/controller/networkpolicy/store/addressgroup.go.
use antrea.Common.{
  ◌≡◌, refl, arith, String, string_eq, true, false, ◌&&◌, none, some, [], ◌∷◌, inr, get, any, put,
}
use antrea.RuleCache.{
  GroupMember, GroupMemberPod, has_key, normalize_group_member, normalize_group_member_pod,
  entity_key, namespaced_key,
}
use antrea.RuleCache.Groups.{address_set}
use antrea.GroupStore.{
  AddressGroup, AddressGroupEvent, added, deleted, calculated_patch, patch_of, to_address_group_msg,
  gen_address_group_event, to_watch_event, span_has, node_selected, key_and_span_select_func,
  object_selected, is_selected, modified_event, event_for, values, members_without, patch_size,
  message, new_address_group_store,
}
use antrea.GroupStore.Delivered.{WellKeyed, KeysApart, patched, patch_of-InStep}

abbrev pod : String → GroupMemberPod
pod name = record { pod = some (record { namespace = "ns"; name = name }); ip = "1"; ports = [] }

abbrev entity : GroupMember
entity = record {
  pod = none;
  external_entity = some (record { namespace = "ns"; name = "e" });
  endpoints = [];
}

abbrev version : String → String → String → AddressGroup
version node key name = record {
  node_names = node ∷ [];
  uid = "g";
  name = "g";
  pods = (key, pod name) ∷ [];
  group_members = ("ns/e", entity) ∷ [];
}

abbrev first : AddressGroup
first = version "n1" "ns/a" "a"

abbrev second : AddressGroup
second = version "n2" "ns/b" "b"

abbrev event : AddressGroupEvent
event = record {
  curr_group = some second;
  prev_group = some first;
  curr_object = some (to_address_group_msg second true);
  prev_object = some (to_address_group_msg first false);
  patch_object = patch_of (some first) (some second);
  key = "g";
  resource_version = 2;
}

generated :
    gen_address_group_event (λ p c. false) "g" (some first) (some second) 2 ≡ inr (some event)
unfolding span_has node_selected key_and_span_select_func object_selected is_selected modified_event
    event_for to_watch_event values to_address_group_msg members_without calculated_patch patch_size
    patch_of message gen_address_group_event new_address_group_store
generated = refl

first-WellKeyed : WellKeyed first
unfolding normalize_group_member_pod normalize_group_member entity_key namespaced_key
first-WellKeyed = ((refl, tt), (refl, tt))

second-WellKeyed : WellKeyed second
unfolding normalize_group_member_pod normalize_group_member entity_key namespaced_key
second-WellKeyed = ((refl, tt), (refl, tt))

not_both :
    (a b k : String) → string_eq.beq a b ≡ false → (string_eq.beq a k && string_eq.beq b k) ≡ false
not_both a b k h =
    ground (arith, string_eq.beq_iff a k, string_eq.beq_iff b k, string_eq.beq_iff a b, h)

versions-KeysApart : KeysApart first second
unfolding has_key get
versions-KeysApart k = ground (arith, not_both "ns/a" "ns/e" k refl, not_both "ns/b" "ns/e" k refl)

-- A watcher for the second node has the group added, one for the first has it deleted.
moved :
    (to_watch_event event (record { key = ""; node_name = some "n2" }) false
      ≡ some (added (some (to_address_group_msg second true))))
    × (to_watch_event event (record { key = ""; node_name = some "n1" }) false
        ≡ some (deleted (some (to_address_group_msg first false))))
unfolding any get put has_key span_has node_selected key_and_span_select_func object_selected
    is_selected modified_event event_for to_watch_event values to_address_group_msg members_without
    calculated_patch patch_size patch_of message gen_address_group_event new_address_group_store
moved = (refl, refl)

patch_of-InStep_example :
    has_key
      (patched
        (patch_of (some first) (some second))
        (address_set (to_address_group_msg first true)))
      "ns/b"
    ≡ has_key (address_set (to_address_group_msg second true)) "ns/b"
patch_of-InStep_example =
    patch_of-InStep first second (address_set (to_address_group_msg first true)) first-WellKeyed
      second-WellKeyed versions-KeysApart (λ k. refl) "ns/b"
