-- ===== src/GroupStore/Delivered.antt =====
-- The patches of pkg/controller/networkpolicy/store/addressgroup.go keep the set that the agent has of a
-- group in step with the controller's.
use antrea.Common.{
  ◌≡◌, refl, ◌∙◌, inl, inr, arith, String, string_eq, true, false, ◌&&◌, ◌||◌, Option, none, some,
  List, [], ◌∷◌, any, length, ltb, if◌then◌else◌, Map, Bool-cases,
}
use antrea.RuleCache.{GroupMember, has_key, normalize_group_member, normalize_group_member_pod}
use antrea.RuleCache.Groups.{AddressGroupPatch, patched_addresses, address_set}
use antrea.GroupStore.{AddressGroup, calculated_patch, patch_size, patch_of, to_address_group_msg}
use antrea.GroupStore.Patches.{
  keyed, Keyed, keyed-members_without, has_key-patched_addresses, has_key-address_set,
}

-- What the agent makes of the patch, if there is one.
unfoldable pub patched : Option AddressGroupPatch → Map String GroupMember → Map String GroupMember
patched none s = s
patched (some p) s = patched_addresses p s

-- Each member is under its own key, as Insert puts it.
abbrev pub WellKeyed : AddressGroup → Type 0
WellKeyed g = Keyed normalize_group_member_pod g.pods × Keyed normalize_group_member g.group_members

-- No key is one of a Pod and one of another member, be it in one version or in the other.
abbrev pub KeysApart : AddressGroup → AddressGroup → Type 0
KeysApart prev curr =
    (k : String)
    → ((has_key prev.pods k || has_key curr.pods k)
        && (has_key prev.group_members k || has_key curr.group_members k))
      ≡ false

-- The set has the keys of the group as it is sent whole.
abbrev pub InStep : Map String GroupMember → AddressGroup → Type 0
InStep s g = (k : String) → has_key s k ≡ has_key (address_set (to_address_group_msg g true)) k

calculated-InStep :
    (prev curr : AddressGroup) (s : Map String GroupMember)
    → WellKeyed prev
    → WellKeyed curr
    → KeysApart prev curr
    → InStep s prev
    → InStep (patched_addresses (calculated_patch prev curr) s) curr
unfolding calculated_patch
calculated-InStep prev curr s before after apart step k = ground (
  arith,
  has_key-patched_addresses (calculated_patch prev curr) s k,
  step k,
  apart k,
  has_key-address_set prev k before.0 before.1,
  has_key-address_set curr k after.0 after.1,
  keyed-members_without normalize_group_member_pod curr.pods prev.pods k after.0,
  keyed-members_without normalize_group_member_pod prev.pods curr.pods k before.0,
  keyed-members_without normalize_group_member curr.group_members prev.group_members k after.1,
  keyed-members_without normalize_group_member prev.group_members curr.group_members k before.1,
)

empty-keyed :
    {M : Type 0} (key : M → String) (k : String) (items : List M)
    → length items ≡ 0
    → keyed key k items ≡ false
unfolding keyed any
empty-keyed key k [] e = refl
empty-keyed key k (item ∷ items) e = absurd (ground (arith, e))

-- A patch of nothing leaves the keys as they are.
no_patch :
    (p : AddressGroupPatch) (s : Map String GroupMember) (k : String)
    → ltb 0 (patch_size p) ≡ false
    → has_key s k ≡ has_key (patched_addresses p s) k
unfolding patch_size
no_patch p s k e = ground (
  arith,
  has_key-patched_addresses p s k,
  e,
  empty-keyed normalize_group_member_pod k p.added_pods,
  empty-keyed normalize_group_member_pod k p.removed_pods,
  empty-keyed normalize_group_member k p.added_group_members,
  empty-keyed normalize_group_member k p.removed_group_members,
)

-- When the agent's set of an address group has the keys of the controller's previous version, then after
-- the patch of the event, or without one where the event has none, it has the keys of the current
-- version, as if that had been sent whole. The members of both versions are under their own keys, and no
-- key is one of a Pod and one of another member.
pub patch_of-InStep :
    (prev curr : AddressGroup) (s : Map String GroupMember)
    → WellKeyed prev
    → WellKeyed curr
    → KeysApart prev curr
    → InStep s prev
    → InStep (patched (patch_of (some prev) (some curr)) s) curr
unfolding patch_of patched
patch_of-InStep prev curr s before after apart step k =
    elim (Bool-cases (ltb 0 (patch_size (calculated_patch prev curr)))) [
      | inl e ↦ rw (e, if◌then◌else◌) (calculated-InStep prev curr s before after apart step k)
      | inr e ↦
          rw (e, if◌then◌else◌)
            (no_patch (calculated_patch prev curr) s k e
              ∙ calculated-InStep prev curr s before after apart step k)
    ]
