-- ===== src/GroupStore/Patches.antt =====
-- What the patches of pkg/controller/networkpolicy/store/addressgroup.go do to the set that
-- pkg/agent/controller/networkpolicy/cache.go has of a group.
use antrea.Common.{
  ◌≡◌, refl, ap, ◌∙◌, inl, inr, arith, String, string_eq, Bool, true, false, ◌&&◌, ◌||◌, not, List,
  [], ◌∷◌, any, map, Map, get, put, remove, get-put, get-remove, Option-cases,
}
use antrea.RuleCache.{
  GroupMember, GroupMemberPod, has_key, insert, delete, normalize_group_member,
  normalize_group_member_pod, to_group_member, endpoint_ips, entity_key,
}
use antrea.RuleCache.Groups.{AddressGroupPatch, patched_addresses, address_set}
use text.Mathlib.TextLemmas.{append-nil}
use antrea.GroupStore.{AddressGroup, values, members_without, to_address_group_msg}

unfoldable pub keyed : {M : Type 0} → (M → String) → String → List M → Bool
keyed key k items = any (λ item. string_eq.beq (key item) k) items

module _ {M : Type 0} (key : M → String) where
  has_key-insert :
      (items : List M) (s : Map String M) (k : String)
      → has_key (insert key items s) k ≡ keyed key k items || has_key s k
  unfolding insert has_key keyed any
  has_key-insert [] s k = refl
  has_key-insert (item ∷ items) s k =
      has_key-insert items (put s (key item) item) k ∙ ground (arith, get-put s (key item) k item)

  has_key-delete :
      (items : List M) (s : Map String M) (k : String)
      → has_key (delete key items s) k ≡ has_key s k && not (keyed key k items)
  unfolding delete has_key keyed any
  has_key-delete [] s k = ground arith
  has_key-delete (item ∷ items) s k =
      has_key-delete items (remove s (key item)) k ∙ ground (arith, get-remove s (key item) k)

  -- Each member is under its own key.
  abbrev pub Keyed : Map String M → Type 0
  Keyed [] = Unit
  Keyed ((k, item) ∷ s) = (k ≡ key item) × Keyed s

  keyed-values : (s : Map String M) (k : String) → Keyed s → keyed key k (values s) ≡ has_key s k
  unfolding values has_key keyed any get
  keyed-values [] k own = refl
  keyed-values ((j, item) ∷ s) k own = ground (arith, keyed-values s k own.1)

  has_key-cons :
      (s : Map String M) (j k : String) (item : M)
      → has_key ((j, item) ∷ s) k ≡ string_eq.beq j k || has_key s k
  unfolding has_key get
  has_key-cons s j k item = ground arith

  has_key-empty : (k : String) → has_key {M = M} [] k ≡ false
  unfolding has_key get
  has_key-empty k = refl

  pub keyed-members_without :
      (s o : Map String M) (k : String)
      → Keyed s
      → keyed key k (members_without s o) ≡ has_key s k && not (has_key o k)
  unfolding members_without keyed any
  keyed-members_without [] o k own = ground (arith, has_key-empty k)
  keyed-members_without ((j, item) ∷ s) o k own =
      let same : string_eq.beq j k ≡ true → has_key o j ≡ has_key o k =
        λ e. ap (has_key o) ((string_eq.beq_iff j k).0 e) in
      ground (arith, same, has_key-cons s j k item, keyed-members_without s o k own.1, own.0)

to_group_member-key :
    (p : GroupMemberPod) → normalize_group_member (to_group_member p) ≡ normalize_group_member_pod p
unfolding normalize_group_member to_group_member normalize_group_member_pod entity_key endpoint_ips
to_group_member-key p = elim (Option-cases p.pod) [
  | inl e ↦ rw (e, normalize_group_member_pod, normalize_group_member) (append-nil p.ip)
  | inr (r, e) ↦ rw (e, normalize_group_member_pod, normalize_group_member) refl
]

keyed-to_group_member :
    (pods : List GroupMemberPod) (k : String)
    → keyed normalize_group_member k (map to_group_member pods)
      ≡ keyed normalize_group_member_pod k pods
unfolding keyed any
keyed-to_group_member [] k = refl
keyed-to_group_member (p ∷ pods) k =
    ap (λ n. string_eq.beq n k || keyed normalize_group_member k (map to_group_member pods))
      (to_group_member-key p)
    ∙ ap (λ b. string_eq.beq (normalize_group_member_pod p) k || b) (keyed-to_group_member pods k)

pub has_key-patched_addresses :
    (p : AddressGroupPatch) (s : Map String GroupMember) (k : String)
    → has_key (patched_addresses p s) k ≡ (
        (keyed normalize_group_member k p.added_group_members
          || ((keyed normalize_group_member_pod k p.added_pods || has_key s k)
              && not (keyed normalize_group_member_pod k p.removed_pods)))
        && not (keyed normalize_group_member k p.removed_group_members))
unfolding patched_addresses
has_key-patched_addresses p s k =
    let added = insert normalize_group_member (map to_group_member p.added_pods) s in
    let less = delete normalize_group_member (map to_group_member p.removed_pods) added in
    let more = insert normalize_group_member p.added_group_members less in
    rw
      (
        has_key-delete normalize_group_member p.removed_group_members more k,
        has_key-insert normalize_group_member p.added_group_members less k,
        has_key-delete normalize_group_member (map to_group_member p.removed_pods) added k,
        has_key-insert normalize_group_member (map to_group_member p.added_pods) s k,
        keyed-to_group_member p.added_pods k,
        keyed-to_group_member p.removed_pods k,
      )
      refl

-- The agent's set of a group that is sent whole.
pub has_key-address_set :
    (g : AddressGroup) (k : String)
    → Keyed normalize_group_member_pod g.pods
    → Keyed normalize_group_member g.group_members
    → has_key (address_set (to_address_group_msg g true)) k
      ≡ has_key g.group_members k || has_key g.pods k
unfolding address_set to_address_group_msg
has_key-address_set g k pods members =
    let members_of = insert normalize_group_member (map to_group_member (values g.pods)) [] in
    has_key-insert normalize_group_member (values g.group_members) members_of k
    ∙ ground (
      arith,
      has_key-insert normalize_group_member (map to_group_member (values g.pods)) [] k,
      keyed-to_group_member (values g.pods) k,
      keyed-values normalize_group_member_pod g.pods k pods,
      keyed-values normalize_group_member g.group_members k members,
      has_key-empty normalize_group_member k,
    )
