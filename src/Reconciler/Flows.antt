-- ===== src/Reconciler/Flows.antt =====
-- What pkg/agent/controller/networkpolicy/reconciler.go asks of the OpenFlow client, and what the calls of
-- updateOFRule make of the addresses of a rule.
use antrea.Common.{
  ℕ, ◌≡◌, refl, arith, String, string_eq, Bool, true, false, ◌&&◌, ◌||◌, not, Option, none, some,
  List, [], ◌∷◌, any, ◌==◌, if◌then◌else◌,
}
use antrea.Conjunctions.Addresses.{
  Address, ip_address, ip_net_address, of_port_address, AddressType, src_address, dst_address,
  unknown_type,
}
use antrea.Conjunctions.Rules.{PolicyRule}
use antrea.Reconciler.Installs.{FlowClient, with_addresses, update_of_rule}

unfoldable pub same_address : Address → Address → Bool
same_address (ip_address a) (ip_address b) = string_eq.beq a b
same_address (ip_net_address a) (ip_net_address b) = string_eq.beq a b
same_address (of_port_address a) (of_port_address b) = string_eq.beq a b
same_address a b = false

unfoldable pub among : Address → List Address → Bool
among a addresses = any (same_address a) addresses

unfoldable pub same_type : AddressType → AddressType → Bool
same_type src_address src_address = true
same_type dst_address dst_address = true
same_type unknown_type unknown_type = true
same_type t u = false

unfoldable pub listed_in : Option (List Address) → Address → Bool
listed_in none a = false
listed_in (some addresses) a = among a addresses

-- Whether a rule has the address in the clause of the type.
unfoldable pub in_rule : PolicyRule → AddressType → Address → Bool
in_rule r src_address a = listed_in r.from a
in_rule r dst_address a = listed_in r.to a
in_rule r unknown_type a = false

-- A view of the state of a client that a call without an error changes by the addresses that it names, for
-- the ID that it names and no other. What was asked of a client is one (Asked).
pub record IsFlowClient {C : Type 0} (client : FlowClient C) : Type 0 where
  pub shows : C → ℕ → AddressType → Address → Bool
  pub shows-install :
      (c : C) (r : PolicyRule) (id : ℕ) (t : AddressType) (a : Address)
      → (client.install_policy_rule_flows c r).1 ≡ true
      → shows (client.install_policy_rule_flows c r).0 id t a
        ≡ (if r.flow_id == id then in_rule r t a else shows c id t a)
  pub shows-add :
      (c : C) (of_id : ℕ) (t : AddressType) (l : List Address) (p : Option ℕ) (id : ℕ)
      (u : AddressType) (a : Address)
      → (client.add_policy_rule_address c of_id t l p).1 ≡ true
      → shows (client.add_policy_rule_address c of_id t l p).0 id u a
        ≡ shows c id u a || ((of_id == id) && same_type t u && among a l)
  pub shows-delete :
      (c : C) (of_id : ℕ) (t : AddressType) (l : List Address) (p : Option ℕ) (id : ℕ)
      (u : AddressType) (a : Address)
      → (client.delete_policy_rule_address c of_id t l p).1 ≡ true
      → shows (client.delete_policy_rule_address c of_id t l p).0 id u a
        ≡ shows c id u a && not ((of_id == id) && same_type t u && among a l)
  pub shows-uninstall :
      (c : C) (of_id id : ℕ) (t : AddressType) (a : Address) (stale : List String)
      → (client.uninstall_policy_rule_flows c of_id).1 ≡ some stale
      → (of_id == id) ≡ false
      → shows (client.uninstall_policy_rule_flows c of_id).0 id t a ≡ shows c id t a

module _ {C : Type 0} (client : FlowClient C) (ok : IsFlowClient client) where
  -- A call that is made if there are addresses: with none its effect is that of no address.
  with_addresses-ok :
      (call : C → List Address → C × Bool) (l : List Address) (m : C × Bool)
      → (with_addresses client call l m).1 ≡ true
      → m.1 ≡ true
  unfolding with_addresses
  with_addresses-ok call l (c, false) h = h
  with_addresses-ok call l (c, true) h = refl

  shows-with_add :
      (of_id : ℕ) (t : AddressType) (p : Option ℕ) (l : List Address) (m : C × Bool) (id : ℕ)
      (u : AddressType) (a : Address)
      → (with_addresses client (λ c k. client.add_policy_rule_address c of_id t k p) l m).1 ≡ true
      → ok.shows
          (with_addresses client (λ c k. client.add_policy_rule_address c of_id t k p) l m).0
          id
          u
          a
        ≡ ok.shows m.0 id u a || ((of_id == id) && same_type t u && among a l)
  unfolding with_addresses among any
  shows-with_add of_id t p l (c, false) id u a h = absurd (cc h)
  shows-with_add of_id t p [] (c, true) id u a h = ground arith
  shows-with_add of_id t p (b ∷ l) (c, true) id u a h = ok.shows-add c of_id t (b ∷ l) p id u a h

  shows-with_delete :
      (of_id : ℕ) (t : AddressType) (p : Option ℕ) (l : List Address) (m : C × Bool) (id : ℕ)
      (u : AddressType) (a : Address)
      → (with_addresses client (λ c k. client.delete_policy_rule_address c of_id t k p) l m).1
        ≡ true
      → ok.shows
          (with_addresses client (λ c k. client.delete_policy_rule_address c of_id t k p) l m).0
          id
          u
          a
        ≡ ok.shows m.0 id u a && not ((of_id == id) && same_type t u && among a l)
  unfolding with_addresses among any
  shows-with_delete of_id t p l (c, false) id u a h = absurd (cc h)
  shows-with_delete of_id t p [] (c, true) id u a h = ground arith
  shows-with_delete of_id t p (b ∷ l) (c, true) id u a h =
      ok.shows-delete c of_id t (b ∷ l) p id u a h

  -- All four calls: the source addresses are added to and cut, then those of the destination, of this
  -- rule only.
  pub shows-update_of_rule :
      (c : C) (of_id : ℕ) (added_from added_to deleted_from deleted_to : List Address)
      (p : Option ℕ) (id : ℕ) (u : AddressType) (a : Address)
      → (update_of_rule client c of_id added_from added_to deleted_from deleted_to p).1 ≡ true
      → ok.shows
          (update_of_rule client c of_id added_from added_to deleted_from deleted_to p).0
          id
          u
          a
        ≡ (((ok.shows c id u a || ((of_id == id) && same_type src_address u && among a added_from))
              || ((of_id == id) && same_type dst_address u && among a added_to))
            && not ((of_id == id) && same_type src_address u && among a deleted_from))
          && not ((of_id == id) && same_type dst_address u && among a deleted_to)
  unfolding update_of_rule
  shows-update_of_rule c of_id added_from added_to deleted_from deleted_to p id u a h =
      let add : AddressType → C → List Address → C × Bool =
        λ t x k. client.add_policy_rule_address x of_id t k p in
      let cut : AddressType → C → List Address → C × Bool =
        λ t x k. client.delete_policy_rule_address x of_id t k p in
      let m1 : C × Bool = with_addresses client (add src_address) added_from (c, true) in
      let m2 : C × Bool = with_addresses client (add dst_address) added_to m1 in
      let m3 : C × Bool = with_addresses client (cut src_address) deleted_from m2 in
      let h3 : m3.1 ≡ true = with_addresses-ok (cut dst_address) deleted_to m3 h in
      let h2 : m2.1 ≡ true = with_addresses-ok (cut src_address) deleted_from m2 h3 in
      let h1 : m1.1 ≡ true = with_addresses-ok (add dst_address) added_to m1 h2 in
      ground (
        arith,
        shows-with_add of_id src_address p added_from (c, true) id u a h1,
        shows-with_add of_id dst_address p added_to m1 id u a h2,
        shows-with_delete of_id src_address p deleted_from m2 id u a h3,
        shows-with_delete of_id dst_address p deleted_to m3 id u a h,
      )
