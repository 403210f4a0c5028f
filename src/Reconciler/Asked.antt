-- ===== src/Reconciler/Asked.antt =====
-- What reconciler.go of pkg/agent/controller/networkpolicy asks of an OpenFlow client: any client, with a
-- record beside its state of what its calls that succeeded came to. What flows the client makes of the
-- calls does not matter here.
use antrea.Common.{
  ℕ, ◌≡◌, refl, Bool, true, false, ◌&&◌, ◌||◌, not, Option, none, some, List, if◌then◌else◌, ◌==◌,
  String, Eq, Unique, get,
}
use antrea.Conjunctions.Addresses.{Address, AddressType}
use antrea.Conjunctions.Rules.{direction_in, PolicyRule}
use antrea.Priority.Order.{Order}
use antrea.RuleCache.{CompletedRule}
use antrea.Reconciler.{ServicesKey, bytes_eq}
use antrea.Reconciler.Rules.{Environment, or_empty, ip_blocks_to_of_addresses, pods_by_services}
use antrea.Reconciler.Installs.{FlowClient, Work}
use antrea.Reconciler.Updates.{update}
use antrea.Reconciler.Flows.{among, same_type, in_rule, IsFlowClient}
use antrea.Reconciler.Steps.{ValidIds}
use antrea.Reconciler.Sources.{Compatible}
use antrea.Reconciler.Realized.{Realized, Reached, update-Reached}

-- Whether an address is asked for, by the ID of the rule and the side.
abbrev pub Asked : Type 0
Asked = ℕ → AddressType → Address → Bool

-- The state of a client, with what was asked of it.
pub record Traced (C : Type 0) : Type 0 where
  pub state : C
  pub asked : Asked

unfoldable pub if_done : Bool → Asked → Asked → Asked
if_done true new old = new
if_done false new old = old

unfoldable pub if_gone : Option (List String) → Asked → Asked → Asked
if_gone none new old = old
if_gone (some stale) new old = new

-- An installed rule has the addresses that it is installed with.
abbrev pub installed : PolicyRule → Asked → Asked
installed r old = λ id t a. if r.flow_id == id then in_rule r t a else old id t a

abbrev pub extended : ℕ → AddressType → List Address → Asked → Asked
extended of_id t l old = λ id u a. old id u a || ((of_id == id) && same_type t u && among a l)

abbrev pub reduced : ℕ → AddressType → List Address → Asked → Asked
reduced of_id t l old = λ id u a. old id u a && not ((of_id == id) && same_type t u && among a l)

abbrev pub uninstalled : ℕ → Asked → Asked
uninstalled of_id old = λ id t a. if of_id == id then false else old id t a

pub if_done-true :
    (b : Bool) (new old : Asked) (id : ℕ) (t : AddressType) (a : Address)
    → b ≡ true
    → if_done b new old id t a ≡ new id t a
unfolding if_done
if_done-true b new old id t a h = rw h refl

pub if_gone-some :
    (o : Option (List String)) (stale : List String) (of_id : ℕ) (old : Asked) (id : ℕ)
    (t : AddressType) (a : Address)
    → o ≡ some stale
    → (of_id == id) ≡ false
    → if_gone o (uninstalled of_id old) old id t a ≡ old id t a
unfolding if_gone
if_gone-some o stale of_id old id t a h apart = rw h (rw (apart, if◌then◌else◌) refl)

module _ {C : Type 0} (client : FlowClient C) where
  -- The client makes the same calls with the same results.
  abbrev pub traced : FlowClient (Traced C)
  traced = record {
    install_policy_rule_flows = λ c r.
        let answer = client.install_policy_rule_flows c.state r in
        (
          record { state = answer.0; asked = if_done answer.1 (installed r c.asked) c.asked },
          answer.1,
        );
    uninstall_policy_rule_flows = λ c of_id.
        let answer = client.uninstall_policy_rule_flows c.state of_id in
        (
          record { state = answer.0; asked = if_gone answer.1 (uninstalled of_id c.asked) c.asked },
          answer.1,
        );
    add_policy_rule_address = λ c of_id t l p.
        let answer = client.add_policy_rule_address c.state of_id t l p in
        (
          record {
            state = answer.0;
            asked = if_done answer.1 (extended of_id t l c.asked) c.asked;
          },
          answer.1,
        );
    delete_policy_rule_address = λ c of_id t l p.
        let answer = client.delete_policy_rule_address c.state of_id t l p in
        (
          record { state = answer.0; asked = if_done answer.1 (reduced of_id t l c.asked) c.asked },
          answer.1,
        );
    reassign_flow_priorities = λ c updates table.
        let answer = client.reassign_flow_priorities c.state updates table in
        (record { state = answer.0; asked = c.asked }, answer.1);
  }

  abbrev pub asked_of : IsFlowClient traced
  asked_of = record {
    shows = λ c. c.asked;
    shows-install = λ c r id t a h.
        if_done-true (client.install_policy_rule_flows c.state r).1 (installed r c.asked) c.asked id
          t a h;
    shows-add = λ c of_id t l p id u a h.
        if_done-true (client.add_policy_rule_address c.state of_id t l p).1
          (extended of_id t l c.asked) c.asked id u a h;
    shows-delete = λ c of_id t l p id u a h.
        if_done-true (client.delete_policy_rule_address c.state of_id t l p).1
          (reduced of_id t l c.asked) c.asked id u a h;
    shows-uninstall = λ c of_id id t a stale h apart.
        if_gone-some (client.uninstall_policy_rule_flows c.state of_id).1 stale of_id c.asked id t a
          h apart;
  }

  -- For any OpenFlow client: after an update of an ingress rule without an error, each group of its
  -- Pods has an ID, for which the calls that succeeded have together asked for exactly the new
  -- source addresses and IP blocks and the ports of the group, and no other group has an ID. Before
  -- it the calls have asked for the addresses of the last version, for each ID of the rule; its IDs
  -- are given out and differ; and no two source members of the versions share an address, nor does
  -- one that stays change. Addresses are told apart as the calls name them, and a call counts
  -- whatever its priority.
  pub update-asked :
      {P : Type 0} ⦃eq_p : Eq P⦄ ⦃order : Order P⦄ (env : Environment) (c : CompletedRule)
      (p : Option ℕ) (table : ℕ) (blocks : List Address) (w w' : Work (Traced C) P)
      → c.rule.direction ≡ direction_in
      → ip_blocks_to_of_addresses env c.rule.from.ip_blocks ≡ some blocks
      → ValidIds w
      → Unique w.last.of_ids
      → Realized traced asked_of env c p table blocks w
      → Compatible (or_empty w.last.completed.from_addresses) (or_empty c.from_addresses)
      → update traced env w c p table ≡ some (w', true)
      → (k : ServicesKey)
      → Reached traced asked_of env c p table blocks w' k (get (pods_by_services c).0 k)
  update-asked env c p table blocks w w' inward found v u realized same h k =
      update-Reached traced asked_of env c p table blocks w w' inward found v u realized same h k
