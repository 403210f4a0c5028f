-- ===== src/Reconciler/Steps.antt =====
-- One group in the loop of `update` in pkg/agent/controller/networkpolicy/reconciler.go, and one rule that
-- is installed or uninstalled: what becomes of the IDs and of the addresses of each rule.
use antrea.Common.{
  ℕ, ◌≡◌, refl, ap, sym, ◌∙◌, subst, inl, inr, arith, Bool, true, false, ◌||◌, Option, some, get,
  put, get-put, get-put_self, Eq, ◌==◌, ==_iff, ==_refl, if◌then◌else◌, Bool-cases,
}
use antrea.Conjunctions.Addresses.{Address, AddressType, src_address, dst_address, unknown_type}
use antrea.Conjunctions.Rules.{PolicyRule}
use antrea.Priority.Order.{Order}
use antrea.RuleId.{IdAllocator, allocate}
use antrea.RuleId.Usage.{IsValid, in_use, Allocates, given, exhausted, allocate-Allocates}
use antrea.Reconciler.{ServicesKey, bytes_eq}
use antrea.Reconciler.Installs.{FlowClient, Work, install_of_rule, install_new}
use antrea.Reconciler.Flows.{listed_in, IsFlowClient, in_rule}

-- The IDs of the rule are in use, and each is that of one key.
pub record ValidIds {C P : Type 0} (w : Work C P) : Type 0 where
  pub valid : IsValid w.id_allocator
  pub used :
      (k : ServicesKey) (i : ℕ) → get w.last.of_ids k ≡ some i → in_use w.id_allocator i ≡ true
  pub apart :
      (j k : ServicesKey) (i : ℕ)
      → get w.last.of_ids j ≡ some i
      → get w.last.of_ids k ≡ some i
      → j ≡ k

same_rule :
    (r : PolicyRule) (id : ℕ) (t : AddressType) (a : Address)
    → in_rule (record r { flow_id = id }) t a ≡ in_rule r t a
unfolding in_rule
same_rule r id src_address a = refl
same_rule r id dst_address a = refl
same_rule r id unknown_type a = refl

-- The flows of the rule have exactly the source and destination addresses of the tests.
abbrev pub Shows :
    {C : Type 0} {client : FlowClient C}
    → IsFlowClient client
    → C
    → ℕ
    → (Address → Bool)
    → (Address → Bool)
    → Type 0
Shows ok c id from to =
    ((a : Address) → ok.shows c id src_address a ≡ from a)
    × ((a : Address) → ok.shows c id dst_address a ≡ to a)

module _ {C P : Type 0} ⦃eq_p : Eq P⦄ ⦃order : Order P⦄ (client : FlowClient C) where
  -- A new rule was installed under a free ID.
  pub record Installed (w : Work C P) (key : ServicesKey) (r : PolicyRule) (w' : Work C P)
      : Type 0 where
    pub of_id : ℕ
    pub free : in_use w.id_allocator of_id ≡ false
    pub valid : IsValid w'.id_allocator
    pub used : (j : ℕ) → in_use w'.id_allocator j ≡ (of_id == j) || in_use w.id_allocator j
    pub of_ids : w'.last.of_ids ≡ put w.last.of_ids key of_id
    pub pod_of_ports : w'.last.pod_of_ports ≡ w.last.pod_of_ports
    pub flows :
        w'.client ≡ (client.install_policy_rule_flows w.client (record r { flow_id = of_id })).0
    pub no_error :
        (client.install_policy_rule_flows w.client (record r { flow_id = of_id })).1 ≡ true

  given_id : Work C P → ServicesKey → PolicyRule → IdAllocator → ℕ → Work C P
  given_id w key r b id = record w {
    client = (client.install_policy_rule_flows w.client (record r { flow_id = id })).0;
    id_allocator = b;
    last = record (w.last) { of_ids = put w.last.of_ids key id };
  }

  given_rule :
      (w : Work C P) (key : ServicesKey) (r : PolicyRule) (x : IdAllocator × Option ℕ)
      → Allocates w.id_allocator x
      → allocate w.id_allocator ≡ x
      → (install_new client w key r).1 ≡ true
      → Installed w key r (install_new client w key r).0
  unfolding install_new install_of_rule given_id
  given_rule w key r x (exhausted all) e h =
      let no : (install_new client w key r).1 ≡ false = rw (e, install_new) refl in
      let both : true ≡ false = sym h ∙ no in cc both
  given_rule w key r x (given b id valid free low high used) e h =
      elim (Bool-cases (client.install_policy_rule_flows w.client (record r { flow_id = id })).1) [
        | inl t ↦
            let done : install_new client w key r ≡ (given_id w key r b id, true) =
              rw (e, install_new)
                (rw (t, if◌then◌else◌)
                  (ap (λ (y : IdAllocator × Option ℕ). (given_id w key r y.0 id, true)) e)) in
            subst (λ (y : Work C P × Bool). Installed w key r y.0) (sym done)
              (record {
                of_id = id;
                free = free;
                valid = valid;
                used = used;
                of_ids = refl;
                pod_of_ports = refl;
                flows = refl;
                no_error = t;
              })
        | inr t ↦
            let no : (install_new client w key r).1 ≡ false =
              rw (e, install_new) (rw (t, if◌then◌else◌) refl) in
            let both : true ≡ false = sym h ∙ no in cc both
      ]

  pub install_new-Installed :
      (w : Work C P) (key : ServicesKey) (r : PolicyRule)
      → IsValid w.id_allocator
      → (install_new client w key r).1 ≡ true
      → Installed w key r (install_new client w key r).0
  install_new-Installed w key r v h =
      given_rule w key r (allocate w.id_allocator) (allocate-Allocates w.id_allocator v) refl h

  module _ (ok : IsFlowClient client) where
    -- The rule of the key is installed and has these addresses.
    abbrev pub Has : Work C P → ServicesKey → (Address → Bool) → (Address → Bool) → Type 0
    Has w key from to = (id : ℕ) × (get w.last.of_ids key ≡ some id) × Shows ok w.client id from to

    -- A new rule leaves the others as they are.
    pub Installed-Has :
        (w w' : Work C P) (key k : ServicesKey) (r : PolicyRule) (from to : Address → Bool)
        → ValidIds w
        → Installed w key r w'
        → bytes_eq.beq key k ≡ false
        → Has w k from to
        → Has w' k from to
    Installed-Has w w' key k r from to v i apart (id, found, (src, dst)) =
        let other : (i.of_id == id) ≡ false =
          ground (arith, i.free, v.used k id found, ==_iff i.of_id id) in
        let kept : (t : AddressType) (a : Address)
            → ok.shows w'.client id t a ≡ ok.shows w.client id t a =
          λ t a.
            ap (λ (c : C). ok.shows c id t a) i.flows
            ∙ ok.shows-install w.client (record r { flow_id = i.of_id }) id t a i.no_error
            ∙ rw (other, if◌then◌else◌) refl in
        (
          id,
          ap (λ m. get m k) i.of_ids
              ∙ get-put w.last.of_ids key k i.of_id
              ∙ rw (apart, if◌then◌else◌) found,
          (λ a. kept src_address a ∙ src a, λ a. kept dst_address a ∙ dst a),
        )

    pub Installed-new :
        (w w' : Work C P) (key : ServicesKey) (r : PolicyRule)
        → Installed w key r w'
        → Has w' key (listed_in r.from) (listed_in r.to)
    unfolding in_rule
    Installed-new w w' key r i =
        let here : (i.of_id == i.of_id) ≡ true = ==_refl i.of_id in
        let now : (t : AddressType) (a : Address) → ok.shows w'.client i.of_id t a ≡ in_rule r t a =
          λ t a.
            ap (λ (c : C). ok.shows c i.of_id t a) i.flows
            ∙ ok.shows-install w.client (record r { flow_id = i.of_id }) i.of_id t a i.no_error
            ∙ rw (here, if◌then◌else◌) (same_rule r i.of_id t a) in
        (
          i.of_id,
          ap (λ m. get m key) i.of_ids ∙ get-put_self w.last.of_ids key i.of_id,
          (λ a. now src_address a, λ a. now dst_address a),
        )

    pub Installed-ValidIds :
        (w w' : Work C P) (key : ServicesKey) (r : PolicyRule)
        → ValidIds w
        → Installed w key r w'
        → ValidIds w'
    Installed-ValidIds w w' key r v i =
        let put_id : (k : ServicesKey)
            → get w'.last.of_ids k
              ≡ (if bytes_eq.beq key k then some i.of_id else get w.last.of_ids k) =
          λ k. ap (λ m. get m k) i.of_ids ∙ get-put w.last.of_ids key k i.of_id in
        let not_free : (k : ServicesKey) (n : ℕ)
            → get w.last.of_ids k ≡ some n
            → (i.of_id == n) ≡ false =
          λ k n h. ground (arith, i.free, v.used k n h, ==_iff i.of_id n) in
        record {
          valid = i.valid;
          used = λ k n h. ground (arith, put_id k, i.used n, v.used k n, h, ==_iff i.of_id n);
          apart = λ j k n g h. elim (Bool-cases (bytes_eq.beq key j)) [
            | inl e ↦ elim (Bool-cases (bytes_eq.beq key k)) [
              | inl f ↦ sym ((bytes_eq.beq_iff key j).0 e) ∙ (bytes_eq.beq_iff key k).0 f
              | inr f ↦ absurd (ground (arith, put_id j, g, e, put_id k, h, f, not_free k n))
            ]
            | inr e ↦ elim (Bool-cases (bytes_eq.beq key k)) [
              | inl f ↦ absurd (ground (arith, put_id j, g, e, put_id k, h, f, not_free j n))
              | inr f ↦
                  v.apart j k n (ground (arith, put_id j, g, e)) (ground (arith, put_id k, h, f))
            ]
          ];
        }
