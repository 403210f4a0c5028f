-- ===== src/Reconciler.antt =====
-- pkg/agent/controller/networkpolicy/reconciler.go: the OpenFlow rules that a completed rule is split
-- into, by what the named ports of its services resolve to. An IP or an OpenFlow port is known by a
-- text, and an IP net by that of its `net_text`.
pub mod Rules
pub mod Installs
pub mod Updates
pub mod Adds
pub mod Calls
pub mod Flows
pub mod Differences
pub mod Kinds
pub mod Steps
pub mod Rounds
pub mod Loops
pub mod Targets
pub mod Leftovers
pub mod Ingress
pub mod Sources
pub mod Realized
pub mod Asked
pub mod Tests
use antrea.Common.{
  ℕ, ◌/◌, ◌%◌, String, string_eq, Bool, true, false, ◌&&◌, ◌||◌, not, Option, none, some, List, [],
  ◌∷◌, ◌++◌, map, any, keep, Eq, ◌↔◌, ◌≡◌, refl, ap, ==_iff, arith, if◌then◌else◌, Map, get, put,
  ◌==◌,
}
use antrea.Conjunctions.Addresses.{Protocol, tcp, udp, sctp, other_protocol}
use antrea.RuleCache.{
  Service, Port, int_port, string_port, NamedPort, Endpoint, GroupMember, GroupMemberPod, has_key,
}

-- The bytes of binary.Write for an int32 in big endian.
unfoldable pub be_bytes : ℕ → List ℕ
be_bytes n = n / 16777216 % 256 ∷ n / 65536 % 256 ∷ n / 256 % 256 ∷ n % 256 ∷ []

unfoldable pub port_bytes : Option Port → List ℕ
port_bytes none = []
port_bytes (some (int_port n)) = be_bytes n
port_bytes (some (string_port name)) = be_bytes 0

-- A servicesKey is a string of bytes.
abbrev pub ServicesKey : Type 0
ServicesKey = List ℕ

unfoldable pub normalize_services : List Service → ServicesKey
normalize_services [] = []
normalize_services (svc ∷ services) = port_bytes svc.port ++ normalize_services services

unfoldable pub same_protocol : Protocol → Protocol → Bool
same_protocol tcp tcp = true
same_protocol udp udp = true
same_protocol sctp sctp = true
same_protocol other_protocol other_protocol = true
same_protocol p q = false

-- The number of the first port with the name and the protocol.
unfoldable pub find_port : List NamedPort → String → Protocol → Option ℕ
find_port [] name protocol = none
find_port (p ∷ ports) name protocol =
    let rest = find_port ports name protocol in
    if string_eq.beq p.name name && same_protocol p.protocol protocol then some p.port else rest

-- A service is as it is if the port is not found.
unfoldable pub resolved : Service → Option ℕ → Service
resolved service none = service
resolved service (some port) = record { protocol = service.protocol; port = some (int_port port) }

unfoldable pub resolve_port : Service → List NamedPort → Option Port → Service
resolve_port service ports none = service
resolve_port service ports (some (int_port n)) = service
resolve_port service ports (some (string_port name)) =
    resolved service (find_port ports name service.protocol)

unfoldable pub resolve_service_for_pod : GroupMemberPod → Service → Service
resolve_service_for_pod pod service = resolve_port service pod.ports service.port

-- The ports of all endpoints, in the order of the two loops.
unfoldable pub endpoint_ports : List Endpoint → List NamedPort
endpoint_ports [] = []
endpoint_ports (ep ∷ eps) = ep.ports ++ endpoint_ports eps

unfoldable pub resolve_service : GroupMember → Service → Service
resolve_service member service = resolve_port service (endpoint_ports member.endpoints) service.port

unfoldable pub is_named : Service → Bool
is_named svc = elim svc.port [
  | none ↦ false
  | some p ↦ elim p [ int_port n ↦ false | string_port s ↦ true ]
]

-- groupPodsByServices and groupMembersByServices, whose code is the same: the members by the key of what
-- their services resolve to, and these services.
abbrev pub Groups : Type 0 → Type 0
Groups M = Map ServicesKey (Map String M) × Map ServicesKey (List Service)

unfoldable pub bytes_beq : List ℕ → List ℕ → Bool
bytes_beq [] [] = true
bytes_beq [] (y ∷ ys) = false
bytes_beq (x ∷ xs) [] = false
bytes_beq (x ∷ xs) (y ∷ ys) = (x == y) && bytes_beq xs ys

pub bytes_beq_iff : (xs ys : List ℕ) → (bytes_beq xs ys ≡ true) ↔ (xs ≡ ys)
unfolding bytes_beq
bytes_beq_iff [] [] = (λ h. refl, λ h. refl)
bytes_beq_iff [] (y ∷ ys) = (λ h. cc h, λ h. absurd (cc h))
bytes_beq_iff (x ∷ xs) [] = (λ h. cc h, λ h. absurd (cc h))
bytes_beq_iff (x ∷ xs) (y ∷ ys) = ground (arith, bytes_beq_iff xs ys)

instance abbrev pub bytes_eq : Eq (List ℕ)
bytes_eq = record { beq = bytes_beq; beq_iff = bytes_beq_iff }

module _ {M : Type 0} (resolve : M → Service → Service) where
  -- The loop over the members.
  unfoldable pub group_loop : List Service → Map String M → Groups M → Groups M
  group_loop services [] groups = groups
  group_loop services ((key, member) ∷ members) groups =
      let resolved_services = map (resolve member) services in
      let svc_key = normalize_services resolved_services in
      elim (get groups.0 svc_key) [
        | none ↦
            group_loop services members
              (put groups.0 svc_key ((key, member) ∷ []), put groups.1 svc_key resolved_services)
        | some group ↦
            group_loop services members (put groups.0 svc_key (put group key member), groups.1)
      ]

  -- Without a named port all are in one group.
  unfoldable pub group_by_services : List Service → Map String M → Groups M
  group_by_services services members =
      if any is_named services then group_loop services members ([], []) else (
        (normalize_services services, members) ∷ [],
        (normalize_services services, services) ∷ [],
      )

unfoldable pub resolvable : Service → Bool
resolvable svc = not (is_named svc)

-- None is a nil slice, which allows all ports.
unfoldable pub filter_unresolvable_port : List Service → Option (List Service)
filter_unresolvable_port [] = none
filter_unresolvable_port (svc ∷ services) = some (keep resolvable (svc ∷ services))

-- GroupMemberPodSet.Difference and GroupMemberSet.Difference
unfoldable pub difference : {M : Type 0} → Map String M → Map String M → Map String M
difference [] o = []
difference ((key, item) ∷ s) o =
    let rest = difference s o in if has_key o key then rest else (key, item) ∷ rest
