-- ===== src/Conjunctions/Addresses.antt =====
-- The addresses and ports of a clause in pkg/agent/openflow/network_policy.go, and the changes of
-- contexts when they are added to it or deleted.
use antrea.Common.{
  ℕ, zero, suc, ◌/◌, ◌%◌, String, Option, none, some, List, [], ◌∷◌, ltb, if◌then◌else◌, get_elem?,
}
use Prim.Native.String.{◌++◌ as concat}
use antrea.Conjunctions.{
  MatchKey, match_dst_ip, match_src_ip, match_dst_ip_net, match_src_ip_net, match_dst_of_port,
  match_src_of_port, match_tcp_dst_port, match_udp_dst_port, match_sctp_dst_port, unsupported,
  MatchValue, ip, ip_net, other, ConjunctiveMatch, GlobalKey, generate_global_map_key, Clause,
  ContextChange, Client,
}
use antrea.Conjunctions.Changes.{add_conjunctive_match_flow, delete_conjunctive_match_flow}

-- An AddressType is a number, of which two are known.
pub data AddressType : Type 0 where
  src_address dst_address unknown_type : AddressType

-- With the text of the address, the net or the ofport number.
pub data Address : Type 0 where
  ip_address ip_net_address of_port_address : String → Address

unfoldable pub ip_match_key : AddressType → MatchKey
ip_match_key src_address = match_src_ip
ip_match_key dst_address = match_dst_ip
ip_match_key unknown_type = unsupported

unfoldable pub ip_net_match_key : AddressType → MatchKey
ip_net_match_key src_address = match_src_ip_net
ip_net_match_key dst_address = match_dst_ip_net
ip_net_match_key unknown_type = unsupported

unfoldable pub of_port_match_key : AddressType → MatchKey
of_port_match_key src_address = match_src_of_port
of_port_match_key dst_address = match_dst_of_port
of_port_match_key unknown_type = unsupported

-- The method of the address that it is.
unfoldable pub get_match_key : Address → AddressType → MatchKey
get_match_key (ip_address a) addr_type = ip_match_key addr_type
get_match_key (ip_net_address a) addr_type = ip_net_match_key addr_type
get_match_key (of_port_address a) addr_type = of_port_match_key addr_type

unfoldable pub get_value : Address → MatchValue
get_value (ip_address a) = ip a
get_value (ip_net_address a) = ip_net a
get_value (of_port_address a) = other a

unfoldable pub generate_address_conj_match :
    Clause → Address → AddressType → Option ℕ → ConjunctiveMatch
generate_address_conj_match c addr addr_type priority = record {
  table_id = c.rule_table;
  priority = priority;
  match_key = get_match_key addr addr_type;
  match_value = get_value addr;
}

pub data Protocol : Type 0 where
  tcp udp sctp other_protocol : Protocol

unfoldable pub get_service_match_type : Protocol → MatchKey
get_service_match_type tcp = match_tcp_dst_port
get_service_match_type udp = match_udp_dst_port
get_service_match_type sctp = match_sctp_dst_port
get_service_match_type other_protocol = match_tcp_dst_port

-- The port is that of IntVal, an int32 that is not negative.
pub record Service : Type 0 where
  pub protocol : Protocol
  pub port : Option ℕ

abbrev digit_texts : List String
digit_texts = "0" ∷ "1" ∷ "2" ∷ "3" ∷ "4" ∷ "5" ∷ "6" ∷ "7" ∷ "8" ∷ "9" ∷ []

unfoldable pub digit : ℕ → String
digit n = elim (get_elem? digit_texts n) [ none ↦ "" | some d ↦ d ]

-- The decimal digits, at most `count` of them and one more.
unfoldable pub decimal : ℕ → ℕ → String
decimal zero n = digit (n % 10)
decimal (suc count) n =
    let front = decimal count (n / 10) in
    if ltb n 10 then digit n else concat front (digit (n % 10))

-- What Sprintf makes of a uint16 with "%s".
unfoldable pub port_text : ℕ → String
port_text n = concat "%!s(uint16=" (concat (decimal 4 n) ")")

unfoldable pub port_value : Option ℕ → ℕ
port_value none = 0
port_value (some p) = p % 65536

unfoldable pub generate_service_port_conj_match : Clause → Service → Option ℕ → ConjunctiveMatch
generate_service_port_conj_match c port priority = record {
  table_id = c.rule_table;
  priority = priority;
  match_key = get_service_match_type port.protocol;
  match_value = other (port_text (port_value port.port));
}

-- `cp` is the pointer of the clause `c`, whose matches stay the same in the loop.
unfoldable pub add_addr_flows :
    Client → ℕ → Clause → AddressType → List Address → Option ℕ → Client × List ContextChange
add_addr_flows client cp c addr_type [] priority = (client, [])
add_addr_flows client cp c addr_type (addr ∷ addresses) priority =
    let added =
      add_conjunctive_match_flow client cp c
        (generate_address_conj_match c addr addr_type priority) in
    let rest = add_addr_flows added.0 cp c addr_type addresses priority in
    (rest.0, elim added.1 [ none ↦ rest.1 | some change ↦ change ∷ rest.1 ])

-- The change of a port is kept when it is nil too.
unfoldable pub add_service_flows :
    Client → ℕ → Clause → List Service → Option ℕ → Client × List (Option ContextChange)
add_service_flows client cp c [] priority = (client, [])
add_service_flows client cp c (port ∷ ports) priority =
    let added =
      add_conjunctive_match_flow client cp c (generate_service_port_conj_match c port priority) in
    let rest = add_service_flows added.0 cp c ports priority in (rest.0, added.1 ∷ rest.1)

unfoldable pub delete_keys : Client → ℕ → Clause → List GlobalKey → List ContextChange
delete_keys client cp c [] = []
delete_keys client cp c (key ∷ keys) =
    let rest = delete_keys client cp c keys in
    elim (delete_conjunctive_match_flow client cp c key) [
      | none ↦ rest
      | some change ↦ change ∷ rest
    ]

unfoldable pub address_keys : Clause → AddressType → List Address → Option ℕ → List GlobalKey
address_keys c addr_type [] priority = []
address_keys c addr_type (addr ∷ addresses) priority =
    generate_global_map_key (generate_address_conj_match c addr addr_type priority)
    ∷ address_keys c addr_type addresses priority

unfoldable pub delete_addr_flows :
    Client → ℕ → Clause → AddressType → List Address → Option ℕ → List ContextChange
delete_addr_flows client cp c addr_type addresses priority =
    delete_keys client cp c (address_keys c addr_type addresses priority)

unfoldable pub keys_of : List (GlobalKey × ℕ) → List GlobalKey
keys_of [] = []
keys_of ((key, p) ∷ m) = key ∷ keys_of m

unfoldable pub delete_all_matches : Client → ℕ → Clause → List ContextChange
delete_all_matches client cp c = delete_keys client cp c (keys_of c.matches)
