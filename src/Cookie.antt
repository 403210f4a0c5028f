-- ===== src/Cookie.antt =====
-- pkg/agent/openflow/cookie/allocator.go: cookie IDs of flows. A round, a category and an ID are
-- numbers, as the source's uint64; a shift to the left drops what leaves the word.
pub mod Segments
pub mod Tests
use antrea.Common.{ℕ, suc, ◌*◌, ◌/◌, ◌%◌, ◌^◌, String, ◌==◌, if◌then◌else◌}
use Prim.Native.Nat.{bit_and, bit_or}

abbrev pub bitwidth_round : ℕ
bitwidth_round = 16

abbrev pub bitwidth_reserved : ℕ
bitwidth_reserved = 40

abbrev pub round_mask : ℕ
round_mask = 0xffff000000000000

abbrev pub category_mask : ℕ
category_mask = 0x0000ff0000000000

-- a << n at type uint64, and a >> n.
abbrev pub shift_left : ℕ → ℕ → ℕ
shift_left a n = (a * 2 ^ n) % 2 ^ 64

abbrev pub shift_right : ℕ → ℕ → ℕ
shift_right a n = a / 2 ^ n

-- The categories Default, Gateway, Node, Pod, Service, Policy and SNAT count from 0.
abbrev pub policy : ℕ
policy = 5

abbrev pub snat : ℕ
snat = 6

pub category_string : ℕ → String
category_string c =
    if c == 0
    then "Default"
    else if c == 1
    then "Gateway"
    else if c == 2
    then "Node"
    else if c == 3
    then "Pod"
    else if c == 4
    then "Service"
    else if c == policy
    then "Policy"
    else if c == snat
    then "SNAT"
    else "Invalid"

pub new_id : ℕ → ℕ → ℕ → ℕ
new_id round cat object_id =
    bit_or
      (bit_or (bit_or 0 (shift_left round 48))
        (bit_and (shift_left cat bitwidth_reserved) category_mask))
      object_id

-- The cookie and the mask that select the flows of a round.
pub cookie_mask_for_round : ℕ → ℕ × ℕ
cookie_mask_for_round round = (shift_left round 48, round_mask)

pub round_of : ℕ → ℕ
round_of id = shift_right id 48

pub category_of : ℕ → ℕ
category_of id = shift_right (bit_and id category_mask) bitwidth_reserved

pub record Allocator : Type 0 where
  pub round : ℕ

pub new_allocator : ℕ → Allocator
new_allocator round = record { round = round }

pub request : Allocator → ℕ → ℕ
request a cat = new_id a.round cat 0

pub request_with_object_id : Allocator → ℕ → ℕ → ℕ
request_with_object_id a cat object_id = new_id a.round cat object_id
