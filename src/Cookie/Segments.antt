-- ===== src/Cookie/Segments.antt =====
-- The segments of an ID of pkg/agent/openflow/cookie/allocator.go, and the flows that a round's
-- cookie and mask select.
use antrea.Common.{ℕ, ◌+◌, ◌-◌, ◌*◌, ◌%◌, ◌^◌, ◌<◌, ◌≡◌, ◌↔◌, arith, ap, ◌∙◌}
use Prim.Native.Nat.{bit_and, bit_or}
use antrea.Common.Bits.{bit_or_fields, bit_and_fields, bit_and_mask, zero-bit_or}
use antrea.Cookie.{
  shift_left, category_mask, round_mask, new_id, round_of, category_of, cookie_mask_for_round,
  new_allocator, request_with_object_id,
}

-- The segments side by side.
layout : ℕ → ℕ → ℕ → ℕ
layout round cat object_id = (round % 2 ^ 16 * 2 ^ 8 + cat % 2 ^ 8) * 2 ^ 40 + object_id

category_segment :
    (p x : ℕ) → x < 2 ^ 40 → bit_and (p * 2 ^ 40 + x) category_mask ≡ p % 2 ^ 8 * 2 ^ 40
category_segment p x h =
    bit_and_fields 40 p (2 ^ 8 - 1) x h ∙ ap (λ (t : ℕ). t * 2 ^ 40) (bit_and_mask 8 p)

round_segment : (p x : ℕ) → x < 2 ^ 48 → bit_and (p * 2 ^ 48 + x) round_mask ≡ p % 2 ^ 16 * 2 ^ 48
round_segment p x h =
    bit_and_fields 48 p (2 ^ 16 - 1) x h ∙ ap (λ (t : ℕ). t * 2 ^ 48) (bit_and_mask 16 p)

join :
    (a b c r k : ℕ)
    → a ≡ r * 2 ^ 48
    → b ≡ k * 2 ^ 40
    → k < 2 ^ 8
    → c < 2 ^ 32
    → bit_or (bit_or (bit_or 0 a) b) c ≡ (r * 2 ^ 8 + k) * 2 ^ 40 + c
join a b c r k ea eb hk hc =
    let first : bit_or 0 a ≡ r * 2 ^ 48 = zero-bit_or a ∙ ea in
    let second : bit_or (r * 2 ^ 48) b ≡ (r * 2 ^ 8 + k) * 2 ^ 40 =
      rw eb (omega (arith, bit_or_fields 48 r (k * 2 ^ 40) (omega arith))) in
    ap (λ (t : ℕ). bit_or (bit_or t b) c) first
    ∙ ap (λ (t : ℕ). bit_or t c) second
    ∙ bit_or_fields 40 (r * 2 ^ 8 + k) c (omega arith)

category_shifted : (cat : ℕ) → bit_and (shift_left cat 40) category_mask ≡ cat % 2 ^ 8 * 2 ^ 40
category_shifted cat =
    let shifted : shift_left cat 40 ≡ cat % 2 ^ 24 * 2 ^ 40 + 0 = omega arith in
    ap (λ (t : ℕ). bit_and t category_mask) shifted
    ∙ category_segment (cat % 2 ^ 24) 0 (omega arith)
    ∙ (omega arith)

new_id-layout :
    (round cat object_id : ℕ)
    → object_id < 2 ^ 32
    → new_id round cat object_id ≡ layout round cat object_id
unfolding new_id layout
new_id-layout round cat object_id h =
    join (shift_left round 48) (bit_and (shift_left cat 40) category_mask) object_id
      (round % 2 ^ 16) (cat % 2 ^ 8) (omega arith) (category_shifted cat) (omega arith) h

-- An allocator that is made for a round, of which 16 bits count, gives IDs from which the round, the
-- category of 8 bits and the object of 32 bits are read back.
pub request-segments :
    (round cat object_id : ℕ)
    → object_id < 2 ^ 32
    → let id = request_with_object_id (new_allocator round) cat object_id in
      (round_of id ≡ round % 2 ^ 16)
      × (category_of id ≡ cat % 2 ^ 8)
      × (id % 2 ^ 32 ≡ object_id)
      × (id < 2 ^ 64)
unfolding round_of category_of request_with_object_id new_allocator layout
request-segments round cat object_id h =
    let e : new_id round cat object_id ≡ layout round cat object_id =
      new_id-layout round cat object_id h in
    let p : ℕ = round % 2 ^ 16 * 2 ^ 8 + cat % 2 ^ 8 in
    let masked : bit_and (new_id round cat object_id) category_mask ≡ p % 2 ^ 8 * 2 ^ 40 =
      ap (λ (t : ℕ). bit_and t category_mask) e ∙ category_segment p object_id (omega arith) in
    (omega (arith, e), omega (arith, masked), omega (arith, e), omega (arith, e))

-- The cookie and the mask of a round select an ID if and only if it was given for a round with the
-- same 16 low bits.
pub cookie_mask_for_round-selects :
    (round other cat object_id : ℕ)
    → object_id < 2 ^ 32
    → (bit_and
          (request_with_object_id (new_allocator other) cat object_id)
          (cookie_mask_for_round round).1
        ≡ (cookie_mask_for_round round).0)
      ↔ (other % 2 ^ 16 ≡ round % 2 ^ 16)
unfolding cookie_mask_for_round request_with_object_id new_allocator layout
cookie_mask_for_round-selects round other cat object_id h =
    let e : new_id other cat object_id ≡ layout other cat object_id =
      new_id-layout other cat object_id h in
    let low : ℕ = cat % 2 ^ 8 * 2 ^ 40 + object_id in
    let fields : layout other cat object_id ≡ other % 2 ^ 16 * 2 ^ 48 + low = omega arith in
    let masked : bit_and (new_id other cat object_id) round_mask
        ≡ other % 2 ^ 16 % 2 ^ 16 * 2 ^ 48 =
      ap (λ (t : ℕ). bit_and t round_mask) (e ∙ fields)
      ∙ round_segment (other % 2 ^ 16) low (omega arith) in
    ((λ eq. omega (arith, masked, eq)), (λ eq. omega (arith, masked, eq)))
