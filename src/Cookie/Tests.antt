-- ===== src/Cookie/Tests.antt =====
-- Runs of the cookie allocator.
use antrea.Common.{ℕ, ◌≡◌, refl, ◌%◌, ◌^◌, ◌<◌, ◌↔◌, arith}
use Prim.Native.Nat.{bit_and}
use antrea.Cookie.{
  round_of, category_of, category_string, policy, new_id, cookie_mask_for_round, request,
  request_with_object_id, new_allocator,
}
use antrea.Cookie.Segments.{request-segments, cookie_mask_for_round-selects}

run_policy : category_string (category_of (request (new_allocator 7) policy)) ≡ "Policy"
unfolding category_string category_of request new_allocator new_id
run_policy = refl

-- A category beyond 8 bits loses its high digits.
category_wraps : category_of (request (new_allocator 7) 261) ≡ policy
unfolding category_of request new_allocator new_id
category_wraps = refl

request-segments_example :
    (round_of (request_with_object_id (new_allocator 65537) policy 9) ≡ 1)
    × (category_of (request_with_object_id (new_allocator 65537) policy 9) ≡ 5)
    × (request_with_object_id (new_allocator 65537) policy 9 % 2 ^ 32 ≡ 9)
    × (request_with_object_id (new_allocator 65537) policy 9 < 2 ^ 64)
request-segments_example = request-segments 65537 policy 9 (omega arith)

cookie_mask_for_round-selects_example :
    (bit_and (request_with_object_id (new_allocator 65537) policy 9) (cookie_mask_for_round 1).1
      ≡ (cookie_mask_for_round 1).0)
    ↔ ◌≡◌ {A = ℕ} 1 1
cookie_mask_for_round-selects_example = cookie_mask_for_round-selects 1 65537 policy 9 (omega arith)
