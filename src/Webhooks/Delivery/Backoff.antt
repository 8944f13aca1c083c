-- ===== src/Webhooks/Delivery/Backoff.antt =====
-- backend/app/workers/tasks.py: the backoff schedule.
use native.Mathlib.Nat.{pow-le-pow_right, one-le-pow}
use employed.Base.{arith, list_eq, min, nat_eq, option_eq, string_eq, ◌^◌, ◌≤◌}
use employed.Base.Int.{negsuc, pos, pos_part, ℤ, ◌≤ℤ◌}
use employed.Webhooks.Delivery.{
  compute_backoff_delay, webhook_backoff_base_seconds, webhook_backoff_cap,
}

le_min : (a b : ℤ) → a ≤ℤ b → min (pos_part a) 32 ≤ min (pos_part b) 32
le_min (pos a) (pos b) h = omega arith
le_min (pos a) (negsuc b) h = omega arith
le_min (negsuc a) (pos b) h = omega arith
le_min (negsuc a) (negsuc b) h = omega arith

-- For any attempt counts, negative ones included, the delay does not fall as the count grows, and
-- lies between the base interval and the cap.
compute_backoff_delay_schedule :
    (a b : ℤ)
    → a ≤ℤ b
    → (compute_backoff_delay a ≤ compute_backoff_delay b)
      × (webhook_backoff_base_seconds ≤ compute_backoff_delay a)
      × (compute_backoff_delay a ≤ webhook_backoff_cap)
unfolding compute_backoff_delay
compute_backoff_delay_schedule a b h =
    let m : 2 ^ min (pos_part a) 32 ≤ 2 ^ min (pos_part b) 32 =
      pow-le-pow_right (omega arith) (le_min a b h) in
    (
      ground (arith, m),
      ground (arith, one-le-pow (min (pos_part a) 32) 2 (omega arith)),
      ground arith,
    )
