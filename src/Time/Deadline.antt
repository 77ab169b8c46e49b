-- ===== src/Time/Deadline.antt =====
-- The deadlines of lib/net/src/time_helpers.cpp, in terms of the milliseconds that have passed since
-- they were made. The counter of millis() wraps at 2 ^ 32.
use lora_multihop.Prelude.{ℕ, ◌+◌, ◌-◌, ◌^◌, ◌≤◌, ◌<◌, ◌≡◌, ◌↔◌, true, false, arith, u32}
use lora_multihop.Time.{ms_deadline, millis_until, reached}

module _ (start duration elapsed : ℕ) (s : start < 2 ^ 32) (d : duration < 2 ^ 32)
    (e : elapsed < 2 ^ 32) where
  -- Once a millisecond has passed, and as long as the counter wraps only if the deadline lies behind
  -- the wrap, a deadline is reached exactly when more than its duration has passed.
  pub reached_iff :
      0 < elapsed
      → (start + duration < 2 ^ 32 → start + elapsed < 2 ^ 32)
      → (reached (ms_deadline start duration) (u32 (start + elapsed)) ≡ true) ↔ (duration < elapsed)
  unfolding reached ms_deadline
  reached_iff pos same = ground arith

  -- Before the deadline millis_until gives the milliseconds that are left, or one less.
  pub millis_until_bounds :
      elapsed < duration
      → let left = millis_until (ms_deadline start duration) (u32 (start + elapsed)) in
        (duration ≤ left + elapsed + 1) × (left + elapsed ≤ duration)
  unfolding millis_until ms_deadline
  millis_until_bounds early = ground arith

  -- A deadline that does not lie behind the wrap of the counter is never reached after the wrap,
  -- though millis_until is 0 then.
  pub reached_lost :
      start + duration < 2 ^ 32
      → 2 ^ 32 ≤ start + elapsed
      → (reached (ms_deadline start duration) (u32 (start + elapsed)) ≡ false)
        × (millis_until (ms_deadline start duration) (u32 (start + elapsed)) ≡ 0)
        × (duration < elapsed)
  unfolding reached millis_until ms_deadline
  reached_lost fits wrapped = ground arith

module _ (start duration : ℕ) (s : start < 2 ^ 32) (d : duration < 2 ^ 32)
    (wraps : 2 ^ 32 ≤ start + duration) where
  -- A deadline behind the wrap of the counter counts as reached in the millisecond in which it is made,
  -- though millis_until is its whole duration less one.
  pub reached_at_start :
      (reached (ms_deadline start duration) start ≡ true)
      × (millis_until (ms_deadline start duration) start + 1 ≡ duration)
  unfolding reached millis_until ms_deadline
  reached_at_start = ground arith

  -- Once a deadline behind the wrap has passed, millis_until gives the counter's value at the deadline,
  -- which is 0 only for a deadline at the wrap itself.
  millis_until_passed :
      (elapsed : ℕ)
      → duration ≤ elapsed
      → elapsed < 2 ^ 32
      → millis_until (ms_deadline start duration) (u32 (start + elapsed))
        ≡ start + duration - 2 ^ 32
  unfolding millis_until ms_deadline
  millis_until_passed elapsed late small = ground arith
