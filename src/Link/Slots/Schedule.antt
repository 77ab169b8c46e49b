-- ===== src/Link/Slots/Schedule.antt =====
-- The schedule of superframes of lib/net/src/link_layer.cpp: the active slot, and the offsets to the
-- slots that are still to come.
use native.Mathlib.Nat.{mul-div_cancel, div-add-mod', mod-lt, zero-div}
use lora_multihop.Prelude.{
  ℕ, ◌+◌, ◌-◌, ◌*◌, ◌/◌, ◌%◌, ◌^◌, ◌≤◌, ◌<◌, ◌≡◌, ap, arith, none, some, true,
}
use lora_multihop.Net.{slot_duration}
use lora_multihop.Link.{Link, next_time_interval, update_window}
use lora_multihop.Link.Slots.{time_left_in_slot, current_slot, offset_to}
use lora_multihop.Link.Slots.Interval.{
  add_period, next_multiple, next_time_interval_lem, multiple_unique,
}

abbrev pub freq : Link → ℕ
freq s = s.mac.superframe_frequency_s

abbrev pub start : Link → ℕ
start s = s.mac_state.window_start

-- A configured link whose window is a superframe of the schedule: it starts at a multiple of the
-- period, at most one period ahead, the slots fit the period, and the clock is far from 2 ^ 32.
pub record Timely (s : Link) (now : ℕ) : Type 0 where
  pub started : s.initialized ≡ true
  pub dur_pos : 0 < slot_duration s.mac
  pub count_pos : 0 < s.mac.superframe_slot_count
  pub fits : slot_duration s.mac * s.mac.superframe_slot_count ≤ freq s
  pub no_wrap : now + 4 * freq s < 2 ^ 32
  pub aligned : start s % freq s ≡ 0
  pub ends : s.mac_state.window_end ≡ start s + slot_duration s.mac * s.mac.superframe_slot_count
  pub near : start s < now + freq s

pub mul_pos : (a b : ℕ) → 0 < a → 0 < b → 0 < a * b
mul_pos a b p q = grind arith

pub update_window-Timely :
    {s : Link} {now : ℕ}
    → Timely s now
    → Timely (update_window s now) now × (now < (update_window s now).mac_state.window_end)
unfolding update_window
update_window-Timely {s} {now} v = ground (
  arith,
  next_time_interval_lem now (freq s),
  mul_pos (slot_duration s.mac) s.mac.superframe_slot_count v.dur_pos v.count_pos,
)

-- The slot that is active at time `t` of a window that is not over.
abbrev pub slot_in : Link → ℕ → ℕ
slot_in s t = (t - start s) / slot_duration s.mac

pub current_slot-inside :
    (s : Link) (t : ℕ)
    → start s ≤ t
    → t < s.mac_state.window_end
    → current_slot s t ≡ (s, some (slot_in s t))
unfolding current_slot update_window
current_slot-inside s t h k = ground arith

pub current_slot-before :
    (s : Link) (t : ℕ) → t < start s → t < s.mac_state.window_end → current_slot s t ≡ (s, none)
unfolding current_slot update_window
current_slot-before s t h k = ground arith

-- A call at the start of the next superframe moves the window there, and finds slot 0.
pub current_slot-next :
    (s : Link) (now t : ℕ)
    → Timely s now
    → t + 2 * freq s < 2 ^ 32
    → s.mac_state.window_end ≤ t
    → t % freq s ≡ 0
    → (current_slot s t).1 ≡ some 0
unfolding current_slot update_window
current_slot-next s now t v fit over h = ground (
  arith,
  next_time_interval_lem t (freq s),
  multiple_unique t (next_time_interval t (freq s)) (freq s) h,
  mul_pos (slot_duration s.mac) s.mac.superframe_slot_count v.dur_pos v.count_pos,
  zero-div (slot_duration s.mac),
)

pub slot_in-mul :
    (s : Link) (n : ℕ) → 0 < slot_duration s.mac → slot_in s (start s + n * slot_duration s.mac) ≡ n
slot_in-mul s n pos =
    let same : start s + n * slot_duration s.mac - start s ≡ n * slot_duration s.mac =
      omega arith in
    rw same (mul-div_cancel n pos)

pub mul_lt : (n c d : ℕ) → n < c → n * d + d ≤ d * c
mul_lt n c d h = grind arith

split_rounds : (n c d : ℕ) → c < n → (n - c - 1) * d + c * d + d ≡ n * d
split_rounds n c d h =
    let e : n - c - 1 + c + 1 ≡ n = omega arith in omega (arith, ap (λ (k : ℕ). k * d) e)

later_sum : (x d n : ℕ) → 0 < d → x / d < n → x + (d - x % d) + (n - x / d - 1) * d ≡ n * d
later_sum x d n pos h = omega (arith, div-add-mod' x d, mod-lt x pos, split_rounds n (x / d) d h)

-- A slot of the window that is still to come, or that is running: the offset leads into it.
module _ {s : Link} {now n : ℕ} (v : Timely s now) (current : now < s.mac_state.window_end)
    (valid : n < s.mac.superframe_slot_count) where
  -- Before the window starts the offset leads to slot `n` of it.
  pub offset-before :
      now < start s → now + offset_to s n none now ≡ start s + n * slot_duration s.mac
  unfolding offset_to time_left_in_slot
  offset-before h = ground (
    arith,
    next_time_interval_lem now (freq s),
    multiple_unique (start s) (next_time_interval now (freq s)) (freq s),
    multiple_unique (next_time_interval now (freq s)) (start s) (freq s),
    mul_lt n s.mac.superframe_slot_count (slot_duration s.mac) valid,
  )

  -- Inside the window the offset to a later slot leads to its first second.
  pub offset-later :
      start s ≤ now
      → slot_in s now < n
      → now + offset_to s n (some (slot_in s now)) now ≡ start s + n * slot_duration s.mac
  unfolding offset_to time_left_in_slot
  offset-later h k = ground (
    arith,
    later_sum (now - start s) (slot_duration s.mac) n v.dur_pos k,
    mul_lt n s.mac.superframe_slot_count (slot_duration s.mac) valid,
  )

  -- For a slot that is over the offset leads to that slot of the next superframe.
  pub offset-over :
      start s ≤ now
      → n < slot_in s now
      → (start s < now)
        × (now + offset_to s n (some (slot_in s now)) now
            ≡ start s + freq s + n * slot_duration s.mac)
  unfolding offset_to time_left_in_slot
  offset-over h k = ground (
    arith,
    next_multiple (start s) now (freq s) v.aligned,
    zero-div (slot_duration s.mac),
    mul_lt n s.mac.superframe_slot_count (slot_duration s.mac) valid,
  )

  -- Once that slot is running, a state whose window is still the last one takes the superframe for over.
  pub current_slot-stale :
      0 < n
      → let (after, slot) = current_slot s (start s + freq s + n * slot_duration s.mac) in
        (slot ≡ none) × (after.mac_state.window_start ≡ start s + freq s + freq s)
  unfolding current_slot update_window
  current_slot-stale pos =
      let t : ℕ = start s + freq s + n * slot_duration s.mac in
      let small = mul_lt n s.mac.superframe_slot_count (slot_duration s.mac) valid in
      let next =
        next_multiple (start s + freq s) t (freq s) (add_period (start s) (freq s) v.aligned)
          (omega (arith, mul_pos n (slot_duration s.mac) pos v.dur_pos)) (omega (arith, small))
          (omega (arith, small)) in
      ground (arith, next, small, mul_pos n (slot_duration s.mac) pos v.dur_pos)
