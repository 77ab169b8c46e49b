-- ===== src/Link/Slots/Arrival.antt =====
-- Waiting for a slot (lib/net/src/link_layer.cpp): epoch_and_offset against active_slot.
use native.Mathlib.Nat.{zero-mul, add-zero}
use lora_multihop.Prelude.{
  refl, dec_lt, ℕ, ◌+◌, ◌-◌, ◌*◌, ◌^◌, ◌≤◌, ◌<◌, ◌≡◌, ◌⊎◌, ◌∙◌, arith, Option, none, some, true,
}
use lora_multihop.Net.{slot_duration}
use lora_multihop.Link.{Link, update_window}
use lora_multihop.Link.Slots.{current_slot, active_slot, offset_to, epoch_and_offset}
use lora_multihop.Link.Slots.Schedule.{
  current_slot-stale, offset-over, freq, start, slot_in, Timely, update_window-Timely,
  current_slot-inside, current_slot-before, current_slot-next, slot_in-mul, mul_lt, offset-before,
  offset-later,
}
use lora_multihop.Link.Slots.Interval.{add_period}

-- The slot is not behind the one that is active.
abbrev pub Ahead : ℕ → Option ℕ → Type 0
Ahead n none = Unit {0}
Ahead n (some c) = c ≤ n

-- epoch_and_offset answers with a time less than two periods away, and at that time the slot is active.
pub record Arrives (s : Link) (n now : ℕ) : Type 0 where
  pub epoch : ℕ
  pub offset : ℕ
  pub answer : (epoch_and_offset s n now).2 ≡ some (epoch, offset)
  pub sum : epoch ≡ now + offset
  pub soon : offset < 2 * freq s
  pub active : (active_slot (epoch_and_offset s n now).0 epoch).1 ≡ some n

answers :
    (s t : Link) (n now epoch : ℕ) (c : Option ℕ)
    → s.initialized ≡ true
    → n < s.mac.superframe_slot_count
    → current_slot s now ≡ (t, c)
    → now + offset_to t n c now ≡ epoch
    → epoch < 2 ^ 32
    → ((epoch_and_offset s n now).2 ≡ some (epoch, epoch - now))
      × ((epoch_and_offset s n now).0 ≡ t)
unfolding epoch_and_offset
answers s t n now epoch c started valid slot sum fit = ground arith

at_slot_start :
    (s : Link) (n : ℕ)
    → 0 < slot_duration s.mac
    → n < s.mac.superframe_slot_count
    → s.mac_state.window_end ≡ start s + slot_duration s.mac * s.mac.superframe_slot_count
    → (current_slot s (start s + n * slot_duration s.mac)).1 ≡ some n
at_slot_start s n pos valid ends = ground (
  arith,
  slot_in-mul s n pos,
  mul_lt n s.mac.superframe_slot_count (slot_duration s.mac) valid,
  current_slot-inside s (start s + n * slot_duration s.mac),
)

arrives :
    (s : Link) (n now epoch : ℕ)
    → now ≤ epoch
    → epoch < now + 2 * freq s
    → (epoch_and_offset s n now).2 ≡ some (epoch, epoch - now)
    → (epoch_and_offset s n now).0 ≡ s
    → (current_slot s epoch).1 ≡ some n
    → Arrives s n now
unfolding active_slot
arrives s n now epoch le soon answer same active = record {
  epoch = epoch;
  offset = epoch - now;
  answer = answer;
  sum = omega arith;
  soon = omega arith;
  active = rw same active;
}

module _ {s : Link} {now n : ℕ} (v : Timely s now) (current : now < s.mac_state.window_end)
    (valid : n < s.mac.superframe_slot_count) where
  Arrives-before : now < start s → Arrives s n now
  Arrives-before h =
      let epoch = start s + n * slot_duration s.mac in
      let small = mul_lt n s.mac.superframe_slot_count (slot_duration s.mac) valid in
      let a =
        answers s s n now epoch none v.started valid (current_slot-before s now h current)
          (offset-before v current valid h) (omega (arith, small)) in
      arrives s n now epoch (omega arith) (omega (arith, small)) a.0 a.1
        (at_slot_start s n v.dur_pos valid v.ends)

  Arrives-later : start s ≤ now → slot_in s now < n → Arrives s n now
  Arrives-later h k =
      let epoch = start s + n * slot_duration s.mac in
      let small = mul_lt n s.mac.superframe_slot_count (slot_duration s.mac) valid in
      let eq = offset-later v current valid h k in
      let a =
        answers s s n now epoch (some (slot_in s now)) v.started valid
          (current_slot-inside s now h current) eq (omega (arith, small)) in
      arrives s n now epoch (omega (arith, eq)) (omega (arith, small)) a.0 a.1
        (at_slot_start s n v.dur_pos valid v.ends)

  Arrives-here : start s ≤ now → slot_in s now ≡ n → Arrives s n now
  unfolding offset_to
  Arrives-here h k =
      let a =
        answers s s n now now (some (slot_in s now)) v.started valid
          (current_slot-inside s now h current) (ground arith) (omega arith) in
      arrives s n now now (omega arith) (omega (arith, v.dur_pos, v.fits)) a.0 a.1
        (ground (arith, current_slot-inside s now h current))

  -- Slot 0 of a window whose slot 0 is over is slot 0 of the next window.
  Arrives-next : start s ≤ now → n < slot_in s now → n ≡ 0 → Arrives s n now
  Arrives-next h k z =
      let epoch : ℕ = start s + freq s in
      let over = offset-over v current valid h k in
      let zero-first : start s + freq s + n * slot_duration s.mac ≡ epoch =
        rw (z, zero-mul, add-zero) in
      let a =
        answers s s n now epoch (some (slot_in s now)) v.started valid
          (current_slot-inside s now h current) (over.1 ∙ zero-first) (omega arith) in
      arrives s n now epoch (omega arith) (omega (arith, over.0)) a.0 a.1 (
        rw z (
          current_slot-next s now epoch v (omega arith) (omega arith)
            (add_period (start s) (freq s) v.aligned)))

  Arrives-current : (n ≡ 0) ⊎ Ahead n (current_slot s now).1 → Arrives s n now
  Arrives-current ahead = elim (dec_lt now (start s)) [
    | yes early ↦ Arrives-before early
    | no late ↦ elim (dec_lt (slot_in s now) n) [
      | yes later ↦ Arrives-later (omega arith) later
      | no other ↦ elim (dec_lt n (slot_in s now)) [
        | yes over ↦
            Arrives-next (omega arith) over
              (ground (arith, current_slot-inside s now (omega arith) current))
        | no same ↦ Arrives-here (omega arith) (omega arith)
      ]
    ]
  ]

-- The first thing that an operation does is to move to the window that is not over.
update_window-update_window :
    (s : Link) (now : ℕ)
    → now < (update_window s now).mac_state.window_end
    → update_window (update_window s now) now ≡ update_window s now
unfolding update_window
update_window-update_window s now h = ground arith

current_slot-update_window :
    (s : Link) (now : ℕ)
    → now < (update_window s now).mac_state.window_end
    → current_slot (update_window s now) now ≡ current_slot s now
unfolding current_slot
current_slot-update_window s now h = rw (update_window-update_window s now h)

update_window-mac :
    (s : Link) (now : ℕ)
    → ((update_window s now).mac ≡ s.mac) × ((update_window s now).initialized ≡ s.initialized)
unfolding update_window
update_window-mac s now = ground arith

epoch_and_offset-update_window :
    (s : Link) (n now : ℕ)
    → now < (update_window s now).mac_state.window_end
    → s.initialized ≡ true
    → n < s.mac.superframe_slot_count
    → epoch_and_offset (update_window s now) n now ≡ epoch_and_offset s n now
unfolding epoch_and_offset
epoch_and_offset-update_window s n now h started valid =
    ground (arith, current_slot-update_window s now h, update_window-mac s now)

-- Where the slot is running or still to come, or where it is slot 0, the answer of epoch_and_offset is
-- a time less than two periods away at which active_slot finds the node in that slot.
pub epoch_and_offset-Arrives :
    {s : Link} (n now : ℕ)
    → Timely s now
    → n < s.mac.superframe_slot_count
    → (n ≡ 0) ⊎ Ahead n (active_slot s now).1
    → Arrives s n now
unfolding active_slot
epoch_and_offset-Arrives {s} n now v valid ahead =
    let (w, open_window) = update_window-Timely v in
    let same = epoch_and_offset-update_window s n now open_window v.started valid in
    let mac = update_window-mac s now in
    let moved = current_slot-update_window s now open_window in
    let ahead' : (n ≡ 0) ⊎ Ahead n (current_slot (update_window s now) now).1 = rw moved ahead in
    let a = Arrives-current {n = n} w open_window (rw mac.0 valid) ahead' in
    record {
      epoch = a.epoch;
      offset = a.offset;
      answer = rw (← same) a.answer;
      sum = a.sum;
      soon = ground (arith, a.soon, mac.0);
      active = rw (← same) a.active;
    }

-- epoch_and_offset answers with the time at which the slot begins in the next superframe, and leaves the window of this one; at that
-- time active_slot moves the window to the superframe after the next, and finds no slot.
pub record Misses (s : Link) (n now : ℕ) : Type 0 where
  pub epoch : ℕ
  pub offset : ℕ
  pub answer : (epoch_and_offset s n now).2 ≡ some (epoch, offset)
  pub next :
      epoch ≡ s.mac_state.window_start + s.mac.superframe_frequency_s + n * slot_duration s.mac
  pub kept : (epoch_and_offset s n now).0.mac_state ≡ s.mac_state
  pub idle : (active_slot (epoch_and_offset s n now).0 epoch).1 ≡ none
  pub skipped :
      (active_slot (epoch_and_offset s n now).0 epoch).0.mac_state.window_start
      ≡ s.mac_state.window_start + s.mac.superframe_frequency_s + s.mac.superframe_frequency_s

-- For a slot other than 0 that is over, within the superframe of the window, the answer is the time at which the slot begins in the
-- next superframe, and the window stays the old one: at that time active_slot moves the window to the superframe after
-- the next one, and finds no slot.
pub epoch_and_offset-Misses :
    {s : Link} (n now c : ℕ)
    → Timely s now
    → n < s.mac.superframe_slot_count
    → 0 < n
    → now < s.mac_state.window_end
    → (active_slot s now).1 ≡ some c
    → n < c
    → Misses s n now
unfolding active_slot
epoch_and_offset-Misses {s} n now c v valid pos current here passed =
    let inside : start s ≤ now = ground (arith, current_slot-before s now) in
    let slot : n < slot_in s now = ground (arith, current_slot-inside s now inside current) in
    let over = offset-over v current valid inside slot in
    let epoch : ℕ = start s + freq s + n * slot_duration s.mac in
    let stale = current_slot-stale v current valid pos in
    let a =
      answers s s n now epoch (some (slot_in s now)) v.started valid
        (current_slot-inside s now inside current) over.1
        (omega (arith, mul_lt n s.mac.superframe_slot_count (slot_duration s.mac) valid)) in
    record {
      epoch = epoch;
      offset = epoch - now;
      answer = a.0;
      next = refl;
      kept = rw (a.1) refl;
      idle = rw (a.1) stale.0;
      skipped = rw (a.1) stale.1;
    }
