-- ===== src/Link/Slots.antt =====
-- The timing half of lib/net/src/link_layer.cpp: which slot is active, and when a slot comes next.
pub mod Interval
pub mod Schedule
pub mod Arrival
use lora_multihop.Prelude.{
  ℕ, ◌+◌, ◌-◌, ◌*◌, ◌/◌, ◌%◌, Option, none, some, ltb, leb, ◌==◌, u32, sub32, if◌then◌else◌,
}
use lora_multihop.Net.{slot_duration}
use lora_multihop.Link.{Link, LinkRc, next_time_interval, update_window, in_active_window}

-- `current_slot`; `none` is the -1 of the source.
unfoldable pub current_slot : Link → ℕ → Link × Option ℕ
current_slot s now =
    let s' = update_window s now in
    if in_active_window s' now
    then (s', some ((now - s'.mac_state.window_start) / slot_duration s'.mac))
    else (s', none)

-- `active_slot` is `current_slot` at the time that it reads.
unfoldable pub active_slot : Link → ℕ → Link × Option ℕ
active_slot s now = current_slot s now

unfoldable pub time_left_in_slot : Link → ℕ → ℕ
time_left_in_slot s now =
    slot_duration s.mac - sub32 now s.mac_state.window_start % slot_duration s.mac

-- The offset to a slot of the next window.
abbrev pub offset_next_window : Link → ℕ → ℕ → ℕ
offset_next_window s n now =
    u32 (sub32 (next_time_interval now s.mac.superframe_frequency_s) now + n * slot_duration s.mac)

-- The offset to a slot that is not behind the current one.
abbrev pub offset_same_window : Link → ℕ → ℕ → ℕ → ℕ
offset_same_window s n current now =
    if n == current
    then 0
    else u32 (
        time_left_in_slot s now
        + (if ltb 1 (n - current) then (n - current - 1) * slot_duration s.mac else 0))

unfoldable pub offset_to : Link → ℕ → Option ℕ → ℕ → ℕ
offset_to s n none now = offset_next_window s n now
offset_to s n (some c) now =
    if ltb n c then offset_next_window s n now else offset_same_window s n c now

-- `epoch_and_offset`; the option is the pair of out-parameters, `none` where they are left alone.
unfoldable pub epoch_and_offset : Link → ℕ → ℕ → Link × LinkRc × Option (ℕ × ℕ)
epoch_and_offset s n now =
    if s.initialized
    then (if leb s.mac.superframe_slot_count n
        then (s, LinkRc.invalid_slot, none)
        else (let (s', current) = current_slot s now in
            let offset = offset_to s' n current now in
            let rc : LinkRc = elim current [ none ↦ LinkRc.not_in_window | some c ↦ LinkRc.ok ] in
            (s', rc, some (u32 (now + offset), offset))))
    else (s, LinkRc.not_init, none)

-- What the getters below make of the answer of epoch_and_offset.
abbrev epoch_of : Option (ℕ × ℕ) → Option ℕ
epoch_of none = none
epoch_of (some (epoch, offset)) = some epoch

abbrev offset_of : Option (ℕ × ℕ) → Option ℕ
offset_of none = none
offset_of (some (epoch, offset)) = some offset

unfoldable pub slot_time : Link → ℕ → ℕ → Link × LinkRc × Option ℕ
slot_time s n now = let (s', rc, out) = epoch_and_offset s n now in (s', rc, epoch_of out)

unfoldable pub seconds_until_slot : Link → ℕ → ℕ → Link × LinkRc × Option ℕ
seconds_until_slot s n now = let (s', rc, out) = epoch_and_offset s n now in (s', rc, offset_of out)

unfoldable pub seconds_until_self : Link → ℕ → Link × LinkRc × Option ℕ
seconds_until_self s now = seconds_until_slot s s.node.address now
