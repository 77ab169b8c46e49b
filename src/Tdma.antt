-- ===== src/Tdma.antt =====
-- The firmware of tdma/node/src/main.cpp: each of three nodes sends a greeting in its slot, and listens in the
-- others. The clock, the radio and the text that snprintf writes are parameters; the log is left out.
pub mod Boundary
pub mod Greetings
mod Tests
use lora_multihop.Prelude.{
  ℕ, ◌+◌, ◌-◌, ◌*◌, ◌/◌, ◌%◌, ◌==◌, Bool, true, false, Option, none, some, List, [], ◌∷◌, u32,
  sub64, if◌then◌else◌,
}
use lora_multihop.Lora.{LoraRc}
use lora_multihop.Time.{sleep_until}

abbrev pub node_count : ℕ
node_count = 3

abbrev pub slot_seconds : ℕ
slot_seconds = 2

abbrev pub superframe_seconds : ℕ
superframe_seconds = node_count * slot_seconds

abbrev pub epoch_s : ℕ
epoch_s = 1767225600

abbrev pub rx_poll_ms : ℕ
rx_poll_ms = 25

abbrev pub msg_buf_sz : ℕ
msg_buf_sz = 128

-- EPOCH_S is an unsigned long, of 64 bits.
unfoldable pub slot_index : ℕ → ℕ
slot_index now_s = sub64 now_s epoch_s % superframe_seconds / slot_seconds

unfoldable pub next_slot_boundary : ℕ → ℕ
next_slot_boundary now_s =
    let elapsed = u32 (sub64 now_s epoch_s) in
    let current_slot_start = elapsed / slot_seconds * slot_seconds in
    u32 (epoch_s + current_slot_start + slot_seconds)

-- The two variables that the loop of main keeps.
pub record Node : Type 0 where
  pub last_slot_seen : ℕ
  pub transmitted_this_slot : Bool

-- What a pass of the loop reads: the clock, its later values while the slot is waited out, and the answers of
-- lora::send to a message and of lora::wait_recv to a buffer's length and a timeout.
pub record Pass : Type 0 where
  pub now : ℕ
  pub later : List ℕ
  pub transmit : List ℕ → LoraRc
  pub listen : ℕ → ℕ → LoraRc × List ℕ

-- What a pass does: it sends a message, with the answer, or does not, and waits with so many calls of delay(50);
-- or it listens, and hears these bytes, or nothing.
pub data Event : Type 0 where
  tx : List ℕ → LoraRc → ℕ → Event
  waited : ℕ → Event
  rx : List ℕ → Event
  nothing : Event

-- The variables before the loop.
abbrev pub unseen : Node
unseen = record { last_slot_seen = 4294967295; transmitted_this_slot = false }

-- main reaches its loop unless lora::init fails.
unfoldable pub boot : LoraRc → Option Node
boot LoraRc.okay = some unseen
boot rc = none

unfoldable pub see_slot : Node → ℕ → Node
see_slot s slot =
    if slot == s.last_slot_seen
    then s
    else record { last_slot_seen = slot; transmitted_this_slot = false }

unfoldable pub heard : LoraRc × List ℕ → Event
heard (LoraRc.okay, b ∷ bytes) = Event.rx (b ∷ bytes)
heard (rc, bytes) = Event.nothing

-- The text of the greeting, by the node and the seconds since the epoch, is the first argument.
unfoldable pub own_slot : (ℕ → ℕ → List ℕ) → ℕ → Node → Pass → Node × Event
own_slot hello device_id s p =
    let delays = sleep_until (next_slot_boundary p.now) p.later in
    let msg = hello device_id (sub64 p.now epoch_s) in
    if s.transmitted_this_slot
    then (s, Event.waited delays)
    else (record s { transmitted_this_slot = true }, Event.tx msg (p.transmit msg) delays)

unfoldable pub pass : (ℕ → ℕ → List ℕ) → ℕ → Node → Pass → Node × Event
pass hello device_id s p =
    let slot = slot_index p.now in
    let s' = see_slot s slot in
    if slot == device_id
    then own_slot hello device_id s' p
    else (s', heard (p.listen (msg_buf_sz - 1) rx_poll_ms))

-- The loop of main, for the passes of a list.
unfoldable pub passes : (ℕ → ℕ → List ℕ) → ℕ → Node → List Pass → Node × List Event
passes hello device_id s [] = (s, [])
passes hello device_id s (p ∷ ps) =
    let (s', event) = pass hello device_id s p in
    let (s'', events) = passes hello device_id s' ps in (s'', event ∷ events)
