-- ===== src/Link.antt =====
-- lib/net/src/link_layer.cpp: the module's static variables as one record, its return codes, the
-- buffers, and the operations that the child modules define and the theorems about them.
use lora_multihop.Prelude.{
  ℕ, ◌+◌, ◌-◌, ◌%◌, ◌^◌, Bool, true, false, ◌&&◌, Option, none, some, List, ltb, leb, ◌==◌, u32,
  if◌then◌else◌,
}
use lora_multihop.Net.{
  MacState, LinkParams, LinkState, NodeParams, MacParams, window_length, fresh_link_state,
}
pub mod Frame
pub mod Payload
pub mod Slots
pub mod Tx
pub mod Rx
pub mod Code
pub mod Transfer
mod Tests

pub data LinkRc : Type 0 where
  ok not_init invalid_duty_cycle invalid_slot_count invalid_slot_length buf_size : LinkRc
  phy_error invalid_slot flush_failed invalid_msg msg_size_mismatch no_msg : LinkRc
  msg_too_big checksum_error out_of_bounds header_error node_address_bounds : LinkRc
  not_your_turn not_in_window timed_out : LinkRc

-- INITIALIZED, NODE, MAC, MAC_STATE, LINK and LINK_STATE.
pub record Link : Type 0 where
  pub initialized : Bool
  pub node : NodeParams
  pub mac : MacParams
  pub mac_state : MacState
  pub params : LinkParams
  pub state : LinkState

abbrev pub frame_header_size : ℕ
frame_header_size = 12

unfoldable pub next_time_interval : ℕ → ℕ → ℕ
next_time_interval now interval =
    if interval == 0
    then 0
    else (if now % interval == 0 then now else u32 (now - now % interval + interval))

abbrev pub after_window : Link → ℕ → Bool
after_window s now = leb s.mac_state.window_end now

abbrev pub in_active_window : Link → ℕ → Bool
in_active_window s now = leb s.mac_state.window_start now && ltb now s.mac_state.window_end

-- The block that opens each operation that reads the clock: past the window, move to the next one.
unfoldable pub update_window : Link → ℕ → Link
update_window s now =
    if after_window s now
    then (let start = next_time_interval now s.mac.superframe_frequency_s in
        record s {
          mac_state = record {
            window_start = start;
            window_end = u32 (start + window_length s.mac);
          };
        })
    else s

-- `init`, with the value of time::now() that it reads; the previous state is that of the statics.
unfoldable pub init : Link → NodeParams → MacParams → LinkParams → ℕ → Link × LinkRc
init s node mac link now =
    if ltb mac.superframe_slot_count 1
    then (s, LinkRc.invalid_slot_count)
    else (if ltb mac.superframe_slot_s 1
        then (s, LinkRc.invalid_slot_length)
        else (let fresh = record s {
          node = node;
          mac = mac;
          params = link;
          state = fresh_link_state;
        } in
            (record (update_window fresh now) { initialized = true }, LinkRc.ok)))
