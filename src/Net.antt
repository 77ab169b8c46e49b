-- ===== src/Net.antt =====
-- lib/net/include/net.h and lib/net/src/net.cpp: the parameters and the state that the link layer and
-- the multihop layer share. A buffer pointer is the list of the bytes behind it.
use lora_multihop.Prelude.{ℕ, ◌+◌, ◌*◌, Option, none, List, u32}

abbrev pub Address : Type 0
Address = ℕ

abbrev pub gateway_addr : Address
gateway_addr = 0

abbrev pub unknown_addr : Address
unknown_addr = 255

pub record MacState : Type 0 where
  pub window_start : ℕ
  pub window_end : ℕ

pub record LinkParams : Type 0 where
  pub msg_max_bytes : ℕ
  pub tx_buf : List ℕ
  pub tx_sz : ℕ
  pub rx_buf : List ℕ
  pub rx_sz : ℕ

-- `rx_cursor` is an offset into `rx_buf`; `none` is the null pointer.
pub record LinkState : Type 0 where
  pub code : ℕ
  pub tx_bytes_queued : ℕ
  pub tx_msg_count : ℕ
  pub rx_cursor : Option ℕ
  pub rx_msg_num : ℕ

pub record NodeParams : Type 0 where
  pub address : Address
  pub time_s : ℕ

pub record MacParams : Type 0 where
  pub superframe_slot_s : ℕ
  pub superframe_frequency_s : ℕ
  pub superframe_slot_count : ℕ
  pub guard_period_s : ℕ
  pub reuse_distance : ℕ

abbrev pub slot_duration : MacParams → ℕ
slot_duration m = u32 (m.superframe_slot_s + m.guard_period_s)

abbrev pub window_length : MacParams → ℕ
window_length m = u32 (slot_duration m * m.superframe_slot_count)

abbrev pub default_code : ℕ
default_code = 0

abbrev pub fresh_mac_state : MacState
fresh_mac_state = record { window_start = 0; window_end = 0 }

abbrev pub fresh_link_state : LinkState
fresh_link_state = record {
  code = default_code;
  tx_bytes_queued = 0;
  tx_msg_count = 0;
  rx_cursor = none;
  rx_msg_num = 0;
}
