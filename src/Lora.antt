-- ===== src/Lora.antt =====
-- lib/lora: the return codes of the radio.

pub mod Driver
pub mod Simulated
use lora_multihop.Prelude.{ℕ}

pub data LoraRc : Type 0 where
  okay already_init not_init init_failed deinit_failed set_frequency_failed : LoraRc
  sd_active failed_to_deinit_sd failed_to_restore_sd send_failed recv_failed timed_out : LoraRc

-- LAST_RSSI, which nothing writes.
unfoldable pub last_rssi : ℕ
last_rssi = 1
