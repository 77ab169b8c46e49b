-- ===== src/Multihop.antt =====
-- lib/net/include/multihop_defs.h and the constants of lib/net/src/multihop.cpp.
pub mod Messages
pub mod Datagram
pub mod Rings
pub mod State
pub mod Node
pub mod Delivery
pub mod Phases
pub mod Main
use lora_multihop.Prelude.{ℕ}

abbrev pub Ring : Type 0
Ring = ℕ

abbrev pub gateway_ring : Ring
gateway_ring = 0

abbrev pub unknown_ring : Ring
unknown_ring = 255
