-- ===== src/Link/Code.antt =====
-- The CDMA codes of lib/net/src/link_layer.cpp: slots are mapped to LoRa spreading factors.
pub mod Spread
use lora_multihop.Prelude.{ℕ, ◌+◌, ◌%◌}
use lora_multihop.Link.{Link}

unfoldable pub hash_cdma_code : ℕ → ℕ
hash_cdma_code id = id % 7 + 6

-- `set_cdma_code`; the second part is the spreading factor that goes to the radio.
unfoldable pub set_cdma_code : Link → ℕ → Link × ℕ
set_cdma_code s id =
    let code = hash_cdma_code id in (record s { state = record (s.state) { code = code } }, code)

unfoldable pub get_cdma_code : Link → ℕ
get_cdma_code s = s.state.code
