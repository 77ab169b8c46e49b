-- ===== src/Arduino/Spi.antt =====
-- lib/arduino_stubs/src/spi_stub.cpp: the serial bus of the simulator, which gives back what it is sent.
use lora_multihop.Prelude.{ℕ, Bool, true, false, List}

-- `inTransaction`
pub record SpiBus : Type 0 where
  pub in_transaction : Bool

pub record Settings : Type 0 where
  pub clock : ℕ
  pub bit_order : ℕ
  pub data_mode : ℕ

unfoldable pub begin_transaction : SpiBus → Settings → SpiBus
begin_transaction s settings = record s { in_transaction = true }

unfoldable pub end_transaction : SpiBus → SpiBus
end_transaction s = record s { in_transaction = false }

unfoldable pub transfer : SpiBus → ℕ → ℕ
transfer s byte = byte

-- `transfer` of a buffer, which it leaves as it is.
unfoldable pub transfer_buffer : SpiBus → List ℕ → List ℕ
transfer_buffer s bytes = bytes
