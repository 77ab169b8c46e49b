-- ===== src/Txrx.antt =====
-- The two demonstration programs of lora_txrx: tx/src/main.cpp sends numbered texts, and rx/src/main.cpp shows what it hears. What the
-- driver answers is an argument. The wait for the serial port is left out.
pub mod Shown
mod Tests
use lora_multihop.Prelude.{
  ℕ, suc, ◌+◌, ◌==◌, Option, none, some, List, [], ◌∷◌, ◌++◌, length, u32, if◌then◌else◌,
}
use lora_multihop.Prelude.Decimal.{codes, decimal}
use lora_multihop.Lora.{LoraRc}

abbrev pub packet_max_size_bytes : ℕ
packet_max_size_bytes = 251

-- Whether the program goes on, or is in error(), which does not return.
pub data Outcome : Type 0 where
  goes_on in_error : Outcome

-- `setup`, which is the same in both programs, with the answer of lora::init.
unfoldable pub setup : LoraRc → Outcome
setup LoraRc.init_failed = Outcome.in_error
setup LoraRc.set_frequency_failed = Outcome.in_error
setup rc = Outcome.goes_on

-- The text of the message with this number.
abbrev pub tx_text : ℕ → List ℕ
tx_text counter = codes "TX[" ++ (decimal counter ++ (b']' ∷ []))

-- The bytes that are sent: the text and a zero byte.
abbrev pub tx_message : ℕ → List ℕ
tx_message counter = tx_text counter ++ (0 ∷ [])

unfoldable pub tx_shown : LoraRc → List ℕ → Outcome × Option (List ℕ)
tx_shown LoraRc.okay text = (Outcome.goes_on, some text)
tx_shown rc text = (Outcome.in_error, none)

-- `loop` of the sender: the counter after it, and what is shown.
unfoldable pub tx_loop : ℕ → (List ℕ → LoraRc) → ℕ × Outcome × Option (List ℕ)
tx_loop counter radio =
    let (outcome, text) = tx_shown (radio (tx_message counter)) (tx_text counter) in
    (u32 (counter + 1), outcome, text)

abbrev cons_text : ℕ → Option (List ℕ) → Option (List ℕ)
cons_text c none = none
cons_text c (some text) = some (c ∷ text)

-- The text up to the first zero byte; `none` where the bytes have no zero byte, so that println reads on behind them.
unfoldable pub c_text : List ℕ → Option (List ℕ)
c_text [] = none
c_text (c ∷ bytes) = let rest = c_text bytes in if c == 0 then some [] else cons_text c rest

-- `loop` of the listener, by what lora::wait_recv answers: `none` where println reads behind the bytes.
unfoldable pub rx_loop : LoraRc × List ℕ → Outcome × Option (List ℕ)
rx_loop (LoraRc.okay, bytes) = (Outcome.goes_on, c_text bytes)
rx_loop (LoraRc.timed_out, bytes) = (Outcome.goes_on, some (codes "Timed out"))
rx_loop (rc, bytes) = (Outcome.in_error, some (codes "Failed to receive message"))
