-- ===== src/Txrx/Tests.antt =====
-- Runs of the two programs of lora_txrx.
use lora_multihop.Prelude.{◌≤◌, ◌≡◌, refl, none, some, length, arith}
use lora_multihop.Prelude.Decimal.{codes, decimal, digits}
use lora_multihop.Lora.{LoraRc}
use lora_multihop.Txrx.{
  Outcome, tx_message, tx_loop, tx_shown, rx_loop, c_text, packet_max_size_bytes,
}
use lora_multihop.Txrx.Shown.{rx_loop-tx_loop}

tx_loop_12 : tx_loop 12 (λ m. LoraRc.okay) ≡ (13, Outcome.goes_on, some (codes "TX[12]"))
unfolding tx_loop tx_shown decimal digits
tx_loop_12 = refl

-- Bytes with no zero byte among them are shown with what stands behind them in memory.
rx_loop_unterminated : rx_loop (LoraRc.okay, codes "hi") ≡ (Outcome.goes_on, none)
unfolding rx_loop c_text
rx_loop_unterminated = refl

shown_12 : (tx_loop 12 (λ m. LoraRc.okay)).2 ≡ some (codes "TX[12]")
unfolding tx_loop tx_shown decimal digits
shown_12 = refl

rx_loop-tx_loop_example :
    (length (tx_message 12) ≤ packet_max_size_bytes)
    × (rx_loop (LoraRc.okay, tx_message 12) ≡ (Outcome.goes_on, some (codes "TX[12]")))
rx_loop-tx_loop_example =
    rx_loop-tx_loop 12 (λ m. LoraRc.okay) (codes "TX[12]") (omega arith) shown_12
