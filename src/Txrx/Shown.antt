-- ===== src/Txrx/Shown.antt =====
-- What tx/src/main.cpp of lora_txrx sends and rx/src/main.cpp shows.
use lora_multihop.Prelude.{
  ℕ, zero, suc, ◌+◌, ◌/◌, ◌%◌, ◌^◌, ◌≤◌, ◌<◌, ◌≡◌, refl, ap, ◌∙◌, Option, some, Bool-cases, inl,
  inr, ltb, List, [], ◌∷◌, ◌++◌, length, length-append, arith,
}
use lora_multihop.Prelude.Decimal.{decimal, digits, length-decimal}
use lora_multihop.Lora.{LoraRc}
use lora_multihop.Txrx.{
  Outcome, tx_text, tx_message, tx_loop, tx_shown, rx_loop, c_text, packet_max_size_bytes,
}

abbrev NoZero : List ℕ → Type 0
NoZero [] = Unit {0}
NoZero (c ∷ text) = (0 < c) × NoZero text

digits-NoZero : (fuel n : ℕ) (text : List ℕ) → NoZero text → NoZero (digits fuel n text)
unfolding digits
digits-NoZero zero n text h = h
digits-NoZero (suc fuel) n text h = elim (Bool-cases (ltb n 10)) [
  | inl small ↦ rw small (omega arith, h)
  | inr large ↦ rw large (digits-NoZero fuel (n / 10) ((b'0' + n % 10) ∷ text) (omega arith, h))
]

NoZero-append : (a b : List ℕ) → NoZero a → NoZero b → NoZero (a ++ b)
NoZero-append [] b ha hb = hb
NoZero-append (c ∷ a) b ha hb = (ha.0, NoZero-append a b ha.1 hb)

c_text_lem : (text : List ℕ) → NoZero text → c_text (text ++ (0 ∷ [])) ≡ some text
unfolding c_text
c_text_lem [] h = refl
c_text_lem (c ∷ text) h = ground (arith, c_text_lem text h.1)

tx_text-NoZero : (counter : ℕ) → NoZero (tx_text counter)
unfolding decimal
tx_text-NoZero counter =
    let spelled =
      NoZero-append (digits 20 counter []) (b']' ∷ []) (digits-NoZero 20 counter [] tt)
        (omega arith, tt) in
    (omega arith, (omega arith, (omega arith, spelled)))

text_shown :
    (rc : LoraRc) (text : List ℕ) {shown : List ℕ}
    → (tx_shown rc text).1 ≡ some shown
    → text ≡ shown
unfolding tx_shown
text_shown LoraRc.okay text h = cc
text_shown _ text h = cc

-- The message that the sender hands to the radio fits the buffer in which it is written; and a listener that hears it
-- shows the text that the sender shows.
pub rx_loop-tx_loop :
    (counter : ℕ) (radio : List ℕ → LoraRc) (text : List ℕ)
    → counter < 2 ^ 32
    → (tx_loop counter radio).2 ≡ some text
    → (length (tx_message counter) ≤ packet_max_size_bytes)
      × (rx_loop (LoraRc.okay, tx_message counter) ≡ (Outcome.goes_on, some text))
unfolding tx_loop rx_loop
rx_loop-tx_loop counter radio text fits shown =
    let short = length-decimal 9 counter (omega arith) in
    let same = text_shown (radio (tx_message counter)) (tx_text counter) shown in
    (
      omega (
        arith,
        short,
        length-append (decimal counter ++ (b']' ∷ [])) (0 ∷ []),
        length-append (decimal counter) (b']' ∷ []),
      ),
      ap (λ (t : Option (List ℕ)). (Outcome.goes_on, t))
          (c_text_lem (tx_text counter) (tx_text-NoZero counter)
            ∙ ap (λ (t : List ℕ). some t) same),
    )
