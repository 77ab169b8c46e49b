-- ===== src/Link/Payload.antt =====
-- What the payload of a frame stands for: its messages in order, each behind a byte with its length.
use lora_multihop.Prelude.{
  ℕ, ◌+◌, ◌≡◌, ap, List, [], ◌∷◌, ◌++◌, append_assoc, append-nil, length, length-append, arith,
}

abbrev pub encode_messages : List (List ℕ) → List ℕ
encode_messages [] = []
encode_messages (m ∷ ms) = length m ∷ (m ++ encode_messages ms)

pub encode_messages-append :
    (ms : List (List ℕ)) (m : List ℕ)
    → encode_messages (ms ++ (m ∷ [])) ≡ encode_messages ms ++ (length m ∷ m)
encode_messages-append [] m = ap (λ (k : List ℕ). length m ∷ k) (append-nil m)
encode_messages-append (x ∷ ms) m =
    ap (λ (k : List ℕ). length x ∷ k)
      (rw (encode_messages-append ms m, append_assoc x (encode_messages ms) (length m ∷ m)))

pub length-encode_messages :
    (ms : List (List ℕ)) (m : List ℕ)
    → length (encode_messages (ms ++ (m ∷ []))) ≡ length (encode_messages ms) + length m + 1
length-encode_messages ms m = omega (
  arith,
  ap length (encode_messages-append ms m),
  length-append (encode_messages ms) (length m ∷ m),
)
