-- ===== src/Multihop/Node/Follower/Acked.antt =====
-- The ack of a clusterhead's SendAcks that reaches a follower, by lib/net/src/multihop.cpp.
use lora_multihop.Prelude.{
  ℕ, zero, suc, ◌+◌, ◌-◌, ◌*◌, ◌^◌, ◌≤◌, ◌<◌, ◌≡◌, refl, ap, ◌∙◌, true, false, List, [], ◌∷◌, ◌++◌,
  some, length, get_or, set, byte_at, of_le32, arith,
}
use lora_multihop.Multihop.Messages.{MessageType, Body, Message, encode, decode_msg}
use lora_multihop.Multihop.Messages.Decode.{decode_msg-encode}
use lora_multihop.Multihop.State.{MultihopState}
use lora_multihop.Multihop.Node.{make_msg}
use lora_multihop.Multihop.Node.Data.{ack_bytes}
use lora_multihop.Multihop.Node.Follower.{ack_at, take_ack, hear_message, hear_clusterhead}

abbrev pub AllWords : List ℕ → Type 0
AllWords [] = Unit {0}
AllWords (a ∷ acks) = (a < 2 ^ 32) × AllWords acks

pub length-ack_bytes : (acks : List ℕ) → length (ack_bytes acks) ≡ 4 * length acks
unfolding ack_bytes
length-ack_bytes [] = refl
length-ack_bytes (a ∷ acks) = omega (arith, length-ack_bytes acks)

get_or_behind :
    (xs ys : List ℕ) (n i : ℕ) → n ≡ length xs + i → get_or (xs ++ ys) n 0 ≡ get_or ys i 0
get_or_behind [] ys n i e = let same : n ≡ i = omega arith in ap (λ k. get_or ys k 0) same
get_or_behind (x ∷ xs) ys zero i e = absurd (omega arith)
get_or_behind (x ∷ xs) ys (suc n) i e = get_or_behind xs ys n i (omega arith)

-- The ack whose four bytes start at an offset.
abbrev word_at : List ℕ → ℕ → ℕ
word_at buf i =
    of_le32 (byte_at buf i) (byte_at buf (i + 1)) (byte_at buf (i + 2)) (byte_at buf (i + 3))

word_at_behind :
    (xs ys : List ℕ) (n i : ℕ) → n ≡ length xs + i → word_at (xs ++ ys) n ≡ word_at ys i
word_at_behind xs ys n i e = ground (
  arith,
  get_or_behind xs ys n i,
  get_or_behind xs ys (n + 1) (i + 1),
  get_or_behind xs ys (n + 2) (i + 2),
  get_or_behind xs ys (n + 3) (i + 3),
)

word_at-ack_bytes :
    (acks : List ℕ) (k : ℕ)
    → AllWords acks
    → k < length acks
    → word_at (ack_bytes acks) (k * 4) ≡ get_or acks k 0
unfolding ack_bytes
word_at-ack_bytes [] k w h = absurd (omega arith)
word_at-ack_bytes (a ∷ acks) zero w h = ground arith
word_at-ack_bytes (a ∷ acks) (suc k) w h =
    word_at_behind (ack_bytes (a ∷ [])) (ack_bytes acks) (suc k * 4) (k * 4) (omega arith)
    ∙ word_at-ack_bytes acks k w.1 (omega arith)

-- A SendAcks of a clusterhead with the acks of its slots from `start` on.
abbrev pub acks_msg : MultihopState → ℕ → ℕ → ℕ → Message
acks_msg s now start end = make_msg s now MessageType.send_acks (Body.send_acks start end)

acks_msg-decoded :
    (head : MultihopState) (now start end : ℕ) (acks : List ℕ)
    → now < 2 ^ 32
    → end < 256
    → start < end
    → length acks ≡ end - start
    → decode_msg (encode (acks_msg head now start end) ++ ack_bytes acks)
      ≡ some (acks_msg head now start end)
unfolding make_msg
acks_msg-decoded head now start end acks time byte some_ack fit =
    decode_msg-encode (acks_msg head now start end) (ack_bytes acks) (record {
      matches = refl;
      sequence = time;
      body = (some_ack, byte, omega (arith, length-ack_bytes acks));
    })

hear_clusterhead-decoded :
    (s head : MultihopState) (now start end : ℕ) (buf : List ℕ)
    → decode_msg buf ≡ some (acks_msg head now start end)
    → start ≤ s.upstream_relative_slot
    → s.upstream_relative_slot < end
    → hear_clusterhead s true buf
      ≡ (record s { acks = set s.acks 0 (ack_at buf (s.upstream_relative_slot - start)) }, false)
unfolding hear_message take_ack make_msg
hear_clusterhead-decoded s head now start end buf e low high =
    ap (λ o. hear_message s true buf o) e ∙ ground arith

-- A follower whose slot is in the range of a SendAcks takes, from the bytes that the clusterhead has queued for it, the ack
-- of its own slot, and stops waiting.
pub hear_clusterhead-acks :
    (s head : MultihopState) (now start end : ℕ) (acks : List ℕ)
    → now < 2 ^ 32
    → end < 256
    → start ≤ s.upstream_relative_slot
    → s.upstream_relative_slot < end
    → length acks ≡ end - start
    → AllWords acks
    → hear_clusterhead s true (encode (acks_msg head now start end) ++ ack_bytes acks)
      ≡ (record s { acks = set s.acks 0 (get_or acks (s.upstream_relative_slot - start) 0) }, false)
unfolding make_msg
hear_clusterhead-acks s head now start end acks time byte low high fit words =
    let msg = acks_msg head now start end in
    let k = s.upstream_relative_slot - start in
    let buf = encode msg ++ ack_bytes acks in
    let found : ack_at buf k ≡ get_or acks k 0 =
      word_at_behind (encode msg) (ack_bytes acks) (8 + k * 4) (k * 4) (omega arith)
      ∙ word_at-ack_bytes acks k words (omega arith) in
    hear_clusterhead-decoded s head now start end buf
      (acks_msg-decoded head now start end acks time byte (omega arith) fit) low high
    ∙ ap (λ a. (record s { acks = set s.acks 0 a }, false)) found
