-- ===== src/Multihop/Node/Relay/Acks.antt =====
-- The acks of all slots of a clusterhead in one message of its queue, by send_acks and the loop of emit_ch_messages in
-- lib/net/src/multihop.cpp.
use lora_multihop.Prelude.{
  ℕ, suc, ◌+◌, ◌*◌, ◌≤◌, ◌<◌, ◌≡◌, refl, ap, sym, subst, ◌∙◌, true, some, List, [], ◌∷◌, ◌++◌,
  append-nil, length, take, u8, arith,
}
use lora_multihop.Link.{Link, LinkRc, frame_header_size}
use lora_multihop.Link.Payload.{encode_messages, length-encode_messages}
use lora_multihop.Link.Tx.{MessageVec, sendmsg, sendmsg_vec, store, tx_bytes_available}
use lora_multihop.Link.Tx.Queue.{Queued, bytes, sendmsg_vec_lem, sendmsg_vec-Queued}
use lora_multihop.Multihop.Messages.{MessageType, Body, Message, encode, size}
use lora_multihop.Multihop.Messages.Decode.{IsMessage, length-encode}
use lora_multihop.Multihop.State.{MultihopState, initialized}
use lora_multihop.Multihop.Node.{Node, NodeRc, make_msg, send, send_result}
use lora_multihop.Multihop.Node.Data.{ack_bytes, acks_that_fit, send_acks}
use lora_multihop.Multihop.Node.Relay.{ack_loop}
use lora_multihop.Multihop.Node.Relay.Queue.{Room, sendmsg-bytes}

sendmsg_vec-taken :
    {s : Link} {old : List (List ℕ)} (v : MessageVec) (m : List ℕ)
    → bytes v ≡ m
    → Queued s old
    → s.initialized ≡ true
    → length m ≤ s.params.msg_max_bytes
    → frame_header_size + length (encode_messages (old ++ (m ∷ []))) ≤ s.params.tx_sz
    → ((sendmsg_vec s v).1 ≡ LinkRc.ok) × Queued (sendmsg_vec s v).0 (old ++ (m ∷ []))
sendmsg_vec-taken {s} {old} v m same q started short fits =
    let taken : (sendmsg_vec s v).1 ≡ LinkRc.ok = (sendmsg_vec_lem s v started).0.1 (
      omega (arith, ap length same, q.total, length-encode_messages old m),
      omega (arith, ap length same),
    ) in
    (
      taken,
      subst (λ (k : List ℕ). Queued (sendmsg_vec s v).0 (old ++ (k ∷ []))) same
          (sendmsg_vec-Queued v q taken),
    )

-- A message with its data that fits is queued behind the others.
pub send-taken :
    (n : Node) (msg : Message) (bs : List ℕ) (old : List (List ℕ))
    → IsMessage msg bs
    → Queued n.link old
    → Room n (old ++ ((encode msg ++ bs) ∷ []))
    → length (encode msg ++ bs) ≤ n.link.params.msg_max_bytes
    → ((send n msg bs).1 ≡ NodeRc.ok)
      × Queued (send n msg bs).0.link (old ++ ((encode msg ++ bs) ∷ []))
unfolding send sendmsg
send-taken n msg [] old v q room short =
    let sized = length-encode msg [] v in
    let bare : encode msg ++ [] ≡ encode msg = append-nil (encode msg) in
    let part = take (u8 (size msg)) (encode msg) ∷ [] in
    let same : bytes part ≡ encode msg ++ [] =
      ap (λ (k : ℕ). take (u8 k) (encode msg) ++ []) (sym sized)
      ∙ sendmsg-bytes (encode msg) (omega (arith, ap length bare, short, room.small))
      ∙ sym bare in
    let (taken, queued) =
      sendmsg_vec-taken part (encode msg ++ []) same q room.started short room.fits in
    (ap send_result taken, queued)
send-taken n msg (b ∷ bs) old v q room short =
    let part = encode msg ∷ (b ∷ bs) ∷ [] in
    let same : bytes part ≡ encode msg ++ (b ∷ bs) =
      ap (λ (k : List ℕ). encode msg ++ k) (append-nil (b ∷ bs)) in
    let (taken, queued) =
      sendmsg_vec-taken part (encode msg ++ (b ∷ bs)) same q room.started short room.fits in
    (ap send_result taken, queued)

-- Queueing changes neither the state of the node nor the sizes.
pub send_sizes :
    (n : Node) (msg : Message) (bs : List ℕ)
    → ((send n msg bs).0.state ≡ n.state)
      × ((send n msg bs).0.link.initialized ≡ n.link.initialized)
      × ((send n msg bs).0.link.params.msg_max_bytes ≡ n.link.params.msg_max_bytes)
      × ((send n msg bs).0.link.params.tx_sz ≡ n.link.params.tx_sz)
unfolding send sendmsg sendmsg_vec store
send_sizes n msg [] = ground arith
send_sizes n msg (b ∷ bs) = ground arith

acks_that_fit-all :
    (n : Node) (old : List (List ℕ))
    → Queued n.link old
    → n.state.slot_count < 256
    → frame_header_size + length (encode_messages old) + 9 + 4 * n.state.slot_count
      ≤ n.link.params.tx_sz
    → acks_that_fit n 0 ≡ n.state.slot_count
unfolding acks_that_fit tx_bytes_available
acks_that_fit-all n old q byte fits = ground (arith, q.count, q.total)

-- The acks of all slots, as one message.
abbrev pub all_acks : MultihopState → ℕ → Message
all_acks s now = make_msg s now MessageType.send_acks (Body.send_acks 0 s.slot_count)

take_all : (xs : List ℕ) → take (length xs) xs ≡ xs
take_all [] = refl
take_all (x ∷ xs) = ap (λ (k : List ℕ). x ∷ k) (take_all xs)

-- Where there is room, one message takes the acks of all slots.
pub send_acks-all :
    (n : Node) (now : ℕ) (old : List (List ℕ))
    → initialized n.state ≡ true
    → Queued n.link old
    → n.state.slot_count < 256
    → length n.state.acks ≡ n.state.slot_count
    → frame_header_size + length (encode_messages old) + 9 + 4 * n.state.slot_count
      ≤ n.link.params.tx_sz
    → let (sent, rc) = send n (all_acks n.state now) (ack_bytes n.state.acks) in
      send_acks n now 0 ≡ (sent, rc, some n.state.slot_count)
unfolding send_acks tx_bytes_available
send_acks-all n now old started q byte size fits =
    let all : acks_that_fit n 0 ≡ n.state.slot_count = acks_that_fit-all n old q byte fits in
    let whole : take n.state.slot_count n.state.acks ≡ n.state.acks =
      ap (λ (k : ℕ). take k n.state.acks) (sym size) ∙ take_all n.state.acks in
    ground (arith, started, all, whole, q.count, q.total)

-- The loop ends with that message.
pub ack_loop-all :
    (k : ℕ) (n : Node) (clock : ℕ → ℕ) (now : ℕ)
    → clock (suc k) ≡ now
    → let (sent, rc) = send n (all_acks n.state now) (ack_bytes n.state.acks) in
      send_acks n now 0 ≡ (sent, rc, some n.state.slot_count)
      → rc ≡ NodeRc.ok
      → sent.state ≡ n.state
      → 0 < n.state.slots_assigned
      → n.state.slots_assigned ≤ n.state.slot_count
      → ack_loop (suc (suc k)) n clock 0 ≡ sent
unfolding ack_loop
ack_loop-all k n clock now read whole sent kept some_slot slots =
    rw (read, whole) (ground (arith, sent, kept))
