-- ===== src/Multihop/Node/Data.antt =====
-- Acks and datagrams: send_acks and send_datagram of lib/net/src/multihop.cpp.
pub mod Fragment
mod Tests
use lora_multihop.Prelude.{
  ℕ, ◌+◌, ◌-◌, ◌/◌, ◌*◌, Option, none, some, List, [], ◌∷◌, ltb, leb, u8, take, drop, min,
  if◌then◌else◌,
}
use lora_multihop.Link.Tx.{tx_bytes_available}
use lora_multihop.Multihop.Messages.{MessageType, Datagram, Body, header_size, body_size, le32}
use lora_multihop.Multihop.Datagram.{DatagramIterator, next, rewind}
use lora_multihop.Multihop.State.{MultihopState, initialized}
use lora_multihop.Multihop.Node.{Node, NodeRc, make_msg, send}

-- The acks as they lie in memory.
unfoldable pub ack_bytes : List ℕ → List ℕ
ack_bytes [] = []
ack_bytes (a ∷ acks) = le32 a (ack_bytes acks)

abbrev pub acks_msg_size : ℕ
acks_msg_size = header_size + body_size MessageType.send_acks

-- How many acks go into one message, from `ack_start` on.
unfoldable pub acks_that_fit : Node → ℕ → ℕ
acks_that_fit n ack_start =
    let room = (tx_bytes_available n.link - acks_msg_size) / 4 in
    let num_acks = min room (255 - ack_start) in
    if ltb n.state.slot_count (ack_start + num_acks)
    then (if ltb ack_start n.state.slot_count then n.state.slot_count - ack_start else 0)
    else num_acks

-- `send_acks`; the option is what goes out through `ack_end`, `none` where it is left alone.
unfoldable pub send_acks : Node → ℕ → ℕ → Node × NodeRc × Option ℕ
send_acks n now ack_start =
    if initialized n.state
    then (if leb (tx_bytes_available n.link) acks_msg_size
        then (n, NodeRc.link_full, some ack_start)
        else (let num_acks = acks_that_fit n ack_start in
            let ack_end = u8 (ack_start + num_acks) in
            let (sent, rc) =
              send n (make_msg n.state now MessageType.send_acks (Body.send_acks ack_start ack_end))
                (ack_bytes (take num_acks (drop ack_start n.state.acks))) in
            (sent, rc, some ack_end)))
    else (n, NodeRc.not_init, none)

-- `send_datagram` once the iterator has moved on to `it` with a fragment.
unfoldable pub send_fragment :
    Node → DatagramIterator → ℕ → Datagram → List ℕ → Node × DatagramIterator × NodeRc
send_fragment n it now d bytes =
    if ltb (tx_bytes_available n.link) it.last_msg_sz
    then (n, (rewind it).0, NodeRc.link_full)
    else (let (sent, rc) =
          send n (make_msg n.state now MessageType.datagram (Body.datagram d)) bytes in
        (sent, it, rc))

unfoldable pub send_datagram : Node → DatagramIterator → ℕ → Node × DatagramIterator × NodeRc
send_datagram n it now =
    if initialized n.state
    then (let (it', out) = next it in
        elim out [
          | none ↦ (n, it', NodeRc.no_data)
          | some (d, bytes) ↦ send_fragment n it' now d bytes
        ])
    else (n, it, NodeRc.not_init)
