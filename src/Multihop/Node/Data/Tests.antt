-- ===== src/Multihop/Node/Data/Tests.antt =====
-- The theorems about fragments at a concrete node with an empty queue.
use lora_multihop.Prelude.{◌≡◌, refl, [], ◌∷◌, replicate, arith}
use lora_multihop.Link.Tx.{tx_bytes_available, sendmsg_vec, size}
use lora_multihop.Link.Tx.Queue.{Queued}
use lora_multihop.Multihop.Datagram.{DatagramIterator, advance, next, peek, has_next}
use lora_multihop.Multihop.Datagram.Cursor.{IsIterator}
use lora_multihop.Multihop.State.{initialized}
use lora_multihop.Multihop.Node.{Node, NodeRc, make_msg, send}
use lora_multihop.Multihop.Node.Slots.{prepare_clusterhead}
use lora_multihop.Multihop.Node.Tests.{head, head_started}
use lora_multihop.Multihop.Node.Data.{send_datagram, send_fragment}
use lora_multihop.Multihop.Node.Data.Fragment.{send_datagram-full}

-- Five bytes, cut by two.
abbrev five : DatagramIterator
five = record {
  part = 0;
  count = 3;
  i = 0;
  buf = 1 ∷ 2 ∷ 3 ∷ 4 ∷ 5 ∷ [];
  sz = 5;
  max_fragment_bytes = 2;
  last_msg_sz = 0;
}

five-IsIterator : IsIterator five
five-IsIterator = record {
  stored = refl;
  positive = omega arith;
  word = omega arith;
  within = omega arith;
  parts = omega arith;
}

head-Queued : Queued head.link []
head-Queued = record {
  header = replicate 12 0;
  rest = replicate 243 0;
  header_length = refl;
  layout = refl;
  storage = refl;
  limit = omega arith;
  count = refl;
  total = refl;
}

head_room : tx_bytes_available head.link ≡ 243
unfolding tx_bytes_available
head_room = refl

head_sends : (send_datagram head five 720).2 ≡ NodeRc.ok
unfolding send_datagram next peek has_next send_fragment send sendmsg_vec size tx_bytes_available
    advance initialized prepare_clusterhead make_msg
head_sends = refl

-- The same node with a transmit buffer of 13 bytes.
abbrev tight : Node
tight = record head {
  link = record (head.link) { params = record (head.link.params) { tx_sz = 13 } };
}

tight_room : tx_bytes_available tight.link ≡ 1
unfolding tx_bytes_available
tight_room = refl

send_datagram-full_example : send_datagram tight five 720 ≡ (tight, five, NodeRc.link_full)
send_datagram-full_example =
    send_datagram-full tight five 720 head_started five-IsIterator (omega arith) (omega arith)
      (omega (arith, tight_room))
