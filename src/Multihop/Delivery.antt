-- ===== src/Multihop/Delivery.antt =====
-- From a follower to the gateway over any number of clusterheads, by the handlers of lib/net/src/multihop.cpp: each
-- clusterhead hears the frame of the one before in do_clusterhead_recv, and sends what it has queued then in do_follower_send.
-- The loop of multihop/node/src/main.cpp calls do_clusterhead_send in between, whose flush takes the whole queue.
pub mod Whole
mod Samples
mod Frames
pub mod Acked
mod Tests
use lora_multihop.Prelude.{
  ℕ, ◌^◌, ◌≤◌, ◌<◌, ◌≡◌, ap, refl, sym, subst, ◌∙◌, true, some, List, [], ◌∷◌, ◌++◌, length, u8,
  ◌-◌, arith,
}
use lora_multihop.Lora.{LoraRc}
use lora_multihop.Link.Payload.{encode_messages}
use lora_multihop.Link.Tx.{tx_bytes_available}
use lora_multihop.Link.Tx.Queue.{Queued}
use lora_multihop.Link.Tx.Filled.{IsFrame}
use lora_multihop.Link.Rx.{Reception}
use lora_multihop.Multihop.Messages.{Message, MessageType, encode, decode_msg}
use lora_multihop.Multihop.Datagram.{DatagramIterator}
use lora_multihop.Multihop.Datagram.Cursor.{IsIterator, taken, fragment}
use lora_multihop.Multihop.State.{initialized}
use lora_multihop.Multihop.Node.{Node, NodeRc, make_msg}
use lora_multihop.Multihop.Node.Data.{send_datagram}
use lora_multihop.Multihop.Node.Data.Fragment.{carried, send_datagram-sent}
use lora_multihop.Multihop.Node.Relay.{do_clusterhead_recv, do_follower_send}
use lora_multihop.Multihop.Node.Relay.Queue.{
  Room, AllUpTo, datagrams, sequence_of, sequence_of_type,
}
use lora_multihop.Multihop.Node.Relay.Hop.{
  Hears, Sends, do_clusterhead_recv-Queued, do_follower_send-IsFrame,
}

-- A clusterhead with nothing queued and buffers of 255 bytes that hears the frame f, and is a follower of the next
-- node: it hands the frame g to its radio.
pub record Stop (most : ℕ) (f g : List ℕ) : Type 0 where
  pub node : Node
  pub heard_slot_now : ℕ
  pub heard_now : ℕ
  pub slot : ℕ
  pub hear : ℕ → Reception
  pub sent_slot_now : ℕ
  pub sent_now : ℕ
  pub hdr_now : ℕ
  pub send : List ℕ → LoraRc
  pub empty : Queued node.link []
  pub buffer : 255 ≤ node.link.params.tx_sz
  pub longest : node.link.params.msg_max_bytes ≡ most
  pub hears : Hears node heard_slot_now heard_now hear slot f
  pub sends :
      Sends
        (do_clusterhead_recv node heard_slot_now heard_now hear).0
        sent_slot_now
        sent_now
        hdr_now
        send
        g

-- A way from the radio that is handed the first frame to the one that is handed the last, over any number of stops.
pub data Route (most : ℕ) : List ℕ → List ℕ → Type 0 where
  arrived : {f : List ℕ} → Route most f f
  relayed : {f g h : List ℕ} → Stop most f g → Route most g h → Route most f h

module _ (most : ℕ) (byte : most ≤ 255) (msgs : List (List ℕ)) (some_message : 0 < length msgs)
    (all : datagrams msgs ≡ msgs) (short : AllUpTo most msgs) where
  Stop-IsFrame : {f g : List ℕ} → Stop most f g → IsFrame f msgs → IsFrame g msgs
  Stop-IsFrame s i =
      let room : Room s.node (datagrams msgs) = record {
        started = s.hears.started;
        small = omega (arith, s.longest);
        fits = omega (
          arith,
          i.payload,
          s.buffer,
          ap (λ (k : List (List ℕ)). length (encode_messages k)) all,
        );
      } in
      let heard =
        do_clusterhead_recv-Queued s.node s.heard_slot_now s.heard_now s.slot s.hear i some_message
          s.hears [] s.empty room (subst (λ (b : ℕ). AllUpTo b msgs) (sym s.longest) short) in
      (do_follower_send-IsFrame (do_clusterhead_recv s.node s.heard_slot_now s.heard_now s.hear).0
        s.sent_slot_now s.sent_now s.hdr_now s.send
        (subst
          (λ (k : List (List ℕ)).
            Queued (do_clusterhead_recv s.node s.heard_slot_now s.heard_now s.hear).0.link k)
          all heard.1)
        s.sends).1

  -- A frame of datagrams, each of at most so many bytes, comes out of a route of any length with the same datagrams in the same order.
  pub Route-IsFrame : {f h : List ℕ} → Route most f h → IsFrame f msgs → IsFrame h msgs
  Route-IsFrame Route.arrived i = i
  Route-IsFrame (Route.relayed s rest) i = Route-IsFrame rest (Stop-IsFrame s i)

a_datagram :
    (m : List ℕ) (n : Node) (it : DatagramIterator) (now : ℕ)
    → decode_msg m ≡ some (carried n it now)
    → datagrams (m ∷ []) ≡ m ∷ []
unfolding datagrams sequence_of sequence_of_type make_msg
a_datagram m n it now e = rw e (refl)

-- The message that carries the fragment at the iterator's cursor.
abbrev pub fragment_message : Node → DatagramIterator → ℕ → List ℕ
fragment_message n it now = encode (carried n it now) ++ (fragment it).1

-- Let a follower with nothing queued queue a fragment with send_datagram, for which there is room, and send in its slot; let the frame
-- take a route over any number of clusterheads, each with nothing queued, which hear it in do_clusterhead_recv and next send in
-- do_follower_send, in their slots, and whose radios hear and take the frames; and let a last clusterhead, such as the gateway,
-- with room in its queue, hear what comes out. Then its do_clusterhead_recv answers Ok and queues behind what it has queued
-- exactly the message of the fragment, from which decode_msg reads the fragment's part number, count and size as the
-- follower has written them.
pub send_datagram-do_clusterhead_recv :
    (n : Node) (it : DatagramIterator) (now most : ℕ)
    → initialized n.state ≡ true
    → IsIterator it
    → it.i < it.sz
    → now < 2 ^ 32
    → taken it ≤ tx_bytes_available n.link
    → Queued n.link []
    → (send_datagram n it now).2 ≡ NodeRc.ok
    → most ≤ 255
    → length (fragment_message n it now) ≤ most
    → (slot_now flush_now hdr_now : ℕ) (send : List ℕ → LoraRc) (f h : List ℕ)
    → Sends (send_datagram n it now).0 slot_now flush_now hdr_now send f
    → Route most f h
    → (last : Node) (last_slot_now last_now slot : ℕ) (hear : ℕ → Reception) (old : List (List ℕ))
    → Hears last last_slot_now last_now hear slot h
    → Queued last.link old
    → Room last (old ++ (fragment_message n it now ∷ []))
    → last.link.params.msg_max_bytes ≡ most
    → ((do_clusterhead_recv last last_slot_now last_now hear).1 ≡ NodeRc.ok)
      × Queued
          (do_clusterhead_recv last last_slot_now last_now hear).0.link
          (old ++ (fragment_message n it now ∷ []))
      × (decode_msg (fragment_message n it now) ≡ some (carried n it now))
send_datagram-do_clusterhead_recv n it now most started v more time room q sent byte short slot_now
      flush_now hdr_now send f h sends route last last_slot_now last_now slot hear old hears q_last
      room_last longest =
    let m = fragment_message n it now in
    let (queued, decoded, _) = send_datagram-sent n it now [] started v more time room q sent in
    let (_, first, _) =
      do_follower_send-IsFrame (send_datagram n it now).0 slot_now flush_now hdr_now send queued
        sends in
    let one = a_datagram m n it now decoded in
    let frame = Route-IsFrame most byte (m ∷ []) (omega arith) one (short, tt) route first in
    let got =
      do_clusterhead_recv-Queued last last_slot_now last_now slot hear frame (omega arith) hears old
        q_last (subst (λ (k : List (List ℕ)). Room last (old ++ k)) (sym one) room_last)
        (subst (λ (b : ℕ). AllUpTo b (m ∷ [])) (sym longest) (short, tt)) in
    (
      got.0,
      subst
          (λ (k : List (List ℕ)).
            Queued (do_clusterhead_recv last last_slot_now last_now hear).0.link (old ++ k))
          one got.1,
      decoded,
    )
