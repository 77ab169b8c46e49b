-- ===== src/Multihop/Delivery/Tests.antt =====
-- The frames of Samples on their way, by the handlers of lib/net/src/multihop.cpp.
use lora_multihop.Prelude.{◌≡◌, ◌++◌, get_elem?, refl, some, [], ◌∷◌, arith}
use lora_multihop.Link.Tx.Queue.{Queued}
use lora_multihop.Multihop.Messages.{decode_msg}
use lora_multihop.Multihop.Node.{NodeRc}
use lora_multihop.Multihop.Node.Data.Fragment.{carried}
use lora_multihop.Multihop.Node.Relay.{do_clusterhead_recv}
use lora_multihop.Multihop.Node.Relay.Queue.{datagrams, last_sequence, or_else}
use lora_multihop.Multihop.Node.Relay.Hop.{do_clusterhead_recv-datagrams}
use lora_multihop.Multihop.Delivery.{fragment_message, send_datagram-do_clusterhead_recv}
use lora_multihop.Multihop.Delivery.Samples.{
  follower, between, nearer, three, takes, hearing, empty-Queued,
}
use lora_multihop.Multihop.Delivery.Frames.{
  first_frame, second_frame, follower_started, three-IsIterator, three_room, three_queued,
  follower-Sends, between-Hears, nearer-Hears, way, nearer-Room, short_message, first_frame-IsFrame,
  between-Room,
}

send_datagram-do_clusterhead_recv_example :
    ((do_clusterhead_recv nearer 737 737 (hearing second_frame)).1 ≡ NodeRc.ok)
    × Queued
        (do_clusterhead_recv nearer 737 737 (hearing second_frame)).0.link
        (fragment_message follower three 716 ∷ [])
    × (decode_msg (fragment_message follower three 716) ≡ some (carried follower three 716))
send_datagram-do_clusterhead_recv_example =
    send_datagram-do_clusterhead_recv follower three 716 221 follower_started three-IsIterator
      (omega arith) (omega arith) (omega (arith, three_room)) (empty-Queued 7 3 1 15) three_queued
      (omega arith) short_message 716 716 716 takes first_frame second_frame follower-Sends way
      nearer 737 737 9 (hearing second_frame) [] nearer-Hears (empty-Queued 3 1 15 8) nearer-Room
      refl

do_clusterhead_recv-datagrams_example :
    let (after, rc) = do_clusterhead_recv between 716 716 (hearing first_frame) in
    let msgs = fragment_message follower three 716 ∷ [] in
    (rc ≡ NodeRc.ok)
    × Queued after.link ([] ++ datagrams msgs)
    × (get_elem? after.state.acks 1 ≡ or_else (last_sequence msgs) (some 0))
do_clusterhead_recv-datagrams_example =
    do_clusterhead_recv-datagrams between 716 716 2 (hearing first_frame) first_frame-IsFrame
      (omega arith) between-Hears [] (empty-Queued 5 2 8 1) between-Room (short_message, tt)
      (omega arith)
