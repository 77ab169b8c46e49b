-- ===== src/Multihop/Delivery/Frames.antt =====
-- The frames of the first fragment of Samples: sent in slot 2, and passed on in slot 9.
use lora_multihop.Prelude.{some, ◌++◌, ◌≤◌, length, ℕ, ◌≡◌, refl, true, List, [], ◌∷◌, arith}
use lora_multihop.Link.{update_window}
use lora_multihop.Link.Frame.{calculate_checksum, header_checksum}
use lora_multihop.Link.Slots.{active_slot, current_slot}
use lora_multihop.Link.Code.{set_cdma_code}
use lora_multihop.Link.Tx.{
  flush, fill_frame_header, transmit, truncate_tx, sendmsg, sendmsg_vec, tx_bytes_available, size,
  store, write,
}
use lora_multihop.Link.Rx.{
  recv, receive, accept_frame, check_frame, truncate_rx, rewind, getmsg, getmsg_at,
}
use lora_multihop.Multihop.Messages.{decode_msg, decode_body, fits_type}
use lora_multihop.Multihop.Datagram.{next, peek, has_next, advance}
use lora_multihop.Multihop.Datagram.Cursor.{IsIterator}
use lora_multihop.Multihop.State.{initialized}
use lora_multihop.Multihop.Node.{NodeRc, make_msg, send, vtdma_window_size}
use lora_multihop.Multihop.Node.Data.{send_datagram, send_fragment}
use lora_multihop.Multihop.Node.Relay.{do_clusterhead_recv, listens, relay, relay_loop, relay_frame}
use lora_multihop.Multihop.Node.Relay.Hop.{Hears, Sends, do_follower_send-IsFrame}
use lora_multihop.Multihop.Delivery.{Route, fragment_message}
use lora_multihop.Multihop.Node.Relay.Queue.{Room, datagrams, sequence_of, sequence_of_type}
use lora_multihop.Link.Tx.Queue.{Queued}
use lora_multihop.Link.Tx.Filled.{IsFrame}
use lora_multihop.Multihop.Node.Data.Fragment.{carried, send_datagram-sent}
use lora_multihop.Multihop.Delivery.Samples.{
  follower, between, nearer, three, takes, hearing, empty-Queued,
}

-- The frame of the follower, and that of the clusterhead behind it: the sender and its time are other ones, and so the checksum.
abbrev pub first_frame : List ℕ
first_frame =
    32 ∷ 2 ∷ 13 ∷ 0 ∷ 204 ∷ 2 ∷ 0 ∷ 0 ∷ 7 ∷ 1 ∷ 0 ∷ 0 ∷ 12 ∷ 204 ∷ 2 ∷ 0 ∷ 0 ∷ 7 ∷ 5 ∷ 2 ∷ 0 ∷ 2 ∷ 0
    ∷ 41 ∷ 42 ∷ []

abbrev pub second_frame : List ℕ
second_frame =
    51 ∷ 2 ∷ 13 ∷ 0 ∷ 225 ∷ 2 ∷ 0 ∷ 0 ∷ 5 ∷ 1 ∷ 0 ∷ 0 ∷ 12 ∷ 204 ∷ 2 ∷ 0 ∷ 0 ∷ 7 ∷ 5 ∷ 2 ∷ 0 ∷ 2 ∷ 0
    ∷ 41 ∷ 42 ∷ []

pub follower_started : initialized follower.state ≡ true
unfolding initialized
follower_started = refl

pub three-IsIterator : IsIterator three
three-IsIterator = record {
  stored = refl;
  positive = omega arith;
  word = omega arith;
  within = omega arith;
  parts = omega arith;
}

pub three_room : tx_bytes_available follower.link ≡ 243
unfolding tx_bytes_available
three_room = refl

pub three_queued : (send_datagram follower three 716).2 ≡ NodeRc.ok
unfolding send_datagram next peek has_next send_fragment send sendmsg_vec size tx_bytes_available
    advance initialized make_msg
three_queued = refl

pub follower-Sends : Sends (send_datagram follower three 716).0 716 716 716 takes first_frame
unfolding send_datagram next peek has_next send_fragment send sendmsg_vec size tx_bytes_available
    store write advance initialized make_msg active_slot current_slot update_window set_cdma_code
    flush fill_frame_header header_checksum calculate_checksum transmit truncate_tx
follower-Sends = record {
  active = refl;
  started = refl;
  running = refl;
  takes = λ g. refl;
  handed = refl;
}

pub between-Hears : Hears between 716 716 (hearing first_frame) 2 first_frame
unfolding active_slot current_slot update_window set_cdma_code listens vtdma_window_size
between-Hears = record {
  active = refl;
  listening = refl;
  started = refl;
  running = refl;
  buffer = omega arith;
  heard = refl;
}

pub between-Sends :
    Sends
      (do_clusterhead_recv between 716 716 (hearing first_frame)).0
      737
      737
      737
      takes
      second_frame
unfolding do_clusterhead_recv relay_frame relay_loop relay decode_msg decode_body fits_type recv
    receive accept_frame check_frame truncate_rx rewind getmsg getmsg_at listens vtdma_window_size
    sendmsg sendmsg_vec size tx_bytes_available store write active_slot current_slot update_window
    set_cdma_code flush fill_frame_header header_checksum calculate_checksum transmit truncate_tx
between-Sends = record {
  active = refl;
  started = refl;
  running = refl;
  takes = λ g. refl;
  handed = refl;
}

pub nearer-Hears : Hears nearer 737 737 (hearing second_frame) 9 second_frame
unfolding active_slot current_slot update_window set_cdma_code listens vtdma_window_size
nearer-Hears = record {
  active = refl;
  listening = refl;
  started = refl;
  running = refl;
  buffer = omega arith;
  heard = refl;
}

pub way : Route 221 first_frame second_frame
way =
    Route.relayed
      (record {
        node = between;
        heard_slot_now = 716;
        heard_now = 716;
        slot = 2;
        hear = hearing first_frame;
        sent_slot_now = 737;
        sent_now = 737;
        hdr_now = 737;
        send = takes;
        empty = empty-Queued 5 2 8 1;
        buffer = omega arith;
        longest = refl;
        hears = between-Hears;
        sends = between-Sends;
      })
      Route.arrived

pub nearer-Room : Room nearer (fragment_message follower three 716 ∷ [])
unfolding make_msg
nearer-Room = record { started = refl; small = omega arith; fits = omega arith }

pub short_message : length (fragment_message follower three 716) ≤ 221
unfolding make_msg
short_message = omega arith

pub first_sent :
    Queued (send_datagram follower three 716).0.link (fragment_message follower three 716 ∷ [])
    × (decode_msg (fragment_message follower three 716) ≡ some (carried follower three 716))
first_sent =
    let (queued, decoded, _) =
      send_datagram-sent follower three 716 [] follower_started three-IsIterator (omega arith)
        (omega arith) (omega (arith, three_room)) (empty-Queued 7 3 1 15) three_queued in
    (queued, decoded)

pub first_frame-IsFrame : IsFrame first_frame (fragment_message follower three 716 ∷ [])
first_frame-IsFrame =
    (do_follower_send-IsFrame (send_datagram follower three 716).0 716 716 716 takes first_sent.0
      follower-Sends).1

pub between-Room : Room between ([] ++ datagrams (fragment_message follower three 716 ∷ []))
unfolding make_msg datagrams sequence_of sequence_of_type decode_msg decode_body fits_type
between-Room = record { started = refl; small = omega arith; fits = omega arith }
