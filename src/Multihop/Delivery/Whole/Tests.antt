-- ===== src/Multihop/Delivery/Whole/Tests.antt =====
-- Three bytes on their way in two fragments of lib/net/src/multihop_messages.cpp: the first over a clusterhead, the second at once.
use lora_multihop.Prelude.{◌≤◌, length, ℕ, ◌≡◌, refl, List, [], ◌∷◌, arith}
use lora_multihop.Link.{update_window}
use lora_multihop.Link.Frame.{calculate_checksum, header_checksum}
use lora_multihop.Link.Slots.{active_slot, current_slot}
use lora_multihop.Link.Code.{set_cdma_code}
use lora_multihop.Link.Tx.{
  flush, fill_frame_header, transmit, truncate_tx, sendmsg_vec, tx_bytes_available, size, store,
  write,
}
use lora_multihop.Multihop.Datagram.{DatagramIterator, next, peek, has_next, advance}
use lora_multihop.Multihop.State.{initialized}
use lora_multihop.Multihop.Node.{NodeRc, make_msg, send, vtdma_window_size}
use lora_multihop.Multihop.Node.Data.{send_datagram, send_fragment}
use lora_multihop.Multihop.Node.Relay.{listens}
use lora_multihop.Multihop.Node.Relay.Hop.{Hears, Sends}
use lora_multihop.Multihop.Delivery.{Route, fragment_message}
use lora_multihop.Multihop.Node.Relay.Queue.{Room}
use lora_multihop.Multihop.Delivery.Samples.{
  follower, between, nearer, three, takes, hearing, empty-Queued,
}
use lora_multihop.Multihop.Delivery.Frames.{
  first_frame, second_frame, follower_started, three_room, three_queued, follower-Sends,
  nearer-Hears, way, nearer-Room, short_message,
}
use lora_multihop.Multihop.Datagram.{datagram_iterator}
use lora_multihop.Multihop.Datagram.Fragments.{Numbered, joined}
use lora_multihop.Multihop.Delivery.Whole.{
  Trip, Trips, Delivered, received, datagram_iterator-Delivered,
}

-- The iterator at the second fragment.
abbrev three_rest : DatagramIterator
three_rest = record three { part = 1; i = 2; last_msg_sz = 2 }

-- The follower's frame with the second fragment.
abbrev rest_frame : List ℕ
rest_frame =
    246 ∷ 1 ∷ 12 ∷ 0 ∷ 204 ∷ 2 ∷ 0 ∷ 0 ∷ 7 ∷ 1 ∷ 0 ∷ 0 ∷ 11 ∷ 204 ∷ 2 ∷ 0 ∷ 0 ∷ 7 ∷ 5 ∷ 1 ∷ 0 ∷ 2
    ∷ 1 ∷ 43 ∷ []

rest_queued : (send_datagram follower three_rest 716).2 ≡ NodeRc.ok
unfolding send_datagram next peek has_next send_fragment send sendmsg_vec size tx_bytes_available
    advance initialized make_msg
rest_queued = refl

rest-Sends : Sends (send_datagram follower three_rest 716).0 716 716 716 takes rest_frame
unfolding send_datagram next peek has_next send_fragment send sendmsg_vec size tx_bytes_available
    store write advance initialized make_msg active_slot current_slot update_window set_cdma_code
    flush fill_frame_header header_checksum calculate_checksum transmit truncate_tx
rest-Sends = record {
  active = refl;
  started = refl;
  running = refl;
  takes = λ g. refl;
  handed = refl;
}

rest-Hears : Hears between 716 716 (hearing rest_frame) 2 rest_frame
unfolding active_slot current_slot update_window set_cdma_code listens vtdma_window_size
rest-Hears = record {
  active = refl;
  listening = refl;
  started = refl;
  running = refl;
  buffer = omega arith;
  heard = refl;
}

rest-Room : Room between (fragment_message follower three_rest 716 ∷ [])
unfolding make_msg
rest-Room = record { started = refl; small = omega arith; fits = omega arith }

short_rest : length (fragment_message follower three_rest 716) ≤ 221
unfolding make_msg
short_rest = omega arith

abbrev first_trip : Trip 221 three
first_trip = record {
  node = follower;
  now = 716;
  started = follower_started;
  clock = omega arith;
  room = omega (arith, three_room);
  empty = empty-Queued 7 3 1 15;
  sent = three_queued;
  short = short_message;
  slot_now = 716;
  flush_now = 716;
  hdr_now = 716;
  send = takes;
  first = first_frame;
  arriving = second_frame;
  sends = follower-Sends;
  route = way;
  last = nearer;
  last_slot_now = 737;
  last_now = 737;
  slot = 9;
  hear = hearing second_frame;
  hears = nearer-Hears;
  old = [];
  queued = empty-Queued 3 1 15 8;
  room_last = nearer-Room;
  longest = refl;
}

abbrev rest_trip : Trip 221 three_rest
rest_trip = record {
  node = follower;
  now = 716;
  started = follower_started;
  clock = omega arith;
  room = omega (arith, three_room);
  empty = empty-Queued 7 3 1 15;
  sent = rest_queued;
  short = short_rest;
  slot_now = 716;
  flush_now = 716;
  hdr_now = 716;
  send = takes;
  first = rest_frame;
  arriving = rest_frame;
  sends = rest-Sends;
  route = Route.arrived;
  last = between;
  last_slot_now = 716;
  last_now = 716;
  slot = 2;
  hear = hearing rest_frame;
  hears = rest-Hears;
  old = [];
  queued = empty-Queued 5 2 8 1;
  room_last = rest-Room;
  longest = refl;
}

abbrev both : List (List ℕ)
both = fragment_message follower three 716 ∷ fragment_message follower three_rest 716 ∷ []

both_trips : Trips 221 (datagram_iterator (41 ∷ 42 ∷ 43 ∷ []) 3 2) both
unfolding datagram_iterator has_next send_datagram next peek send_fragment send sendmsg_vec size
    tx_bytes_available advance initialized make_msg
both_trips = Trips.travelled first_trip (Trips.travelled rest_trip (Trips.finished refl))

datagram_iterator-Delivered_example :
    Delivered both_trips
    × (joined (received both) ≡ 41 ∷ 42 ∷ 43 ∷ [])
    × (length (received both) ≡ 2)
    × Numbered 0 (length (received both)) 2 (received both)
datagram_iterator-Delivered_example =
    datagram_iterator-Delivered (41 ∷ 42 ∷ 43 ∷ []) 2 221 (omega arith) (omega arith) (omega arith)
      (omega arith) both both_trips
