-- ===== src/Multihop/Delivery/Acked/Tests.antt =====
-- The ack of the fragment of Frames on its way back, in slot 7 of the superframe.
use lora_multihop.Prelude.{
  subst, sym, set, get_or, ℕ, zero, suc, ◌≡◌, ◌++◌, refl, List, [], ◌∷◌, replicate, arith,
}
use lora_multihop.Link.Rx.{
  recv, receive, accept_frame, check_frame, truncate_rx, rewind, getmsg, getmsg_at,
}
use lora_multihop.Link.Tx.Queue.{Queued}
use lora_multihop.Link.Tx.Filled.{IsFrame}
use lora_multihop.Multihop.Messages.{decode_msg, decode_body, fits_type}
use lora_multihop.Multihop.Datagram.Cursor.{fragment}
use lora_multihop.Multihop.Node.Data.Fragment.{carried}
use lora_multihop.Multihop.Node.Relay.{do_clusterhead_recv, listens, relay, relay_loop, relay_frame}
use lora_multihop.Multihop.Node.Relay.Queue.{datagrams, sequence_of, sequence_of_type}
use lora_multihop.Multihop.Node.Relay.Hop.{do_clusterhead_recv-Queued}
use lora_multihop.Multihop.Delivery.{fragment_message}
use lora_multihop.Multihop.Delivery.Frames.{
  first_frame, first_sent, first_frame-IsFrame, between-Hears, between-Room, short_message,
}
use lora_multihop.Link.{update_window}
use lora_multihop.Link.Frame.{calculate_checksum, header_checksum}
use lora_multihop.Link.Slots.{active_slot, current_slot}
use lora_multihop.Link.Code.{set_cdma_code}
use lora_multihop.Link.Tx.{
  flush, fill_frame_header, transmit, truncate_tx, sendmsg, sendmsg_vec, tx_bytes_available, size,
  store, write,
}
use lora_multihop.Multihop.Messages.{size as message_size}
use lora_multihop.Multihop.State.{initialized}
use lora_multihop.Multihop.Node.{Node, NodeRc, make_msg, send, close_cluster, vtdma_window_size}
use lora_multihop.Multihop.Node.Election.{announce_clusterhead, effective_p, base_p_for_ring}
use lora_multihop.Multihop.Node.Data.{send_acks, acks_that_fit, ack_bytes}
use lora_multihop.Multihop.Node.Relay.{ack_loop, do_clusterhead_send}
use lora_multihop.Multihop.Node.Relay.Emit.{Emitting}
use lora_multihop.Multihop.Node.Relay.Closing.{Emits, said}
use lora_multihop.Multihop.Node.Follower.{Round, do_follower_recv}
use lora_multihop.Multihop.Node.Follower.Acked.{AllWords}
use lora_multihop.Multihop.Node.Follower.Heard.{AllDatagrams, Listens}
use lora_multihop.Multihop.Delivery.Samples.{between, follower, hearing, takes, three, empty-Queued}
use lora_multihop.Multihop.Delivery.Acked.{nominee, do_clusterhead_send-do_follower_recv}

-- The clusterhead that has heard the fragment in slot 2.
abbrev head : Node
head = (do_clusterhead_recv between 716 716 (hearing first_frame)).0

abbrev waiting : Node
waiting = record follower {
  state = record (follower.state) { clusterhead_addr = 5; upstream_ack_slot = 7 };
}

zeros-AllWords : (k : ℕ) → AllWords (replicate k 0)
zeros-AllWords zero = tt
zeros-AllWords (suc k) = (omega arith, zeros-AllWords k)

abbrev forwarded : List ℕ
forwarded = fragment_message follower three 716

head-Queued : Queued head.link (forwarded ∷ [])
unfolding make_msg datagrams sequence_of sequence_of_type decode_msg decode_body fits_type
head-Queued =
    (do_clusterhead_recv-Queued between 716 716 2 (hearing first_frame) first_frame-IsFrame
      (omega arith) between-Hears [] (empty-Queued 5 2 8 1) between-Room (short_message, tt)).1

forwarded-AllDatagrams : AllDatagrams (forwarded ∷ [])
unfolding make_msg
forwarded-AllDatagrams = (((carried follower three 716).hdr, (fragment three).0, first_sent.1), tt)

head-Emitting : Emitting head (forwarded ∷ [])
unfolding do_clusterhead_recv relay_frame relay_loop relay decode_msg decode_body fits_type recv
    receive accept_frame check_frame truncate_rx rewind getmsg getmsg_at listens vtdma_window_size
    sendmsg sendmsg_vec size tx_bytes_available store write active_slot current_slot update_window
    set_cdma_code header_checksum calculate_checksum initialized make_msg
head-Emitting = record {
  prepared = refl;
  started = refl;
  followers = omega arith;
  slots = omega arith;
  stored = refl;
  rings = refl;
  small = omega arith;
  longest = omega arith;
  buffer = omega arith;
  queued = head-Queued;
}

-- The fragment, the acks of 22 slots, and the close_cluster.
abbrev closing_frame : List ℕ
closing_frame =
    (191 ∷ 6 ∷ 127 ∷ 0 ∷ 219 ∷ 2 ∷ 0 ∷ 0 ∷ 5 ∷ 3 ∷ 0 ∷ 0 ∷ [])
    ++ (12 ∷ 204 ∷ 2 ∷ 0 ∷ 0 ∷ 7 ∷ 5 ∷ 2 ∷ 0 ∷ 2 ∷ 0 ∷ 41 ∷ 42 ∷ [])
    ++ (96 ∷ 219 ∷ 2 ∷ 0 ∷ 0 ∷ 5 ∷ 4 ∷ 0 ∷ 22 ∷ 0 ∷ 0 ∷ 0 ∷ 0 ∷ 204 ∷ 2 ∷ 0 ∷ 0 ∷ [])
    ++ replicate 80 0
    ++ (16 ∷ 219 ∷ 2 ∷ 0 ∷ 0 ∷ 5 ∷ 3 ∷ 255 ∷ [])
    ++ replicate 9 0

head-Emits : Emits head 731 (λ k. 731) 0 731 731 731 takes closing_frame
unfolding do_clusterhead_recv relay_frame relay_loop relay decode_msg decode_body fits_type recv
    receive accept_frame check_frame truncate_rx rewind getmsg getmsg_at listens send sendmsg
    sendmsg_vec size message_size tx_bytes_available store write initialized make_msg active_slot
    current_slot update_window set_cdma_code flush fill_frame_header header_checksum
    calculate_checksum transmit truncate_tx close_cluster announce_clusterhead effective_p send_acks
    acks_that_fit ack_bytes ack_loop vtdma_window_size base_p_for_ring
head-Emits = record { active = refl; running = refl; takes = λ g. refl; handed = refl }

abbrev first_round : Round
first_round = record { recv_now = 731; radio = hearing closing_frame; slot_now = 731 }

waiting-Listens : Listens waiting 731 first_round closing_frame
unfolding active_slot current_slot update_window set_cdma_code
waiting-Listens = record {
  clusterhead = refl;
  active = refl;
  started = refl;
  running = refl;
  buffer = omega arith;
  heard = refl;
}

head_state : (head.state.acks ≡ 0 ∷ 716 ∷ replicate 20 0) × (head.state.slot_count ≡ 22)
unfolding do_clusterhead_recv relay_frame relay_loop relay decode_msg decode_body fits_type recv
    receive accept_frame check_frame truncate_rx rewind getmsg getmsg_at listens vtdma_window_size
    active_slot current_slot update_window set_cdma_code header_checksum calculate_checksum sendmsg
    sendmsg_vec tx_bytes_available size store
head_state = (refl, refl)

head-AllWords : AllWords head.state.acks
head-AllWords = subst AllWords (sym head_state.0) (omega arith, (omega arith, zeros-AllWords 20))

do_clusterhead_send-do_follower_recv_example :
    let (after, rc) = do_follower_recv waiting 731 (first_round ∷ []) in
    ((do_clusterhead_send head 731 (λ k. 731) 0 731 731 731 takes).1 ≡ NodeRc.ok)
    × (rc ≡ NodeRc.ok)
    × (after.state.acks
        ≡ set waiting.state.acks 0 (get_or head.state.acks waiting.state.upstream_relative_slot 0))
    × (after.state.clusterhead_addr ≡ nominee head.state (announce_clusterhead head.state 0))
    × IsFrame closing_frame (forwarded ∷ said head.state 731 0 731)
    × Queued (do_clusterhead_send head 731 (λ k. 731) 0 731 731 731 takes).0.link []
do_clusterhead_send-do_follower_recv_example =
    do_clusterhead_send-do_follower_recv head (λ k. 731) 0 731 (forwarded ∷ []) head-Emitting
      forwarded-AllDatagrams (omega arith) (omega arith) head-AllWords 731 731 731 takes
      closing_frame head-Emits waiting 731 first_round [] waiting-Listens
      (omega (arith, head_state.1))
