-- ===== src/Link/Tests.antt =====
-- Runs of the link layer, and the theorems about it at concrete states: the configuration is that of
-- multihop/node/src/main.cpp.
use lora_multihop.Prelude.{
  ◌⊎◌, ℕ, ◌≤◌, ◌≡◌, ◌↔◌, ◌≢◌, refl, inl, true, List, [], ◌∷◌, some, replicate, arith,
}
use lora_multihop.Net.{MacParams, LinkParams, fresh_link_state}
use lora_multihop.Lora.{LoraRc}
use lora_multihop.Link.{Link, LinkRc, update_window, in_active_window}
use lora_multihop.Link.Frame.{calculate_checksum, header_checksum}
use lora_multihop.Link.Slots.{current_slot, active_slot}
use lora_multihop.Link.Slots.Schedule.{Timely}
use lora_multihop.Link.Slots.Arrival.{
  Arrives, Misses, epoch_and_offset-Arrives, epoch_and_offset-Misses,
}
use lora_multihop.Link.Tx.{
  size, write, tx_bytes_available, store, sendmsg_vec, fill_frame_header, transmit, truncate_tx,
  flush,
}
use lora_multihop.Link.Tx.Queue.{Queued, sendmsg_vec_lem, sendmsg_vec-Queued}
use lora_multihop.Link.Rx.{recv, drain}
use lora_multihop.Link.Transfer.{Exchange, flush-recv-drain}
use lora_multihop.Link.Code.{hash_cdma_code}
use lora_multihop.Link.Code.Spread.{hash_cdma_code_distinct}

abbrev main_mac : MacParams
main_mac = record {
  superframe_slot_s = 3;
  superframe_frequency_s = 71;
  superframe_slot_count = 22;
  guard_period_s = 0;
  reuse_distance = 3;
}

abbrev buffers : LinkParams
buffers = record {
  msg_max_bytes = 221;
  tx_buf = replicate 255 0;
  tx_sz = 255;
  rx_buf = replicate 255 0;
  rx_sz = 255;
}

-- A node that has been started in the superframe that starts at second 710.
abbrev node : ℕ → Link
node address = record {
  initialized = true;
  node = record { address = address; time_s = 700 };
  mac = main_mac;
  mac_state = record { window_start = 710; window_end = 776 };
  params = buffers;
  state = fresh_link_state;
}

node-Timely : Timely (node 3) 720
node-Timely = record {
  started = refl;
  dur_pos = omega arith;
  count_pos = omega arith;
  fits = omega arith;
  no_wrap = omega arith;
  aligned = refl;
  ends = refl;
  near = omega arith;
}

slot_at_720 : (active_slot (node 3) 720).1 ≡ some 3
unfolding active_slot current_slot update_window
slot_at_720 = refl

epoch_and_offset-Arrives_example : Arrives (node 3) 0 720
epoch_and_offset-Arrives_example =
    epoch_and_offset-Arrives 0 720 node-Timely (omega arith) (inl refl)

epoch_and_offset-Misses_example : Misses (node 3) 1 720
epoch_and_offset-Misses_example =
    epoch_and_offset-Misses 1 720 3 node-Timely (omega arith) (omega arith) (omega arith)
      slot_at_720 (omega arith)

empty-Queued : (address : ℕ) → Queued (node address) []
empty-Queued address = record {
  header = replicate 12 0;
  rest = replicate 243 0;
  header_length = refl;
  layout = refl;
  storage = refl;
  limit = omega arith;
  count = refl;
  total = refl;
}

abbrev hello : List ℕ
hello = 104 ∷ 105 ∷ []

sendmsg_vec_lem_example :
    (((sendmsg_vec (node 3) (hello ∷ [])).1 ≡ LinkRc.ok) ↔ ((15 ≤ 255) × (2 ≤ 221)))
    × (((sendmsg_vec (node 3) (hello ∷ [])).1 ≡ LinkRc.ok)
        ⊎ ((sendmsg_vec (node 3) (hello ∷ [])).0 ≡ node 3))
sendmsg_vec_lem_example = sendmsg_vec_lem (node 3) (hello ∷ []) refl

hello_taken : (sendmsg_vec (node 3) (hello ∷ [])).1 ≡ LinkRc.ok
unfolding sendmsg_vec tx_bytes_available size
hello_taken = refl

active_720 : (address : ℕ) → in_active_window (update_window (node address) 720) 720 ≡ true
unfolding update_window
active_720 address = refl

hash_cdma_code_distinct_example :
    (hash_cdma_code 9 ≢ hash_cdma_code 14)
    × ((6 ≤ hash_cdma_code 9) × (hash_cdma_code 9 ≤ 12))
    × ((6 ≤ hash_cdma_code 14) × (hash_cdma_code 14 ≤ 12))
hash_cdma_code_distinct_example = hash_cdma_code_distinct 9 14 (omega arith) (omega arith)

-- The frame of one message, sent at second 720 by node 3.
abbrev hello_frame : List ℕ
hello_frame = 172 ∷ 1 ∷ 3 ∷ 0 ∷ 208 ∷ 2 ∷ 0 ∷ 0 ∷ 3 ∷ 1 ∷ 0 ∷ 0 ∷ 2 ∷ 104 ∷ 105 ∷ []

frame_sent :
    (flush (sendmsg_vec (node 3) (hello ∷ [])).0 720 720 (λ f. LoraRc.okay)).2 ≡ some hello_frame
unfolding flush update_window fill_frame_header header_checksum calculate_checksum transmit
    truncate_tx sendmsg_vec tx_bytes_available size store write
frame_sent = refl

sender_active_720 :
    in_active_window (update_window (sendmsg_vec (node 3) (hello ∷ [])).0 720) 720 ≡ true
unfolding update_window sendmsg_vec tx_bytes_available size store
sender_active_720 = refl

sender_started_720 : (sendmsg_vec (node 3) (hello ∷ [])).0.initialized ≡ true
unfolding sendmsg_vec tx_bytes_available size store
sender_started_720 = refl

hello-Exchange :
    Exchange
      (sendmsg_vec (node 3) (hello ∷ [])).0
      (node 4)
      720
      720
      720
      (λ f. LoraRc.okay)
      (λ n. record { rc = LoraRc.okay; bytes = hello_frame })
      hello_frame
hello-Exchange = record {
  sender_started = sender_started_720;
  sender_active = sender_active_720;
  sends = λ g. refl;
  receiver_started = refl;
  receiver_active = active_720 4;
  receiver_room = omega arith;
  handed = frame_sent;
  heard = refl;
}

flush-recv-drain_example :
    ((recv (node 4) 720 (λ n. record { rc = LoraRc.okay; bytes = hello_frame })).1 ≡ LinkRc.ok)
    × ((drain 2 (recv (node 4) 720 (λ n. record { rc = LoraRc.okay; bytes = hello_frame })).0).2
        ≡ hello ∷ [])
    × ((drain 2 (recv (node 4) 720 (λ n. record { rc = LoraRc.okay; bytes = hello_frame })).0).1
        ≡ LinkRc.no_msg)
flush-recv-drain_example =
    flush-recv-drain 720 720 720 2 (λ f. LoraRc.okay)
      (λ n. record { rc = LoraRc.okay; bytes = hello_frame }) hello_frame
      (sendmsg_vec-Queued (hello ∷ []) (empty-Queued 3) hello_taken) (omega arith) (omega arith)
      hello-Exchange
