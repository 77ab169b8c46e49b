-- ===== src/Multihop/Node/Tests.antt =====
-- Runs of lib/net/src/multihop.cpp, and the theorems about it at a concrete gateway: the parameters are
-- those of multihop/node/src/main.cpp.
use lora_multihop.Prelude.{
  ℕ, ◌+◌, ◌≤◌, ◌<◌, ◌≡◌, ◌≢◌, ◌⊎◌, refl, true, false, List, [], ◌∷◌, ◌++◌, replicate, arith,
}
use lora_multihop.Net.{MacParams, fresh_link_state}
use lora_multihop.Multihop.State.{MultihopState, Role, fresh_state, initialized}
use lora_multihop.Multihop.Node.{Node, NodeRc, vtdma_window_size}
use lora_multihop.Multihop.Node.Slots.{accept, prepare_clusterhead}
use lora_multihop.Link.Tx.Queue.{Queued}
use lora_multihop.Multihop.Messages.{encode}
use lora_multihop.Multihop.Node.Slots.Accept.{slot}
use lora_multihop.Multihop.Node.Slots.Answer.{Answering, answer, accept-answer}
use lora_multihop.Multihop.Node.Slots.Unique.{IsAssigned, accept-IsAssigned}
use lora_multihop.Multihop.Node.Slots.Windows.{
  IsMac, prepare_clusterhead-window, prepare_clusterhead-apart, prepare_clusterhead-IsAssigned,
}
use lora_multihop.Multihop.Node.Election.{Candidate, no_candidate, reset}
use lora_multihop.Multihop.Node.Election.Candidates.{TopTwo, offers, reset-offers}

abbrev main_mac : MacParams
main_mac = record {
  superframe_slot_s = 3;
  superframe_frequency_s = 71;
  superframe_slot_count = 22;
  guard_period_s = 0;
  reuse_distance = 3;
}

main_mac-IsMac : IsMac main_mac
main_mac-IsMac = record {
  count_byte = omega arith;
  count_pos = omega arith;
  reuse_pos = omega arith;
  reuse_byte = omega arith;
}

-- A node in the given ring with its arrays, before it prepares its window.
abbrev in_ring : ℕ → MultihopState
in_ring ring = record fresh_state {
  address = 5;
  ring = ring;
  role = Role.follower;
  slot_assignments = replicate 22 9;
  slot_count = 22;
  acks = replicate 22 0;
  clusterhead_p = 128;
}

prepare_clusterhead-window_example :
    (1 ≤ (prepare_clusterhead (in_ring 4) main_mac).downstream_start_slot)
    × ((prepare_clusterhead (in_ring 4) main_mac).downstream_start_slot + vtdma_window_size main_mac
        ≤ 22)
prepare_clusterhead-window_example = prepare_clusterhead-window main_mac main_mac-IsMac (in_ring 4)

prepare_clusterhead-apart_example :
    (prepare_clusterhead (in_ring 5) main_mac).downstream_start_slot + vtdma_window_size main_mac
    ≤ (prepare_clusterhead (in_ring 3) main_mac).downstream_start_slot
prepare_clusterhead-apart_example =
    prepare_clusterhead-apart main_mac main_mac-IsMac (in_ring 3) (in_ring 5) (omega arith)

window_of_seven : vtdma_window_size main_mac ≡ 7
unfolding vtdma_window_size
window_of_seven = refl

-- The clusterhead of that window, with empty buffers.
abbrev pub head : Node
head = record {
  state = prepare_clusterhead (in_ring 4) main_mac;
  mac = main_mac;
  link = record {
    initialized = true;
    node = record { address = 5; time_s = 700 };
    mac = main_mac;
    mac_state = record { window_start = 710; window_end = 776 };
    params = record {
      msg_max_bytes = 221;
      tx_buf = replicate 255 0;
      tx_sz = 255;
      rx_buf = replicate 255 0;
      rx_sz = 255;
    };
    state = fresh_link_state;
  };
}

pub head-IsAssigned : IsAssigned head.state head.mac
head-IsAssigned =
    prepare_clusterhead-IsAssigned main_mac main_mac-IsMac (in_ring 4)
      (omega (arith, window_of_seven)) (omega arith) (omega arith)

pub head_started : initialized head.state ≡ true
unfolding initialized prepare_clusterhead
head_started = refl

head_used : head.state.slots_assigned ≡ 1
unfolding prepare_clusterhead
head_used = refl

accept-IsAssigned_example : IsAssigned (accept head 720 720 8).0.state main_mac
accept-IsAssigned_example = accept-IsAssigned head 720 720 8 head-IsAssigned

-- Nothing is queued, and an Accept message has room.
head-Answering : Answering head []
head-Answering = record {
  prepared = head_started;
  started = refl;
  assigned = head-IsAssigned;
  queued = record {
    header = replicate 12 0;
    rest = replicate 243 0;
    header_length = refl;
    layout = refl;
    storage = refl;
    limit = omega arith;
    count = refl;
    total = refl;
  };
  small = omega arith;
  longest = omega arith;
  room = omega arith;
}

-- The slots of the node after it has answered follower 8.
abbrev answered : Node × NodeRc
answered = accept head 720 720 8

accept-answer_example :
    ((i : ℕ) × (i < answered.0.state.slots_assigned)
      × (slot answered.0.state i ≡ 8)
      × (answered.1 ≡ NodeRc.ok)
      × Queued answered.0.link (
          encode (answer head.state.address 720 720 true 8 head.state.downstream_start_slot i)
          ∷ []))
    ⊎ ((head.state.slots_assigned ≡ vtdma_window_size main_mac)
        × ((i : ℕ) → i < head.state.slots_assigned → slot head.state i ≢ 8)
        × (answered.1 ≡ NodeRc.slots_full)
        × Queued answered.0.link (encode (answer head.state.address 720 720 false 8 0 0) ∷ []))
accept-answer_example = accept-answer head [] head-Answering 720 720 (omega arith) (omega arith) 8

-- Three clusterheads heard.
abbrev three : List Candidate
three =
    record { address = 4; ring = 2; score = 40 }
    ∷ record { address = 6; ring = 1; score = 90 }
    ∷ record { address = 7; ring = 2; score = 50 }
    ∷ []

reset-offers_example : TopTwo (offers reset three) (three ++ (no_candidate ∷ no_candidate ∷ []))
reset-offers_example = reset-offers three
