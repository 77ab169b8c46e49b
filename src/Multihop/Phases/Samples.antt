-- ===== src/Multihop/Phases/Samples.antt =====
-- Nodes and surroundings for runs of the advertising slot: the parameters are those of multihop/node/src/main.cpp.
use lora_multihop.Prelude.{
  ℕ, true, List, [], ◌∷◌, ◌++◌, length, none, replicate, drop, ltb, if◌then◌else◌,
}
use lora_multihop.Net.{MacParams, fresh_link_state}
use lora_multihop.Lora.{LoraRc}
use lora_multihop.Link.Frame.{FrameHeader, encode_header, calculate_checksum}
use lora_multihop.Multihop.{Ring, unknown_ring}
use lora_multihop.Multihop.Messages.{MessageType, Body, encode}
use lora_multihop.Multihop.State.{MultihopState, Role, fresh_state}
use lora_multihop.Multihop.Rings.{no_neighbors}
use lora_multihop.Multihop.Node.{Node}
use lora_multihop.Multihop.Phases.{World, Run}
use lora_multihop.Multihop.Node.Slots.{prepare_clusterhead}

abbrev pub main_mac : MacParams
main_mac = record {
  superframe_slot_s = 3;
  superframe_frequency_s = 71;
  superframe_slot_count = 22;
  guard_period_s = 0;
  reuse_distance = 3;
}

-- A node with this state, in the superframe that starts at second 710.
abbrev pub node_in : MultihopState → Node
node_in s = record {
  state = s;
  mac = main_mac;
  link = record {
    initialized = true;
    node = record { address = s.address; time_s = 700 };
    mac = main_mac;
    mac_state = record { window_start = 710; window_end = 776 };
    params = record {
      msg_max_bytes = 221;
      tx_buf = replicate 255 0;
      tx_sz = 255;
      rx_buf = replicate 255 0;
      rx_sz = 255;
    };
    state = fresh_link_state;
  };
}

abbrev pub state_of : ℕ → Ring → Role → MultihopState
state_of address ring role = record fresh_state {
  address = address;
  ring = ring;
  role = role;
  slot_assignments = replicate 22 9;
  slot_count = 22;
  acks = replicate 22 0;
}

abbrev pub run_of : MultihopState → Run
run_of s = record { node = node_in s; call = 0; clock_set = none }

-- A follower that does not know its ring.
abbrev pub start : Run
start = run_of (state_of 5 unknown_ring Role.follower)

abbrev pub message : ℕ → MessageType → Body → List ℕ
message src type body =
    let m =
      encode (record { hdr = record { sequence = 1; src = src; type = type }; body = body }) in
    length m ∷ m

-- A frame with so many messages in its payload.
abbrev pub header : ℕ → ℕ → List ℕ → FrameHeader
header src count payload = record {
  checksum = 0;
  payload_bytes = length payload;
  sender_time = 711;
  sender_address = src;
  message_count = count;
}

abbrev pub frame : ℕ → ℕ → List ℕ → List ℕ
frame src count payload =
    let h = header src count payload in
    encode_header (record h { checksum = calculate_checksum (drop 2 (encode_header h ++ payload)) })
    ++ payload

-- A heartbeat of the gateway, its OpenCluster, and its Accept for node 5.
abbrev pub from_gateway : List ℕ
from_gateway = frame 0 3 (
    message 0 MessageType.heartbeat (Body.heartbeat 0)
    ++ message 0 MessageType.open_cluster (Body.open_cluster 0 0 no_neighbors)
    ++ message 0 MessageType.accept (Body.accept true 5 15 1 711))

-- A Follow of node 8 for the gateway.
abbrev pub from_follower : List ℕ
from_follower = frame 8 1 (message 8 MessageType.follow (Body.follow 0 8))

-- Every wait hears this frame; the clock of milliseconds passes 40 s at its 60th call.
abbrev pub hearing : List ℕ → World
hearing bytes = record {
  millis = λ k. if ltb k 60 then 0 else 40000;
  now = λ k. 711;
  random = λ k. 0;
  hears = λ k timeout_ms sz. record { rc = LoraRc.okay; bytes = bytes };
  sends = λ k f. LoraRc.okay;
}

abbrev pub beside_gateway : World
beside_gateway = hearing from_gateway

-- The gateway, with its window.
abbrev pub gateway : Run
gateway = run_of (prepare_clusterhead (state_of 0 0 Role.gateway) main_mac)

-- Every wait times out, and the clock of milliseconds stands.
abbrev pub nothing_heard : World
nothing_heard = record {
  millis = λ k. 0;
  now = λ k. 711;
  random = λ k. 0;
  hears = λ k timeout_ms sz. record { rc = LoraRc.timed_out; bytes = [] };
  sends = λ k f. LoraRc.okay;
}

abbrev pub second_ring : Run
second_ring = run_of (state_of 5 2 Role.follower)
