-- ===== src/Multihop/Delivery/Samples.antt =====
-- A follower, a clusterhead and the next one, at the parameters of multihop/node/src/main.cpp, and bytes for the iterator of
-- lib/net/src/multihop_messages.cpp.
use lora_multihop.Prelude.{ℕ, refl, true, List, [], ◌∷◌, replicate, arith}
use lora_multihop.Net.{MacParams, fresh_link_state}
use lora_multihop.Lora.{LoraRc}
use lora_multihop.Link.Tx.Queue.{Queued}
use lora_multihop.Link.Rx.{Reception}
use lora_multihop.Multihop.Datagram.{DatagramIterator}
use lora_multihop.Multihop.State.{Role, fresh_state}
use lora_multihop.Multihop.Node.{Node}

abbrev pub main_mac : MacParams
main_mac = record {
  superframe_slot_s = 3;
  superframe_frequency_s = 71;
  superframe_slot_count = 22;
  guard_period_s = 0;
  reuse_distance = 3;
}

-- A node in the superframe that starts at second 710: its window starts at slot `downstream`, and it sends in
-- the slot behind `upstream`.
abbrev pub node_at : ℕ → ℕ → ℕ → ℕ → Node
node_at address ring upstream downstream = record {
  state = record fresh_state {
    address = address;
    ring = ring;
    role = Role.follower;
    slot_assignments = replicate 22 9;
    slot_count = 22;
    acks = replicate 22 0;
    slots_assigned = 2;
    upstream_start_slot = upstream;
    upstream_relative_slot = 1;
    downstream_start_slot = downstream;
  };
  mac = main_mac;
  link = record {
    initialized = true;
    node = record { address = address; time_s = 700 };
    mac = main_mac;
    mac_state = record { window_start = 710; window_end = 776 };
    params = record {
      msg_max_bytes = 221;
      tx_buf = replicate 255 0;
      tx_sz = 255;
      rx_buf = replicate 255 0;
      rx_sz = 255;
    };
    state = fresh_link_state;
  };
}

abbrev pub follower : Node
follower = node_at 7 3 1 15

abbrev pub between : Node
between = node_at 5 2 8 1

abbrev pub nearer : Node
nearer = node_at 3 1 15 8

-- Three bytes in two fragments, at the first of them.
abbrev pub three : DatagramIterator
three = record {
  part = 0;
  count = 2;
  i = 0;
  buf = 41 ∷ 42 ∷ 43 ∷ [];
  sz = 3;
  max_fragment_bytes = 2;
  last_msg_sz = 0;
}

abbrev pub takes : List ℕ → LoraRc
takes f = LoraRc.okay

abbrev pub hearing : List ℕ → ℕ → Reception
hearing f k = record { rc = LoraRc.okay; bytes = f }

pub empty-Queued :
    (address ring upstream downstream : ℕ)
    → Queued (node_at address ring upstream downstream).link []
empty-Queued address ring upstream downstream = record {
  header = replicate 12 0;
  rest = replicate 243 0;
  header_length = refl;
  layout = refl;
  storage = refl;
  limit = omega arith;
  count = refl;
  total = refl;
}
