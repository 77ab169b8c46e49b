-- ===== src/Multihop/State.antt =====
-- The state of a node: lib/net/include/multihop_state.h and lib/net/src/multihop_state.cpp. The
-- arrays behind `slot_assignments` and `acks` are lists, the null pointer the empty list.
pub mod Hysteresis
mod Tests
use lora_multihop.Prelude.{
  ℕ, ◌+◌, ◌==◌, Bool, true, false, not, List, [], ◌∷◌, ltb, leb, u8, if◌then◌else◌, replicate,
}
use lora_multihop.Net.{Address, gateway_addr, unknown_addr}
use lora_multihop.Multihop.{Ring, gateway_ring, unknown_ring}
use lora_multihop.Multihop.Messages.{RingList}
use lora_multihop.Multihop.Rings.{lowest, no_neighbors, add_neighbor}

pub data Role : Type 0 where
  gateway clusterhead follower not_init : Role

pub record MultihopState : Type 0 where
  pub address : Address
  pub ring : Ring
  pub role : Role
  pub slot_assignments : List Address
  pub slot_count : ℕ
  pub acks : List ℕ
  pub slots_assigned : ℕ
  pub neighbors : RingList
  pub clusterhead_p : ℕ
  pub ch_credit : ℕ
  pub clusterhead_ring : Ring
  pub clusterhead_addr : Address
  pub upstream_start_slot : ℕ
  pub upstream_relative_slot : ℕ
  pub upstream_ack_slot : ℕ
  pub downstream_start_slot : ℕ
  pub rounds_without_lower : ℕ

abbrev role_set : Role → Bool
role_set gateway = true
role_set clusterhead = true
role_set follower = true
role_set not_init = false

abbrev manages_window : Role → Bool
manages_window gateway = true
manages_window clusterhead = true
manages_window follower = false
manages_window not_init = false

abbrev joins_window : Role → Bool
joins_window gateway = false
joins_window clusterhead = true
joins_window follower = true
joins_window not_init = false

-- RING_HYSTERESIS_THRESHOLD
abbrev pub ring_hysteresis_threshold : ℕ
ring_hysteresis_threshold = 3

abbrev pub fresh_state : MultihopState
fresh_state = record {
  address = unknown_addr;
  ring = unknown_ring;
  role = not_init;
  slot_assignments = [];
  slot_count = 0;
  acks = [];
  slots_assigned = 1;
  neighbors = no_neighbors;
  clusterhead_p = 0;
  ch_credit = 0;
  clusterhead_ring = unknown_ring;
  clusterhead_addr = unknown_addr;
  upstream_start_slot = 0;
  upstream_relative_slot = 0;
  upstream_ack_slot = 0;
  downstream_start_slot = 0;
  rounds_without_lower = 0;
}

unfoldable pub join_cluster : MultihopState → Ring → Address → MultihopState
join_cluster s cluster_ring cluster_addr = record s {
  role = follower;
  clusterhead_ring = cluster_ring;
  clusterhead_addr = cluster_addr;
  ring = if ltb cluster_ring s.ring then u8 (cluster_ring + 1) else s.ring;
}

unfoldable pub reset_neighbors : MultihopState → MultihopState
reset_neighbors s = record s { neighbors = no_neighbors }

-- `MultihopState::add_neighbor`, on the list of the state.
unfoldable pub hear_neighbor : MultihopState → Ring → MultihopState
hear_neighbor s neighbor = record s { neighbors = add_neighbor s.neighbors neighbor }

unfoldable pub with_address : MultihopState → Address → MultihopState
with_address s address =
    if gateway_addr == address
    then record s { address = address; role = gateway; ring = gateway_ring }
    else record s { address = address; role = follower }

unfoldable pub with_acks_array : MultihopState → List ℕ → ℕ → MultihopState
with_acks_array s acks sz = record s { acks = acks; slot_count = sz }

unfoldable pub clusterhead_probability : MultihopState → ℕ → MultihopState
clusterhead_probability s p = record s { clusterhead_p = p }

unfoldable pub reset_ring : MultihopState → Ring → MultihopState
reset_ring s ring = record s { ring = ring }

-- One round more without a lower neighbour: the ring drifts to `ring` at the threshold.
unfoldable pub drift : MultihopState → Ring → MultihopState
drift s ring =
    let rounds = u8 (s.rounds_without_lower + 1) in
    if leb ring_hysteresis_threshold rounds
    then record s { ring = ring; rounds_without_lower = 0 }
    else record s { rounds_without_lower = rounds }

unfoldable pub update_ring_from_neighbors : MultihopState → MultihopState
update_ring_from_neighbors s =
    let low = lowest s.neighbors in
    if gateway_addr == s.address
    then record s { ring = gateway_ring }
    else (if ltb low s.ring
        then record s { ring = u8 (low + 1); rounds_without_lower = 0 }
        else (if not (low == unknown_ring) then drift s (u8 (low + 1)) else drift s unknown_ring))

unfoldable pub initialized : MultihopState → Bool
initialized s = role_set s.role

unfoldable pub acts_as_clusterhead : MultihopState → Bool
acts_as_clusterhead s = manages_window s.role

unfoldable pub acts_as_follower : MultihopState → Bool
acts_as_follower s = joins_window s.role
