-- ===== src/Multihop/Phases/Advertise.antt =====
-- do_advertise of lib/net/src/multihop.cpp: the whole advertising slot.
pub mod Routes
pub mod Ends
pub mod Slots
pub mod Held
use lora_multihop.Prelude.{
  ℕ, zero, suc, ◌+◌, ◌-◌, ◌*◌, ◌/◌, Bool, true, false, ◌||◌, none, some, ltb, u32, if◌then◌else◌,
}
use lora_multihop.Net.{unknown_addr, slot_duration, default_code}
use lora_multihop.Link.Slots.{active_slot}
use lora_multihop.Multihop.{unknown_ring}
use lora_multihop.Multihop.State.{MultihopState, Role, acts_as_clusterhead}
use lora_multihop.Multihop.Node.{Node, NodeRc}
use lora_multihop.Multihop.Node.Slots.{clear}
use lora_multihop.Multihop.Node.Timing.{advertisement_number}
use lora_multihop.Multihop.Node.Relay.{is_slot, with_code}
use lora_multihop.Multihop.Phases.{
  World, Act, pure, branch, on_node, ◌>>=◌, ◌>>◌, on_state, read_now,
}
use lora_multihop.Multihop.Phases.Discovery.{run_neighbor_discovery}
use lora_multihop.Multihop.Phases.Announcement.{run_clusterhead_announcement}
use lora_multihop.Multihop.Phases.Joining.{run_clusterhead_joining}

-- NUM_ADV_ROUNDS
abbrev pub num_adv_rounds : ℕ
num_adv_rounds = 3

-- The cluster of the last superframe is left.
unfoldable pub leave_cluster : MultihopState → MultihopState
leave_cluster s = record s {
  role = elim s.role [ Role.gateway ↦ Role.gateway | _ ↦ Role.follower ];
  clusterhead_addr = unknown_addr;
  clusterhead_ring = unknown_ring;
  upstream_start_slot = 0;
  upstream_relative_slot = 0;
  upstream_ack_slot = 0;
  acks = clear s.slot_count s.acks;
}

-- The credit of a node that has not been a clusterhead grows, up to 255.
unfoldable pub settle_credit : MultihopState → MultihopState
settle_credit s = elim s.role [
  | Role.gateway ↦ s
  | _ ↦
      if acts_as_clusterhead s
      then record s { ch_credit = 0 }
      else (if ltb s.ch_credit 255 then record s { ch_credit = s.ch_credit + 1 } else s)
]

module _ (w : World) where
  -- The rounds of announcement and joining, with the rounds left; `fuel` bounds each phase.
  unfoldable pub advertise_rounds : ℕ → ℕ → ℕ → ℕ → Bool → Act (Unit {0})
  advertise_rounds fuel round_ms zero round is_clusterhead = pure tt
  advertise_rounds fuel round_ms (suc left) round is_clusterhead = do
    found ← run_clusterhead_announcement w fuel round_ms round is_clusterhead
    let ch = is_clusterhead || found.0.is_clusterhead
    run_clusterhead_joining w fuel round_ms ch found.0.candidates
    advertise_rounds fuel round_ms left (round + 1) ch

  -- The phases, in a slot of `total_ms` milliseconds.
  unfoldable pub advertise_phases : ℕ → ℕ → Act (Unit {0})
  advertise_phases fuel total_ms = do
    let discovery_ms = u32 (total_ms * 2) / 5
    run_neighbor_discovery w fuel discovery_ms
    advertise_rounds fuel ((total_ms - discovery_ms) / (num_adv_rounds * 2)) num_adv_rounds 0 false

  -- What is done in the advertising slot.
  unfoldable pub advertise : ℕ → Act NodeRc
  advertise fuel = do
    total_ms ← on_node (λ n. (with_code n default_code, u32 (slot_duration n.mac * 1000)))
    on_state leave_cluster
    advertise_phases fuel total_ms
    on_state settle_credit
    pure NodeRc.ok

  -- `do_advertise`, with a bound on the rounds of each phase.
  unfoldable pub do_advertise : ℕ → Act NodeRc
  do_advertise fuel = do
    now ← read_now w
    slot ←
        on_node (λ n. let (link, slot) = active_slot n.link now in (record n { link = link }, slot))
    branch (is_slot slot advertisement_number) (advertise fuel) (pure NodeRc.invalid_slot)
