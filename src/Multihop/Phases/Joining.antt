-- ===== src/Multihop/Phases/Joining.antt =====
-- run_clusterhead_joining of lib/net/src/multihop.cpp: clusterheads accept followers, and the others join.
pub mod Routes
pub mod Kept
pub mod Ends
use lora_multihop.Prelude.{
  ℕ, ◌+◌, ◌-◌, ◌/◌, ◌==◌, Bool, true, false, ◌&&◌, ◌||◌, not, Option, none, some, List, ltb, leb,
  u32, sub8, if◌then◌else◌,
}
use lora_multihop.Net.{Address, unknown_addr}
use lora_multihop.Time.{MsDeadline}
use lora_multihop.Multihop.{Ring, unknown_ring}
use lora_multihop.Multihop.Messages.{Header, Body, Message, decode_msg}
use lora_multihop.Multihop.State.{MultihopState, Role, acts_as_clusterhead, acts_as_follower}
use lora_multihop.Multihop.Node.{Node, NodeRc, rand_delay_ms, vtdma_window_size, follow}
use lora_multihop.Multihop.Node.Slots.{accept}
use lora_multihop.Multihop.Node.Election.{ClusterheadCandidates, announce_clusterhead, top, second}
use lora_multihop.Multihop.Phases.{
  World, Act, pure, gets, branch, on_node, ◌>>=◌, ◌>>◌, on_state, set_clock, read_now, read_random,
  deadline_in, is_reached, time_until, listen, send_queue, message_loop, phase_loop,
}
use lora_multihop.Multihop.Phases.Announcement.{become_clusterhead, become_if}

-- MAX_TIME_SYNC_DRIFT_S
abbrev pub max_time_sync_drift_s : ℕ
max_time_sync_drift_s = 60

pub record Joining : Type 0 where
  pub target_node : Address
  pub target_ring : Ring
  pub try_to_follow : Bool
  pub joined : Bool
  pub tried_second : Bool
  pub follow_deadline : MsDeadline

-- A candidate that is not strictly closer to the gateway than the node is no candidate.
unfoldable pub strictly_closer : Ring → Address × Ring → Address × Ring
strictly_closer ring (node, target_ring) =
    if not (ring == unknown_ring) && leb ring target_ring
    then (unknown_addr, unknown_ring)
    else (node, target_ring)

-- The slots that an Accept names, and its sender as clusterhead.
unfoldable pub attach : Node → Joining → ℕ → ℕ → Node
attach n j start_slot relative_slot = record n {
  state = record (n.state) {
    clusterhead_ring = j.target_ring;
    clusterhead_addr = j.target_node;
    upstream_start_slot = start_slot;
    upstream_relative_slot = relative_slot;
    upstream_ack_slot = sub8 (start_slot + vtdma_window_size n.mac) 1;
  };
}

abbrev pub drift_of : ℕ → ℕ → ℕ
drift_of local remote = if ltb local remote then remote - local else local - remote

module _ (w : World) where
  unfoldable pub sync_clock : ℕ → Act (Unit {0})
  sync_clock remote_time = do
    local_time ← read_now w
    branch (leb (drift_of local_time remote_time) max_time_sync_drift_s) (set_clock remote_time)
        (pure tt)

  -- A node that has joined, and is no clusterhead yet, may become one.
  unfoldable pub promote : Act (Unit {0})
  promote = do
    random ← read_random w
    wins ← gets (λ s. not (acts_as_clusterhead s) && announce_clusterhead s random)
    become_if wins

  -- The node has been accepted.
  unfoldable pub join : Joining → ℕ → ℕ → ℕ → Act (Joining × Bool)
  join j start_slot relative_slot remote_time = do
    on_node (λ n. (attach n j start_slot relative_slot, tt))
    sync_clock remote_time
    promote
    pure (record j { joined = true }, true)

  -- A new deadline for the second candidate, if there is one.
  unfoldable pub follow_second : ℕ → Joining → Act Joining
  follow_second duration_ms j = branch (j.target_node == unknown_addr) (pure j) do
    random ← read_random w
    deadline ← deadline_in w (rand_delay_ms random 0 (duration_ms / 3))
    pure (record j { try_to_follow = true; follow_deadline = deadline })

  -- The node has been refused: it turns to the second candidate, once.
  unfoldable pub refused : ℕ → ClusterheadCandidates → Joining → Act (Joining × Bool)
  refused duration_ms candidates j = branch j.tried_second (pure (j, false)) do
    ring ← gets MultihopState.ring
    let (node, target_ring) = strictly_closer ring (second candidates)
    j' ←
        follow_second duration_ms
          (record j { target_node = node; target_ring = target_ring; tried_second = true })
    pure (j', false)

  -- An Accept for some node.
  unfoldable pub hear_accept :
      ℕ → Bool → ClusterheadCandidates → Joining → Address → Body → Act (Joining × Bool)
  hear_accept duration_ms eligible candidates j src
        (Body.accept accepted follower start relative remote) =
      do
        address ← gets MultihopState.address
        branch (not j.joined && eligible && src == j.target_node && follower == address)
            (branch accepted (join j start relative remote) (refused duration_ms candidates j))
            (pure (j, true))
  hear_accept duration_ms eligible candidates j src _ = pure (j, true)

  -- A Follow that is addressed to this clusterhead is answered.
  unfoldable pub hear_follow : Bool → Address → Body → Act (Unit {0})
  hear_follow is_clusterhead src (Body.follow clusterhead follower) = do
    address ← gets MultihopState.address
    branch (not (is_clusterhead && clusterhead == address)) (pure tt) do
      body_now ← read_now w
      now ← read_now w
      on_node (λ n. accept n body_now now src)
      send_queue w
      pure tt
  hear_follow is_clusterhead src _ = pure tt

  -- A message of a frame; one that is not valid ends the frame.
  unfoldable pub hear_joining :
      ℕ → Bool → Bool → ClusterheadCandidates → Joining → Option Message → Act (Joining × Bool)
  hear_joining duration_ms is_clusterhead eligible candidates j none = pure (j, false)
  hear_joining duration_ms is_clusterhead eligible candidates j (some msg) = do
    hear_follow is_clusterhead msg.hdr.src msg.body
    hear_accept duration_ms eligible candidates j msg.hdr.src msg.body

  unfoldable pub ask : Address → Act (Unit {0})
  ask target_node =
      branch (target_node == unknown_addr) (pure tt)
        do now ← read_now w; on_node (λ n. follow n now target_node); send_queue w; pure tt

  -- The node's own Follow, when it is due.
  unfoldable pub send_follow : Joining → Act Joining
  send_follow j = do
    due ← is_reached w j.follow_deadline
    branch (not (j.try_to_follow && due)) (pure j)
        do ask j.target_node; pure (record j { try_to_follow = false })

  unfoldable pub joining_timeout : MsDeadline → MsDeadline → Act ℕ
  joining_timeout phase deadline = do
    due ← is_reached w deadline
    branch due (time_until w phase) (time_until w deadline)

  unfoldable pub joining_round :
      ℕ → Bool → Bool → ClusterheadCandidates → MsDeadline → Joining → Act Joining
  joining_round duration_ms is_clusterhead eligible candidates phase j = do
    asked ← send_follow j
    timeout_ms ← joining_timeout phase asked.follow_deadline
    listen w timeout_ms
    message_loop
        (λ k buf. hear_joining duration_ms is_clusterhead eligible candidates k (decode_msg buf))
        256 asked

  -- `run_clusterhead_joining`, with a bound on its rounds; the Boolean says that the deadline has ended it.
  unfoldable pub run_clusterhead_joining :
      ℕ → ℕ → Bool → ClusterheadCandidates → Act (Joining × Bool)
  run_clusterhead_joining fuel duration_ms is_clusterhead candidates = do
    eligible ← gets acts_as_follower
    ring ← gets MultihopState.ring
    let (node, target_ring) = strictly_closer ring (top candidates)
    random ← read_random w
    deadline ← deadline_in w (rand_delay_ms random 0 (duration_ms / 2))
    phase ← deadline_in w duration_ms
    phase_loop w phase (joining_round duration_ms is_clusterhead eligible candidates phase) fuel
        (record {
          target_node = node;
          target_ring = target_ring;
          try_to_follow = eligible;
          joined = false;
          tried_second = false;
          follow_deadline = deadline;
        })
