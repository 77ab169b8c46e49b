-- ===== src/Multihop/Phases/Discovery.antt =====
-- run_neighbor_discovery of lib/net/src/multihop.cpp: the first phase of the advertising slot.
pub mod Kept
pub mod Ends
pub mod Silent
pub mod Drift
use lora_multihop.Prelude.{
  ℕ, ◌/◌, ◌==◌, Bool, true, false, ◌&&◌, ◌||◌, not, Option, none, some, List, if◌then◌else◌,
}
use lora_multihop.Time.{MsDeadline}
use lora_multihop.Link.{LinkRc}
use lora_multihop.Multihop.{Ring, gateway_ring, unknown_ring}
use lora_multihop.Multihop.Messages.{Body, Message, decode_msg}
use lora_multihop.Multihop.State.{
  MultihopState, reset_neighbors, hear_neighbor, update_ring_from_neighbors,
}
use lora_multihop.Multihop.Node.{NodeRc, rand_delay_ms, send_heartbeat}
use lora_multihop.Multihop.Phases.{
  World, Act, pure, gets, branch, on_node, ◌>>=◌, ◌>>◌, on_state, read_now, read_random,
  deadline_in, is_reached, time_until, listen, send_queue, message_loop, phase_loop,
}

-- `announced`, `has_ring_info`, and within a round `try_to_announce`.
pub record Discovering : Type 0 where
  pub announced : Bool
  pub has_ring_info : Bool
  pub try_to_announce : Bool

-- The ring in a valid heartbeat.
unfoldable pub heartbeat_ring : List ℕ → Option Ring
heartbeat_ring buf = elim (decode_msg buf) [
  | none ↦ none
  | some msg ↦ elim msg.body [ Body.heartbeat ring ↦ some ring | _ ↦ none ]
]

module _ (w : World) where
  -- `!announced && announce_deadline.reached()`
  unfoldable pub time_to_announce : MsDeadline → Bool → Act Bool
  time_to_announce announce true = pure false
  time_to_announce announce false = is_reached w announce

  -- What is done with the ring of a heartbeat.
  unfoldable pub hear_ring : MsDeadline → Discovering → Option Ring → Act (Discovering × Bool)
  hear_ring announce d none = pure (d, true)
  hear_ring announce d (some ring) = do
    on_state (λ s. hear_neighbor s ring)
    due ← time_to_announce announce d.announced
    pure (record d { has_ring_info = true; try_to_announce = due }, true)

  abbrev pub hear_heartbeat : MsDeadline → Discovering → List ℕ → Act (Discovering × Bool)
  hear_heartbeat announce d buf = hear_ring announce d (heartbeat_ring buf)

  -- `!announced ? announce_deadline.millis_until() : phase_deadline.millis_until()`
  unfoldable pub discovery_timeout : MsDeadline → MsDeadline → Bool → Act ℕ
  discovery_timeout phase announce true = time_until w phase
  discovery_timeout phase announce false = time_until w announce

  -- The messages of a round, if recv has succeeded.
  unfoldable pub discovery_messages : MsDeadline → Discovering → LinkRc → Act Discovering
  discovery_messages announce d LinkRc.ok = message_loop (hear_heartbeat announce) 256 d
  discovery_messages announce d _ = pure d

  -- A heartbeat is queued, and sent if it has been queued.
  unfoldable pub flush_if_ok : NodeRc → Act (Unit {0})
  flush_if_ok NodeRc.ok = do send_queue w; pure tt
  flush_if_ok _ = pure tt

  unfoldable pub announce_ring : Discovering → Act Discovering
  announce_ring d = branch (not d.try_to_announce) (pure d) do
    now ← read_now w
    rc ← on_node (λ n. send_heartbeat n now)
    flush_if_ok rc
    pure (record d { announced = true })

  unfoldable pub discovery_round : MsDeadline → MsDeadline → Discovering → Act Discovering
  discovery_round phase announce d = do
    due ← time_to_announce announce d.announced
    timeout_ms ← discovery_timeout phase announce d.announced
    rc ← listen w timeout_ms
    heard ← discovery_messages announce (record d { try_to_announce = d.has_ring_info && due }) rc
    on_state update_ring_from_neighbors
    announce_ring heard

  -- `run_neighbor_discovery`, with a bound on its rounds; the Boolean says that the deadline has ended it.
  unfoldable pub run_neighbor_discovery : ℕ → ℕ → Act Bool
  run_neighbor_discovery fuel duration_ms = do
    on_state reset_neighbors
    phase ← deadline_in w duration_ms
    ring ← gets MultihopState.ring
    random ← read_random w
    announce ←
        deadline_in w (if gateway_ring == ring then 0 else rand_delay_ms random 0 (duration_ms / 4))
    result ← phase_loop w phase (discovery_round phase announce) fuel (record {
      announced = false;
      has_ring_info = not (unknown_ring == ring);
      try_to_announce = false;
    })
    pure result.1
