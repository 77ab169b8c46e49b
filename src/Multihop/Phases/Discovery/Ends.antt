-- ===== src/Multihop/Phases/Discovery/Ends.antt =====
-- run_neighbor_discovery of lib/net/src/multihop.cpp makes its calls one after the other, and ends by its deadline.
use lora_multihop.Prelude.{ℕ, suc, ◌+◌, ◌≤◌, ◌≡◌, Bool, true, false, Option, none, some, u32, arith}
use lora_multihop.Time.{MsDeadline, ms_deadline, reached}
use lora_multihop.Link.{LinkRc}
use lora_multihop.Multihop.{Ring}
use lora_multihop.Multihop.Node.{NodeRc}
use lora_multihop.Multihop.Phases.{World, Run, next_message}
use lora_multihop.Multihop.Phases.Rules.{branch-Ensures, message_loop-keeps}
use lora_multihop.Multihop.Phases.Rules.Ends.{
  After, listen-After, send_queue-After, phase_loop-ends,
}
use lora_multihop.Multihop.Phases.Discovery.{
  Discovering, heartbeat_ring, time_to_announce, hear_ring, hear_heartbeat, discovery_timeout,
  discovery_messages, flush_if_ok, announce_ring, discovery_round, run_neighbor_discovery,
}

module _ (w : World) where
  module _ (c : ℕ) where
    time_to_announce-After :
        (announce : MsDeadline) (announced : Bool) (r : Run)
        → After c r
        → After c (time_to_announce w announce announced r).1
    unfolding time_to_announce
    time_to_announce-After announce true r p = p
    time_to_announce-After announce false r p = omega arith

    discovery_timeout-After :
        (phase announce : MsDeadline) (announced : Bool) (r : Run)
        → After c r
        → After c (discovery_timeout w phase announce announced r).1
    unfolding discovery_timeout
    discovery_timeout-After phase announce true r p = omega arith
    discovery_timeout-After phase announce false r p = omega arith

    flush_if_ok-After : (rc : NodeRc) (r : Run) → After c r → After c (flush_if_ok w rc r).1
    unfolding flush_if_ok
    flush_if_ok-After NodeRc.ok r p = send_queue-After w c r p
    flush_if_ok-After _ r p = p

    announce_ring-After : (d : Discovering) (r : Run) → After c r → After c (announce_ring w d r).1
    unfolding announce_ring
    announce_ring-After d r p =
        branch-Ensures (λ x k. After c k) _ _ _ r p (flush_if_ok-After _ _ (omega arith))

    hear_ring-After :
        (announce : MsDeadline) (d : Discovering) (ring : Option Ring) (r : Run)
        → After c r
        → After c (hear_ring w announce d ring r).1
    unfolding hear_ring
    hear_ring-After announce d none r p = p
    hear_ring-After announce d (some ring) r p = time_to_announce-After announce d.announced _ p

    discovery_messages-After :
        (announce : MsDeadline) (d : Discovering) (rc : LinkRc) (r : Run)
        → After c r
        → After c (discovery_messages w announce d rc r).1
    unfolding discovery_messages next_message
    discovery_messages-After announce d LinkRc.ok r p =
        message_loop-keeps (λ d r. After c r) (hear_heartbeat w announce) (λ d r p. p)
          (λ d buf r p. hear_ring-After announce d (heartbeat_ring buf) r p) 256 d r p
    discovery_messages-After announce d _ r p = p

    discovery_round-After :
        (phase announce : MsDeadline) (d : Discovering) (r : Run)
        → After c r
        → After c (discovery_round w phase announce d r).1
    unfolding discovery_round
    discovery_round-After phase announce d r p = announce_ring-After _ _ (
        discovery_messages-After announce _ _ _ (
          listen-After w c _ _ (
            discovery_timeout-After phase announce d.announced _
              (time_to_announce-After announce d.announced r p))))

  pub run_neighbor_discovery-ends :
      (k duration_ms last : ℕ) (r : Run)
      → ((i : ℕ)
          → last ≤ i
          → reached (ms_deadline (u32 (w.millis r.call)) duration_ms) (u32 (w.millis i)) ≡ true)
      → last ≤ r.call + k
      → (run_neighbor_discovery w (suc k) duration_ms r).0 ≡ true
  unfolding run_neighbor_discovery
  run_neighbor_discovery-ends k duration_ms last r over p =
      phase_loop-ends w _ _ last over (λ c d r p. discovery_round-After c _ _ d r p) k _ _
        (omega arith)
