-- ===== src/Multihop/Phases/Discovery/Kept.antt =====
-- What run_neighbor_discovery of lib/net/src/multihop.cpp keeps of the state: whatever hearing a neighbour and
-- updating the ring keep.
use lora_multihop.Prelude.{ℕ, ◌≡◌, refl, sym, subst, ◌∙◌, Bool, true, false, Option, none, some}
use lora_multihop.Net.{MacParams}
use lora_multihop.Time.{MsDeadline}
use lora_multihop.Link.{LinkRc}
use lora_multihop.Multihop.{Ring}
use lora_multihop.Multihop.State.{
  MultihopState, reset_neighbors, hear_neighbor, update_ring_from_neighbors,
}
use lora_multihop.Multihop.Node.{NodeRc}
use lora_multihop.Multihop.Phases.{World, Run, next_message}
use lora_multihop.Multihop.Phases.Rules.{branch-Ensures, message_loop-keeps, phase_loop-keeps}
use lora_multihop.Multihop.Phases.Rules.State.{
  Own, own, listen-own, send_queue-own, send_heartbeat-own,
}
use lora_multihop.Multihop.Phases.Discovery.{
  Discovering, heartbeat_ring, time_to_announce, hear_ring, hear_heartbeat, discovery_timeout,
  discovery_messages, flush_if_ok, announce_ring, discovery_round, run_neighbor_discovery,
}

module _ (w : World) where
  pub time_to_announce-own :
      (announce : MsDeadline) (announced : Bool) (r : Run)
      → own (time_to_announce w announce announced r).1.node ≡ own r.node
  unfolding time_to_announce
  time_to_announce-own announce true r = refl
  time_to_announce-own announce false r = refl

  pub discovery_timeout-own :
      (phase announce : MsDeadline) (announced : Bool) (r : Run)
      → own (discovery_timeout w phase announce announced r).1.node ≡ own r.node
  unfolding discovery_timeout
  discovery_timeout-own phase announce true r = refl
  discovery_timeout-own phase announce false r = refl

  flush_if_ok-own : (rc : NodeRc) (r : Run) → own (flush_if_ok w rc r).1.node ≡ own r.node
  unfolding flush_if_ok
  flush_if_ok-own NodeRc.ok r = send_queue-own w r
  flush_if_ok-own _ r = refl

  pub announce_ring-own :
      (d : Discovering) (r : Run) → own (announce_ring w d r).1.node ≡ own r.node
  unfolding announce_ring
  announce_ring-own d r =
      branch-Ensures (λ x k. own k.node ≡ own r.node) _ _ _ r refl
        (flush_if_ok-own _ _ ∙ send_heartbeat-own r.node _)

  module _ (I : Own → Type 0)
      (hears : (s : MultihopState) (mac : MacParams) (ring : Ring)
        → I (s, mac)
        → I (hear_neighbor s ring, mac))
      (updates : (s : MultihopState) (mac : MacParams)
        → I (s, mac)
        → I (update_ring_from_neighbors s, mac)) where
    hear_ring-keeps :
        (announce : MsDeadline) (d : Discovering) (ring : Option Ring) (r : Run)
        → I (own r.node)
        → I (own (hear_ring w announce d ring r).1.node)
    unfolding hear_ring
    hear_ring-keeps announce d none r v = v
    hear_ring-keeps announce d (some ring) r v =
        subst I (sym (time_to_announce-own announce d.announced _))
          (hears r.node.state r.node.mac ring v)

    discovery_messages-keeps :
        (announce : MsDeadline) (d : Discovering) (rc : LinkRc) (r : Run)
        → I (own r.node)
        → I (own (discovery_messages w announce d rc r).1.node)
    unfolding discovery_messages next_message
    discovery_messages-keeps announce d LinkRc.ok r v =
        message_loop-keeps (λ d r. I (own r.node)) (hear_heartbeat w announce) (λ d r v. v)
          (λ d buf r v. hear_ring-keeps announce d (heartbeat_ring buf) r v) 256 d r v
    discovery_messages-keeps announce d _ r v = v

    discovery_round-keeps :
        (phase announce : MsDeadline) (d : Discovering) (r : Run)
        → I (own r.node)
        → I (own (discovery_round w phase announce d r).1.node)
    unfolding discovery_round
    discovery_round-keeps phase announce d r v = subst I (sym (announce_ring-own _ _)) (
        updates _ _ (
          discovery_messages-keeps announce _ _ _ (
            subst I
              (sym (
                listen-own w _ _
                ∙ discovery_timeout-own phase announce d.announced _
                ∙ time_to_announce-own announce d.announced r))
              v)))

    pub run_neighbor_discovery-keeps :
        (fuel duration_ms : ℕ) (r : Run)
        → I (reset_neighbors r.node.state, r.node.mac)
        → I (own (run_neighbor_discovery w fuel duration_ms r).1.node)
    unfolding run_neighbor_discovery
    run_neighbor_discovery-keeps fuel duration_ms r v =
        phase_loop-keeps w _ (λ d r. I (own r.node)) _ (λ d r v. v) (discovery_round-keeps _ _) fuel
          _ _ v
