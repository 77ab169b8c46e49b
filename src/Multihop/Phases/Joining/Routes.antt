-- ===== src/Multihop/Phases/Joining/Routes.antt =====
-- A node joins only clusterheads that are strictly closer to the gateway than it is: run_clusterhead_joining of
-- lib/net/src/multihop.cpp.
use lora_multihop.Prelude.{ℕ, ◌<◌, ◌≡◌, ◌⊎◌, refl, ap, ◌∙◌, Bool, arith}
use lora_multihop.Net.{Address, unknown_addr}
use lora_multihop.Multihop.{Ring, unknown_ring}
use lora_multihop.Multihop.State.{MultihopState}
use lora_multihop.Multihop.Node.{Node}
use lora_multihop.Multihop.Node.Slots.{accept, prepare_clusterhead}
use lora_multihop.Multihop.Node.Slots.Unique.{accept-Leaves, same, more}
use lora_multihop.Multihop.Phases.{World, Run}
use lora_multihop.Multihop.Phases.Announcement.{become_clusterhead}
use lora_multihop.Multihop.Phases.Joining.Kept.{run_clusterhead_joining-keeps}
use lora_multihop.Multihop.Node.Election.{ClusterheadCandidates}
use lora_multihop.Multihop.Phases.Joining.{
  attach, run_clusterhead_joining, Joining, strictly_closer,
}

-- A node in this ring that has no clusterhead, has no ring, or has a clusterhead in a ring below its own.
pub record IsRouted (ring : Ring) (s : MultihopState) : Type 0 where
  pub same_ring : s.ring ≡ ring
  pub below :
      (s.clusterhead_addr ≡ unknown_addr) ⊎ (ring ≡ unknown_ring) ⊎ (s.clusterhead_ring < ring)

-- The same of the node that it asks.
abbrev IsTarget : Ring → Address → Ring → Type 0
IsTarget ring node target_ring =
    (node ≡ unknown_addr) ⊎ (ring ≡ unknown_ring) ⊎ (target_ring < ring)

-- The parts of the state that say which cluster the node is in.
abbrev pub Route : Type 0
Route = Ring × Address × Ring

abbrev pub route : MultihopState → Route
route s = (s.ring, s.clusterhead_addr, s.clusterhead_ring)

pub IsRouted-same :
    (ring : Ring) (s t : MultihopState) → route t ≡ route s → IsRouted ring s → IsRouted ring t
IsRouted-same ring s t e v = record {
  same_ring = ap (λ (k : Route). k.0) e ∙ v.same_ring;
  below = ground (arith, v.below, ap (λ (k : Route). k.1) e, ap (λ (k : Route). k.2) e);
}

strictly_closer_lem :
    {ring : Ring} (own : Ring) (c : Address × Ring)
    → own ≡ ring
    → ((strictly_closer own c).0 ≡ unknown_addr)
      ⊎ (ring ≡ unknown_ring)
      ⊎ ((strictly_closer own c).1 < ring)
unfolding strictly_closer
strictly_closer_lem own (node, target) e = ground arith

accept-route :
    (n : Node) (body_now now : ℕ) (a : Address)
    → route (accept n body_now now a).0.state ≡ route n.state
accept-route n body_now now a = elim (accept-Leaves n body_now now a) [
  | same e ↦ ap route e
  | more e _ _ ↦ ap route e
]

attach-IsRouted :
    (ring : Ring) (n : Node) (j : Joining) (start relative : ℕ)
    → IsRouted ring n.state
    → IsTarget ring j.target_node j.target_ring
    → IsRouted ring (attach n j start relative).state
unfolding attach
attach-IsRouted ring n j start relative v t = record { same_ring = v.same_ring; below = t }

pub become_clusterhead-route : (n : Node) → route (become_clusterhead n).state ≡ route n.state
unfolding become_clusterhead prepare_clusterhead
become_clusterhead-route n = refl

pub run_clusterhead_joining-IsRouted :
    (w : World) (ring : Ring) (fuel duration_ms : ℕ) (is_clusterhead : Bool)
    (c : ClusterheadCandidates) (r : Run)
    → IsRouted ring r.node.state
    → IsRouted ring (run_clusterhead_joining w fuel duration_ms is_clusterhead c r).1.node.state
run_clusterhead_joining-IsRouted w ring fuel duration_ms is_clusterhead c r v =
    run_clusterhead_joining-keeps w (λ o. IsRouted ring o.0) (IsTarget ring)
      (λ n body_now now a v. IsRouted-same ring _ _ (accept-route n body_now now a) v)
      (λ n j start relative t v. attach-IsRouted ring n j start relative v t)
      (λ n v. IsRouted-same ring _ _ (become_clusterhead-route n) v)
      (λ s mac c v. strictly_closer_lem s.ring c v.same_ring) fuel duration_ms is_clusterhead c r v
