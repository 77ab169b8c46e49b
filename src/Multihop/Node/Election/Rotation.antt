-- ===== src/Multihop/Node/Election/Rotation.antt =====
-- Every node that takes part becomes a clusterhead in the end: announce_clusterhead of
-- lib/net/src/multihop.cpp.
use lora_multihop.Prelude.{ℕ, ◌≤◌, ◌<◌, ◌≡◌, ◌≢◌, ◌⊎◌, true, arith}
use lora_multihop.Multihop.State.{MultihopState}
use lora_multihop.Multihop.Node.Election.{announce_clusterhead, effective_p, base_p_for_ring}

base_p_for_ring_bounds :
    (ring : ℕ) → ring < 256 → (16 ≤ base_p_for_ring ring) × (base_p_for_ring ring ≤ 255)
unfolding base_p_for_ring
base_p_for_ring_bounds ring h = ground arith

base_p_for_ring_low : (ring : ℕ) → ring ≤ 1 → base_p_for_ring ring ≡ 255
unfolding base_p_for_ring
base_p_for_ring_low ring h = ground arith

-- A node whose role is not disabled volunteers for certain, whatever rand() returns, when it has been passed over for 8
-- superframes, or when it stands in ring 0 or 1.
pub announce_clusterhead_sure :
    (s : MultihopState) (random : ℕ)
    → s.clusterhead_p ≢ 0
    → s.ring < 256
    → s.ch_credit < 256
    → (8 ≤ s.ch_credit) ⊎ (s.ring ≤ 1)
    → announce_clusterhead s random ≡ true
unfolding announce_clusterhead effective_p
announce_clusterhead_sure s random p ring credit due =
    ground (arith, base_p_for_ring_bounds s.ring ring, base_p_for_ring_low s.ring)
