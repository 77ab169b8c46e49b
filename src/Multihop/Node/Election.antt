-- ===== src/Multihop/Node/Election.antt =====
-- Which node volunteers as a clusterhead, and which one a follower prefers: base_p_for_ring,
-- announce_clusterhead and ClusterheadCandidates of lib/net/src/multihop.cpp.
pub mod Candidates
pub mod Rotation
use lora_multihop.Prelude.{
  ℕ, ◌+◌, ◌-◌, ◌*◌, ◌==◌, Bool, true, false, ltb, leb, u8, u16, if◌then◌else◌,
}
use lora_multihop.Net.{Address, unknown_addr}
use lora_multihop.Multihop.{Ring, gateway_ring, unknown_ring}
use lora_multihop.Multihop.State.{MultihopState}

abbrev pub credit_scale : ℕ
credit_scale = 32

unfoldable pub base_p_for_ring : Ring → ℕ
base_p_for_ring ring =
    if unknown_ring == ring
    then 16
    else (if gateway_ring == ring
        then 255
        else (if leb 4 ring then 64 else u8 (255 - (ring - 1) * 60)))

-- The probability in 255ths with which a node of this ring and credit volunteers.
unfoldable pub effective_p : MultihopState → ℕ
effective_p s =
    let p = u16 (base_p_for_ring s.ring + u16 (s.ch_credit * credit_scale)) in
    if ltb 255 p then 255 else p

-- `announce_clusterhead`; `random` is what rand() returns.
unfoldable pub announce_clusterhead : MultihopState → ℕ → Bool
announce_clusterhead s random =
    if s.clusterhead_p == 0 then false else leb (u8 random) (u8 (effective_p s))

pub record Candidate : Type 0 where
  pub address : Address
  pub ring : Ring
  pub score : ℕ

-- The three arrays of two elements, by the elements' index.
pub record ClusterheadCandidates : Type 0 where
  pub first : Candidate
  pub other : Candidate

abbrev pub no_candidate : Candidate
no_candidate = record { address = unknown_addr; ring = unknown_ring; score = 0 }

-- `ClusterheadCandidates::reset`
abbrev pub reset : ClusterheadCandidates
reset = record { first = no_candidate; other = no_candidate }

unfoldable pub update : ClusterheadCandidates → Candidate → ClusterheadCandidates
update c new =
    if ltb c.first.score new.score
    then record { first = new; other = c.first }
    else (if ltb c.other.score new.score then record c { other = new } else c)

unfoldable pub top : ClusterheadCandidates → Address × Ring
top c = (c.first.address, c.first.ring)

unfoldable pub second : ClusterheadCandidates → Address × Ring
second c = (c.other.address, c.other.ring)
