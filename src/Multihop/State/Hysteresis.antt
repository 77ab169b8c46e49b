-- ===== src/Multihop/State/Hysteresis.antt =====
-- How the ring of a node moves from turn to turn of its discovery, by update_ring_from_neighbors of
-- lib/net/src/multihop_state.cpp.
use lora_multihop.Prelude.{
  ℕ, subst, sym, min, ◌⊎◌, ◌+◌, ◌≤◌, ◌<◌, ◌≡◌, ◌≢◌, List, [], ◌∷◌, length, arith,
}
use lora_multihop.Net.{gateway_addr}
use lora_multihop.Multihop.{Ring, unknown_ring}
use lora_multihop.Multihop.Messages.{RingList}
use lora_multihop.Multihop.Rings.{lowest_from, lowest}
use lora_multihop.Multihop.State.{
  MultihopState, update_ring_from_neighbors, drift, ring_hysteresis_threshold,
}

-- A turn of the loop of run_neighbor_discovery, as far as it moves the ring: the neighbours that are heard by then, and the update.
unfoldable pub round : MultihopState → RingList → MultihopState
round s heard = update_ring_from_neighbors (record s { neighbors = heard })

unfoldable pub rounds : MultihopState → List RingList → MultihopState
rounds s [] = s
rounds s (heard ∷ rest) = rounds (round s heard) rest

-- One round of a node other than the gateway, whichever branch it takes.
pub round_lem :
    (s : MultihopState) (heard : RingList)
    → s.address ≢ gateway_addr
    → s.rounds_without_lower < ring_hysteresis_threshold
    → lowest heard ≤ unknown_ring
    → s.ring ≤ unknown_ring
    → ((lowest heard < s.ring)
        × ((round s heard).ring ≡ lowest heard + 1)
        × ((round s heard).rounds_without_lower ≡ 0))
      ⊎ ((s.ring ≤ lowest heard)
          × (s.rounds_without_lower < 2)
          × ((round s heard).ring ≡ s.ring)
          × ((round s heard).rounds_without_lower ≡ s.rounds_without_lower + 1))
      ⊎ ((s.ring ≤ lowest heard)
          × (s.rounds_without_lower ≡ 2)
          × ((round s heard).ring ≡ min (lowest heard + 1) unknown_ring)
          × ((round s heard).rounds_without_lower ≡ 0))
unfolding round update_ring_from_neighbors drift
round_lem s heard other few low byte = ground arith

round-address : (s : MultihopState) (heard : RingList) → (round s heard).address ≡ s.address
unfolding round update_ring_from_neighbors drift
round-address s heard = ground arith

lowest_from_le : (start i : ℕ) (cs : List ℕ) → lowest_from start i cs ≤ unknown_ring
unfolding lowest_from
lowest_from_le start i [] = omega arith
lowest_from_le start i (c ∷ cs) = ground (arith, lowest_from_le start (i + 1) cs)

lowest_le : (r : RingList) → lowest r ≤ unknown_ring
lowest_le r = lowest_from_le r.ring_start 0 r.counts

-- The state of a node other than the gateway between two rounds.
pub record IsNode (s : MultihopState) : Type 0 where
  pub other : s.address ≢ gateway_addr
  pub few : s.rounds_without_lower < ring_hysteresis_threshold
  pub byte : s.ring ≤ unknown_ring

pub round-IsNode : (s : MultihopState) (heard : RingList) → IsNode s → IsNode (round s heard)
round-IsNode s heard n = record {
  other = subst (λ a. a ≢ gateway_addr) (sym (round-address s heard)) n.other;
  few = ground (arith, round_lem s heard n.other n.few (lowest_le heard) n.byte);
  byte = ground (arith, round_lem s heard n.other n.few (lowest_le heard) n.byte, lowest_le heard);
}

-- Over any rounds, a node other than the gateway keeps its counter below the threshold and its ring a byte.
pub rounds-IsNode :
    (s : MultihopState) (heards : List RingList) → IsNode s → IsNode (rounds s heards)
unfolding rounds
rounds-IsNode s [] n = n
rounds-IsNode s (heard ∷ rest) n = rounds-IsNode (round s heard) rest (round-IsNode s heard n)

-- While the counter and the number of rounds together stay below the threshold, the ring of a node
-- other than the gateway does not rise, whatever is heard.
pub rounds_hold :
    (s : MultihopState) (heards : List RingList)
    → IsNode s
    → s.rounds_without_lower + length heards < ring_hysteresis_threshold
    → (rounds s heards).ring ≤ s.ring
unfolding rounds
rounds_hold s [] n few = omega arith
rounds_hold s (heard ∷ rest) n few = ground (
  arith,
  round_lem s heard n.other n.few (lowest_le heard) n.byte,
  rounds_hold (round s heard) rest (round-IsNode s heard n),
)

-- No ring below the given one is the lowest of a round.
abbrev pub NoLower : Ring → List RingList → Type 0
NoLower ring [] = Unit {0}
NoLower ring (heard ∷ rest) = (ring ≤ lowest heard) × NoLower ring rest

held :
    (s : MultihopState) (heard : RingList)
    → IsNode s
    → s.ring ≤ lowest heard
    → s.rounds_without_lower < 2
    → (round s heard).ring ≡ s.ring
held s heard n low two = ground (arith, round_lem s heard n.other n.few (lowest_le heard) n.byte)

rounds_quiet :
    (s : MultihopState) (heards : List RingList)
    → IsNode s
    → NoLower s.ring heards
    → s.rounds_without_lower + length heards < ring_hysteresis_threshold
    → ((rounds s heards).ring ≡ s.ring)
      × ((rounds s heards).rounds_without_lower ≡ s.rounds_without_lower + length heards)
unfolding rounds
rounds_quiet s [] n quiet few = omega arith
rounds_quiet s (heard ∷ rest) n quiet few = ground (
  arith,
  round_lem s heard n.other n.few (lowest_le heard) n.byte,
  rounds_quiet (round s heard) rest (round-IsNode s heard n)
      (subst (λ r. NoLower r rest) (sym (held s heard n quiet.0 (omega arith))) quiet.1),
)

-- A node other than the gateway that hears no lower ring keeps its ring until the round in which its
-- counter meets the threshold, and after it stands one above the lowest ring of that round, or in the
-- unknown ring.
pub rounds_drift :
    (s : MultihopState) (heards : List RingList) (last : RingList)
    → IsNode s
    → NoLower s.ring heards
    → s.ring ≤ lowest last
    → s.rounds_without_lower + length heards ≡ 2
    → ((rounds s heards).ring ≡ s.ring)
      × ((round (rounds s heards) last).ring ≡ min (lowest last + 1) unknown_ring)
      × ((round (rounds s heards) last).rounds_without_lower ≡ 0)
rounds_drift s heards last n quiet low two = ground (
  arith,
  rounds_quiet s heards n quiet,
  round_lem (rounds s heards) last (rounds-IsNode s heards n).other (rounds-IsNode s heards n).few
      (lowest_le last) (rounds-IsNode s heards n).byte,
)
