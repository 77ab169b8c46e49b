-- ===== src/Multihop/State/Tests.antt =====
-- Runs of lib/net/src/multihop_state.cpp, and the theorems about it at a concrete node.
use lora_multihop.Prelude.{◌+◌, ◌≡◌, refl, [], ◌∷◌, min, arith}
use lora_multihop.Multihop.{unknown_ring}
use lora_multihop.Multihop.Messages.{RingList}
use lora_multihop.Multihop.Rings.{lowest, lowest_from}
use lora_multihop.Multihop.State.{MultihopState, fresh_state}
use lora_multihop.Multihop.State.Hysteresis.{IsNode, round, rounds, rounds_drift, rounds-IsNode}

-- A follower in ring 3 that has been without a lower neighbour for one round.
abbrev third : MultihopState
third = record fresh_state { address = 9; ring = 3; rounds_without_lower = 1 }

third-IsNode : IsNode third
third-IsNode = record {
  other = λ e. absurd (omega (arith, e));
  few = omega arith;
  byte = omega arith;
}

-- A round in which only ring 5 is heard, and one in which ring 1 is.
abbrev deep : RingList
deep = record { ring_start = 5; counts = 2 ∷ 0 ∷ 0 ∷ 0 ∷ 0 ∷ 0 ∷ 0 ∷ 0 ∷ [] }

abbrev near : RingList
near = record { ring_start = 1; counts = 2 ∷ 0 ∷ 0 ∷ 0 ∷ 0 ∷ 0 ∷ 0 ∷ 0 ∷ [] }

lowest-deep : lowest deep ≡ 5
unfolding lowest_from
lowest-deep = refl

rounds_drift_example :
    ((rounds third (deep ∷ [])).ring ≡ 3)
    × ((round (rounds third (deep ∷ [])) deep).ring ≡ min (lowest deep + 1) unknown_ring)
    × ((round (rounds third (deep ∷ [])) deep).rounds_without_lower ≡ 0)
rounds_drift_example =
    rounds_drift third (deep ∷ []) deep third-IsNode (omega (arith, lowest-deep), tt)
      (omega (arith, lowest-deep)) (omega arith)

rounds-IsNode_example : IsNode (rounds third (deep ∷ near ∷ deep ∷ deep ∷ deep ∷ []))
rounds-IsNode_example = rounds-IsNode third (deep ∷ near ∷ deep ∷ deep ∷ deep ∷ []) third-IsNode
