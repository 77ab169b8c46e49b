-- ===== src/Multihop/Rings/Tests.antt =====
-- Runs of the list of rings, and the theorems about it at concrete lists.
use lora_multihop.Prelude.{ℕ, zero, suc, ◌≤◌, ◌≡◌, refl, inr, [], ◌∷◌, get_or, arith}
use lora_multihop.Multihop.Messages.{RingList}
use lora_multihop.Multihop.Rings.{no_neighbors, add_neighbor, lowest}
use lora_multihop.Multihop.Rings.Count.{IsRings}
use lora_multihop.Multihop.Rings.Exact.{count_of, kept, add_neighbor-count_of}
use lora_multihop.Multihop.Rings.Heard.{hear, hear-lowest}

hear-lowest_example : lowest (hear no_neighbors (7 ∷ 255 ∷ 3 ∷ 12 ∷ [])) ≡ 3
hear-lowest_example =
    hear-lowest (7 ∷ 255 ∷ 3 ∷ 12 ∷ [])
      (omega arith, (omega arith, (omega arith, (omega arith, tt)))) (omega arith)

abbrev some_rings : RingList
some_rings = record { ring_start = 2; counts = 1 ∷ 0 ∷ 4 ∷ 0 ∷ 0 ∷ 0 ∷ 0 ∷ 0 ∷ [] }

some_rings_most : (j : ℕ) → get_or some_rings.counts j 0 ≤ 4
some_rings_most zero = omega arith
some_rings_most (suc zero) = omega arith
some_rings_most (suc (suc zero)) = omega arith
some_rings_most (suc (suc (suc zero))) = omega arith
some_rings_most (suc (suc (suc (suc zero)))) = omega arith
some_rings_most (suc (suc (suc (suc (suc zero))))) = omega arith
some_rings_most (suc (suc (suc (suc (suc (suc zero)))))) = omega arith
some_rings_most (suc (suc (suc (suc (suc (suc (suc zero))))))) = omega arith
some_rings_most (suc (suc (suc (suc (suc (suc (suc (suc j)))))))) = omega arith

some_rings-IsRings : IsRings some_rings 4
some_rings-IsRings = record {
  eight = refl;
  start = omega arith;
  most = some_rings_most;
  none_heard = λ e j. absurd (omega (arith, e));
}

add_neighbor-count_of_example :
    count_of (add_neighbor some_rings 1) 4 ≡ kept some_rings (add_neighbor some_rings 1) 4
add_neighbor-count_of_example =
    add_neighbor-count_of some_rings 1 4 4 some_rings-IsRings (omega arith) (omega arith)
      (inr (omega arith))
