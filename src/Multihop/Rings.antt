-- ===== src/Multihop/Rings.antt =====
-- The list of neighbouring rings: RingList::score of lib/net/src/multihop_messages.cpp, and
-- add_neighbor and the search of update_ring_from_neighbors of lib/net/src/multihop_state.cpp.
pub mod Shift
pub mod Count
pub mod Exact
pub mod Heard
pub mod Score
mod Tests
use lora_multihop.Prelude.{
  ℕ, zero, suc, ◌+◌, ◌-◌, ◌*◌, ◌^◌, ◌==◌, Bool, ◌&&◌, not, List, [], ◌∷◌, ltb, leb, u8, u32, sub8,
  get_or, set, replicate, if◌then◌else◌,
}
use lora_multihop.Multihop.{Ring, gateway_ring, unknown_ring}
use lora_multihop.Multihop.Messages.{RingList}

-- sizeof(counts)
abbrev pub counts_sz : ℕ
counts_sz = 8

-- The list after `reset_neighbors`.
abbrev pub no_neighbors : RingList
no_neighbors = record { ring_start = 0; counts = replicate 8 0 }

-- The loop of `score` over the counts from index `i` on.
unfoldable pub score_from : ℕ → ℕ → ℕ → List ℕ → ℕ
score_from sum max i [] = sum
score_from sum max i (c ∷ cs) = score_from (u32 (sum + sub8 max i * c)) max (i + 1) cs

-- `RingList::score`
unfoldable pub score : RingList → Ring → ℕ
score r node_ring =
    if gateway_ring == node_ring
    then 2 ^ 32 - 1
    else score_from 0 (u8 (r.ring_start + counts_sz)) 0 r.counts

-- `for (i = counts_sz - 1; i >= offset; --i) counts[i] = counts[i - offset];` with the rounds left.
unfoldable pub shift_up : ℕ → List ℕ → ℕ → List ℕ
shift_up zero counts offset = counts
shift_up (suc n) counts offset = shift_up n (set counts (offset + n) (get_or counts n 0)) offset

-- `for (i = 0; i < offset; ++i) counts[i] = 0;` with the rounds left.
unfoldable pub clear_low : ℕ → List ℕ → List ℕ
clear_low zero counts = counts
clear_low (suc n) counts = clear_low n (set counts n 0)

-- The window moved down to a new lowest ring.
unfoldable pub rebase : RingList → Ring → RingList
rebase r neighbor =
    let offset = r.ring_start - neighbor in
    if leb counts_sz offset
    then record { ring_start = neighbor; counts = replicate 8 0 }
    else record {
      ring_start = neighbor;
      counts = clear_low offset (shift_up (counts_sz - offset) r.counts offset);
    }

unfoldable pub increment : RingList → Ring → RingList
increment r neighbor =
    let index = neighbor - r.ring_start in
    record r { counts = set r.counts index (u8 (get_or r.counts index 0 + 1)) }

-- `add_neighbor`
unfoldable pub add_neighbor : RingList → Ring → RingList
add_neighbor r neighbor =
    if unknown_ring == neighbor
    then r
    else (let fresh = get_or r.counts 0 0 == 0 in
        let based : RingList = if fresh then record r { ring_start = neighbor } else r in
        if not fresh && leb (based.ring_start + counts_sz) neighbor
        then based
        else (if ltb neighbor based.ring_start
            then increment (rebase based neighbor) neighbor
            else increment based neighbor))

-- The search for the lowest ring of `update_ring_from_neighbors`, from index `i` on.
unfoldable pub lowest_from : ℕ → ℕ → List ℕ → Ring
lowest_from start i [] = unknown_ring
lowest_from start i (c ∷ cs) = if ltb 0 c then u8 (start + i) else lowest_from start (i + 1) cs

abbrev pub lowest : RingList → Ring
lowest r = lowest_from r.ring_start 0 r.counts
