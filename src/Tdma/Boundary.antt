-- ===== src/Tdma/Boundary.antt =====
-- The slots of tdma/node/src/main.cpp, in terms of the clock.
use lora_multihop.Prelude.{ℕ, suc, ◌+◌, ◌%◌, ◌^◌, ◌≤◌, ◌<◌, ◌≡◌, arith}
use lora_multihop.Tdma.{node_count, epoch_s, slot_index, next_slot_boundary, slot_seconds}

-- From the epoch on, and until the clock is about to wrap, the boundary that a node waits for is ahead, by at
-- most the length of a slot; the slot lasts until it, and the next slot of the superframe begins with it.
pub next_slot_boundary-slot_index :
    (now : ℕ)
    → epoch_s ≤ now
    → now + slot_seconds < 2 ^ 32
    → (now < next_slot_boundary now)
      × (next_slot_boundary now ≤ now + slot_seconds)
      × (slot_index (next_slot_boundary now) ≡ suc (slot_index now) % node_count)
      × ((t : ℕ) → now ≤ t → t < next_slot_boundary now → slot_index t ≡ slot_index now)
unfolding slot_index next_slot_boundary
next_slot_boundary-slot_index now behind fits =
    (omega arith, omega arith, omega arith, λ t after before. omega arith)
