-- ===== src/Multihop/Rings/Count.antt =====
-- How often each ring has been heard, and the lowest one: what add_neighbor of
-- lib/net/src/multihop_state.cpp does to the list.
use lora_multihop.Prelude.{
  ℕ, ℕ_discrete, dec_lt, ◌+◌, ◌-◌, ◌≤◌, ◌<◌, ◌≡◌, ◌≢◌, ◌⊎◌, inl, inr, refl, ap, length, u8, arith,
  if◌then◌else◌, ltb, ◌==◌, get_or, length-set,
}
use lora_multihop.Multihop.{Ring, unknown_ring}
use lora_multihop.Multihop.Messages.{RingList}
use lora_multihop.Multihop.Rings.{shift_up, rebase, increment, add_neighbor}
use lora_multihop.Multihop.Rings.Shift.{
  get_or-set, get_or-replicate, get_or_beyond, length-shift_up, get_or-shift_up, length-clear_low,
  get_or-clear_low,
}

abbrev pub at : RingList → ℕ → ℕ
at r j = get_or r.counts j 0

-- The list after at most `m` heartbeats: nothing is counted when the lowest count is zero.
pub record IsRings (r : RingList) (m : ℕ) : Type 0 where
  pub eight : length r.counts ≡ 8
  pub start : r.ring_start < unknown_ring
  pub most : (j : ℕ) → at r j ≤ m
  pub none_heard : at r 0 ≡ 0 → (j : ℕ) → at r j ≡ 0

pub rebase_start : (r : RingList) (n : Ring) → (rebase r n).ring_start ≡ n
unfolding rebase
rebase_start r n = ground arith

pub length-rebase : (r : RingList) (n : Ring) → length r.counts ≡ 8 → length (rebase r n).counts ≡ 8
unfolding rebase
length-rebase r n e =
    let off = r.ring_start - n in
    ground (
      arith,
      length-shift_up (8 - off) r.counts off,
      length-clear_low off (shift_up (8 - off) r.counts off),
    )

pub rebase-at :
    (r : RingList) (n : Ring) (j : ℕ)
    → length r.counts ≡ 8
    → at (rebase r n) j ≡ (
        if ltb j (r.ring_start - n)
        then 0
        else (if ltb j 8 then at r (j - (r.ring_start - n)) else 0))
unfolding rebase
rebase-at r n j e =
    let off = r.ring_start - n in
    let moved = shift_up (8 - off) r.counts off in
    ground (
      arith,
      get_or-replicate 8 j,
      get_or-clear_low off moved j,
      length-shift_up (8 - off) r.counts off,
      get_or-shift_up (8 - off) r.counts off j,
      get_or_beyond r.counts j,
    )

at_same : (r : RingList) (i j : ℕ) → j ≡ i → at r j ≡ at r i
at_same r i j e = ap (λ k. at r k) e

pub increment-at :
    (r : RingList) (n : Ring) (j : ℕ)
    → n - r.ring_start < length r.counts
    → at r (n - r.ring_start) < 255
    → at (increment r n) j ≡ (if j == n - r.ring_start then at r j + 1 else at r j)
unfolding increment
increment-at r n j h small =
    let i = n - r.ring_start in
    ground (arith, get_or-set r.counts i j (u8 (at r i + 1)), at_same r i j)

add_neighbor_unknown : (r : RingList) (n : Ring) → n ≡ unknown_ring → add_neighbor r n ≡ r
unfolding add_neighbor
add_neighbor_unknown r n e = ground arith

add_neighbor_fresh :
    (r : RingList) (n : Ring)
    → at r 0 ≡ 0
    → n ≢ unknown_ring
    → add_neighbor r n ≡ increment (record { ring_start = n; counts = r.counts }) n
unfolding add_neighbor
add_neighbor_fresh r n e k = ground arith

add_neighbor_far :
    (r : RingList) (n : Ring) → at r 0 ≢ 0 → r.ring_start + 8 ≤ n → add_neighbor r n ≡ r
unfolding add_neighbor
add_neighbor_far r n e k = ground arith

add_neighbor_lower :
    (r : RingList) (n : Ring)
    → at r 0 ≢ 0
    → n ≢ unknown_ring
    → n < r.ring_start
    → add_neighbor r n ≡ increment (rebase r n) n
unfolding add_neighbor
add_neighbor_lower r n e k l = ground arith

add_neighbor_within :
    (r : RingList) (n : Ring)
    → at r 0 ≢ 0
    → n ≢ unknown_ring
    → r.ring_start ≤ n
    → n < r.ring_start + 8
    → add_neighbor r n ≡ increment r n
unfolding add_neighbor
add_neighbor_within r n e k l u = ground arith

length-increment :
    (r : RingList) (n : Ring) → length r.counts ≡ 8 → length (increment r n).counts ≡ 8
unfolding increment
length-increment r n e =
    let i = n - r.ring_start in omega (arith, length-set r.counts i (u8 (at r i + 1)))

pub increment_start : (r : RingList) (n : Ring) → (increment r n).ring_start ≡ r.ring_start
unfolding increment
increment_start r n = refl

pub increment-IsRings :
    (r : RingList) (n : Ring) (m : ℕ)
    → length r.counts ≡ 8
    → r.ring_start < unknown_ring
    → ((j : ℕ) → at r j ≤ m)
    → m < 255
    → n - r.ring_start < 8
    → (at r 0 ≢ 0) ⊎ (n ≡ r.ring_start)
    → IsRings (increment r n) (m + 1) × (at (increment r n) 0 ≢ 0)
increment-IsRings r n m eight start most few near first =
    let step =
      (λ (j : ℕ). increment-at r n j (omega arith) (omega (arith, most (n - r.ring_start)))) in
    (
      record {
        eight = length-increment r n eight;
        start = omega (arith, increment_start r n);
        most = λ j. ground (arith, step j, most j);
        none_heard = λ e j. ground (arith, step 0);
      },
      ground (arith, step 0),
    )

-- What a heartbeat of ring `n` does to the list, by what the list holds.
pub data Adds (r : RingList) (n : Ring) : Type 0 where
  unheard :
      add_neighbor r n ≡ r → (n ≡ unknown_ring) ⊎ ((at r 0 ≢ 0) × (r.ring_start + 8 ≤ n)) → Adds r n
  fresh :
      add_neighbor r n ≡ increment (record { ring_start = n; counts = r.counts }) n
      → n ≢ unknown_ring
      → at r 0 ≡ 0
      → Adds r n
  lower :
      add_neighbor r n ≡ increment (rebase r n) n
      → n ≢ unknown_ring
      → at r 0 ≢ 0
      → n < r.ring_start
      → Adds r n
  within :
      add_neighbor r n ≡ increment r n
      → n ≢ unknown_ring
      → at r 0 ≢ 0
      → r.ring_start ≤ n
      → n < r.ring_start + 8
      → Adds r n

pub add_neighbor_cases : (r : RingList) (n : Ring) → Adds r n
add_neighbor_cases r n = elim (ℕ_discrete n unknown_ring) [
  | yes e ↦ unheard (add_neighbor_unknown r n e) (inl e)
  | no k ↦ elim (ℕ_discrete (at r 0) 0) [
    | yes z ↦ fresh (add_neighbor_fresh r n z k) k z
    | no z ↦ elim (dec_lt n r.ring_start) [
      | yes l ↦ lower (add_neighbor_lower r n z k l) k z l
      | no l ↦ elim (dec_lt n (r.ring_start + 8)) [
        | yes u ↦ within (add_neighbor_within r n z k (omega arith) u) k z (omega arith) u
        | no u ↦ unheard (add_neighbor_far r n z (omega arith)) (inr (z, omega arith))
      ]
    ]
  ]
]
