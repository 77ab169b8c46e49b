-- ===== src/Mesh/Shims/Range.antt =====
-- The ranges of loramesh/node/src/esp32_shims.cpp: its random numbers, its waits and its addresses.
use native.Mathlib.Nat.{mod-lt}
use lora_multihop.Prelude.{
  ℕ, ◌+◌, ◌%◌, ◌^◌, ◌≤◌, ◌<◌, ◌≡◌, ◌⊎◌, inl, inr, none, some, dec_lt, List, [], ◌∷◌, ◌++◌, length,
  arith,
}
use lora_multihop.Prelude.Int.{ℤ, ◌<ℤ◌, ◌≤ℤ◌, pos, pos_part, ◌+ℤ◌, ◌-ℤ◌, +ℤ_parts, -ℤ_above}
use lora_multihop.Mesh.Shims.{Shims, random, spin, delay, mac_address}

random_above :
    (low high : ℤ) (rand : ℕ)
    → low <ℤ high
    → pos_part (high -ℤ low) < 2 ^ 63
    → random low high rand ≡ some (low +ℤ pos (rand % pos_part (high -ℤ low)))
unfolding random
random_above low high rand h fits = ground arith

random_overflow :
    (low high : ℤ) (rand : ℕ)
    → low <ℤ high
    → 2 ^ 63 ≤ pos_part (high -ℤ low)
    → random low high rand ≡ none
unfolding random
random_overflow low high rand h wide = ground arith

-- For bounds of which the first is below the other, whatever rand() gives: either their difference does not fit a long of 64 bits and
-- its computation overflows, or a random number comes out that lies in the range that is asked for, its upper end excluded.
pub random_range :
    (low high : ℤ) (rand : ℕ)
    → low <ℤ high
    → ((2 ^ 63 ≤ pos_part (high -ℤ low)) × (random low high rand ≡ none))
      ⊎ ((pos_part (high -ℤ low) < 2 ^ 63)
          × ((r : ℤ) × (random low high rand ≡ some r) × (low ≤ℤ r) × (r <ℤ high)))
random_range low high rand h =
    let gap : ℕ = pos_part (high -ℤ low) in
    let wide = -ℤ_above high low h in
    let inside : rand % gap < gap = mod-lt rand (omega (arith, wide)) in
    let parts = +ℤ_parts low (pos (rand % gap)) in
    elim (dec_lt gap (2 ^ 63)) [
      | yes fits ↦ inr (
        fits,
        (
          low +ℤ pos (rand % gap),
          random_above low high rand h fits,
          omega (arith, wide, inside, parts),
          omega (arith, wide, inside, parts),
        ),
      )
      | no over ↦ inl (omega arith, random_overflow low high rand h (omega arith))
    ]

abbrev pub AllAtMost : ℕ → List ℕ → Type 0
AllAtMost most [] = Unit {0}
AllAtMost most (x ∷ xs) = (x ≤ most) × AllAtMost most xs

-- A delay goes on as long as the clock shows no more than its deadline, and ends at the first time beyond it: it is over only when more than
-- its milliseconds have passed, as long as the counter of 64 bits does not wrap.
pub delay_lem :
    (ms now over : ℕ) (before later : List ℕ)
    → now + ms < 2 ^ 64
    → AllAtMost (now + ms) before
    → now + ms < over
    → delay ms now (before ++ over ∷ later) ≡ length before + 1
unfolding delay spin
delay_lem ms now over [] later fits all h = ground arith
delay_lem ms now over (b ∷ before) later fits all h =
    ground (arith, delay_lem ms now over before later fits all.1 h)

-- Nodes with different addresses of 16 bits have different hardware addresses.
pub mac_address_inj :
    (s t : Shims)
    → s.node_address < 2 ^ 16
    → t.node_address < 2 ^ 16
    → mac_address s ≡ mac_address t
    → s.node_address ≡ t.node_address
unfolding mac_address
mac_address_inj s t hs ht e = ground arith
