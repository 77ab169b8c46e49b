-- ===== src/Multihop/Rings/Score.antt =====
-- The scores of lib/net/src/multihop_messages.cpp.
use lora_multihop.Prelude.{
  ℕ, suc, ap, ◌∙◌, ◌+◌, ◌-◌, ◌*◌, ◌^◌, ◌≤◌, ◌<◌, ◌≡◌, ◌≢◌, List, [], ◌∷◌, length, u8, u32, sub8,
  arith,
}
use lora_multihop.Multihop.{Ring, gateway_ring}
use lora_multihop.Multihop.Messages.{RingList}
use lora_multihop.Multihop.Rings.{score_from, score}

abbrev pub AllBytes : List ℕ → Type 0
AllBytes [] = Unit {0}
AllBytes (c ∷ cs) = (c < 256) × AllBytes cs

byte_mul : (a b : ℕ) → a < 256 → b < 256 → a * b ≤ 65025
byte_mul a b h k = grind arith

score_from-le :
    (sum max i : ℕ) (cs : List ℕ)
    → AllBytes cs
    → length cs ≤ 8
    → sum + 65025 * length cs < 2 ^ 32
    → score_from sum max i cs ≤ sum + 65025 * length cs
unfolding score_from
score_from-le sum max i [] b h fit = omega arith
score_from-le sum max i (c ∷ cs) b h fit = omega (
  arith,
  byte_mul (sub8 max i) c (omega arith) b.0,
  score_from-le (u32 (sum + sub8 max i * c)) max (i + 1) cs b.1 (omega arith)
      (omega (arith, byte_mul (sub8 max i) c (omega arith) b.0)),
)

-- A node in the gateway's ring scores higher than any node in another ring, whatever their lists.
pub score_gateway_best :
    (r s : RingList) (ring : Ring)
    → ring ≢ gateway_ring
    → AllBytes s.counts
    → length s.counts ≡ 8
    → score s ring < score r gateway_ring
unfolding score
score_gateway_best r s ring other bytes eight =
    ground (arith, score_from-le 0 (u8 (s.ring_start + 8)) 0 s.counts bytes)

-- The weighted sum that a score stands for: each count by its distance from the end of the window.
abbrev pub weighted : ℕ → List ℕ → ℕ
weighted top [] = 0
weighted top (c ∷ cs) = top * c + weighted (top - 1) cs

sub8_exact : (a b : ℕ) → a < 256 → b ≤ a → sub8 a b ≡ a - b
sub8_exact a b h k = omega arith

u32_exact : (a : ℕ) → a < 2 ^ 32 → u32 a ≡ a
u32_exact a h = omega arith

step_value :
    (sum max i c : ℕ)
    → max < 256
    → i ≤ max
    → sum + (max - i) * c < 2 ^ 32
    → u32 (sum + sub8 max i * c) ≡ sum + (max - i) * c
step_value sum max i c m h fit =
    ap (λ k. u32 (sum + k * c)) (sub8_exact max i m h) ∙ u32_exact (sum + (max - i) * c) fit

weight_fits :
    (sum max i c n : ℕ)
    → max < 256
    → c < 256
    → sum + 65025 * suc n < 2 ^ 32
    → sum + (max - i) * c + 65025 * n < 2 ^ 32
weight_fits sum max i c n m b fit = omega (arith, byte_mul (max - i) c (omega arith) b)

sub_sub : (max i : ℕ) → max - (i + 1) ≡ max - i - 1
sub_sub max i = omega arith

u8_exact : (a : ℕ) → a < 256 → u8 a ≡ a
u8_exact a h = omega arith

score_from-weighted :
    (sum max i : ℕ) (cs : List ℕ)
    → AllBytes cs
    → max < 256
    → i + length cs ≤ max
    → sum + 65025 * length cs < 2 ^ 32
    → score_from sum max i cs ≡ sum + weighted (max - i) cs
unfolding score_from
score_from-weighted sum max i [] b m h fit = omega arith
score_from-weighted sum max i (c ∷ cs) b m h fit =
    let small = weight_fits sum max i c (length cs) m b.0 fit in
    ap (λ s. score_from s max (i + 1) cs) (step_value sum max i c m (omega arith) (omega arith))
    ∙ score_from-weighted (sum + (max - i) * c) max (i + 1) cs b.1 m (omega arith) small
    ∙ ap (λ k. sum + (max - i) * c + weighted k cs) (sub_sub max i)
    ∙ omega arith

-- Unless the window ends above ring 255, the score of a node outside the gateway's ring is the exact sum of its
-- counts, each weighted by its distance from the end of the window.
score_weighted :
    (r : RingList) (ring : Ring)
    → ring ≢ gateway_ring
    → AllBytes r.counts
    → length r.counts ≡ 8
    → r.ring_start + 8 ≤ 255
    → score r ring ≡ weighted (r.ring_start + 8) r.counts
unfolding score
score_weighted r ring other bytes eight fit = ground (
  arith,
  score_from-weighted 0 (r.ring_start + 8) 0 r.counts bytes,
  ap (λ k. score_from 0 k 0 r.counts) (u8_exact (r.ring_start + 8) (omega arith)),
)
