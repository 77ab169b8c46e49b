-- ===== src/Link/Slots/Interval.antt =====
-- next_time_interval of lib/net/src/link_layer.cpp: the next multiple of the superframe's period.
use native.Mathlib.Nat.{
  mod-lt, mod-add-mod, mod_self, div-add-mod, mod-eq_of_lt, add-mul-mod_self_left, zero-add,
  add-mod_right,
}
use lora_multihop.Prelude.{ℕ, ◌+◌, ◌-◌, ◌*◌, ◌/◌, ◌%◌, ◌^◌, ◌≤◌, ◌<◌, ◌≡◌, ap, ◌∙◌, arith}
use lora_multihop.Link.{next_time_interval}

-- Rounding up, step by step: the remainder is cut off and a period added.
add-sub-mod : (now f : ℕ) → 0 < f → (now - now % f + f) % f ≡ 0
add-sub-mod now f pos =
    let split : f * (now / f) + now % f ≡ now = div-add-mod now f in
    let base : now - now % f + f ≡ f + f * (now / f) = omega arith in
    ap (λ k. k % f) base ∙ add-mul-mod_self_left f f (now / f) ∙ mod_self f

pub next_time_interval_lem :
    (now f : ℕ)
    → 0 < f
    → now + f < 2 ^ 32
    → (now ≤ next_time_interval now f)
      × (next_time_interval now f < now + f)
      × (next_time_interval now f % f ≡ 0)
unfolding next_time_interval
next_time_interval_lem now f pos fit = ground (arith, add-sub-mod now f pos, mod-lt now pos)

-- Two multiples of `f` less than a period apart are one.
pub multiple_unique : (a b f : ℕ) → a % f ≡ 0 → b % f ≡ 0 → a ≤ b → b < a + f → a ≡ b
multiple_unique a b f ha hb le lt =
    let split : a + (b - a) ≡ b = omega arith in
    let m : (a % f + (b - a)) % f ≡ b % f = mod-add-mod a f (b - a) ∙ ap (λ k. k % f) split in
    let small : (b - a) % f ≡ b - a = mod-eq_of_lt (omega arith) in
    let same : (a % f + (b - a)) % f ≡ (b - a) % f = rw (ha, zero-add) in
    omega (arith, m, small, same, hb)

pub add_period : (b f : ℕ) → b % f ≡ 0 → (b + f) % f ≡ 0
add_period b f h = add-mod_right b f ∙ h

-- Past a multiple of `f`, by at most `f`, the next multiple is `f` further on.
pub next_multiple :
    (b t f : ℕ) → b % f ≡ 0 → b < t → t ≤ b + f → t + f < 2 ^ 32 → next_time_interval t f ≡ b + f
next_multiple b t f h lo hi fit = ground (
  arith,
  next_time_interval_lem t f,
  add_period b f h,
  multiple_unique (b + f) (next_time_interval t f) f,
  multiple_unique (next_time_interval t f) (b + f) f,
  multiple_unique b (next_time_interval t f) f,
)
