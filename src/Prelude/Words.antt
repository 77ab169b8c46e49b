-- ===== src/Prelude/Words.antt =====
-- Machine words as native numbers, and their little-endian bytes. A w-bit value is a number below
-- 2 ^ w; the wrap-around of an operation is written out where it can happen.
use Prim.Native.Nat.{ℕ, ◌+◌, ◌-◌, ◌*◌, ◌/◌, ◌%◌, ◌^◌, ◌<◌}
use mathlib.Core.Path.{◌≡◌}
use mathlib.Core.List.{List, [], ◌∷◌}
use native.Mathlib.Omega.{arith}

abbrev pub u8 : ℕ → ℕ
u8 x = x % 2 ^ 8

abbrev pub u16 : ℕ → ℕ
u16 x = x % 2 ^ 16

abbrev pub u32 : ℕ → ℕ
u32 x = x % 2 ^ 32

abbrev pub u64 : ℕ → ℕ
u64 x = x % 2 ^ 64

-- Differences of unsigned values, which wrap.
abbrev pub sub8 : ℕ → ℕ → ℕ
sub8 a b = (a + 2 ^ 8 - b % 2 ^ 8) % 2 ^ 8

abbrev pub sub32 : ℕ → ℕ → ℕ
sub32 a b = (a + 2 ^ 32 - b % 2 ^ 32) % 2 ^ 32

abbrev pub sub64 : ℕ → ℕ → ℕ
sub64 a b = (a + 2 ^ 64 - b % 2 ^ 64) % 2 ^ 64

-- The two bytes of a uint16_t, low byte first.
abbrev pub le16 : ℕ → List ℕ
le16 x = u8 x ∷ u8 (x / 2 ^ 8) ∷ []

abbrev pub of_le16 : ℕ → ℕ → ℕ
of_le16 a b = a + 2 ^ 8 * b

abbrev pub of_le32 : ℕ → ℕ → ℕ → ℕ → ℕ
of_le32 a b c d = a + 2 ^ 8 * b + 2 ^ 16 * c + 2 ^ 24 * d

pub of_le16-le16 : (x : ℕ) → x < 2 ^ 16 → of_le16 (u8 x) (u8 (x / 2 ^ 8)) ≡ x
of_le16-le16 x h = omega arith

pub of_le32-le32 :
    (x : ℕ) → x < 2 ^ 32 → of_le32 (u8 x) (u8 (x / 2 ^ 8)) (u8 (x / 2 ^ 16)) (u8 (x / 2 ^ 24)) ≡ x
of_le32-le32 x h = omega arith
