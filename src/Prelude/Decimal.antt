-- ===== src/Prelude/Decimal.antt =====
-- Numbers in decimal text, as the C library writes them with "%llu" and reads them with strtoull in base 10. A text is the list of its bytes.
use Prim.Native.Nat.{ℕ, zero, suc, ◌+◌, ◌-◌, ◌*◌, ◌/◌, ◌%◌, ◌^◌, ◌≤◌, ◌<◌, min}
use Prim.Native.Char.{code}
use Prim.Native.String.{String}
use mathlib.Core.Path.{◌≡◌, refl, ap, ◌∙◌}
use mathlib.Core.Bool.{Bool, ◌&&◌, ◌||◌}
use mathlib.Core.List.{List, [], ◌∷◌, ◌++◌}
use native.Mathlib.Omega.{arith}
use mathlib.Core.Logic.{inl, inr}
use lora_multihop.Prelude.Tests.{ltb, leb, ltb→lt, Bool-cases, ◌==◌, if◌then◌else◌}
use lora_multihop.Prelude.Lists.{length}

abbrev pub codes : String → List ℕ
codes String.[] = []
codes (String.◌∷◌ c s) = code c ∷ codes s

-- The digits of a number in front of some text, with fuel for its digits.
unfoldable pub digits : ℕ → ℕ → List ℕ → List ℕ
digits zero n text = text
digits (suc fuel) n text =
    let rest = digits fuel (n / 10) ((b'0' + n % 10) ∷ text) in
    if ltb n 10 then (b'0' + n) ∷ text else rest

-- "%llu": a number of 64 bits has at most twenty digits.
unfoldable pub decimal : ℕ → List ℕ
decimal n = digits 20 n []

abbrev is_digit : ℕ → Bool
is_digit c = leb b'0' c && leb c b'9'

-- What the digits at the start of a text spell behind `n`.
unfoldable pub value : ℕ → List ℕ → ℕ
value n [] = n
value n (c ∷ s) = let rest = value (n * 10 + (c - b'0')) s in if is_digit c then rest else n

abbrev is_space : ℕ → Bool
is_space c = (c == 32) || (leb 9 c && leb c 13)

unfoldable pub skip_spaces : List ℕ → List ℕ
skip_spaces [] = []
skip_spaces (c ∷ s) = let rest = skip_spaces s in if is_space c then rest else c ∷ s

-- A value that is too large is ULLONG_MAX; a minus negates in 64 bits.
unfoldable pub with_sign : List ℕ → ℕ
unfolding value
with_sign [] = 0
with_sign (c ∷ s) =
    if c == b'-'
    then (if ltb (value 0 s) (2 ^ 64) then (2 ^ 64 - value 0 s) % 2 ^ 64 else 2 ^ 64 - 1)
    else min (value 0 (if c == b'+' then s else c ∷ s)) (2 ^ 64 - 1)

unfoldable pub strtoull : List ℕ → ℕ
unfolding skip_spaces with_sign
strtoull s = with_sign (skip_spaces s)

abbrev pub pow10 : ℕ → ℕ
pow10 zero = 1
pow10 (suc k) = 10 * pow10 k

pub length-digits :
    (fuel k n : ℕ) (text : List ℕ)
    → n < pow10 (suc k)
    → length (digits fuel n text) ≤ suc k + length text
unfolding digits
length-digits zero k n text h = omega arith
length-digits (suc fuel) zero n text h = ground arith
length-digits (suc fuel) (suc k) n text h =
    ground (arith, length-digits fuel k (n / 10) ((b'0' + n % 10) ∷ text))

value-digits :
    (fuel n : ℕ) (text : List ℕ)
    → n < pow10 (suc fuel)
    → value 0 (digits (suc fuel) n text) ≡ value n text
unfolding digits value
value-digits zero n text h = ground arith
value-digits (suc fuel) n text h =
    ground (arith, value-digits fuel (n / 10) ((b'0' + n % 10) ∷ text))

digits-append :
    (fuel n : ℕ) (text rest : List ℕ) → digits fuel n text ++ rest ≡ digits fuel n (text ++ rest)
unfolding digits
digits-append zero n text rest = refl
digits-append (suc fuel) n text rest =
    ground (arith, digits-append fuel (n / 10) ((b'0' + n % 10) ∷ text) rest)

abbrev StartsDigit : List ℕ → Type 0
StartsDigit [] = ⊥
StartsDigit (c ∷ s) = (b'0' ≤ c) × (c ≤ b'9')

digits-StartsDigit :
    (fuel n : ℕ) (text : List ℕ) → StartsDigit text → StartsDigit (digits fuel n text)
unfolding digits
digits-StartsDigit zero n text h = h
digits-StartsDigit (suc fuel) n text h = elim (Bool-cases (ltb n 10)) [
  | inl small ↦ rw small (omega (arith, ltb→lt n 10 small))
  | inr large ↦ rw large (digits-StartsDigit fuel (n / 10) ((b'0' + n % 10) ∷ text) (omega arith))
]

decimal-StartsDigit : (fuel n : ℕ) (text : List ℕ) → StartsDigit (digits (suc fuel) n text)
unfolding digits
decimal-StartsDigit fuel n text = elim (Bool-cases (ltb n 10)) [
  | inl small ↦ rw small (omega (arith, ltb→lt n 10 small))
  | inr large ↦ rw large (digits-StartsDigit fuel (n / 10) ((b'0' + n % 10) ∷ text) (omega arith))
]

strtoull_lem : (s : List ℕ) → StartsDigit s → strtoull s ≡ min (value 0 s) (2 ^ 64 - 1)
unfolding strtoull skip_spaces with_sign
strtoull_lem [] h = absurd h
strtoull_lem (c ∷ s) h = ground arith

value-zero : (n : ℕ) (rest : List ℕ) → value n (0 ∷ rest) ≡ n
unfolding value
value-zero n rest = refl

-- strtoull reads a number of 64 bits back from its decimal text, whatever stands behind the terminating zero byte.
pub strtoull-decimal : (n : ℕ) (rest : List ℕ) → n < 2 ^ 64 → strtoull (decimal n ++ 0 ∷ rest) ≡ n
unfolding decimal
strtoull-decimal n rest h =
    let spelled = value-digits 19 n (0 ∷ rest) (omega arith) ∙ value-zero n rest in
    ap strtoull (digits-append 20 n [] (0 ∷ rest))
    ∙ strtoull_lem (digits 20 n (0 ∷ rest)) (decimal-StartsDigit 19 n (0 ∷ rest))
    ∙ omega (arith, spelled)

-- The text of a number below 10 ^ k has at most k bytes.
pub length-decimal : (k n : ℕ) → n < pow10 (suc k) → length (decimal n) ≤ suc k
unfolding decimal
length-decimal k n h = omega (arith, length-digits 20 k n [] h)
