-- ===== src/Prelude/Bytes.antt =====
-- Byte arrays as lists: reading a slice, and writing one over what is there (memcpy).
use Prim.Native.Nat.{ℕ, zero, suc, ◌+◌, ◌-◌, ◌≤◌}
use mathlib.Core.Path.{◌≡◌, refl, sym, ◌∙◌, ap}
use mathlib.Core.List.{List, [], ◌∷◌, ◌++◌}
use native.Mathlib.Omega.{arith}
use lora_multihop.Prelude.Lists.{length, take, drop, get_or}

-- The byte at an offset; the code's own checks keep every read in range.
abbrev pub byte_at : List ℕ → ℕ → ℕ
byte_at buf i = get_or buf i 0

-- `n` bytes from offset `i` on.
abbrev pub slice : ℕ → ℕ → List ℕ → List ℕ
slice i n buf = take n (drop i buf)

-- memcpy of `bs` to offset `i`.
abbrev pub write_at : List ℕ → ℕ → List ℕ → List ℕ
write_at buf i bs = take i buf ++ (bs ++ drop (i + length bs) buf)

module _ {ℓ} {A : Type ℓ} where
  pub take-append : (xs ys : List A) → take (length xs) (xs ++ ys) ≡ xs
  take-append [] ys = refl
  take-append (x ∷ xs) ys = ap (◌∷◌ x) (take-append xs ys)

  pub drop-append : (xs ys : List A) → drop (length xs) (xs ++ ys) ≡ ys
  drop-append [] ys = refl
  drop-append (x ∷ xs) ys = drop-append xs ys

  pub take-length : (xs : List A) → take (length xs) xs ≡ xs
  take-length [] = refl
  take-length (x ∷ xs) = ap (◌∷◌ x) (take-length xs)

  pub take-append_le : (n : ℕ) (xs ys : List A) → n ≤ length xs → take n (xs ++ ys) ≡ take n xs
  take-append_le zero xs ys h = refl
  take-append_le (suc n) [] ys h = absurd (omega arith)
  take-append_le (suc n) (x ∷ xs) ys h = ap (◌∷◌ x) (take-append_le n xs ys (omega arith))

  pub drop-length_le :
      (n : ℕ) (xs ys : List A) → length xs ≤ n → drop n (xs ++ ys) ≡ drop (n - length xs) ys
  drop-length_le n [] ys h = ap (λ (k : ℕ). drop k ys) (omega arith)
  drop-length_le zero (x ∷ xs) ys h = absurd (omega arith)
  drop-length_le (suc n) (x ∷ xs) ys h =
      drop-length_le n xs ys (omega arith) ∙ ap (λ (k : ℕ). drop k ys) (omega arith)

  pub drop-nil : (n : ℕ) → drop {A = A} n [] ≡ []
  drop-nil zero = refl
  drop-nil (suc n) = refl

  pub drop-drop : (m n : ℕ) (xs : List A) → drop m (drop n xs) ≡ drop (n + m) xs
  drop-drop m zero xs = ap (λ (k : ℕ). drop k xs) (omega arith)
  drop-drop m (suc n) [] = drop-nil m ∙ sym (drop-nil (suc n + m))
  drop-drop m (suc n) (x ∷ xs) = drop-drop m n xs ∙ ap (λ (k : ℕ). drop k (x ∷ xs)) suc_add
    where
      suc_add : suc (n + m) ≡ suc n + m
      suc_add = omega arith

-- The byte just past a prefix, the slice behind it, and a write there.
pub byte_at-append : (xs : List ℕ) (y : ℕ) (ys : List ℕ) → byte_at (xs ++ (y ∷ ys)) (length xs) ≡ y
byte_at-append [] y ys = refl
byte_at-append (x ∷ xs) y ys = byte_at-append xs y ys

pub slice-append : (xs ys zs : List ℕ) → slice (length xs) (length ys) (xs ++ (ys ++ zs)) ≡ ys
slice-append xs ys zs = rw (drop-append xs (ys ++ zs)) (take-append ys zs)

pub write_at-append :
    (xs bs ys : List ℕ) → write_at (xs ++ ys) (length xs) bs ≡ xs ++ (bs ++ drop (length bs) ys)
write_at-append xs bs ys =
    rw (take-append xs ys, drop-length_le (length xs + length bs) xs ys (omega arith))
      (ap (λ (k : ℕ). xs ++ (bs ++ drop k ys)) (omega arith))
