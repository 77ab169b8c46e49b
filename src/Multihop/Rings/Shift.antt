-- ===== src/Multihop/Rings/Shift.antt =====
-- The loops by which add_neighbor of lib/net/src/multihop_state.cpp moves the counts, element by
-- element.
use lora_multihop.Prelude.{
  ℕ, zero, suc, ◌+◌, ◌-◌, ◌≤◌, ◌<◌, ◌≡◌, refl, ap, List, [], ◌∷◌, length, arith, if◌then◌else◌, ltb,
  leb, ◌==◌, get_or, set, replicate, length-set,
}
use lora_multihop.Multihop.Rings.{shift_up, clear_low}

pub get_or-set :
    (xs : List ℕ) (i j v : ℕ)
    → i < length xs
    → get_or (set xs i v) j 0 ≡ (if i == j then v else get_or xs j 0)
get_or-set [] i j v h = omega arith
get_or-set (x ∷ xs) zero zero v h = refl
get_or-set (x ∷ xs) zero (suc j) v h = ground arith
get_or-set (x ∷ xs) (suc i) zero v h = ground arith
get_or-set (x ∷ xs) (suc i) (suc j) v h = ground (arith, get_or-set xs i j v)

pub get_or-replicate : (n j : ℕ) → get_or {A = ℕ} (replicate n 0) j 0 ≡ 0
get_or-replicate zero j = refl
get_or-replicate (suc n) zero = refl
get_or-replicate (suc n) (suc j) = get_or-replicate n j

pub get_or_beyond : (xs : List ℕ) (j : ℕ) → length xs ≤ j → get_or xs j 0 ≡ 0
get_or_beyond [] j h = refl
get_or_beyond (x ∷ xs) zero h = omega arith
get_or_beyond (x ∷ xs) (suc j) h = get_or_beyond xs j (omega arith)

get_or_minus : (xs : List ℕ) (n o j : ℕ) → j ≡ o + n → get_or xs (j - o) 0 ≡ get_or xs n 0
get_or_minus xs n o j e = let d : j - o ≡ n = omega arith in ap (λ k. get_or xs k 0) d

pub length-shift_up : (n : ℕ) (xs : List ℕ) (o : ℕ) → length (shift_up n xs o) ≡ length xs
unfolding shift_up
length-shift_up zero xs o = refl
length-shift_up (suc n) xs o = ground (
  arith,
  length-shift_up n (set xs (o + n) (get_or xs n 0)) o,
  length-set xs (o + n) (get_or xs n 0),
)

pub get_or-shift_up :
    (n : ℕ) (xs : List ℕ) (o j : ℕ)
    → o + n ≤ length xs
    → get_or (shift_up n xs o) j 0 ≡ (
        if leb o j
        then (if ltb j (o + n) then get_or xs (j - o) 0 else get_or xs j 0)
        else get_or xs j 0)
unfolding shift_up
get_or-shift_up zero xs o j h = ground arith
get_or-shift_up (suc n) xs o j h =
    let v = get_or xs n 0 in
    ground (
      arith,
      get_or-shift_up n (set xs (o + n) v) o j,
      get_or-set xs (o + n) j v,
      get_or-set xs (o + n) (j - o) v,
      length-set xs (o + n) v,
      get_or_minus xs n o j,
    )

pub length-clear_low : (n : ℕ) (xs : List ℕ) → length (clear_low n xs) ≡ length xs
unfolding clear_low
length-clear_low zero xs = refl
length-clear_low (suc n) xs = ground (arith, length-clear_low n (set xs n 0), length-set xs n 0)

pub get_or-clear_low :
    (n : ℕ) (xs : List ℕ) (j : ℕ)
    → n ≤ length xs
    → get_or (clear_low n xs) j 0 ≡ (if ltb j n then 0 else get_or xs j 0)
unfolding clear_low
get_or-clear_low zero xs j h = ground arith
get_or-clear_low (suc n) xs j h =
    ground (arith, get_or-clear_low n (set xs n 0) j, get_or-set xs n j 0, length-set xs n 0)
