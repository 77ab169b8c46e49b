-- ===== src/Link/Code/Spread.antt =====
-- The spreading factors that the slots of one virtual window use.
use lora_multihop.Prelude.{ℕ, ◌+◌, ◌≤◌, ◌<◌, ◌≢◌, arith}
use lora_multihop.Link.Code.{hash_cdma_code}

-- Of any two identifiers, less than seven apart, as those of the slots of one virtual window of at most seven slots are, each
-- gets one of the spreading factors 6 to 12, and they never share one.
pub hash_cdma_code_distinct :
    (a b : ℕ)
    → a < b
    → b < a + 7
    → (hash_cdma_code a ≢ hash_cdma_code b)
      × ((6 ≤ hash_cdma_code a) × (hash_cdma_code a ≤ 12))
      × ((6 ≤ hash_cdma_code b) × (hash_cdma_code b ≤ 12))
unfolding hash_cdma_code
hash_cdma_code_distinct a b less near = omega arith
