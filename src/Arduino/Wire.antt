-- ===== src/Arduino/Wire.antt =====
-- lib/arduino_stubs/src/wire_stub.cpp: the two-wire bus of the simulator, which answers a request with 0, 1, 2 and so on.
use lora_multihop.Prelude.{
  ℕ, zero, suc, ◌+◌, ◌≡◌, refl, Option, none, some, List, [], ◌∷◌, ◌++◌, length, u8,
}

-- `buf` and `current_address`.
pub record WireBus : Type 0 where
  pub buf : List ℕ
  pub current_address : ℕ

unfoldable pub begin_transmission : WireBus → ℕ → WireBus
begin_transmission s address = record s { current_address = address }

unfoldable pub end_transmission : WireBus → ℕ
end_transmission s = 0

-- The bytes that `requestFrom` pushes, from `i` on.
unfoldable pub answered : ℕ → ℕ → List ℕ
answered zero i = []
answered (suc left) i = u8 i ∷ answered left (i + 1)

unfoldable pub request_from : WireBus → ℕ → ℕ → WireBus × ℕ
request_from s address quantity = (record s { buf = s.buf ++ answered quantity 0 }, u8 quantity)

-- `write` of a byte, and of so many bytes: the number that it returns.
unfoldable pub write_byte : WireBus → ℕ → ℕ
write_byte s byte = 1

unfoldable pub write : WireBus → List ℕ → ℕ
write s bytes = length bytes

unfoldable pub available : WireBus → ℕ
available s = length s.buf

abbrev taken : WireBus → List ℕ → WireBus × Option ℕ
taken s [] = (s, none)
taken s (c ∷ rest) = (record s { buf = rest }, some c)

-- `read` and `peek`; `none` is -1.
unfoldable pub read : WireBus → WireBus × Option ℕ
read s = taken s s.buf

abbrev front : List ℕ → Option ℕ
front [] = none
front (c ∷ rest) = some c

unfoldable pub peek : WireBus → Option ℕ
peek s = front s.buf

-- A request of 256 bytes is answered with 256 bytes, and says that there are none.
request_of_256 : (s : WireBus) → (request_from s 104 256).1 ≡ 0
unfolding request_from
request_of_256 s = refl
