-- ===== src/Link/Frame.antt =====
-- The frame header of lib/net/include/link_layer.h: its twelve bytes and its checksum.
use lora_multihop.Prelude.{
  ℕ, ◌+◌, ◌≤◌, ◌≡◌, arith, ◌/◌, ◌^◌, List, [], ◌∷◌, Option, none, some, ltb, u8, u16, of_le16,
  of_le32, byte_at, slice, if◌then◌else◌,
}

pub record FrameHeader : Type 0 where
  pub checksum : ℕ
  pub payload_bytes : ℕ
  pub sender_time : ℕ
  pub sender_address : ℕ
  pub message_count : ℕ

-- Little endian, with the two bytes of padding.
abbrev pub encode_header : FrameHeader → List ℕ
encode_header h =
    u8 h.checksum
    ∷ u8 (h.checksum / 2 ^ 8)
    ∷ u8 h.payload_bytes
    ∷ u8 (h.payload_bytes / 2 ^ 8)
    ∷ u8 h.sender_time
    ∷ u8 (h.sender_time / 2 ^ 8)
    ∷ u8 (h.sender_time / 2 ^ 16)
    ∷ u8 (h.sender_time / 2 ^ 24)
    ∷ u8 h.sender_address
    ∷ u8 h.message_count
    ∷ 0
    ∷ 0
    ∷ []

-- The cast of the start of a buffer to a header.
abbrev pub decode_header : List ℕ → FrameHeader
decode_header buf = record {
  checksum = of_le16 (byte_at buf 0) (byte_at buf 1);
  payload_bytes = of_le16 (byte_at buf 2) (byte_at buf 3);
  sender_time = of_le32 (byte_at buf 4) (byte_at buf 5) (byte_at buf 6) (byte_at buf 7);
  sender_address = byte_at buf 8;
  message_count = byte_at buf 9;
}

unfoldable pub sum_bytes : ℕ → List ℕ → ℕ
sum_bytes checksum [] = checksum
sum_bytes checksum (p ∷ ps) = sum_bytes (u16 (checksum + p)) ps

-- `calculate_checksum` over the bytes from `start` to `end`.
unfoldable pub calculate_checksum : List ℕ → ℕ
unfolding sum_bytes
calculate_checksum bytes = sum_bytes 0 bytes

-- `header_checksum`: the sum of all that follows the checksum field; `none` is `false`, on which the
-- header keeps its checksum.
unfoldable pub header_checksum : FrameHeader → List ℕ → ℕ → Option ℕ
header_checksum hdr buf sz =
    if ltb sz (12 + hdr.payload_bytes)
    then none
    else some (calculate_checksum (slice 2 (10 + hdr.payload_bytes) buf))

pub header_checksum-fits :
    (h : FrameHeader) (buf : List ℕ) (sz : ℕ)
    → 12 + h.payload_bytes ≤ sz
    → header_checksum h buf sz ≡ some (calculate_checksum (slice 2 (10 + h.payload_bytes) buf))
unfolding header_checksum
header_checksum-fits h buf sz fits = ground arith
