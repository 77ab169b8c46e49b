-- ===== src/Link/Rx.antt =====
-- The receiving half of lib/net/src/link_layer.cpp: accepting a frame, and reading its messages.
pub mod Read
pub mod Accept
pub mod Kept
use lora_multihop.Prelude.{
  ℕ, ◌+◌, List, [], ◌∷◌, zero, suc, Option, none, some, ltb, leb, ◌==◌, not, u8, length, byte_at,
  slice, write_at, if◌then◌else◌,
}
use lora_multihop.Lora.{LoraRc}
use lora_multihop.Link.{Link, LinkRc, frame_header_size, update_window, in_active_window}
use lora_multihop.Link.Frame.{FrameHeader, decode_header, header_checksum}

-- What lora::wait_recv leaves: its code, and the bytes that it has put at the start of the buffer,
-- whose number it has put into `len`.
pub record Reception : Type 0 where
  pub rc : LoraRc
  pub bytes : List ℕ

unfoldable pub truncate_rx : Link → Link
truncate_rx s = record s { state = record (s.state) { rx_cursor = none; rx_msg_num = 0 } }

unfoldable pub rewind : Link → Link
rewind s = record s {
  state = record (s.state) { rx_cursor = some frame_header_size; rx_msg_num = 0 };
}

-- The checks of `recv` on `len` received bytes in a buffer of `sz` bytes with the header `hdr`.
unfoldable pub check_frame : FrameHeader → List ℕ → ℕ → ℕ → LinkRc
check_frame hdr buf sz len =
    if leb len frame_header_size
    then LinkRc.invalid_msg
    else (if not (frame_header_size + hdr.payload_bytes == len)
        then LinkRc.msg_size_mismatch
        else (if ltb sz (frame_header_size + hdr.payload_bytes)
            then LinkRc.buf_size
            else (let sum : ℕ = elim (header_checksum hdr buf sz) [
              | none ↦ hdr.checksum
              | some c ↦ c
            ] in
                if sum == hdr.checksum then LinkRc.ok else LinkRc.checksum_error)))

abbrev pub validate : Link → ℕ → LinkRc
validate s len = check_frame (decode_header s.params.rx_buf) s.params.rx_buf s.params.rx_sz len

-- The link once the radio has put bytes at the start of the receive buffer.
abbrev pub filled : Link → List ℕ → Link
filled s bytes = record s {
  params = record (s.params) { rx_buf = write_at s.params.rx_buf 0 bytes };
}

-- What `recv` makes of the bytes received: on `ok` the cursor is set to the first message.
unfoldable pub accept_frame : Link → ℕ → Link × LinkRc
accept_frame s len = elim (validate s len) [ LinkRc.ok ↦ (rewind s, LinkRc.ok) | e ↦ (s, e) ]

-- The part of `recv` after the radio's answer.
unfoldable pub receive : Link → Reception → Link × LinkRc
receive s r = elim r.rc [
  | LoraRc.okay ↦ accept_frame (filled s r.bytes) (length r.bytes)
  | LoraRc.timed_out ↦ (filled s r.bytes, LinkRc.timed_out)
  | _ ↦ (filled s r.bytes, LinkRc.phy_error)
]

-- `recv`, with its read of the clock and the answer of lora::wait_recv to the length it is given.
unfoldable pub recv : Link → ℕ → (ℕ → Reception) → Link × LinkRc
recv s now radio =
    if s.initialized
    then (let s' = update_window s now in
        if in_active_window s' now
        then receive (truncate_rx s') (radio (u8 s'.params.rx_sz))
        else (s', LinkRc.not_in_window))
    else (s, LinkRc.not_init)

-- `getmsg` at a cursor that is not null.
unfoldable pub getmsg_at : Link → ℕ → Link × LinkRc × Option (List ℕ)
getmsg_at s cursor =
    let hdr = decode_header s.params.rx_buf in
    if leb hdr.message_count s.state.rx_msg_num
    then (s, LinkRc.no_msg, none)
    else (let len = byte_at s.params.rx_buf cursor in
        if ltb (frame_header_size + hdr.payload_bytes) (cursor + len + 1)
        then (s, LinkRc.out_of_bounds, none)
        else (
          record s {
            state = record (s.state) {
              rx_cursor = some (cursor + len + 1);
              rx_msg_num = s.state.rx_msg_num + 1;
            };
          },
          LinkRc.ok,
          some (slice (cursor + 1) len s.params.rx_buf),
        ))

-- `getmsg`: the option is the message that goes out through `buf` and `sz`.
unfoldable pub getmsg : Link → Link × LinkRc × Option (List ℕ)
getmsg s = elim s.state.rx_cursor [ none ↦ (s, LinkRc.no_msg, none) | some c ↦ getmsg_at s c ]

-- The loop `while (Ok == getmsg(&buf, &sz))` of the layer above: the messages that it reads, and the
-- code that ends it.
unfoldable pub drain : ℕ → Link → Link × LinkRc × List (List ℕ)
drain zero s = (s, LinkRc.ok, [])
drain (suc fuel) s =
    let (s', rc, out) = getmsg s in
    elim out [ none ↦ (s', rc, []) | some m ↦ let (t, e, ms) = drain fuel s' in (t, e, m ∷ ms) ]
