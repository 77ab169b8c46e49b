-- ===== src/Link/Tx.antt =====
-- The sending half of lib/net/src/link_layer.cpp: queueing messages in the transmit buffer and
-- flushing them as one frame.
pub mod Queue
pub mod Filled
pub mod Flush
use lora_multihop.Prelude.{
  ℕ, ◌+◌, ◌-◌, Bool, true, false, List, [], ◌∷◌, Option, none, some, ltb, u8, u16, le16, length,
  take, write_at, if◌then◌else◌,
}
use lora_multihop.Lora.{LoraRc}
use lora_multihop.Link.{Link, LinkRc, frame_header_size, update_window, in_active_window}
use lora_multihop.Link.Frame.{FrameHeader, encode_header, header_checksum}

-- A linked list of fragments, each with its bytes.
abbrev pub MessageVec : Type 0
MessageVec = List (List ℕ)

-- `MessageVec::size`
unfoldable pub size : MessageVec → ℕ
size [] = 0
size (p ∷ ps) = length p + size ps

-- `MessageVec::write`, from offset `i` of a buffer on.
unfoldable pub write : MessageVec → List ℕ → ℕ → List ℕ
write [] buf i = buf
write (p ∷ ps) buf i = write ps (write_at buf i p) (i + length p)

unfoldable pub tx_bytes_available : Link → ℕ
tx_bytes_available s =
    let used = frame_header_size + s.state.tx_msg_count + s.state.tx_bytes_queued in
    if ltb s.params.tx_sz used then 0 else s.params.tx_sz - used

abbrev pub write_head : Link → ℕ
write_head s = frame_header_size + s.state.tx_msg_count + s.state.tx_bytes_queued

-- The writes of `sendmsg`: the length byte, the fragments behind it, and the two counters.
unfoldable pub store : Link → MessageVec → Link
store s v =
    let buf = write_at s.params.tx_buf (write_head s) (u8 (size v) ∷ []) in
    record s {
      params = record (s.params) { tx_buf = write v buf (write_head s + 1) };
      state = record (s.state) {
        tx_bytes_queued = s.state.tx_bytes_queued + size v;
        tx_msg_count = s.state.tx_msg_count + 1;
      };
    }

-- `sendmsg` of a linked list of fragments.
unfoldable pub sendmsg_vec : Link → MessageVec → Link × LinkRc
sendmsg_vec s v =
    if s.initialized
    then (if ltb (tx_bytes_available s) (size v + 1)
        then (s, LinkRc.buf_size)
        else (if ltb s.params.msg_max_bytes (size v)
            then (s, LinkRc.msg_too_big)
            else (store s v, LinkRc.ok)))
    else (s, LinkRc.not_init)

-- `sendmsg` of one buffer: the size is a uint8_t.
unfoldable pub sendmsg : Link → List ℕ → ℕ → Link × LinkRc
sendmsg s buf sz = sendmsg_vec s (take (u8 sz) buf ∷ [])

unfoldable pub truncate_tx : Link → Link
truncate_tx s = record s { state = record (s.state) { tx_msg_count = 0; tx_bytes_queued = 0 } }

abbrev pub queued_header : Link → ℕ → FrameHeader
queued_header s now = record {
  checksum = 0;
  payload_bytes = u16 (s.state.tx_msg_count + s.state.tx_bytes_queued);
  sender_time = now;
  sender_address = s.node.address;
  message_count = u8 s.state.tx_msg_count;
}

-- The buffer once the header is written, with no checksum yet.
abbrev pub with_header : Link → ℕ → List ℕ
with_header s now = write_at s.params.tx_buf 0 (encode_header (queued_header s now))

-- `fill_frame_header`, with the value of time::now() that it reads.
unfoldable pub fill_frame_header : Link → ℕ → Link × Bool
fill_frame_header s now =
    elim (header_checksum (queued_header s now) (with_header s now) s.params.tx_sz) [
      | none ↦ (record s { params = record (s.params) { tx_buf = with_header s now } }, false)
      | some c ↦ (
        record s {
          params = record (s.params) { tx_buf = write_at (with_header s now) 0 (le16 c) };
        },
        true,
      )
    ]

-- The part of `flush` after the header: what is handed to the radio, and what its answer makes of it.
unfoldable pub transmit : Link → (List ℕ → LoraRc) → Link × LinkRc × Option (List ℕ)
transmit s radio =
    let frame =
      take (frame_header_size + s.state.tx_msg_count + s.state.tx_bytes_queued) s.params.tx_buf in
    elim (radio frame) [
      | LoraRc.okay ↦ (truncate_tx s, LinkRc.ok, some frame)
      | _ ↦ (s, LinkRc.flush_failed, some frame)
    ]

-- `flush`: `now` and `hdr_now` are its two reads of the clock, `radio` is the answer of lora::send. The
-- option is the frame that went to the radio.
unfoldable pub flush : Link → ℕ → ℕ → (List ℕ → LoraRc) → Link × LinkRc × Option (List ℕ)
flush s now hdr_now radio =
    if s.initialized
    then (let s' = update_window s now in
        if in_active_window s' now
        then (let (filled, done) = fill_frame_header s' hdr_now in
            if done then transmit filled radio else (filled, LinkRc.header_error, none))
        else (s', LinkRc.not_in_window, none))
    else (s, LinkRc.not_init, none)

unfoldable pub mtu : Link → ℕ
mtu s = s.params.msg_max_bytes
