-- ===== src/Link/Rx/Accept.antt =====
-- recv of lib/net/src/link_layer.cpp accepts each frame that flush makes, and its messages are then
-- there to be read.
use lora_multihop.Prelude.{
  ℕ, ◌+◌, ◌≤◌, ◌<◌, ◌≡◌, refl, ap, ap₂, sym, ◌∙◌, true, List, ◌++◌, some, length, drop, take-append,
  slice, u8, arith,
}
use lora_multihop.Lora.{LoraRc}
use lora_multihop.Link.{Link, LinkRc, frame_header_size, update_window, in_active_window}
use lora_multihop.Link.Frame.{
  FrameHeader, encode_header, decode_header, calculate_checksum, header_checksum,
  header_checksum-fits,
}
use lora_multihop.Link.Payload.{encode_messages}
use lora_multihop.Link.Tx.Filled.{IsFrame, header_for}
use lora_multihop.Link.Rx.{
  Reception, recv, receive, accept_frame, filled, check_frame, validate, rewind, truncate_rx,
}
use lora_multihop.Link.Rx.Read.{Unread}

module _ {f : List ℕ} {msgs : List (List ℕ)} (i : IsFrame f msgs) (rest : List ℕ) where
  abbrev pub header : FrameHeader
  header = header_for msgs i.checksum i.time i.address

  spread : f ++ rest ≡ encode_header header ++ (encode_messages msgs ++ rest)
  spread = ap (λ (b : List ℕ). b ++ rest) i.layout

  pub length_frame : length f ≡ 12 + length (encode_messages msgs)
  length_frame = omega (arith, ap length i.layout)

  -- The header that the receiver reads is the one that was written.
  read_header :
      ((decode_header (f ++ rest)).checksum ≡ i.checksum)
      × ((decode_header (f ++ rest)).payload_bytes ≡ length (encode_messages msgs))
      × ((decode_header (f ++ rest)).message_count ≡ length msgs)
  read_header = (
    ap (λ (b : List ℕ). (decode_header b).checksum) spread ∙ omega (arith, i.check_word),
    ap (λ (b : List ℕ). (decode_header b).payload_bytes) spread ∙ omega (arith, i.payload),
    ap (λ (b : List ℕ). (decode_header b).message_count) spread ∙ omega (arith, i.messages),
  )

  covered_again : slice 2 (10 + length (encode_messages msgs)) (f ++ rest) ≡ drop 2 f
  covered_again =
      let tail = drop 2 (encode_header header) ++ encode_messages msgs in
      let sized : 10 + length (encode_messages msgs) ≡ length tail = omega arith in
      ap₂ (λ (n : ℕ) (b : List ℕ). slice 2 n b) sized spread
      ∙ take-append tail rest
      ∙ sym (ap (λ (b : List ℕ). drop 2 b) i.layout)

check_frame-ok :
    (h : FrameHeader) (buf : List ℕ) (sz len : ℕ)
    → frame_header_size < len
    → frame_header_size + h.payload_bytes ≡ len
    → len ≤ sz
    → header_checksum h buf sz ≡ some h.checksum
    → check_frame h buf sz len ≡ LinkRc.ok
unfolding check_frame
check_frame-ok h buf sz len some_message sized fits checked = ground arith

-- The checks pass on a frame with a message.
check_frame-IsFrame :
    {f : List ℕ} {msgs : List (List ℕ)} (i : IsFrame f msgs) (rest : List ℕ) (sz : ℕ)
    → length f ≤ sz
    → 0 < length (encode_messages msgs)
    → check_frame (decode_header (f ++ rest)) (f ++ rest) sz (length f) ≡ LinkRc.ok
check_frame-IsFrame {f} {msgs} i rest sz fits some_message =
    let (sum, payload, _) = read_header i rest in
    let hdr = decode_header (f ++ rest) in
    let body = ap (λ (k : ℕ). slice 2 (10 + k) (f ++ rest)) payload ∙ covered_again i rest in
    let sized = length_frame i rest in
    let checked : header_checksum hdr (f ++ rest) sz ≡ some hdr.checksum =
      header_checksum-fits hdr (f ++ rest) sz (omega (arith, payload, sized))
      ∙ ap (λ (b : List ℕ). some (calculate_checksum b)) body
      ∙ ap (λ (c : ℕ). some c) (sym i.check ∙ sym sum) in
    check_frame-ok hdr (f ++ rest) sz (length f) (omega (arith, sized))
      (omega (arith, payload, sized)) fits checked

recv-receive :
    (s : Link) (now : ℕ) (radio : ℕ → Reception)
    → s.initialized ≡ true
    → in_active_window (update_window s now) now ≡ true
    → recv s now radio
      ≡ receive (truncate_rx (update_window s now)) (radio (u8 (update_window s now).params.rx_sz))
unfolding recv
recv-receive s now radio started active = simp (started, active)

accept_frame-ok :
    (s : Link) (len : ℕ) → validate s len ≡ LinkRc.ok → accept_frame s len ≡ (rewind s, LinkRc.ok)
unfolding accept_frame
accept_frame-ok s len e = ground (arith, e)

receive-okay :
    (s : Link) (f : List ℕ)
    → receive s (record { rc = LoraRc.okay; bytes = f }) ≡ accept_frame (filled s f) (length f)
unfolding receive
receive-okay s f = refl

-- Behind the header the messages of the frame are all unread.
rewind-Unread :
    {f : List ℕ} {msgs : List (List ℕ)} (i : IsFrame f msgs) (s : Link)
    → Unread (rewind (filled s f)) msgs
unfolding rewind
rewind-Unread {f} {msgs} i s =
    let rest = drop (0 + length f) s.params.rx_buf in
    let got = rewind (filled s f) in
    let (_, payload, number) = read_header i rest in
    let payload' : (decode_header got.params.rx_buf).payload_bytes ≡ length (encode_messages msgs) =
      payload in
    let number' : (decode_header got.params.rx_buf).message_count ≡ length msgs = number in
    record {
      seen = encode_header (header_for msgs i.checksum i.time i.address);
      rest = rest;
      layout = spread i rest;
      cursor = refl;
      count = omega (arith, number');
      end = omega (arith, payload');
    }

kept_size : (s : Link) (now : ℕ) → (truncate_rx (update_window s now)).params.rx_sz ≡ s.params.rx_sz
unfolding truncate_rx update_window
kept_size s now = ground arith

-- A receiver in its window accepts a frame with a message that fits its buffer, and its messages are
-- then to be read.
pub recv-Unread :
    (s : Link) {f : List ℕ} {msgs : List (List ℕ)} (now : ℕ) (radio : ℕ → Reception)
    → IsFrame f msgs
    → 0 < length (encode_messages msgs)
    → length f ≤ s.params.rx_sz
    → s.initialized ≡ true
    → in_active_window (update_window s now) now ≡ true
    → radio (u8 (update_window s now).params.rx_sz) ≡ record { rc = LoraRc.okay; bytes = f }
    → ((recv s now radio).1 ≡ LinkRc.ok) × Unread (recv s now radio).0 msgs
recv-Unread s {f} {msgs} now radio i some_message fits started active heard =
    let u = truncate_rx (update_window s now) in
    let room = kept_size s now in
    let rest = drop (0 + length f) u.params.rx_buf in
    let passes : validate (filled u f) (length f) ≡ LinkRc.ok =
      check_frame-IsFrame i rest u.params.rx_sz (omega (arith, fits, room)) some_message in
    let answer =
      recv-receive s now radio started active
      ∙ ap (λ (r : Reception). receive u r) heard
      ∙ receive-okay u f
      ∙ accept_frame-ok (filled u f) (length f) passes in
    rw answer (refl, rewind-Unread i u)
