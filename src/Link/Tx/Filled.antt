-- ===== src/Link/Tx/Filled.antt =====
-- The transmit buffer of lib/net/src/link_layer.cpp with its header filled in: a frame with the queued messages.
use lora_multihop.Prelude.{
  ℕ, ◌+◌, ◌^◌, ◌≤◌, ◌<◌, ◌≡◌, refl, ap, ap₂, ◌∙◌, true, List, [], ◌∷◌, ◌++◌, append_assoc, some,
  length, length-append, drop, take, take-append, drop-append, arith, u16, le16,
}
use lora_multihop.Link.{Link}
use lora_multihop.Link.Frame.{
  FrameHeader, encode_header, calculate_checksum, sum_bytes, header_checksum, header_checksum-fits,
}
use lora_multihop.Link.Payload.{encode_messages}
use lora_multihop.Link.Tx.{queued_header, with_header, fill_frame_header, truncate_tx}
use lora_multihop.Link.Tx.Queue.{Queued}

-- The header of a frame with these messages.
abbrev pub header_for : List (List ℕ) → ℕ → ℕ → ℕ → FrameHeader
header_for msgs checksum time address = record {
  checksum = checksum;
  payload_bytes = length (encode_messages msgs);
  sender_time = time;
  sender_address = address;
  message_count = length msgs;
}

-- A frame with these messages: its header announces them, and its checksum is right.
pub record IsFrame (f : List ℕ) (msgs : List (List ℕ)) : Type 0 where
  pub checksum : ℕ
  pub time : ℕ
  pub address : ℕ
  pub layout : f ≡ encode_header (header_for msgs checksum time address) ++ encode_messages msgs
  pub check : checksum ≡ calculate_checksum (drop 2 f)
  pub check_word : checksum < 2 ^ 16
  pub messages : length msgs < 256
  pub payload : length (encode_messages msgs) ≤ 243

sum_bytes-lt : (c : ℕ) (bs : List ℕ) → c < 2 ^ 16 → sum_bytes c bs < 2 ^ 16
unfolding sum_bytes
sum_bytes-lt c [] h = h
sum_bytes-lt c (b ∷ bs) h = sum_bytes-lt (u16 (c + b)) bs (omega arith)

calculate_checksum-lt : (bs : List ℕ) → calculate_checksum bs < 2 ^ 16
unfolding calculate_checksum
calculate_checksum-lt bs = sum_bytes-lt 0 bs (omega arith)

-- What the checksum of a queue is taken over.
abbrev covered : Link → List (List ℕ) → ℕ → List ℕ
covered s msgs t =
    drop 2 (encode_header (header_for msgs 0 t s.node.address)) ++ encode_messages msgs

abbrev pub frame_of : Link → List (List ℕ) → ℕ → List ℕ
frame_of s msgs t =
    encode_header (header_for msgs (calculate_checksum (covered s msgs t)) t s.node.address)
    ++ encode_messages msgs

module _ {s : Link} {msgs : List (List ℕ)} (q : Queued s msgs) (t : ℕ) where
  lengths :
      (length msgs ≤ length (encode_messages msgs))
      × (length (encode_messages msgs) ≤ 243)
      × (12 + length (encode_messages msgs) ≤ s.params.tx_sz)
  lengths = omega (
    arith,
    ap length q.layout,
    length-append (q.header ++ encode_messages msgs) q.rest,
    length-append q.header (encode_messages msgs),
    q.header_length,
    q.storage,
    q.limit,
    q.count,
    q.total,
  )

  same_header : queued_header s t ≡ header_for msgs 0 t s.node.address
  same_header = ground (arith, lengths, q.count, q.total)

  -- Behind the header there are the messages and what is free.
  behind : drop 12 s.params.tx_buf ≡ encode_messages msgs ++ q.rest
  behind =
      rw (q.layout, append_assoc q.header (encode_messages msgs) q.rest, ← q.header_length)
        (drop-append q.header (encode_messages msgs ++ q.rest))

  with_header-layout :
      with_header s t
      ≡ encode_header (header_for msgs 0 t s.node.address) ++ (encode_messages msgs ++ q.rest)
  with_header-layout =
      ap (λ (h : FrameHeader). encode_header h ++ drop 12 s.params.tx_buf) same_header
      ∙ ap (λ (k : List ℕ). encode_header (header_for msgs 0 t s.node.address) ++ k) behind

  covered_bytes :
      take (10 + length (encode_messages msgs)) (covered s msgs t ++ q.rest) ≡ covered s msgs t
  covered_bytes =
      let same : 10 + length (encode_messages msgs) ≡ length (covered s msgs t) = omega arith in
      ap (λ (k : ℕ). take k (covered s msgs t ++ q.rest)) same
      ∙ take-append (covered s msgs t) q.rest

  checksum_of :
      header_checksum (queued_header s t) (with_header s t) s.params.tx_sz
      ≡ some (calculate_checksum (covered s msgs t))
  checksum_of =
      ap₂ (λ (h : FrameHeader) (b : List ℕ). header_checksum h b s.params.tx_sz) same_header
        with_header-layout
      ∙ header_checksum-fits (header_for msgs 0 t s.node.address) _ s.params.tx_sz lengths.2
      ∙ ap (λ (b : List ℕ). some (calculate_checksum b)) covered_bytes

  pub filled :
      fill_frame_header s t
      ≡ (record s { params = record (s.params) { tx_buf = frame_of s msgs t ++ q.rest } }, true)
  unfolding fill_frame_header
  filled =
      rw (checksum_of, fill_frame_header)
        (ap
          (λ (k : List ℕ). (
            record s {
              params = record (s.params) {
                tx_buf = le16 (calculate_checksum (covered s msgs t)) ++ drop 2 k;
              };
            },
            true,
          ))
          with_header-layout)

  pub frame_of-IsFrame : IsFrame (frame_of s msgs t) msgs
  frame_of-IsFrame = record {
    checksum = calculate_checksum (covered s msgs t);
    time = t;
    address = s.node.address;
    layout = refl;
    check = refl;
    check_word = calculate_checksum-lt (covered s msgs t);
    messages = omega (arith, lengths);
    payload = lengths.1;
  }

  pub emptied : Queued (truncate_tx (fill_frame_header s t).0) []
  unfolding truncate_tx
  emptied = rw filled (record {
    header = take 12 (frame_of s msgs t);
    rest = encode_messages msgs ++ q.rest;
    header_length = refl;
    layout = refl;
    storage = omega (
      arith,
      ap length q.layout,
      length-append (q.header ++ encode_messages msgs) q.rest,
      length-append q.header (encode_messages msgs),
      length-append (encode_messages msgs) q.rest,
      q.header_length,
      q.storage,
    );
    limit = q.limit;
    count = refl;
    total = refl;
  })
