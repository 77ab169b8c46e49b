-- ===== src/Link/Tx/Queue.antt =====
-- The transmit buffer of lib/net/src/link_layer.cpp as a queue of messages.
use lora_multihop.Prelude.{
  ◌⊎◌, ℕ, suc, ◌+◌, ◌≤◌, ◌≡◌, ◌↔◌, refl, ap, ap₂, sym, ◌∙◌, true, List, [], ◌∷◌, ◌++◌, append_assoc,
  length, length-append, length-drop, drop, drop-drop, write_at, write_at-append, arith, u8,
}
use lora_multihop.Link.{Link, LinkRc, frame_header_size}
use lora_multihop.Link.Payload.{encode_messages, encode_messages-append, length-encode_messages}
use lora_multihop.Link.Tx.{
  MessageVec, size, write, tx_bytes_available, write_head, store, sendmsg_vec,
}

-- The bytes of a linked list of fragments.
abbrev pub bytes : MessageVec → List ℕ
bytes [] = []
bytes (p ∷ ps) = p ++ bytes ps

pub size-bytes : (v : MessageVec) → size v ≡ length (bytes v)
unfolding size
size-bytes [] = refl
size-bytes (p ∷ ps) = omega (arith, size-bytes ps, length-append p (bytes ps))

-- Writing the fragments one behind the other is one write of all their bytes.
pub write-bytes :
    (v : MessageVec) (xs ys : List ℕ)
    → write v (xs ++ ys) (length xs) ≡ xs ++ (bytes v ++ drop (length (bytes v)) ys)
unfolding write
write-bytes [] xs ys = refl
write-bytes (p ∷ ps) xs ys =
    let head = write_at-append xs p ys ∙ sym (append_assoc xs p (drop (length p) ys)) in
    let rest = write-bytes ps (xs ++ p) (drop (length p) ys) in
    rw (head, ← length-append xs p, rest, length-append p (bytes ps))
      (simp (append_assoc, drop-drop))

-- The transmit buffer holds these messages: a place for the header, their bytes, and what is free.
pub record Queued (s : Link) (msgs : List (List ℕ)) : Type 0 where
  pub header : List ℕ
  pub rest : List ℕ
  pub header_length : length header ≡ frame_header_size
  pub layout : s.params.tx_buf ≡ (header ++ encode_messages msgs) ++ rest
  pub storage : length s.params.tx_buf ≡ s.params.tx_sz
  pub limit : s.params.tx_sz ≤ 255
  pub count : s.state.tx_msg_count ≡ length msgs
  pub total : s.state.tx_msg_count + s.state.tx_bytes_queued ≡ length (encode_messages msgs)

-- In a link layer that has been started, a message is taken exactly when it and its length byte fit the free bytes and it is
-- not too big; a message that is refused changes nothing.
pub sendmsg_vec_lem :
    (s : Link) (v : MessageVec)
    → s.initialized ≡ true
    → (((sendmsg_vec s v).1 ≡ LinkRc.ok) ↔ (
        (frame_header_size + s.state.tx_msg_count + s.state.tx_bytes_queued + length (bytes v) + 1
          ≤ s.params.tx_sz)
        × (length (bytes v) ≤ s.params.msg_max_bytes)))
      × (((sendmsg_vec s v).1 ≡ LinkRc.ok) ⊎ ((sendmsg_vec s v).0 ≡ s))
unfolding sendmsg_vec tx_bytes_available
sendmsg_vec_lem s v h = (ground (arith, size-bytes v), ground (arith, size-bytes v))

-- Behind what is there, a message is stored as its length and its bytes.
stored :
    (base rest : List ℕ) (v : MessageVec)
    → write v (write_at (base ++ rest) (length base) (length (bytes v) ∷ [])) (length base + 1)
      ≡ base ++ (length (bytes v) ∷ (bytes v ++ drop (suc (length (bytes v))) rest))
stored base rest v =
    let b : ℕ = length (bytes v) in
    let one = write_at-append base (b ∷ []) rest ∙ sym (append_assoc base (b ∷ []) (drop 1 rest)) in
    let end : length base + 1 ≡ length (base ++ (b ∷ [])) = sym (length-append base (b ∷ [])) in
    let next : 1 + b ≡ suc b = omega arith in
    ap₂ (λ (w : List ℕ) (i : ℕ). write v w i) one end
    ∙ write-bytes v (base ++ (b ∷ [])) (drop 1 rest)
    ∙ append_assoc base (b ∷ []) (bytes v ++ drop b (drop 1 rest))
    ∙ ap (λ (k : List ℕ). base ++ (b ∷ (bytes v ++ k)))
        (drop-drop b 1 rest ∙ ap (λ (k : ℕ). drop k rest) next)

sendmsg_vec-store :
    (s : Link) (v : MessageVec)
    → (sendmsg_vec s v).1 ≡ LinkRc.ok
    → ((sendmsg_vec s v).0 ≡ store s v)
      × (frame_header_size + s.state.tx_msg_count + s.state.tx_bytes_queued + length (bytes v) + 1
          ≤ s.params.tx_sz)
unfolding sendmsg_vec tx_bytes_available
sendmsg_vec-store s v h = ground (arith, size-bytes v)

module _ {s : Link} {msgs : List (List ℕ)} (v : MessageVec) (q : Queued s msgs)
    (fits : frame_header_size
        + s.state.tx_msg_count
        + s.state.tx_bytes_queued
        + length (bytes v)
        + 1
      ≤ s.params.tx_sz) where
  head_is_base : write_head s ≡ length (q.header ++ encode_messages msgs)
  head_is_base =
      omega (arith, length-append q.header (encode_messages msgs), q.header_length, q.total)

  store-layout :
      (store s v).params.tx_buf
      ≡ (q.header ++ encode_messages (msgs ++ (bytes v ∷ [])))
        ++ drop (suc (length (bytes v))) q.rest
  unfolding store
  store-layout =
      let base = q.header ++ encode_messages msgs in
      let small : u8 (size v) ≡ length (bytes v) = omega (arith, size-bytes v, q.limit) in
      rw
        (small, head_is_base, q.layout, stored base q.rest v, encode_messages-append msgs (bytes v))
        (simp append_assoc)

  length-store : length (store s v).params.tx_buf ≡ length s.params.tx_buf
  length-store =
      let full = q.header ++ encode_messages (msgs ++ (bytes v ∷ [])) in
      omega (
        arith,
        ap length store-layout,
        ap length q.layout,
        length-append full (drop (suc (length (bytes v))) q.rest),
        length-append q.header (encode_messages (msgs ++ (bytes v ∷ []))),
        length-encode_messages msgs (bytes v),
        length-drop (suc (length (bytes v))) q.rest,
        length-append (q.header ++ encode_messages msgs) q.rest,
        length-append q.header (encode_messages msgs),
        q.header_length,
        q.total,
        q.storage,
      )

  store-Queued : Queued (store s v) (msgs ++ (bytes v ∷ []))
  unfolding store
  store-Queued = record {
    header = q.header;
    rest = drop (suc (length (bytes v))) q.rest;
    header_length = q.header_length;
    layout = store-layout;
    storage = omega (arith, length-store, q.storage);
    limit = q.limit;
    count = omega (arith, q.count, length-append msgs (bytes v ∷ []));
    total = omega (arith, q.total, size-bytes v, length-encode_messages msgs (bytes v));
  }

-- A message that is taken is the last of the queue.
pub sendmsg_vec-Queued :
    {s : Link} {msgs : List (List ℕ)} (v : MessageVec)
    → Queued s msgs
    → (sendmsg_vec s v).1 ≡ LinkRc.ok
    → Queued (sendmsg_vec s v).0 (msgs ++ (bytes v ∷ []))
sendmsg_vec-Queued {s} v q h =
    let (taken, fits) = sendmsg_vec-store s v h in rw taken (store-Queued v q fits)
