-- ===== src/Link/Rx/Read.antt =====
-- Reading the messages of a frame that recv of lib/net/src/link_layer.cpp has accepted.
use lora_multihop.Prelude.{
  ℕ, zero, suc, ◌+◌, ◌≤◌, ◌<◌, ◌≡◌, refl, ap, ap₂, sym, ◌∙◌, List, [], ◌∷◌, ◌++◌, append_assoc,
  none, some, length, length-append, slice, byte_at, byte_at-append, slice-append, arith,
}
use lora_multihop.Link.{Link, LinkRc, frame_header_size}
use lora_multihop.Link.Frame.{decode_header}
use lora_multihop.Link.Payload.{encode_messages}
use lora_multihop.Link.Rx.{getmsg, getmsg_at, drain}

-- These messages of the frame in the receive buffer are still to be read.
pub record Unread (s : Link) (msgs : List (List ℕ)) : Type 0 where
  pub seen : List ℕ
  pub rest : List ℕ
  pub layout : s.params.rx_buf ≡ (seen ++ encode_messages msgs) ++ rest
  pub cursor : s.state.rx_cursor ≡ some (length seen)
  pub count : s.state.rx_msg_num + length msgs ≡ (decode_header s.params.rx_buf).message_count
  pub end :
      length seen + length (encode_messages msgs)
      ≡ frame_header_size + (decode_header s.params.rx_buf).payload_bytes

module _ {s : Link} {m : List ℕ} {ms : List (List ℕ)} (u : Unread s (m ∷ ms)) where
  spread : s.params.rx_buf ≡ u.seen ++ (length m ∷ (m ++ (encode_messages ms ++ u.rest)))
  spread = u.layout ∙ simp append_assoc

  len_here : byte_at s.params.rx_buf (length u.seen) ≡ length m
  len_here =
      ap (λ (b : List ℕ). byte_at b (length u.seen)) spread ∙ byte_at-append u.seen (length m) _

  message_here : slice (length u.seen + 1) (length m) s.params.rx_buf ≡ m
  message_here =
      let past : length u.seen + 1 ≡ length (u.seen ++ (length m ∷ [])) =
        sym (length-append u.seen (length m ∷ [])) in
      let split : s.params.rx_buf
          ≡ (u.seen ++ (length m ∷ [])) ++ (m ++ (encode_messages ms ++ u.rest)) =
        spread ∙ simp append_assoc in
      ap₂ (λ (i : ℕ) (b : List ℕ). slice i (length m) b) past split
      ∙ slice-append (u.seen ++ (length m ∷ [])) m (encode_messages ms ++ u.rest)

abbrev advanced : Link → ℕ → ℕ → Link
advanced s cursor len = record s {
  state = record (s.state) {
    rx_cursor = some (cursor + len + 1);
    rx_msg_num = s.state.rx_msg_num + 1;
  };
}

getmsg-cursor : (s : Link) (c : ℕ) → s.state.rx_cursor ≡ some c → getmsg s ≡ getmsg_at s c
unfolding getmsg
getmsg-cursor s c e = ground arith

getmsg_at-ok :
    (s : Link) (c len : ℕ) (m : List ℕ)
    → s.state.rx_msg_num < (decode_header s.params.rx_buf).message_count
    → byte_at s.params.rx_buf c ≡ len
    → c + len + 1 ≤ frame_header_size + (decode_header s.params.rx_buf).payload_bytes
    → slice (c + 1) len s.params.rx_buf ≡ m
    → getmsg_at s c ≡ (advanced s c len, LinkRc.ok, some m)
unfolding getmsg_at
getmsg_at-ok s c len m more here fits cut = ground arith

-- The next message is the first of those that are to be read.
pub getmsg-next :
    {s : Link} {m : List ℕ} {ms : List (List ℕ)} (u : Unread s (m ∷ ms))
    → getmsg s ≡ (advanced s (length u.seen) (length m), LinkRc.ok, some m)
getmsg-next {s} {m} {ms} u =
    getmsg-cursor s (length u.seen) u.cursor
    ∙ getmsg_at-ok s (length u.seen) (length m) m (omega (arith, u.count)) (len_here u)
        (omega (arith, u.end, length-append m (encode_messages ms))) (message_here u)

-- The others are still to be read then.
pub advanced-Unread :
    {s : Link} {m : List ℕ} {ms : List (List ℕ)} (u : Unread s (m ∷ ms))
    → Unread (advanced s (length u.seen) (length m)) ms
advanced-Unread {s} {m} {ms} u = record {
  seen = u.seen ++ (length m ∷ m);
  rest = u.rest;
  layout = u.layout ∙ simp append_assoc;
  cursor = ap (λ (k : ℕ). some k) (omega (arith, length-append u.seen (length m ∷ m)));
  count = omega (arith, u.count);
  end =
      omega
        (arith, u.end, length-append u.seen (length m ∷ m), length-append m (encode_messages ms));
}

-- After the last message there is none.
pub getmsg-end : {s : Link} → Unread s [] → getmsg s ≡ (s, LinkRc.no_msg, none)
unfolding getmsg_at
getmsg-end {s} u = getmsg-cursor s (length u.seen) u.cursor ∙ ground (arith, u.count)

drain-none :
    (fuel : ℕ) (s s' : Link) (rc : LinkRc)
    → getmsg s ≡ (s', rc, none)
    → drain (suc fuel) s ≡ (s', rc, [])
unfolding drain
drain-none fuel s s' rc e = ground (arith, e)

drain-some :
    (fuel : ℕ) (s s' : Link) (rc : LinkRc) (m : List ℕ)
    → getmsg s ≡ (s', rc, some m)
    → drain (suc fuel) s ≡ ((drain fuel s').0, (drain fuel s').1, m ∷ (drain fuel s').2)
unfolding drain
drain-some fuel s s' rc m e = ground (arith, e)

-- The loop of the layer above reads exactly these messages, in order, and ends as there is no more.
pub drain-Unread :
    (fuel : ℕ) (msgs : List (List ℕ)) {s : Link}
    → Unread s msgs
    → length msgs < fuel
    → ((drain fuel s).2 ≡ msgs) × ((drain fuel s).1 ≡ LinkRc.no_msg)
drain-Unread zero msgs u h = absurd (omega arith)
drain-Unread (suc fuel) [] {s} u h =
    rw (drain-none fuel s s LinkRc.no_msg (getmsg-end u)) (refl, refl)
drain-Unread (suc fuel) (m ∷ ms) {s} u h =
    let next = advanced s (length u.seen) (length m) in
    let (rest, last) = drain-Unread fuel ms {s = next} (advanced-Unread u) (omega arith) in
    rw (drain-some fuel s next LinkRc.ok m (getmsg-next u))
      (ap (λ (k : List (List ℕ)). m ∷ k) rest, last)
