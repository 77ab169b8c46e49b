-- ===== src/Multihop/Node/Data/Fragment.antt =====
-- Fragments on their way, by send_datagram of lib/net/src/multihop.cpp.
use lora_multihop.Prelude.{
  ℕ, ◌^◌, ◌≤◌, ◌<◌, ◌≡◌, refl, ap, sym, subst, ◌∙◌, true, List, [], ◌∷◌, ◌++◌, append-nil, some,
  length, arith,
}
use lora_multihop.Link.{LinkRc}
use lora_multihop.Link.Tx.{tx_bytes_available, sendmsg_vec}
use lora_multihop.Link.Tx.Queue.{Queued, sendmsg_vec-Queued}
use lora_multihop.Multihop.Messages.{MessageType, Datagram, Body, Message, encode, decode_msg}
use lora_multihop.Multihop.Messages.Decode.{IsMessage, IsBody, type_of_body, decode_msg-encode}
use lora_multihop.Multihop.Datagram.{DatagramIterator, advance, rewind}
use lora_multihop.Multihop.Datagram.Cursor.{IsIterator, taken, fragment, next-more}
use lora_multihop.Multihop.Datagram.Fragments.{length_fragment, rewind-next}
use lora_multihop.Multihop.State.{MultihopState, initialized}
use lora_multihop.Multihop.Node.{Node, NodeRc, make_msg, send, send_result}
use lora_multihop.Multihop.Node.Data.{send_datagram, send_fragment}

send_datagram-fragment :
    (n : Node) (it : DatagramIterator) (now : ℕ)
    → initialized n.state ≡ true
    → IsIterator it
    → it.i < it.sz
    → send_datagram n it now
      ≡ send_fragment n (advance it (taken it)) now (fragment it).0 (fragment it).1
unfolding send_datagram
send_datagram-fragment n it now started v more = simp (started, next-more v more)

advance_size :
    (it : DatagramIterator) → IsIterator it → (advance it (taken it)).last_msg_sz ≡ taken it
unfolding advance
advance_size it v = omega (arith, v.word)

rewind-advance :
    (it : DatagramIterator)
    → IsIterator it
    → it.sz < 2 ^ 64
    → it.i < it.sz
    → (rewind (advance it (taken it))).0 ≡ record it { last_msg_sz = 0 }
rewind-advance it v wide more =
    ap (λ (r : DatagramIterator × ℕ). r.0)
      (subst (λ (k : DatagramIterator × _). rewind k.0 ≡ (record it { last_msg_sz = 0 }, taken it))
        (next-more v more) (rewind-next it v wide more))

-- A fragment that is larger than the free bytes of the queue is not sent, and not lost: send_datagram
-- returns link_full, the node stays as it is, and the iterator is put back where it was.
pub send_datagram-full :
    (n : Node) (it : DatagramIterator) (now : ℕ)
    → initialized n.state ≡ true
    → IsIterator it
    → it.sz < 2 ^ 64
    → it.i < it.sz
    → tx_bytes_available n.link < taken it
    → send_datagram n it now ≡ (n, record it { last_msg_sz = 0 }, NodeRc.link_full)
unfolding send_fragment
send_datagram-full n it now started v wide more full =
    send_datagram-fragment n it now started v more
    ∙ ground (arith, advance_size it v, rewind-advance it v wide more)

send-Queued :
    (n : Node) (msg : Message) (bs : List ℕ) (msgs : List (List ℕ))
    → Queued n.link msgs
    → 0 < length bs
    → (send n msg bs).1 ≡ NodeRc.ok
    → Queued (send n msg bs).0.link (msgs ++ ((encode msg ++ bs) ∷ []))
unfolding send
send-Queued n msg [] msgs q some_byte sent = absurd (omega arith)
send-Queued n msg (b ∷ bs) msgs q some_byte sent =
    let v = encode msg ∷ (b ∷ bs) ∷ [] in
    subst (λ (k : List ℕ). Queued (sendmsg_vec n.link v).0 (msgs ++ ((encode msg ++ k) ∷ [])))
      (append-nil (b ∷ bs)) (sendmsg_vec-Queued v q (result_ok (sendmsg_vec n.link v).1 sent))
  where
    result_ok : (rc : LinkRc) → send_result rc ≡ NodeRc.ok → rc ≡ LinkRc.ok
    result_ok LinkRc.ok e = refl
    result_ok _ e = cc

-- The message of a fragment, as its clusterhead decodes it.
abbrev pub carried : Node → DatagramIterator → ℕ → Message
carried n it now = make_msg n.state now MessageType.datagram (Body.datagram (fragment it).0)

send_fragment-send :
    (n : Node) (it : DatagramIterator) (now : ℕ) (d : Datagram) (bs : List ℕ)
    → it.last_msg_sz ≤ tx_bytes_available n.link
    → send_fragment n it now d bs ≡ (
      (send n (make_msg n.state now MessageType.datagram (Body.datagram d)) bs).0,
      it,
      (send n (make_msg n.state now MessageType.datagram (Body.datagram d)) bs).1,
    )
unfolding send_fragment
send_fragment-send n it now d bs room = ground arith

make_msg-type :
    (s : MultihopState) (now : ℕ) (d : Datagram)
    → (make_msg s now MessageType.datagram (Body.datagram d)).hdr.type
      ≡ type_of_body (make_msg s now MessageType.datagram (Body.datagram d)).body
unfolding make_msg
make_msg-type s now d = refl

make_msg_sequence :
    (s : MultihopState) (now : ℕ) (b : Body)
    → now < 2 ^ 32
    → (make_msg s now MessageType.datagram b).hdr.sequence < 2 ^ 32
unfolding make_msg
make_msg_sequence s now b h = h

make_msg-body :
    (n : Node) (it : DatagramIterator) (now : ℕ)
    → IsIterator it
    → IsBody (carried n it now).body (fragment it).1
unfolding make_msg
make_msg-body n it now v = (omega (arith, v.word), length_fragment v)

-- Where a fragment is left, has no more bytes than are free, and is sent, its message with its bytes stands last
-- in the queue, decode_msg reads the fragment's part number, count and size back from it, and the
-- iterator has moved on to the next fragment.
pub send_datagram-sent :
    (n : Node) (it : DatagramIterator) (now : ℕ) (msgs : List (List ℕ))
    → initialized n.state ≡ true
    → IsIterator it
    → it.i < it.sz
    → now < 2 ^ 32
    → taken it ≤ tx_bytes_available n.link
    → Queued n.link msgs
    → (send_datagram n it now).2 ≡ NodeRc.ok
    → let queued = encode (carried n it now) ++ (fragment it).1 in
      Queued (send_datagram n it now).0.link (msgs ++ (queued ∷ []))
      × (decode_msg queued ≡ some (carried n it now))
      × ((send_datagram n it now).1 ≡ advance it (taken it))
send_datagram-sent n it now msgs started v more time room q sent =
    let msg = carried n it now in
    let bs = (fragment it).1 in
    let some_byte : 0 < length bs = omega (arith, length_fragment v, v.positive) in
    let e =
      send_datagram-fragment n it now started v more
      ∙ send_fragment-send n (advance it (taken it)) now (fragment it).0 bs
          (omega (arith, advance_size it v)) in
    let answered : (send n msg bs).1 ≡ NodeRc.ok =
      ap (λ (r : Node × DatagramIterator × NodeRc). r.2) (sym e) ∙ sent in
    let valid : IsMessage msg bs = record {
      matches = make_msg-type n.state now (fragment it).0;
      sequence = make_msg_sequence n.state now (Body.datagram (fragment it).0) time;
      body = make_msg-body n it now v;
    } in
    (
      subst
          (λ (r : Node × DatagramIterator × NodeRc).
            Queued r.0.link (msgs ++ ((encode msg ++ bs) ∷ [])))
          (sym e) (send-Queued n msg bs msgs q some_byte answered),
      decode_msg-encode msg bs valid,
      ap (λ (r : Node × DatagramIterator × NodeRc). r.1) e,
    )
