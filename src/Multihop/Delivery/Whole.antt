-- ===== src/Multihop/Delivery/Whole.antt =====
-- A whole datagram on its way, fragment by fragment, by send_datagram, do_follower_send and do_clusterhead_recv of
-- lib/net/src/multihop.cpp and the iterator of lib/net/src/multihop_messages.cpp.
mod Tests
use lora_multihop.Prelude.{
  ℕ, ◌^◌, ◌≤◌, ◌<◌, ◌≡◌, refl, sym, subst, ◌∙◌, true, false, Option, none, some, List, [], ◌∷◌,
  ◌++◌, length, drop, arith, dec_lt,
}
use lora_multihop.Lora.{LoraRc}
use lora_multihop.Link.Tx.{tx_bytes_available}
use lora_multihop.Link.Tx.Queue.{Queued}
use lora_multihop.Link.Rx.{Reception}
use lora_multihop.Multihop.Messages.{Datagram, Body, Message, decode_msg}
use lora_multihop.Multihop.Datagram.{
  DatagramIterator, datagram_iterator, fragments_of, has_next, advance,
}
use lora_multihop.Multihop.Datagram.Cursor.{
  IsIterator, taken, fragment, next-end, advance-IsIterator,
}
use lora_multihop.Multihop.Datagram.Fragments.{
  Numbered, joined, Fragmented, Fragmented-end, Fragmented-more, zero_left, datagram_iterator-fresh,
  fresh-IsIterator,
}
use lora_multihop.Multihop.State.{initialized}
use lora_multihop.Multihop.Node.{Node, NodeRc, make_msg}
use lora_multihop.Multihop.Node.Data.{send_datagram}
use lora_multihop.Multihop.Node.Data.Fragment.{carried, send_datagram-sent}
use lora_multihop.Multihop.Node.Relay.{do_clusterhead_recv}
use lora_multihop.Multihop.Node.Relay.Queue.{Room}
use lora_multihop.Multihop.Node.Relay.Hop.{Hears, Sends}
use lora_multihop.Multihop.Delivery.{Route, fragment_message, send_datagram-do_clusterhead_recv}

-- The fragment at the iterator's cursor on its way, from a follower with nothing queued to a last clusterhead with room.
pub record Trip (most : ℕ) (it : DatagramIterator) : Type 0 where
  pub node : Node
  pub now : ℕ
  pub started : initialized node.state ≡ true
  pub clock : now < 2 ^ 32
  pub room : taken it ≤ tx_bytes_available node.link
  pub empty : Queued node.link []
  pub sent : (send_datagram node it now).2 ≡ NodeRc.ok
  pub short : length (fragment_message node it now) ≤ most
  pub slot_now : ℕ
  pub flush_now : ℕ
  pub hdr_now : ℕ
  pub send : List ℕ → LoraRc
  pub first : List ℕ
  pub arriving : List ℕ
  pub sends : Sends (send_datagram node it now).0 slot_now flush_now hdr_now send first
  pub route : Route most first arriving
  pub last : Node
  pub last_slot_now : ℕ
  pub last_now : ℕ
  pub slot : ℕ
  pub hear : ℕ → Reception
  pub hears : Hears last last_slot_now last_now hear slot arriving
  pub old : List (List ℕ)
  pub queued : Queued last.link old
  pub room_last : Room last (old ++ (fragment_message node it now ∷ []))
  pub longest : last.link.params.msg_max_bytes ≡ most

-- A trip for each fragment, until the iterator has no next one; the messages are those of the trips.
pub data Trips (most : ℕ) : DatagramIterator → List (List ℕ) → Type 0 where
  finished : {it : DatagramIterator} → has_next it ≡ false → Trips most it []
  travelled :
      {it : DatagramIterator} {msgs : List (List ℕ)} (t : Trip most it)
      → Trips most (send_datagram t.node it t.now).1 msgs
      → Trips most it (fragment_message t.node it t.now ∷ msgs)

-- At the end of each trip, the last clusterhead has answered Ok and queued the trip's message behind what it had queued.
abbrev pub Delivered :
    {most : ℕ} {it : DatagramIterator} {msgs : List (List ℕ)} → Trips most it msgs → Type 0
Delivered (Trips.finished e) = Unit {0}
Delivered (Trips.travelled {it} t rest) =
    let (after, rc) = do_clusterhead_recv t.last t.last_slot_now t.last_now t.hear in
    (rc ≡ NodeRc.ok)
    × Queued after.link (t.old ++ (fragment_message t.node it t.now ∷ []))
    × Delivered rest

-- The fragment that a message carries: what decode_msg reads, and the bytes behind the ten bytes of a datagram's headers.
abbrev fragment_of : Body → List ℕ → List (Datagram × List ℕ)
fragment_of (Body.datagram d) bytes = (d, bytes) ∷ []
fragment_of _ bytes = []

abbrev body_fragment : Option Message → List ℕ → List (Datagram × List ℕ)
body_fragment none bytes = []
body_fragment (some msg) bytes = fragment_of msg.body bytes

-- The fragments that these messages carry, in their order.
abbrev pub received : List (List ℕ) → List (Datagram × List ℕ)
received [] = []
received (m ∷ msgs) = body_fragment (decode_msg m) (drop 10 m) ++ received msgs

-- With no next fragment nothing is sent.
send_datagram-end :
    (n : Node) (it : DatagramIterator) (now : ℕ)
    → initialized n.state ≡ true
    → IsIterator it
    → it.i ≡ it.sz
    → (send_datagram n it now).2 ≡ NodeRc.no_data
unfolding send_datagram
send_datagram-end n it now started v done = simp (started, next-end v done)

no_next : (it : DatagramIterator) → has_next it ≡ false → it.i ≡ it.sz
unfolding has_next
no_next it e = ground arith

received-fragment_message :
    (n : Node) (it : DatagramIterator) (now : ℕ) (msgs : List (List ℕ))
    → decode_msg (fragment_message n it now) ≡ some (carried n it now)
    → received (fragment_message n it now ∷ msgs) ≡ fragment it ∷ received msgs
unfolding make_msg
received-fragment_message n it now msgs e = rw e (refl)

module _ {most : ℕ} {it : DatagramIterator} (v : IsIterator it) (t : Trip most it) where
  trip-more : it.i < it.sz
  trip-more = elim (dec_lt it.i it.sz) [
    | yes more ↦ more
    | no done ↦
        let e = send_datagram-end t.node it t.now t.started v (omega (arith, v.within)) in
        absurd (cc (e, t.sent))
  ]

  trip-sent :
      (decode_msg (fragment_message t.node it t.now) ≡ some (carried t.node it t.now))
      × ((send_datagram t.node it t.now).1 ≡ advance it (taken it))
  trip-sent =
      let (_, decoded, moved) =
        send_datagram-sent t.node it t.now [] t.started v trip-more t.clock t.room t.empty t.sent in
      (decoded, moved)

  trip-IsIterator : IsIterator (send_datagram t.node it t.now).1
  trip-IsIterator = subst IsIterator (sym trip-sent.1) (advance-IsIterator v trip-more)

Trips-Fragmented :
    {most : ℕ} {it : DatagramIterator} {msgs : List (List ℕ)}
    → IsIterator it
    → Trips most it msgs
    → Fragmented it (received msgs)
Trips-Fragmented {it = it} v (Trips.finished e) = Fragmented-end v (no_next it e)
Trips-Fragmented v (Trips.travelled {it} {msgs} t rest) =
    let (decoded, moved) = trip-sent v t in
    let later = Trips-Fragmented (trip-IsIterator v t) rest in
    subst (Fragmented it) (sym (received-fragment_message t.node it t.now msgs decoded)) (
      Fragmented-more v (received msgs) (trip-more v t)
        (subst (λ (k : DatagramIterator). Fragmented k (received msgs)) moved later))

Trips-Delivered :
    {most : ℕ} {it : DatagramIterator} {msgs : List (List ℕ)}
    → most ≤ 255
    → IsIterator it
    → (trips : Trips most it msgs) → Delivered trips
Trips-Delivered byte v (Trips.finished e) = tt
Trips-Delivered {most} byte v (Trips.travelled {it} t rest) =
    let (answered, queued, decoded) =
      send_datagram-do_clusterhead_recv t.node it t.now most t.started v (trip-more v t) t.clock
        t.room t.empty t.sent byte t.short t.slot_now t.flush_now t.hdr_now t.send t.first
        t.arriving t.sends t.route t.last t.last_slot_now t.last_now t.slot t.hear t.old t.hears
        t.queued t.room_last t.longest in
    (answered, queued, Trips-Delivered byte (trip-IsIterator v t) rest)

-- Let a buffer that is cut into at most 255 fragments be sent with the iterator of datagram_iterator until it has no next fragment,
-- each fragment by send_datagram of a follower with nothing queued and room for it, and taken over any number of clusterheads,
-- each with nothing queued, that hear it and next send in do_follower_send, in their slots, to a last one with room in its
-- queue, while all radios work. Then each
-- do_clusterhead_recv at the end answers Ok and queues the fragment's message; and the fragments in these
-- messages, as decode_msg reads them, make up the buffer in order, are numbered from 0, and carry their number and sizes.
pub datagram_iterator-Delivered :
    (buf : List ℕ) (m most : ℕ)
    → 0 < m
    → m < 2 ^ 16
    → fragments_of (length buf) m ≤ 255
    → most ≤ 255
    → (msgs : List (List ℕ)) (trips : Trips most (datagram_iterator buf (length buf) m) msgs)
    → Delivered trips
      × (joined (received msgs) ≡ buf)
      × (length (received msgs) ≡ fragments_of (length buf) m)
      × Numbered 0 (length (received msgs)) m (received msgs)
datagram_iterator-Delivered buf m most pos word few byte msgs trips =
    let fresh = datagram_iterator-fresh buf m few in
    let v = subst IsIterator (sym fresh) (fresh-IsIterator buf m pos word few) in
    let f =
      subst (λ (k : DatagramIterator). Fragmented k (received msgs)) fresh
        (Trips-Fragmented v trips) in
    let number = f.number ∙ zero_left buf m in
    (
      Trips-Delivered byte v trips,
      f.bytes,
      number,
      subst (λ (k : ℕ). Numbered 0 k m (received msgs)) (sym number) f.numbered,
    )
