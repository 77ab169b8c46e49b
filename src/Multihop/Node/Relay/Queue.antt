-- ===== src/Multihop/Node/Relay/Queue.antt =====
-- What do_clusterhead_recv of lib/net/src/multihop.cpp passes on: the datagrams of a frame, and no other message.
use lora_multihop.Prelude.{
  ℕ, ◌+◌, ◌≤◌, ◌<◌, ◌≡◌, refl, ap, ap₂, sym, subst, ◌∙◌, true, Option, none, some, Option-cases,
  List, [], ◌∷◌, ◌++◌, append-nil, append_assoc, length, length-append, take, get_elem?, length-set,
  get_elem?-set_self, u8, arith, take-append, set, inl, inr,
}
use lora_multihop.Link.{Link, LinkRc, frame_header_size}
use lora_multihop.Link.Payload.{encode_messages}
use lora_multihop.Link.Tx.{sendmsg, sendmsg_vec, store}
use lora_multihop.Link.Tx.Queue.{Queued, sendmsg_vec_lem, sendmsg_vec-Queued}
use lora_multihop.Multihop.Messages.{Message, MessageType, decode_msg}
use lora_multihop.Multihop.Node.{Node}
use lora_multihop.Multihop.Node.Relay.{relay}
use lora_multihop.Multihop.Node.Relay.Forward.{relay_all}

-- The sequence number of a message that decode_msg accepts as a datagram.
unfoldable pub sequence_of_type : MessageType → ℕ → Option ℕ
sequence_of_type MessageType.datagram sequence = some sequence
sequence_of_type _ sequence = none

unfoldable pub sequence_of : Option Message → Option ℕ
sequence_of none = none
sequence_of (some msg) = sequence_of_type msg.hdr.type msg.hdr.sequence

abbrev pub kept_if : Option ℕ → List ℕ → List (List ℕ) → List (List ℕ)
kept_if none m rest = rest
kept_if (some sequence) m rest = m ∷ rest

-- The datagrams among some messages.
unfoldable pub datagrams : List (List ℕ) → List (List ℕ)
datagrams [] = []
datagrams (m ∷ ms) = kept_if (sequence_of (decode_msg m)) m (datagrams ms)

abbrev pub or_else : Option ℕ → Option ℕ → Option ℕ
or_else none other = other
or_else (some s) other = some s

-- The sequence number of the last datagram among some messages, if there is one.
unfoldable pub last_sequence : List (List ℕ) → Option ℕ
last_sequence [] = none
last_sequence (m ∷ ms) = or_else (last_sequence ms) (sequence_of (decode_msg m))

-- A node that can take more messages into its queue.
pub record Room (n : Node) (msgs : List (List ℕ)) : Type 0 where
  pub started : n.link.initialized ≡ true
  pub small : n.link.params.msg_max_bytes ≤ 255
  pub fits : frame_header_size + length (encode_messages msgs) ≤ n.link.params.tx_sz

-- Messages of at most so many bytes.
abbrev pub AllUpTo : ℕ → List (List ℕ) → Type 0
AllUpTo most [] = Unit {0}
AllUpTo most (m ∷ ms) = (length m ≤ most) × AllUpTo most ms

relay-none :
    (n : Node) (relative : ℕ) (m : List ℕ)
    → sequence_of (decode_msg m) ≡ none
    → relay n relative m ≡ n
unfolding relay sequence_of sequence_of_type
relay-none n relative m h = ground arith

relay-some :
    (n : Node) (relative : ℕ) (m : List ℕ) (sequence : ℕ)
    → sequence_of (decode_msg m) ≡ some sequence
    → relay n relative m ≡ record n {
      state = record (n.state) { acks = set n.state.acks relative sequence };
      link = (sendmsg n.link m (length m)).0;
    }
unfolding relay sequence_of sequence_of_type
relay-some n relative m sequence h = ground arith

length-encode_messages-append :
    (xs ys : List (List ℕ))
    → length (encode_messages (xs ++ ys))
      ≡ length (encode_messages xs) + length (encode_messages ys)
length-encode_messages-append [] ys = omega arith
length-encode_messages-append (x ∷ xs) ys = omega (
  arith,
  length-encode_messages-append xs ys,
  length-append x (encode_messages xs),
  length-append x (encode_messages (xs ++ ys)),
)

-- The bytes that sendmsg queues of a message of at most 255 bytes are the message.
pub sendmsg-bytes : (m : List ℕ) → length m ≤ 255 → take (u8 (length m)) m ++ [] ≡ m
sendmsg-bytes m h =
    let small : u8 (length m) ≡ length m = omega arith in
    append-nil (take (u8 (length m)) m)
    ∙ ap₂ (λ (k : ℕ) (b : List ℕ). take k b) small (sym (append-nil m))
    ∙ take-append m []

-- A message that fits is queued behind the others.
sendmsg-Queued :
    {s : Link} {old : List (List ℕ)} (m : List ℕ) (next : List (List ℕ))
    → Queued s old
    → s.initialized ≡ true
    → length m ≤ s.params.msg_max_bytes
    → length m ≤ 255
    → frame_header_size + length (encode_messages (old ++ (m ∷ next))) ≤ s.params.tx_sz
    → Queued (sendmsg s m (length m)).0 (old ++ (m ∷ []))
unfolding sendmsg
sendmsg-Queued {s} {old} m next q started short byte fits =
    let v = take (u8 (length m)) m ∷ [] in
    let whole = sendmsg-bytes m byte in
    let taken : (sendmsg_vec s v).1 ≡ LinkRc.ok = (sendmsg_vec_lem s v started).0.1 (
      omega (
        arith,
        ap length whole,
        q.total,
        length-encode_messages-append old (m ∷ next),
        length-append m (encode_messages next),
      ),
      omega (arith, ap length whole),
    ) in
    subst (λ (k : List ℕ). Queued (sendmsg_vec s v).0 (old ++ (k ∷ []))) whole
      (sendmsg_vec-Queued v q taken)

-- Queueing changes none of the sizes.
sendmsg_sizes :
    (s : Link) (m : List ℕ)
    → ((sendmsg s m (length m)).0.initialized ≡ s.initialized)
      × ((sendmsg s m (length m)).0.params.msg_max_bytes ≡ s.params.msg_max_bytes)
      × ((sendmsg s m (length m)).0.params.tx_sz ≡ s.params.tx_sz)
unfolding sendmsg sendmsg_vec store
sendmsg_sizes s m = ground arith

-- A datagram that fits is relayed, and leaves room for those behind it.
relay-Queued :
    (relative : ℕ) (n : Node) (old next : List (List ℕ)) (m : List ℕ) (sequence : ℕ)
    → sequence_of (decode_msg m) ≡ some sequence
    → Queued n.link old
    → Room n (old ++ (m ∷ next))
    → length m ≤ n.link.params.msg_max_bytes
    → Queued (relay n relative m).link (old ++ (m ∷ []))
      × Room (relay n relative m) ((old ++ (m ∷ [])) ++ next)
      × ((relay n relative m).link.params.msg_max_bytes ≡ n.link.params.msg_max_bytes)
relay-Queued relative n old next m sequence datagram q room short =
    let (started, most, total) = sendmsg_sizes n.link m in
    rw (relay-some n relative m sequence datagram) (
      sendmsg-Queued m next q room.started short (omega (arith, room.small)) room.fits,
      record {
        started = started ∙ room.started;
        small = omega (arith, most, room.small);
        fits = omega (
          arith,
          total,
          room.fits,
          ap (λ (k : List (List ℕ)). length (encode_messages k)) (append_assoc old (m ∷ []) next),
        );
      },
      most,
    )

-- Relaying messages one after the other queues the datagrams among them behind what is queued, in their order.
pub relay_all-Queued :
    (relative : ℕ) (n : Node) (old msgs : List (List ℕ))
    → Queued n.link old
    → Room n (old ++ datagrams msgs)
    → AllUpTo n.link.params.msg_max_bytes msgs
    → Queued (relay_all relative n msgs).link (old ++ datagrams msgs)
unfolding relay_all datagrams
relay_all-Queued relative n old [] q room short = rw (append-nil old) q
relay_all-Queued relative n old (m ∷ ms) q room short =
    elim (Option-cases (sequence_of (decode_msg m))) [
      | inl other ↦ rw other (
          subst (λ (k : Node). Queued (relay_all relative k ms).link (old ++ datagrams ms))
            (sym (relay-none n relative m other))
            (relay_all-Queued relative n old ms q (rw other at room) short.1))
      | inr (sequence, datagram) ↦
          let (q', room', most) =
            relay-Queued relative n old (datagrams ms) m sequence datagram q (rw datagram at room)
              short.0 in
          rw datagram (
            subst
              (λ (k : List (List ℕ)). Queued (relay_all relative (relay n relative m) ms).link k)
              (append_assoc old (m ∷ []) (datagrams ms))
              (relay_all-Queued relative (relay n relative m) (old ++ (m ∷ [])) ms q' room'
                (subst (λ (k : ℕ). AllUpTo k ms) (sym most) short.1)))
    ]

relay-acks :
    (relative : ℕ) (n : Node) (m : List ℕ)
    → relative < length n.state.acks
    → (get_elem? (relay n relative m).state.acks relative
        ≡ or_else (sequence_of (decode_msg m)) (get_elem? n.state.acks relative))
      × (length (relay n relative m).state.acks ≡ length n.state.acks)
relay-acks relative n m h = elim (Option-cases (sequence_of (decode_msg m))) [
  | inl other ↦ rw (other, relay-none n relative m other) (refl, refl)
  | inr (sequence, datagram) ↦
      rw (datagram, relay-some n relative m sequence datagram)
        (
          get_elem?-set_self n.state.acks relative sequence h,
          length-set n.state.acks relative sequence,
        )
]

or_else_assoc : (a b c : Option ℕ) → or_else a (or_else b c) ≡ or_else (or_else a b) c
or_else_assoc none b c = refl
or_else_assoc (some s) b c = refl

-- The ack of the follower's slot is the sequence number of its last datagram.
pub relay_all-acks :
    (relative : ℕ) (n : Node) (msgs : List (List ℕ))
    → relative < length n.state.acks
    → get_elem? (relay_all relative n msgs).state.acks relative
      ≡ or_else (last_sequence msgs) (get_elem? n.state.acks relative)
unfolding relay_all last_sequence
relay_all-acks relative n [] h = refl
relay_all-acks relative n (m ∷ ms) h =
    let (here, size) = relay-acks relative n m h in
    relay_all-acks relative (relay n relative m) ms (omega (arith, size))
    ∙ ap (or_else (last_sequence ms)) here
    ∙ or_else_assoc (last_sequence ms) (sequence_of (decode_msg m))
        (get_elem? n.state.acks relative)
