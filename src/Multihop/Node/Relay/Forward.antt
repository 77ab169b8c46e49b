-- ===== src/Multihop/Node/Relay/Forward.antt =====
-- do_clusterhead_recv of lib/net/src/multihop.cpp forwards while it reads: the two do not disturb each other.
use lora_multihop.Prelude.{
  ℕ, zero, suc, ◌≡◌, refl, sym, ap, ◌∙◌, Option, none, some, List, [], ◌∷◌, length, take, set, u8,
  arith,
}
use lora_multihop.Link.{Link, LinkRc}
use lora_multihop.Link.Tx.{MessageVec, sendmsg, sendmsg_vec, store, tx_bytes_available}
use lora_multihop.Link.Rx.{getmsg, getmsg_at, drain}
use lora_multihop.Multihop.Messages.{Message, MessageType, decode_msg}
use lora_multihop.Multihop.Node.{Node}
use lora_multihop.Multihop.Node.Relay.{relay, relay_loop}

getmsg_at-sendmsg_vec :
    (s : Link) (c : ℕ) (v : MessageVec)
    → getmsg_at (sendmsg_vec s v).0 c
      ≡ ((sendmsg_vec (getmsg_at s c).0 v).0, (getmsg_at s c).1, (getmsg_at s c).2)
unfolding getmsg_at sendmsg_vec tx_bytes_available store
getmsg_at-sendmsg_vec s c v = ground arith

sendmsg_vec-rx_cursor :
    (s : Link) (v : MessageVec) → (sendmsg_vec s v).0.state.rx_cursor ≡ s.state.rx_cursor
unfolding sendmsg_vec store
sendmsg_vec-rx_cursor s v = ground arith

-- What getmsg gives, at a cursor.
abbrev read_at : Option ℕ → Link → Link × LinkRc × Option (List ℕ)
read_at none s = (s, LinkRc.no_msg, none)
read_at (some c) s = getmsg_at s c

abbrev sent : MessageVec → Link × LinkRc × Option (List ℕ) → Link × LinkRc × Option (List ℕ)
sent v (s, rc, out) = ((sendmsg_vec s v).0, rc, out)

getmsg-read_at : (s : Link) → getmsg s ≡ read_at s.state.rx_cursor s
unfolding getmsg
getmsg-read_at s = ground arith

read_at-sendmsg_vec :
    (s : Link) (c : Option ℕ) (v : MessageVec)
    → read_at c (sendmsg_vec s v).0 ≡ sent v (read_at c s)
read_at-sendmsg_vec s none v = refl
read_at-sendmsg_vec s (some c) v = getmsg_at-sendmsg_vec s c v

getmsg-sendmsg_vec : (s : Link) (v : MessageVec) → getmsg (sendmsg_vec s v).0 ≡ sent v (getmsg s)
getmsg-sendmsg_vec s v =
    getmsg-read_at (sendmsg_vec s v).0
    ∙ ap (λ c. read_at c (sendmsg_vec s v).0) (sendmsg_vec-rx_cursor s v)
    ∙ read_at-sendmsg_vec s s.state.rx_cursor v
    ∙ ap (sent v) (sym (getmsg-read_at s))

-- The rest of drain after a getmsg.
abbrev Drained : Type 0
Drained = Link × LinkRc × List (List ℕ)

abbrev drained : ℕ → Link × LinkRc × Option (List ℕ) → Drained
drained k (s, rc, none) = (s, rc, [])
drained k (s, rc, some m) = let (t, e, ms) = drain k s in (t, e, m ∷ ms)

abbrev sent_all : MessageVec → Drained → Drained
sent_all v (s, rc, ms) = ((sendmsg_vec s v).0, rc, ms)

drain-drained : (k : ℕ) (s : Link) → drain (suc k) s ≡ drained k (getmsg s)
unfolding drain
drain-drained k s = ground arith

drained-sendmsg_vec :
    (k : ℕ) (x : Link × LinkRc × Option (List ℕ)) (v : MessageVec)
    → ((s : Link) → drain k (sendmsg_vec s v).0 ≡ sent_all v (drain k s))
    → drained k (sent v x) ≡ sent_all v (drained k x)
drained-sendmsg_vec k (s, rc, none) v rest = refl
drained-sendmsg_vec k (s, rc, some m) v rest = ap (λ (d : Drained). (d.0, d.1, m ∷ d.2)) (rest s)

drain-sendmsg_vec :
    (k : ℕ) (v : MessageVec) (s : Link) → drain k (sendmsg_vec s v).0 ≡ sent_all v (drain k s)
unfolding drain
drain-sendmsg_vec zero v s = refl
drain-sendmsg_vec (suc k) v s =
    drain-drained k (sendmsg_vec s v).0
    ∙ ap (drained k) (getmsg-sendmsg_vec s v)
    ∙ drained-sendmsg_vec k (getmsg s) v (drain-sendmsg_vec k v)
    ∙ ap (sent_all v) (sym (drain-drained k s))

-- The messages relayed one after the other.
unfoldable pub relay_all : ℕ → Node → List (List ℕ) → Node
relay_all relative n [] = n
relay_all relative n (buf ∷ bufs) = relay_all relative (relay n relative buf) bufs

-- The node with its frame read.
abbrev pub read_all : ℕ → Node → Node × List (List ℕ)
read_all k n = let (link, rc, bufs) = drain k n.link in (record n { link = link }, bufs)

-- What relay does, by the type of the message and by what decode_msg has answered.
abbrev by_type : Node → ℕ → List ℕ → ℕ → MessageType → Node
by_type n relative buf sequence MessageType.datagram = record n {
  state = record (n.state) { acks = set n.state.acks relative sequence };
  link = (sendmsg_vec n.link (take (u8 (length buf)) buf ∷ [])).0;
}
by_type n relative buf sequence _ = n

abbrev by_message : Node → ℕ → List ℕ → Option Message → Node
by_message n relative buf none = n
by_message n relative buf (some msg) = by_type n relative buf msg.hdr.sequence msg.hdr.type

relay-by_message :
    (n : Node) (relative : ℕ) (buf : List ℕ)
    → relay n relative buf ≡ by_message n relative buf (decode_msg buf)
unfolding relay sendmsg
relay-by_message n relative buf = refl

read_all-by_type :
    (k : ℕ) (n : Node) (relative : ℕ) (buf : List ℕ) (sequence : ℕ) (type : MessageType)
    → read_all k (by_type n relative buf sequence type)
      ≡ (by_type (read_all k n).0 relative buf sequence type, (read_all k n).1)
read_all-by_type k n relative buf sequence MessageType.datagram =
    ap
      (λ (d : Drained). (
        record n {
          state = record (n.state) { acks = set n.state.acks relative sequence };
          link = d.0;
        },
        d.2,
      ))
      (drain-sendmsg_vec k (take (u8 (length buf)) buf ∷ []) n.link)
read_all-by_type k n relative buf sequence _ = refl

read_all-by_message :
    (k : ℕ) (n : Node) (relative : ℕ) (buf : List ℕ) (msg : Option Message)
    → read_all k (by_message n relative buf msg)
      ≡ (by_message (read_all k n).0 relative buf msg, (read_all k n).1)
read_all-by_message k n relative buf none = refl
read_all-by_message k n relative buf (some msg) =
    read_all-by_type k n relative buf msg.hdr.sequence msg.hdr.type

-- Relaying a message, then reading the rest of the frame, is reading it and then relaying.
read_all-relay :
    (k : ℕ) (n : Node) (relative : ℕ) (buf : List ℕ)
    → read_all k (relay n relative buf) ≡ (relay (read_all k n).0 relative buf, (read_all k n).1)
read_all-relay k n relative buf =
    ap (read_all k) (relay-by_message n relative buf)
    ∙ read_all-by_message k n relative buf (decode_msg buf)
    ∙ ap (λ m. (m, (read_all k n).1)) (sym (relay-by_message (read_all k n).0 relative buf))

abbrev loop_after : ℕ → Node → ℕ → Option (List ℕ) → Node
loop_after k here relative none = here
loop_after k here relative (some buf) = relay_loop k (relay here relative buf) relative

abbrev all_after : ℕ → Node → ℕ → LinkRc → Option (List ℕ) → Node
all_after k here relative rc out =
    let (link, e, bufs) = drained k (here.link, rc, out) in
    relay_all relative (record here { link = link }) bufs

relay_loop-after :
    (k : ℕ) (n : Node) (relative : ℕ)
    → relay_loop (suc k) n relative
      ≡ loop_after k (record n { link = (getmsg n.link).0 }) relative (getmsg n.link).2
unfolding relay_loop
relay_loop-after k n relative = refl

after-all :
    (k : ℕ) (here : Node) (relative : ℕ) (rc : LinkRc) (out : Option (List ℕ))
    → ((n : Node) → relay_loop k n relative ≡ relay_all relative (read_all k n).0 (read_all k n).1)
    → loop_after k here relative out ≡ all_after k here relative rc out
unfolding relay_all
after-all k here relative rc none rest = refl
after-all k here relative rc (some buf) rest =
    rest (relay here relative buf)
    ∙ ap (λ (x : Node × List (List ℕ)). relay_all relative x.0 x.1)
        (read_all-relay k here relative buf)

-- A clusterhead that relays each message of a frame as it reads it, in a loop of at most so many rounds, ends as if it
-- had first read that many messages of the frame, or all that there are, and then relayed them in their order.
pub relay_loop-relay_all :
    (k : ℕ) (n : Node) (relative : ℕ)
    → relay_loop k n relative ≡ relay_all relative (read_all k n).0 (read_all k n).1
unfolding relay_loop relay_all drain
relay_loop-relay_all zero n relative = refl
relay_loop-relay_all (suc k) n relative =
    after-all k (record n { link = (getmsg n.link).0 }) relative (getmsg n.link).1 (getmsg n.link).2
      (λ m. relay_loop-relay_all k m relative)
    ∙ ap (λ (d : Drained). relay_all relative (record n { link = d.0 }) d.2)
        (sym (drain-drained k n.link))
