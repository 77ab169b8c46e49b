-- ===== src/Multihop/Main/Base.antt =====
-- Which operations of lib/net/src/multihop.cpp leave what the slots of a node rest on as it is: those that wait for
-- a slot, send, and relay.
use lora_multihop.Prelude.{
  ℕ, zero, suc, ◌≡◌, refl, sym, ap, subst, ◌∙◌, Bool, true, false, Option, none, some, List, [],
  ◌∷◌, arith, ◌==◌, leb, ltb, if◌then◌else◌,
}
use lora_multihop.Net.{MacParams, unknown_addr}
use lora_multihop.Lora.{LoraRc}
use lora_multihop.Link.{LinkRc}
use lora_multihop.Link.Rx.{Reception, getmsg}
use lora_multihop.Link.Slots.{active_slot}
use lora_multihop.Link.Tx.{tx_bytes_available}
use lora_multihop.Multihop.Messages.{Datagram, Message}
use lora_multihop.Multihop.Datagram.{DatagramIterator, next}
use lora_multihop.Multihop.State.{initialized, acts_as_clusterhead}
use lora_multihop.Multihop.Node.{Node, NodeRc, send, close_cluster}
use lora_multihop.Multihop.Node.Timing.{flush, epoch_and_offset, my_slot}
use lora_multihop.Multihop.Node.Data.{acks_msg_size, send_acks, send_fragment, send_datagram}
use lora_multihop.Multihop.Node.Relay.{
  do_follower_send, ack_loop, emit_ch_messages, do_clusterhead_send, relay, relay_loop, relay_frame,
  listens, do_clusterhead_recv,
}
use lora_multihop.Multihop.Phases.Advertise.Slots.{Fields, IsHeld, fields, IsHeld-same}

-- What of a node its slots rest on.
abbrev pub Base : Type 0
Base = Fields × MacParams

abbrev pub base : Node → Base
base n = (fields n.state, n.mac)

pub base-IsHeld : (n m : Node) → base m ≡ base n → IsHeld n.state n.mac → IsHeld m.state m.mac
base-IsHeld n m e v =
    subst (IsHeld m.state) (sym (ap (λ (k : Base). k.1) e))
      (IsHeld-same n.state m.state n.mac (ap (λ (k : Base). k.0) e) v)

send-base : (n : Node) (msg : Message) (bs : List ℕ) → base (send n msg bs).0 ≡ base n
unfolding send
send-base n msg [] = refl
send-base n msg (b ∷ bs) = refl

-- Both branches of a test give what the test as a whole gives.
pub either : {A : Type 0} (Q : A → Type 0) (b : Bool) (x y : A) → Q x → Q y → Q (if b then x else y)
either Q true x y p q = p
either Q false x y p q = q

pub epoch_and_offset-base :
    (n : Node) (slot now : ℕ) → base (epoch_and_offset n slot now).0 ≡ base n
unfolding epoch_and_offset
epoch_and_offset-base n slot now = ground arith

pub my_slot-base : (n : Node) (now : ℕ) → base (my_slot n now).0 ≡ base n
unfolding my_slot
my_slot-base n now =
    either (λ (x : Node × NodeRc × Option (ℕ × ℕ)). base x.0 ≡ base n)
      (unknown_addr == n.state.clusterhead_addr) _ _ refl (epoch_and_offset-base n _ now)

flush-base :
    (n : Node) (now hdr_now : ℕ) (radio : List ℕ → LoraRc)
    → base (flush n now hdr_now radio).0 ≡ base n
unfolding flush
flush-base n now hdr_now radio = ground arith

send_acks-base : (n : Node) (now start : ℕ) → base (send_acks n now start).0 ≡ base n
unfolding send_acks
send_acks-base n now start =
    either (λ (x : Node × NodeRc × Option ℕ). base x.0 ≡ base n) (initialized n.state) _ _
      (either (λ (x : Node × NodeRc × Option ℕ). base x.0 ≡ base n)
        (leb (tx_bytes_available n.link) acks_msg_size) _ _ refl (send-base n _ _))
      refl

close_cluster-base :
    (n : Node) (now : ℕ) (again : Bool) → base (close_cluster n now again).0 ≡ base n
unfolding close_cluster send
close_cluster-base n now again = ground arith

pub do_follower_send-base :
    (n : Node) (slot_now now hdr_now : ℕ) (radio : List ℕ → LoraRc)
    → base (do_follower_send n slot_now now hdr_now radio).0 ≡ base n
unfolding do_follower_send
do_follower_send-base n slot_now now hdr_now radio = ground arith

send_fragment-base :
    (n : Node) (it : DatagramIterator) (now : ℕ) (d : Datagram) (bytes : List ℕ)
    → base (send_fragment n it now d bytes).0 ≡ base n
unfolding send_fragment
send_fragment-base n it now d bytes =
    either (λ (x : Node × DatagramIterator × NodeRc). base x.0 ≡ base n)
      (ltb (tx_bytes_available n.link) it.last_msg_sz) _ _ refl (send-base n _ _)

read-base :
    (n : Node) (it : DatagramIterator) (now : ℕ) (out : Option (Datagram × List ℕ))
    → base
        (elim out as (λ x. Node × DatagramIterator × NodeRc) [
          | none ↦ (n, it, NodeRc.no_data)
          | some (d, bytes) ↦ send_fragment n it now d bytes
        ]).0
      ≡ base n
read-base n it now none = refl
read-base n it now (some (d, bytes)) = send_fragment-base n it now d bytes

pub send_datagram-base :
    (n : Node) (it : DatagramIterator) (now : ℕ) → base (send_datagram n it now).0 ≡ base n
unfolding send_datagram
send_datagram-base n it now =
    either (λ (x : Node × DatagramIterator × NodeRc). base x.0 ≡ base n) (initialized n.state) _ _
      (read-base n (next it).0 now (next it).1) refl

relay-base : (n : Node) (relative : ℕ) (buf : List ℕ) → base (relay n relative buf) ≡ base n
unfolding relay acts_as_clusterhead
relay-base n relative buf = ground arith

next_acks-base :
    (n sent : Node) (rc : NodeRc) (end : Option ℕ) (rest : ℕ → Node)
    → base sent ≡ base n
    → ((e : ℕ) → base (rest e) ≡ base sent)
    → base (elim rc as (λ x. Node) [
      | NodeRc.ok ↦ elim end as (λ x. Node) [ none ↦ sent | some e ↦ rest e ]
      | _ ↦ sent
    ])
      ≡ base n
next_acks-base n sent NodeRc.ok none rest p q = p
next_acks-base n sent NodeRc.ok (some e) rest p q = q e ∙ p
next_acks-base n sent _ end rest p q = p

ack_loop-base :
    (k : ℕ) (n : Node) (clock : ℕ → ℕ) (start : ℕ) → base (ack_loop k n clock start) ≡ base n
unfolding ack_loop
ack_loop-base zero n clock start = refl
ack_loop-base (suc k) n clock start =
    let (sent, rc, end) = send_acks n (clock k) start in
    either (λ x. base x ≡ base n) (ltb start n.state.slots_assigned) _ _
      (next_acks-base n sent rc end (λ e. ack_loop k sent clock e)
        (send_acks-base n (clock k) start) (ack_loop-base k sent clock))
      refl

pub next_message-base :
    (n : Node) (out : Option (List ℕ)) (rest : List ℕ → Node)
    → ((buf : List ℕ) → base (rest buf) ≡ base n)
    → base (elim out as (λ x. Node) [ none ↦ n | some buf ↦ rest buf ]) ≡ base n
next_message-base n none rest p = refl
next_message-base n (some buf) rest p = p buf

relay_loop-base : (k : ℕ) (n : Node) (relative : ℕ) → base (relay_loop k n relative) ≡ base n
unfolding relay_loop
relay_loop-base zero n relative = refl
relay_loop-base (suc k) n relative =
    let (link, rc, out) = getmsg n.link in
    let here = record n { link = link } in
    next_message-base here out (λ buf. relay_loop k (relay here relative buf) relative)
      (λ buf. relay_loop-base k (relay here relative buf) relative ∙ relay-base here relative buf)

relay_frame-base :
    (n : Node) (relative : ℕ) (rc : LinkRc) → base (relay_frame n relative rc).0 ≡ base n
unfolding relay_frame
relay_frame-base n relative LinkRc.ok = relay_loop-base 256 n relative
relay_frame-base n relative LinkRc.timed_out = refl
relay_frame-base n relative _ = refl

heard_slot-base :
    (n : Node) (active : Option ℕ) (rest : ℕ → Node × NodeRc)
    → ((slot : ℕ) → base (rest slot).0 ≡ base n)
    → base
        (elim active as (λ x. Node × NodeRc) [
          | none ↦ (n, NodeRc.invalid_slot)
          | some slot ↦ rest slot
        ]).0
      ≡ base n
heard_slot-base n none rest p = refl
heard_slot-base n (some slot) rest p = p slot

pub do_clusterhead_recv-base :
    (n : Node) (slot_now now : ℕ) (radio : ℕ → Reception)
    → base (do_clusterhead_recv n slot_now now radio).0 ≡ base n
unfolding do_clusterhead_recv
do_clusterhead_recv-base n slot_now now radio =
    let (link, active) = active_slot n.link slot_now in
    heard_slot-base (record n { link = link }) active _
      (λ slot.
        either (λ (x : Node × NodeRc). base x.0 ≡ base n) (listens n slot) _ _
          (relay_frame-base _ _ _) refl)

pub do_clusterhead_send-base :
    (n : Node) (slot_now : ℕ) (clock : ℕ → ℕ) (random close_now now hdr_now : ℕ)
    (radio : List ℕ → LoraRc)
    → base (do_clusterhead_send n slot_now clock random close_now now hdr_now radio).0 ≡ base n
unfolding do_clusterhead_send emit_ch_messages
do_clusterhead_send-base n slot_now clock random close_now now hdr_now radio =
    either (λ (x : Node × NodeRc). base x.0 ≡ base n) _ _ _
      (flush-base _ now hdr_now radio
        ∙ close_cluster-base _ close_now _
        ∙ ack_loop-base _ _ clock 0)
      refl
