-- ===== src/Multihop/Node/Follower.antt =====
-- A follower that listens to its clusterhead: do_follower_recv of lib/net/src/multihop.cpp.
pub mod Acked
pub mod Heard
use lora_multihop.Prelude.{
  ℕ, zero, suc, ◌+◌, ◌-◌, ◌*◌, ◌==◌, Bool, true, false, ◌&&◌, ◌||◌, not, Option, none, some, List,
  [], ◌∷◌, ltb, leb, u8, set, byte_at, of_le32, if◌then◌else◌,
}
use lora_multihop.Net.{Address, unknown_addr}
use lora_multihop.Link.{LinkRc}
use lora_multihop.Link.Slots.{active_slot}
use lora_multihop.Link.Rx.{Reception, recv, getmsg}
use lora_multihop.Multihop.{unknown_ring}
use lora_multihop.Multihop.Messages.{Body, Header, Message, decode_msg}
use lora_multihop.Multihop.State.{MultihopState}
use lora_multihop.Multihop.Node.{Node, NodeRc}
use lora_multihop.Multihop.Node.Relay.{is_slot, with_code}

-- The ack at a place of a SendAcks message.
abbrev pub ack_at : List ℕ → ℕ → ℕ
ack_at buf k =
    let i = 8 + k * 4 in
    of_le32 (byte_at buf i) (byte_at buf (i + 1)) (byte_at buf (i + 2)) (byte_at buf (i + 3))

-- The node's own ack, if it is in the range of the message.
unfoldable pub take_ack : MultihopState → ℕ → ℕ → List ℕ → MultihopState
take_ack s start end buf =
    let slot = s.upstream_relative_slot in
    if ltb slot end && leb start slot
    then record s { acks = set s.acks 0 (ack_at buf (slot - start)) }
    else s

unfoldable pub take_nomination : MultihopState → Address → MultihopState
take_nomination s nomination =
    if not (nomination == unknown_addr)
    then record s { clusterhead_addr = nomination }
    else record s { clusterhead_addr = unknown_addr; clusterhead_ring = unknown_ring }

-- What is done with a message that decode_msg has accepted, and whether the node is still waiting for
-- one of its clusterhead.
unfoldable pub hear_message : MultihopState → Bool → List ℕ → Option Message → MultihopState × Bool
hear_message s waiting buf none = (s, waiting)
hear_message s waiting buf (some msg) = elim msg.body [
  | Body.send_acks start end ↦ (take_ack s start end buf, false)
  | Body.close_cluster nomination neighbors ↦ (take_nomination s nomination, false)
  | _ ↦ (s, waiting)
]

abbrev pub hear_clusterhead : MultihopState → Bool → List ℕ → MultihopState × Bool
hear_clusterhead s waiting buf = hear_message s waiting buf (decode_msg buf)

-- The loop over the messages of a frame, whose number is a byte.
unfoldable pub hear_loop : ℕ → Node → Bool → Node × Bool
hear_loop zero n waiting = (n, waiting)
hear_loop (suc k) n waiting =
    let (link, rc, out) = getmsg n.link in
    elim out [
      | none ↦ (record n { link = link }, waiting)
      | some buf ↦
          let (s, still) = hear_clusterhead n.state waiting buf in
          hear_loop k (record n { state = s; link = link }) still
    ]

-- What a round of the outer loop reads: the clock in recv, the radio, and the clock in active_slot.
pub record Round : Type 0 where
  pub recv_now : ℕ
  pub radio : ℕ → Reception
  pub slot_now : ℕ

-- The outer loop, over what its rounds read.
unfoldable pub follower_rounds : ℕ → List Round → Node → Node × NodeRc
follower_rounds ch_slot [] n = (n, NodeRc.no_data)
follower_rounds ch_slot (r ∷ rs) n =
    let (link, rc) = recv n.link r.recv_now r.radio in
    let heard = record n { link = link } in
    let (read, waiting) = hear_loop 256 heard true in
    let (later, slot) = active_slot read.link r.slot_now in
    let next = follower_rounds ch_slot rs (record read { link = later }) in
    elim rc [
      | LinkRc.ok ↦
          if waiting
          then (if is_slot slot ch_slot
              then next
              else (record read { link = later }, NodeRc.no_data))
          else (read, NodeRc.ok)
      | LinkRc.timed_out ↦ (heard, NodeRc.no_data)
      | _ ↦ (heard, NodeRc.link_error)
    ]

-- `do_follower_recv`, with the clock's value for its first active_slot.
unfoldable pub do_follower_recv : Node → ℕ → List Round → Node × NodeRc
do_follower_recv n slot_now rounds =
    if unknown_addr == n.state.clusterhead_addr
    then (n, NodeRc.no_clusterhead)
    else (let (link, slot) = active_slot n.link slot_now in
        let here = record n { link = link } in
        if is_slot slot n.state.upstream_ack_slot
        then follower_rounds n.state.upstream_ack_slot rounds (with_code here 0)
        else (here, NodeRc.invalid_slot))
