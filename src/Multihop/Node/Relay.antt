-- ===== src/Multihop/Node/Relay.antt =====
-- The handlers of the slots of a window: do_follower_send, emit_ch_messages, do_clusterhead_send and
-- do_clusterhead_recv of lib/net/src/multihop.cpp.
pub mod Heard
pub mod Forward
pub mod Queue
pub mod Hop
pub mod Acks
pub mod Emit
pub mod Closing
mod Tests
use lora_multihop.Prelude.{
  ℕ, zero, suc, ◌+◌, ◌-◌, ◌*◌, ◌==◌, Bool, false, ◌||◌, Option, none, some, List, [], ◌∷◌, ltb, leb,
  u8, sub8, length, set, if◌then◌else◌,
}
use lora_multihop.Lora.{LoraRc}
use lora_multihop.Link.{Link, LinkRc}
use lora_multihop.Link.Slots.{active_slot}
use lora_multihop.Link.Tx.{sendmsg, flush as link_flush}
use lora_multihop.Link.Rx.{Reception, recv, getmsg}
use lora_multihop.Link.Code.{set_cdma_code}
use lora_multihop.Multihop.Messages.{MessageType, Header, Message, decode_msg}
use lora_multihop.Multihop.State.{MultihopState}
use lora_multihop.Multihop.Node.{Node, NodeRc, vtdma_window_size, close_cluster}
use lora_multihop.Multihop.Node.Election.{announce_clusterhead}
use lora_multihop.Multihop.Node.Timing.{flush}
use lora_multihop.Multihop.Node.Data.{send_acks}

-- `slot == n` of an active slot, where -1 is no slot.
abbrev pub is_slot : Option ℕ → ℕ → Bool
is_slot none n = false
is_slot (some slot) n = slot == n

abbrev pub with_code : Node → ℕ → Node
with_code n id = record n { link = (set_cdma_code n.link id).0 }

-- `do_follower_send`: `slot_now`, `now` and `hdr_now` are the clock's values for active_slot and flush.
unfoldable pub do_follower_send : Node → ℕ → ℕ → ℕ → (List ℕ → LoraRc) → Node × NodeRc
do_follower_send n slot_now now hdr_now radio =
    let (link, slot) = active_slot n.link slot_now in
    let here = record n { link = link } in
    if is_slot slot (u8 (n.state.upstream_start_slot + n.state.upstream_relative_slot))
    then (let coded = with_code here n.state.upstream_relative_slot in
        let (flushed, rc, frame) = link_flush coded.link now hdr_now radio in
        (
          record coded { link = flushed },
          elim rc [ LinkRc.ok ↦ NodeRc.ok | _ ↦ NodeRc.link_error ],
        ))
    else (here, NodeRc.invalid_slot)

-- The loop of `emit_ch_messages` over the acks, with the rounds left; `clock k` is what the round with
-- `k` left after it reads.
unfoldable pub ack_loop : ℕ → Node → (ℕ → ℕ) → ℕ → Node
ack_loop zero n clock ack_start = n
ack_loop (suc k) n clock ack_start =
    let (sent, rc, ack_end) = send_acks n (clock k) ack_start in
    if ltb ack_start n.state.slots_assigned
    then elim rc [
      | NodeRc.ok ↦ elim ack_end [ none ↦ sent | some end ↦ ack_loop k sent clock end ]
      | _ ↦ sent
    ]
    else n

-- `emit_ch_messages`: a round of the loop queues at least 9 bytes, so that a round for each byte of the
-- buffer and one more are enough.
unfoldable pub emit_ch_messages : Node → (ℕ → ℕ) → ℕ → ℕ → ℕ → ℕ → (List ℕ → LoraRc) → Node × NodeRc
emit_ch_messages n clock random close_now now hdr_now radio =
    let coded = with_code n 0 in
    let acked = ack_loop (coded.link.params.tx_sz + 1) coded clock 0 in
    let closed = (close_cluster acked close_now (announce_clusterhead acked.state random)).0 in
    flush closed now hdr_now radio

-- The last slot of the node's window.
abbrev pub last_slot : Node → ℕ
last_slot n = sub8 (n.state.downstream_start_slot + vtdma_window_size n.mac) 1

unfoldable pub do_clusterhead_send :
    Node → ℕ → (ℕ → ℕ) → ℕ → ℕ → ℕ → ℕ → (List ℕ → LoraRc) → Node × NodeRc
do_clusterhead_send n slot_now clock random close_now now hdr_now radio =
    let (link, slot) = active_slot n.link slot_now in
    let here = record n { link = link } in
    if is_slot slot (last_slot n)
    then emit_ch_messages here clock random close_now now hdr_now radio
    else (here, NodeRc.invalid_slot)

-- What `do_clusterhead_recv` does with a message of the frame.
unfoldable pub relay : Node → ℕ → List ℕ → Node
relay n relative buf = elim (decode_msg buf) [
  | none ↦ n
  | some msg ↦ elim msg.hdr.type [
    | MessageType.datagram ↦ record n {
      state = record (n.state) { acks = set n.state.acks relative msg.hdr.sequence };
      link = (sendmsg n.link buf (length buf)).0;
    }
    | _ ↦ n
  ]
]

-- Its loop over the messages of a frame, whose number is a byte.
unfoldable pub relay_loop : ℕ → Node → ℕ → Node
relay_loop zero n relative = n
relay_loop (suc k) n relative =
    let (link, rc, out) = getmsg n.link in
    let here = record n { link = link } in
    elim out [ none ↦ here | some buf ↦ relay_loop k (relay here relative buf) relative ]

-- Its last part, after the answer of recv.
unfoldable pub relay_frame : Node → ℕ → LinkRc → Node × NodeRc
relay_frame n relative LinkRc.ok = (relay_loop 256 n relative, NodeRc.ok)
relay_frame n relative LinkRc.timed_out = (n, NodeRc.no_data)
relay_frame n relative _ = (n, NodeRc.link_error)

-- Whether the active slot is one in which the node listens to a follower.
unfoldable pub listens : Node → ℕ → Bool
listens n slot =
    if leb slot n.state.downstream_start_slot || leb (last_slot n) slot
    then false
    else ltb (u8 (slot - n.state.downstream_start_slot)) n.state.slots_assigned

-- `do_clusterhead_recv`: `slot_now` and `now` are the clock's values for active_slot and recv.
unfoldable pub do_clusterhead_recv : Node → ℕ → ℕ → (ℕ → Reception) → Node × NodeRc
do_clusterhead_recv n slot_now now radio =
    let (link, active) = active_slot n.link slot_now in
    let here = record n { link = link } in
    elim active [
      | none ↦ (here, NodeRc.invalid_slot)
      | some slot ↦
          if listens n slot
          then (let relative = u8 (slot - n.state.downstream_start_slot) in
              let coded = with_code here relative in
              let (heard, rc) = recv coded.link now radio in
              relay_frame (record coded { link = heard }) relative rc)
          else (here, NodeRc.invalid_slot)
    ]
