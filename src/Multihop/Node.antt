-- ===== src/Multihop/Node.antt =====
-- lib/net/src/multihop.cpp: the node, its return codes, and how it queues a message. What the pointer MAC
-- points to is a value here, since nothing writes through it; the link layer has its own copy.
pub mod Slots
pub mod Election
pub mod Timing
pub mod Data
pub mod Relay
pub mod Follower
mod Tests
use lora_multihop.Prelude.{
  u32, sub32, ◌%◌, ℕ, ◌+◌, ◌-◌, ◌*◌, ◌/◌, ◌%◌, ◌==◌, Bool, true, false, List, [], ◌∷◌, ◌++◌, Option,
  none, some, ltb, leb, u8, sub64, length, replicate, drop, set, if◌then◌else◌,
}
use lora_multihop.Net.{Address, NodeParams, MacParams, LinkParams, gateway_addr, unknown_addr}
use lora_multihop.Lora.{LoraRc}
use lora_multihop.Link.{Link, LinkRc}
use lora_multihop.Link.Tx.{MessageVec, sendmsg, sendmsg_vec}
use lora_multihop.Multihop.{Ring}
use lora_multihop.Multihop.Messages.{MessageType, Header, Body, Message, encode, size}
use lora_multihop.Multihop.State.{
  MultihopState, initialized, clusterhead_probability, with_address, clusterhead_probability,
  with_acks_array,
}

pub data NodeRc : Type 0 where
  ok not_init no_data link_full link_error closed empty not_in_window not_my_turn : NodeRc
  invalid_slot no_clusterhead slots_full acks_array_len : NodeRc

-- STATE, MAC, and the statics of the link layer.
pub record Node : Type 0 where
  pub state : MultihopState
  pub mac : MacParams
  pub link : Link

abbrev pub adv_slots : ℕ
adv_slots = 1

unfoldable pub vtdma_window_size : MacParams → ℕ
vtdma_window_size mac = u8 ((mac.superframe_slot_count - adv_slots) / mac.reuse_distance)

-- `make_msg`, with the value of time::now() that make_header reads.
unfoldable pub make_msg : MultihopState → ℕ → MessageType → Body → Message
make_msg s now type body = record {
  hdr = record { sequence = now; src = s.address; type = type };
  body = body;
}

abbrev pub send_result : LinkRc → NodeRc
send_result LinkRc.ok = NodeRc.ok
send_result LinkRc.buf_size = NodeRc.link_full
send_result _ = NodeRc.link_error

-- `send`: the message, and the bytes behind it if there are any.
unfoldable pub send : Node → Message → List ℕ → Node × NodeRc
send n msg [] =
    let (link, rc) = sendmsg n.link (encode msg) (size msg) in
    (record n { link = link }, send_result rc)
send n msg (b ∷ bs) =
    let (link, rc) = sendmsg_vec n.link (encode msg ∷ (b ∷ bs) ∷ []) in
    (record n { link = link }, send_result rc)

unfoldable pub open_cluster : Node → ℕ → Node × NodeRc
open_cluster n now =
    if initialized n.state
    then send n
        (make_msg n.state now MessageType.open_cluster
          (Body.open_cluster n.state.ring n.state.address n.state.neighbors))
        []
    else (n, NodeRc.not_init)

unfoldable pub follow : Node → ℕ → Address → Node × NodeRc
follow n now clusterhead =
    if initialized n.state
    then send n (make_msg n.state now MessageType.follow (Body.follow clusterhead n.state.address))
        []
    else (n, NodeRc.not_init)

unfoldable pub close_cluster : Node → ℕ → Bool → Node × NodeRc
close_cluster n now renominate =
    if initialized n.state
    then send n
        (make_msg n.state now MessageType.close_cluster (
          Body.close_cluster (if renominate then n.state.address else unknown_addr)
            n.state.neighbors))
        []
    else (n, NodeRc.not_init)

unfoldable pub send_heartbeat : Node → ℕ → Node × NodeRc
send_heartbeat n now =
    if initialized n.state
    then send n (make_msg n.state now MessageType.heartbeat (Body.heartbeat n.state.ring)) []
    else (n, NodeRc.not_init)

unfoldable pub set_clusterhead_probability : Node → ℕ → Node
set_clusterhead_probability n p = record n { state = clusterhead_probability n.state p }

-- `rand_delay_ms`; `random` is what rand() returns.
unfoldable pub rand_delay_ms : ℕ → ℕ → ℕ → ℕ
rand_delay_ms random low high = u32 (u32 random % u32 (sub32 high low + 1) + low)
