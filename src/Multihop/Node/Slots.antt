-- ===== src/Multihop/Node/Slots.antt =====
-- The slots of a clusterhead: prepare_clusterhead, accept and init of lib/net/src/multihop.cpp.
pub mod Accept
pub mod Unique
pub mod Answer
pub mod Windows
use lora_multihop.Prelude.{
  ℕ, zero, suc, ◌+◌, ◌-◌, ◌*◌, ◌%◌, ◌==◌, Bool, true, false, List, [], ◌∷◌, ◌++◌, Option, none,
  some, ltb, leb, u8, sub64, drop, replicate, get_or, set, if◌then◌else◌,
}
use lora_multihop.Net.{Address, NodeParams, MacParams, LinkParams, gateway_addr}
use lora_multihop.Link.{Link, LinkRc, init as link_init}
use lora_multihop.Multihop.Messages.{MessageType, Body}
use lora_multihop.Multihop.State.{
  MultihopState, initialized, with_address, clusterhead_probability, with_acks_array,
}
use lora_multihop.Multihop.Node.{Node, NodeRc, adv_slots, vtdma_window_size, make_msg, send}

-- memset to 0 of the first `n` elements.
abbrev pub clear : ℕ → List ℕ → List ℕ
clear n xs = replicate n 0 ++ drop n xs

unfoldable pub prepare_clusterhead : MultihopState → MacParams → MultihopState
prepare_clusterhead s mac =
    let end = u8 (sub64 s.slot_count 1) in
    let inverted_index = u8 (mac.reuse_distance - 1 - s.ring % mac.reuse_distance) in
    record s {
      acks = clear s.slot_count s.acks;
      slot_assignments = set (clear s.slot_count s.slot_assignments) end s.address;
      slots_assigned = 1;
      downstream_start_slot = u8 (adv_slots + inverted_index * vtdma_window_size mac);
    }

-- The duplicate guard of `accept`: the first of the slots left, from `i` on, that is the follower's.
unfoldable pub find_slot : ℕ → ℕ → List Address → Address → Option ℕ
find_slot zero i slots follower = none
find_slot (suc left) i slots follower =
    if get_or slots i 0 == follower then some i else find_slot left (i + 1) slots follower

-- An Accept for the slot; `body_now` and `now` are the two reads of the clock.
abbrev pub send_accept : Node → ℕ → ℕ → Bool → Address → ℕ → ℕ → Node × NodeRc
send_accept n body_now now accepted follower start_slot relative_slot =
    send n
      (make_msg n.state now MessageType.accept
        (Body.accept accepted follower start_slot relative_slot body_now))
      []

-- The next free slot given to the follower.
abbrev pub assign : Node → Address → Node
assign n follower = record n {
  state = record (n.state) {
    slot_assignments = set n.state.slot_assignments n.state.slots_assigned follower;
    slots_assigned = u8 (n.state.slots_assigned + 1);
  };
}

unfoldable pub accept : Node → ℕ → ℕ → Address → Node × NodeRc
accept n body_now now follower =
    if initialized n.state
    then elim (find_slot n.state.slots_assigned 0 n.state.slot_assignments follower) [
      | some i ↦ send_accept n body_now now true follower n.state.downstream_start_slot i
      | none ↦
          if leb (vtdma_window_size n.mac) n.state.slots_assigned
          then ((send_accept n body_now now false follower 0 0).0, NodeRc.slots_full)
          else send_accept (assign n follower) body_now now true follower
              n.state.downstream_start_slot n.state.slots_assigned
    ]
    else (n, NodeRc.not_init)

-- What `init` does once link::init has answered.
abbrev pub after_link :
    Node → NodeParams → MacParams → List ℕ → List Address → ℕ → ℕ → Link × LinkRc → Node × NodeRc
after_link n node mac acks slots slot_count p (link, LinkRc.ok) =
    let addressed = with_address n.state node.address in
    let placed = record addressed { slot_assignments = slots } in
    let ready = with_acks_array (clusterhead_probability placed p) acks slot_count in
    (
      record {
        state = if node.address == gateway_addr then prepare_clusterhead ready mac else ready;
        link = link;
        mac = mac;
      },
      NodeRc.ok,
    )
after_link n node mac acks slots slot_count p (link, _) =
    (record n { link = link }, NodeRc.link_error)

-- `init`, with the value of time::now() that link::init reads.
unfoldable pub init :
    Node → NodeParams → MacParams → LinkParams → List ℕ → List Address → ℕ → ℕ → ℕ → Node × NodeRc
init n node mac link acks slots slot_count p now =
    if ltb slot_count mac.superframe_slot_count
    then (n, NodeRc.acks_array_len)
    else after_link n node mac acks slots slot_count p (link_init n.link node mac link now)
