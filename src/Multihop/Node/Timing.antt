-- ===== src/Multihop/Node/Timing.antt =====
-- When a node's slots come, and the flush of its queue: epoch_and_offset, advertisement_slot,
-- clusterhead_slot, my_slot and flush of lib/net/src/multihop.cpp.
use lora_multihop.Prelude.{ℕ, ◌+◌, ◌==◌, Option, none, some, List, u8, if◌then◌else◌}
use lora_multihop.Net.{unknown_addr}
use lora_multihop.Lora.{LoraRc}
use lora_multihop.Link.{LinkRc}
use lora_multihop.Link.Slots.{epoch_and_offset as link_epoch_and_offset}
use lora_multihop.Link.Tx.{flush as link_flush}
use lora_multihop.Multihop.State.{MultihopState, initialized}
use lora_multihop.Multihop.Node.{Node, NodeRc}

-- `get_state`; `none` is the null pointer.
unfoldable pub get_state : Node → Option MultihopState
get_state n = if initialized n.state then some n.state else none

abbrev pub slot_result : LinkRc → NodeRc
slot_result LinkRc.ok = NodeRc.ok
slot_result LinkRc.not_init = NodeRc.not_init
slot_result LinkRc.invalid_slot = NodeRc.invalid_slot
slot_result LinkRc.not_in_window = NodeRc.not_in_window
slot_result _ = NodeRc.link_error

unfoldable pub epoch_and_offset : Node → ℕ → ℕ → Node × NodeRc × Option (ℕ × ℕ)
epoch_and_offset n slot now =
    if initialized n.state
    then (let (link, rc, out) = link_epoch_and_offset n.link slot now in
        (record n { link = link }, slot_result rc, out))
    else (n, NodeRc.not_init, none)

abbrev pub advertisement_number : ℕ
advertisement_number = 0

unfoldable pub advertisement_slot : Node → ℕ → Node × NodeRc × Option (ℕ × ℕ)
advertisement_slot n now = epoch_and_offset n advertisement_number now

unfoldable pub clusterhead_slot : Node → ℕ → Node × NodeRc × Option (ℕ × ℕ)
clusterhead_slot n now =
    if unknown_addr == n.state.clusterhead_addr
    then (n, NodeRc.no_clusterhead, none)
    else epoch_and_offset n n.state.downstream_start_slot now

unfoldable pub my_slot : Node → ℕ → Node × NodeRc × Option (ℕ × ℕ)
my_slot n now =
    if unknown_addr == n.state.clusterhead_addr
    then (n, NodeRc.no_clusterhead, none)
    else epoch_and_offset n (u8 (n.state.upstream_start_slot + n.state.upstream_relative_slot)) now

abbrev pub flush_result : LinkRc → NodeRc
flush_result LinkRc.ok = NodeRc.ok
flush_result LinkRc.not_in_window = NodeRc.not_in_window
flush_result _ = NodeRc.link_error

-- `flush`, with the two reads of the clock and the radio's answer of the link layer's flush.
unfoldable pub flush : Node → ℕ → ℕ → (List ℕ → LoraRc) → Node × NodeRc
flush n now hdr_now radio =
    if initialized n.state
    then (let (link, rc, frame) = link_flush n.link now hdr_now radio in
        (record n { link = link }, flush_result rc))
    else (n, NodeRc.not_init)
