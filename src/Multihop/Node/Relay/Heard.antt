-- ===== src/Multihop/Node/Relay/Heard.antt =====
-- In which slots a clusterhead hears its followers, by lib/net/src/multihop.cpp.
use lora_multihop.Prelude.{
  ℕ, ◌+◌, ◌-◌, ◌<◌, ◌≡◌, ◌≢◌, ap, sym, ◌∙◌, false, Bool-cases, inl, inr, ◌↔◌, true, some, arith,
}
use lora_multihop.Link.{LinkRc}
use lora_multihop.Link.Slots.{active_slot}
use lora_multihop.Link.Rx.{Reception}
use lora_multihop.Multihop.Node.{Node, NodeRc, vtdma_window_size}
use lora_multihop.Multihop.Node.Slots.Unique.{IsAssigned}
use lora_multihop.Multihop.Node.Relay.Hop.{do_clusterhead_recv-relay_frame}
use lora_multihop.Multihop.Node.Relay.{listens, do_clusterhead_recv, relay_frame}

listens_iff :
    (n : Node) (slot : ℕ)
    → IsAssigned n.state n.mac
    → n.state.downstream_start_slot + vtdma_window_size n.mac < 256
    → slot < 256
    → (listens n slot ≡ true) ↔ (
        (n.state.downstream_start_slot < slot)
        × (slot + 1 < n.state.downstream_start_slot + vtdma_window_size n.mac)
        × (slot - n.state.downstream_start_slot < n.state.slots_assigned))
unfolding listens
listens_iff n slot v fits byte = ground (arith, v.some_slot, v.window)

relay_frame-listened :
    (n : Node) (relative : ℕ) (rc : LinkRc) → (relay_frame n relative rc).1 ≢ NodeRc.invalid_slot
unfolding relay_frame
relay_frame-listened n relative LinkRc.ok = λ e. cc (e)
relay_frame-listened n relative _ = λ e. cc (e)

do_clusterhead_recv-unheard :
    (n : Node) (slot_now now slot : ℕ) (radio : ℕ → Reception)
    → (active_slot n.link slot_now).1 ≡ some slot
    → listens n slot ≡ false
    → (do_clusterhead_recv n slot_now now radio).1 ≡ NodeRc.invalid_slot
unfolding do_clusterhead_recv
do_clusterhead_recv-unheard n slot_now now slot radio here deaf = ground (arith, here, deaf)

do_clusterhead_recv-heard :
    (n : Node) (slot_now now slot : ℕ) (radio : ℕ → Reception)
    → (active_slot n.link slot_now).1 ≡ some slot
    → listens n slot ≡ true
    → (do_clusterhead_recv n slot_now now radio).1 ≢ NodeRc.invalid_slot
do_clusterhead_recv-heard n slot_now now slot radio here hears = λ e. relay_frame-listened _ _ _ (
    ap (λ (x : Node × NodeRc). x.1)
      (sym (do_clusterhead_recv-relay_frame n slot_now now radio slot here hears))
    ∙ e)

-- With well-formed slots and a window whose slots have numbers of one byte, do_clusterhead_recv in an active slot
-- answers with something else than InvalidSlot exactly if the slot lies behind the first and before the last slot of the window, and
-- has been given out.
pub do_clusterhead_recv_iff :
    (n : Node) (slot_now now slot : ℕ) (radio : ℕ → Reception)
    → IsAssigned n.state n.mac
    → n.state.downstream_start_slot + vtdma_window_size n.mac < 256
    → slot < 256
    → (active_slot n.link slot_now).1 ≡ some slot
    → ((do_clusterhead_recv n slot_now now radio).1 ≢ NodeRc.invalid_slot) ↔ (
        (n.state.downstream_start_slot < slot)
        × (slot + 1 < n.state.downstream_start_slot + vtdma_window_size n.mac)
        × (slot - n.state.downstream_start_slot < n.state.slots_assigned))
do_clusterhead_recv_iff n slot_now now slot radio v fits byte here =
    let conditions = listens_iff n slot v fits byte in
    elim (Bool-cases (listens n slot)) [
      | inl hears ↦ (
        λ answered. conditions.0 hears,
        λ h. do_clusterhead_recv-heard n slot_now now slot radio here hears,
      )
      | inr deaf ↦ (
        λ answered.
            absurd (answered (do_clusterhead_recv-unheard n slot_now now slot radio here deaf)),
        λ h. absurd (cc (conditions.1 h, deaf)),
      )
    ]
