-- ===== src/Multihop/Node/Relay/Closing.antt =====
-- The frame of a clusterhead in the last slot of its window, by do_clusterhead_send of lib/net/src/multihop.cpp.
use lora_multihop.Prelude.{
  ℕ, suc, ◌+◌, ◌-◌, ◌^◌, ◌<◌, ◌≡◌, refl, ap, sym, subst, ◌∙◌, true, some, List, [], ◌∷◌, arith,
  append_assoc, ◌++◌,
}
use lora_multihop.Lora.{LoraRc}
use lora_multihop.Link.{LinkRc, update_window, in_active_window}
use lora_multihop.Link.Slots.{active_slot}
use lora_multihop.Link.Tx.{flush}
use lora_multihop.Link.Tx.Queue.{Queued}
use lora_multihop.Link.Tx.Filled.{IsFrame}
use lora_multihop.Link.Tx.Flush.{flush-Flushed}
use lora_multihop.Multihop.State.{MultihopState, initialized}
use lora_multihop.Multihop.Node.{Node, NodeRc, close_cluster}
use lora_multihop.Multihop.Node.Data.{ack_bytes}
use lora_multihop.Multihop.Node.Relay.{ack_loop, last_slot, emit_ch_messages, do_clusterhead_send}
use lora_multihop.Multihop.Node.Timing.{flush as node_flush}
use lora_multihop.Multihop.Node.Election.{announce_clusterhead}
use lora_multihop.Multihop.Node.Relay.Hop.{tuned, tuned-SameTx}
use lora_multihop.Multihop.Node.Relay.Emit.{
  Emitting, acked, acks_bytes, close_bytes, ack_loop-acked, closed_lem,
}
use lora_multihop.Link.Rx.Kept.{Queued-SameTx}
use lora_multihop.Link.Transfer.{frame_unique}
use lora_multihop.Multihop.Node.Relay.Acks.{send_sizes, all_acks}

-- The node before it flushes: with the clock's value for active_slot, on code 0, with its acks and its close_cluster queued.
abbrev pub closing : Node → ℕ → (ℕ → ℕ) → ℕ → ℕ → Node
closing n slot_now clock random close_now =
    let coded = tuned n slot_now 0 in
    let acked = ack_loop (coded.link.params.tx_sz + 1) coded clock 0 in
    (close_cluster acked close_now (announce_clusterhead acked.state random)).0

-- A clusterhead in the last slot of its window, whose radio takes each frame, and is handed this one.
pub record Emits (n : Node) (slot_now : ℕ) (clock : ℕ → ℕ) (random close_now now hdr_now : ℕ)
    (radio : List ℕ → LoraRc) (f : List ℕ) : Type 0 where
  pub active : (active_slot n.link slot_now).1 ≡ some (last_slot n)
  pub running :
      in_active_window (update_window (closing n slot_now clock random close_now).link now) now
      ≡ true
  pub takes : (g : List ℕ) → radio g ≡ LoraRc.okay
  pub handed : (flush (closing n slot_now clock random close_now).link now hdr_now radio).2 ≡ some f

do_clusterhead_send-flush :
    (n : Node) (slot_now : ℕ) (clock : ℕ → ℕ) (random close_now now hdr_now : ℕ)
    (radio : List ℕ → LoraRc)
    → (active_slot n.link slot_now).1 ≡ some (last_slot n)
    → let closed = closing n slot_now clock random close_now in
      initialized closed.state ≡ true
      → let (flushed, rc, frame) = flush closed.link now hdr_now radio in
        rc ≡ LinkRc.ok
        → do_clusterhead_send n slot_now clock random close_now now hdr_now radio
          ≡ (record closed { link = flushed }, NodeRc.ok)
unfolding do_clusterhead_send emit_ch_messages node_flush
do_clusterhead_send-flush n slot_now clock random close_now now hdr_now radio active prepared sent =
    ground (arith, active, prepared, sent)

-- The messages of the frame, with the values of the clock in them and of rand().
abbrev pub said : MultihopState → ℕ → ℕ → ℕ → List (List ℕ)
said s acks_now random close_now =
    acks_bytes s acks_now ∷ close_bytes s close_now (announce_clusterhead s random) ∷ []

module _ (n : Node) (slot_now : ℕ) (old : List (List ℕ)) (e : Emitting n old) where
  tuned-Emitting : Emitting (tuned n slot_now 0) old
  tuned-Emitting =
      let k = tuned-SameTx n slot_now 0 in
      record {
        prepared = e.prepared;
        started = k.initialized ∙ e.started;
        followers = e.followers;
        slots = e.slots;
        stored = e.stored;
        rings = e.rings;
        small = omega (arith, k.msg_max_bytes, e.small);
        longest = omega (arith, k.msg_max_bytes, e.longest);
        buffer = omega (arith, k.tx_sz, e.buffer);
        queued = Queued-SameTx k e.queued;
      }

  module _ (clock : ℕ → ℕ) (random close_now : ℕ) (fits : clock n.link.params.tx_sz < 2 ^ 32) where
    abbrev here : Node
    here = tuned n slot_now 0

    abbrev read : ℕ
    read = clock n.link.params.tx_sz

    ack_loop-here : ack_loop (here.link.params.tx_sz + 1) here clock 0 ≡ acked here read
    ack_loop-here =
        let same = (tuned-SameTx n slot_now 0).tx_sz in
        let rounds : here.link.params.tx_sz + 1 ≡ suc (suc (here.link.params.tx_sz - 1)) =
          omega (arith, tuned-Emitting.buffer) in
        let first : suc (here.link.params.tx_sz - 1) ≡ n.link.params.tx_sz =
          omega (arith, same, tuned-Emitting.buffer) in
        ap (λ (k : ℕ). ack_loop k here clock 0) rounds
        ∙ ack_loop-acked here old tuned-Emitting read fits (here.link.params.tx_sz - 1) clock
            (ap clock first)

    closing-acked :
        closing n slot_now clock random close_now
        ≡ (close_cluster (acked here read) close_now (announce_clusterhead n.state random)).0
    closing-acked =
        let (kept, _, _, _) = send_sizes here (all_acks n.state read) (ack_bytes n.state.acks) in
        ap (λ (m : Node). (close_cluster m close_now (announce_clusterhead m.state random)).0)
          ack_loop-here
        ∙ ap
            (λ (k : MultihopState).
              (close_cluster (acked here read) close_now (announce_clusterhead k random)).0)
            kept

    closing-Queued :
        close_now < 2 ^ 32
        → Queued
            (closing n slot_now clock random close_now).link
            (old ++ said n.state read random close_now)
          × ((closing n slot_now clock random close_now).state ≡ n.state)
          × ((closing n slot_now clock random close_now).link.initialized ≡ true)
    closing-Queued later =
        let nominated = announce_clusterhead n.state random in
        let (queued, kept, started) =
          closed_lem here old tuned-Emitting read fits close_now nominated later in
        rw closing-acked (
          subst
              (λ (k : List (List ℕ)).
                Queued (close_cluster (acked here read) close_now nominated).0.link k)
              (append_assoc old (acks_bytes n.state read ∷ [])
                (close_bytes n.state close_now nominated ∷ []))
              queued,
          kept,
          started,
        )

    -- A clusterhead with followers, with room in its queue for the acks of all its slots and its close_cluster, answers Ok in the last slot
    -- of its window and hands one frame to its radio: what it had queued, then these two messages. Nothing is queued then.
    pub do_clusterhead_send-IsFrame :
        (now hdr_now : ℕ) (radio : List ℕ → LoraRc) {f : List ℕ}
        → close_now < 2 ^ 32
        → Emits n slot_now clock random close_now now hdr_now radio f
        → let (after, rc) =
            do_clusterhead_send n slot_now clock random close_now now hdr_now radio in
          (rc ≡ NodeRc.ok)
          × IsFrame f (old ++ said n.state (clock n.link.params.tx_sz) random close_now)
          × Queued after.link []
    do_clusterhead_send-IsFrame now hdr_now radio {f} later s =
        let (queued, kept, started) = closing-Queued later in
        let out = flush-Flushed now hdr_now radio queued started s.running s.takes in
        rw
          (do_clusterhead_send-flush n slot_now clock random close_now now hdr_now radio s.active
            (ap initialized kept ∙ e.prepared) out.returned)
          (
            refl,
            subst (λ (g : List ℕ). IsFrame g (old ++ said n.state read random close_now))
                (frame_unique (sym out.handed ∙ s.handed)) out.holds,
            out.empty,
          )
