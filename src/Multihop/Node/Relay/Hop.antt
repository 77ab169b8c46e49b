-- ===== src/Multihop/Node/Relay/Hop.antt =====
-- A hop on the way to the gateway, by lib/net/src/multihop.cpp: a clusterhead hears a follower's frame in the follower's
-- slot, and later sends its own frame in its slot of its clusterhead's window.
use lora_multihop.Prelude.{
  ℕ, ◌+◌, ◌-◌, ◌≤◌, ◌<◌, ◌≡◌, refl, ap, sym, subst, ◌∙◌, true, some, List, [], ◌++◌, length,
  get_elem?, u8, arith,
}
use lora_multihop.Lora.{LoraRc}
use lora_multihop.Link.{LinkRc, update_window, in_active_window}
use lora_multihop.Link.Slots.{active_slot}
use lora_multihop.Link.Tx.{flush}
use lora_multihop.Link.Tx.Queue.{Queued}
use lora_multihop.Link.Tx.Filled.{IsFrame}
use lora_multihop.Link.Tx.Flush.{flush-Flushed}
use lora_multihop.Link.Rx.{Reception, recv, drain}
use lora_multihop.Link.Transfer.{some_bytes, frame_unique}
use lora_multihop.Link.Rx.Read.{drain-Unread}
use lora_multihop.Link.Rx.Accept.{length_frame, recv-Unread}
use lora_multihop.Link.Rx.Kept.{
  SameTx, SameTx-trans, Queued-SameTx, active_slot-SameTx, set_cdma_code-SameTx, recv-SameTx,
  drain-SameTx,
}
use lora_multihop.Multihop.Node.{Node, NodeRc}
use lora_multihop.Multihop.Node.Relay.{
  listens, with_code, relay_frame, relay_loop, do_clusterhead_recv, do_follower_send,
}
use lora_multihop.Multihop.Node.Relay.Forward.{relay_all, read_all, relay_loop-relay_all}
use lora_multihop.Multihop.Node.Relay.Queue.{
  Room, AllUpTo, datagrams, last_sequence, or_else, relay_all-Queued, relay_all-acks,
}

-- The node with the link that has read the clock, on the code of a slot.
abbrev pub tuned : Node → ℕ → ℕ → Node
tuned n slot_now code = with_code (record n { link = (active_slot n.link slot_now).0 }) code

-- A clusterhead that listens in a slot of its window, in which the radio hears this frame.
pub record Hears (n : Node) (slot_now now : ℕ) (radio : ℕ → Reception) (slot : ℕ) (f : List ℕ)
    : Type 0 where
  pub active : (active_slot n.link slot_now).1 ≡ some slot
  pub listening : listens n slot ≡ true
  pub started : n.link.initialized ≡ true
  pub running :
      let coded = tuned n slot_now (u8 (slot - n.state.downstream_start_slot)) in
      in_active_window (update_window coded.link now) now ≡ true
  pub buffer : 255 ≤ n.link.params.rx_sz
  pub heard :
      let coded = tuned n slot_now (u8 (slot - n.state.downstream_start_slot)) in
      radio (u8 (update_window coded.link now).params.rx_sz)
      ≡ record { rc = LoraRc.okay; bytes = f }

-- A follower in its slot, whose radio takes each frame, and is handed this one.
pub record Sends (n : Node) (slot_now now hdr_now : ℕ) (radio : List ℕ → LoraRc) (f : List ℕ)
    : Type 0 where
  pub active :
      (active_slot n.link slot_now).1
      ≡ some (u8 (n.state.upstream_start_slot + n.state.upstream_relative_slot))
  pub started : n.link.initialized ≡ true
  pub running :
      in_active_window
        (update_window (tuned n slot_now n.state.upstream_relative_slot).link now)
        now
      ≡ true
  pub takes : (g : List ℕ) → radio g ≡ LoraRc.okay
  pub handed :
      (flush (tuned n slot_now n.state.upstream_relative_slot).link now hdr_now radio).2 ≡ some f

pub tuned-SameTx : (n : Node) (slot_now code : ℕ) → SameTx n.link (tuned n slot_now code).link
tuned-SameTx n slot_now code =
    SameTx-trans (active_slot-SameTx n.link slot_now)
      (set_cdma_code-SameTx (active_slot n.link slot_now).0 code)

pub do_clusterhead_recv-relay_frame :
    (n : Node) (slot_now now : ℕ) (radio : ℕ → Reception) (slot : ℕ)
    → (active_slot n.link slot_now).1 ≡ some slot
    → listens n slot ≡ true
    → let relative = u8 (slot - n.state.downstream_start_slot) in
      let coded = tuned n slot_now relative in
      let (heard, rc) = recv coded.link now radio in
      do_clusterhead_recv n slot_now now radio
      ≡ relay_frame (record coded { link = heard }) relative rc
unfolding do_clusterhead_recv
do_clusterhead_recv-relay_frame n slot_now now radio slot active listening =
    ground (arith, active, listening)

relay_frame-ok :
    (n : Node) (relative : ℕ)
    → relay_frame n relative LinkRc.ok ≡ (relay_loop 256 n relative, NodeRc.ok)
unfolding relay_frame
relay_frame-ok n relative = refl

do_follower_send-flush :
    (n : Node) (slot_now now hdr_now : ℕ) (radio : List ℕ → LoraRc)
    → (active_slot n.link slot_now).1
      ≡ some (u8 (n.state.upstream_start_slot + n.state.upstream_relative_slot))
    → let coded = tuned n slot_now n.state.upstream_relative_slot in
      let (flushed, rc, frame) = flush coded.link now hdr_now radio in
      rc ≡ LinkRc.ok
      → do_follower_send n slot_now now hdr_now radio ≡ (record coded { link = flushed }, NodeRc.ok)
unfolding do_follower_send
do_follower_send-flush n slot_now now hdr_now radio active sent = ground (arith, active, sent)

Room-SameTx :
    {n : Node} {msgs : List (List ℕ)} (m : Node) → SameTx n.link m.link → Room n msgs → Room m msgs
Room-SameTx m k r = record {
  started = k.initialized ∙ r.started;
  small = omega (arith, k.msg_max_bytes, r.small);
  fits = omega (arith, k.tx_sz, r.fits);
}

module _ (n : Node) (slot_now now slot : ℕ) (radio : ℕ → Reception) {f : List ℕ}
    {msgs : List (List ℕ)} (i : IsFrame f msgs) (some_message : 0 < length msgs)
    (h : Hears n slot_now now radio slot f) where
  abbrev listener : Node
  listener = tuned n slot_now (u8 (slot - n.state.downstream_start_slot))

  abbrev reached : Node
  reached = record listener { link = (recv listener.link now radio).0 }

  heard_frame : ((recv listener.link now radio).1 ≡ LinkRc.ok) × ((drain 256 reached.link).2 ≡ msgs)
  heard_frame =
      let kept = tuned-SameTx n slot_now (u8 (slot - n.state.downstream_start_slot)) in
      let (accepted, unread) =
        recv-Unread listener.link now radio i (some_bytes msgs some_message)
          (omega (arith, length_frame i [], i.payload, h.buffer, kept.rx_sz))
          (kept.initialized ∙ h.started) h.running h.heard in
      (accepted, (drain-Unread 256 msgs unread i.messages).0)

  read_all-SameTx : SameTx n.link (read_all 256 reached).0.link
  read_all-SameTx =
      SameTx-trans (tuned-SameTx n slot_now (u8 (slot - n.state.downstream_start_slot)))
        (SameTx-trans (recv-SameTx listener.link now radio) (drain-SameTx 256 reached.link))

  answer : do_clusterhead_recv n slot_now now radio ≡ (
    relay_all (u8 (slot - n.state.downstream_start_slot)) (read_all 256 reached).0 msgs,
    NodeRc.ok,
  )
  answer =
      let relative = u8 (slot - n.state.downstream_start_slot) in
      let (accepted, all) = heard_frame in
      do_clusterhead_recv-relay_frame n slot_now now radio slot h.active h.listening
      ∙ ap (relay_frame reached relative) accepted
      ∙ relay_frame-ok reached relative
      ∙ ap (λ (m : Node). (m, NodeRc.ok)) (relay_loop-relay_all 256 reached relative)
      ∙ ap (λ (ms : List (List ℕ)). (relay_all relative (read_all 256 reached).0 ms, NodeRc.ok)) all

  abbrev relative : ℕ
  relative = u8 (slot - n.state.downstream_start_slot)

  -- What is heard goes into the queue.
  pub do_clusterhead_recv-Queued :
      (old : List (List ℕ))
      → Queued n.link old
      → Room n (old ++ datagrams msgs)
      → AllUpTo n.link.params.msg_max_bytes msgs
      → ((do_clusterhead_recv n slot_now now radio).1 ≡ NodeRc.ok)
        × Queued (do_clusterhead_recv n slot_now now radio).0.link (old ++ datagrams msgs)
  do_clusterhead_recv-Queued old q room short =
      let start = (read_all 256 reached).0 in
      let k = read_all-SameTx in
      rw answer (
        refl,
        relay_all-Queued relative start old msgs (Queued-SameTx k q) (Room-SameTx start k room)
            (subst (λ (b : ℕ). AllUpTo b msgs) (sym k.msg_max_bytes) short),
      )

  -- A clusterhead that hears a frame in the slot of a follower, with room for the datagrams of the frame, answers Ok and queues
  -- these datagrams, in their order and unchanged, and no other message, behind what it has queued; and its ack for the slot
  -- is the sequence number of the last of them, or the one it was if there is none.
  pub do_clusterhead_recv-datagrams :
      (old : List (List ℕ))
      → Queued n.link old
      → Room n (old ++ datagrams msgs)
      → AllUpTo n.link.params.msg_max_bytes msgs
      → relative < length n.state.acks
      → let (after, rc) = do_clusterhead_recv n slot_now now radio in
        (rc ≡ NodeRc.ok)
        × Queued after.link (old ++ datagrams msgs)
        × (get_elem? after.state.acks relative
            ≡ or_else (last_sequence msgs) (get_elem? n.state.acks relative))
  do_clusterhead_recv-datagrams old q room short inside =
      let (returned, queued) = do_clusterhead_recv-Queued old q room short in
      (returned, queued, rw answer (relay_all-acks relative (read_all 256 reached).0 msgs inside))

-- A follower that sends in its slot hands a frame with all that it has queued to its radio, and has nothing queued then.
pub do_follower_send-IsFrame :
    (n : Node) (slot_now now hdr_now : ℕ) (radio : List ℕ → LoraRc) {f : List ℕ}
    {msgs : List (List ℕ)}
    → Queued n.link msgs
    → Sends n slot_now now hdr_now radio f
    → ((do_follower_send n slot_now now hdr_now radio).1 ≡ NodeRc.ok)
      × IsFrame f msgs
      × Queued (do_follower_send n slot_now now hdr_now radio).0.link []
do_follower_send-IsFrame n slot_now now hdr_now radio {f} {msgs} q s =
    let k = tuned-SameTx n slot_now n.state.upstream_relative_slot in
    let out =
      flush-Flushed now hdr_now radio (Queued-SameTx k q) (k.initialized ∙ s.started) s.running
        s.takes in
    rw (do_follower_send-flush n slot_now now hdr_now radio s.active out.returned) (
      refl,
      subst (λ (g : List ℕ). IsFrame g msgs) (frame_unique (sym out.handed ∙ s.handed)) out.holds,
      out.empty,
    )
