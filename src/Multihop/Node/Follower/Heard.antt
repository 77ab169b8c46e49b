-- ===== src/Multihop/Node/Follower/Heard.antt =====
-- A frame that a follower hears in do_follower_recv of lib/net/src/multihop.cpp: its messages are heard one after the other.
use lora_multihop.Prelude.{
  ℕ, zero, suc, ◌≤◌, ◌<◌, ◌≡◌, refl, ap, ◌∙◌, Bool, true, false, some, none, Option, List, [], ◌∷◌,
  ◌++◌, ◌==◌, length, u8, arith,
}
use lora_multihop.Lora.{LoraRc}
use lora_multihop.Net.{unknown_addr}
use lora_multihop.Link.{Link, LinkRc, update_window, in_active_window}
use lora_multihop.Link.Slots.{active_slot}
use lora_multihop.Link.Tx.Filled.{IsFrame}
use lora_multihop.Link.Rx.{recv, getmsg}
use lora_multihop.Link.Rx.Read.{Unread, getmsg-next, getmsg-end, advanced-Unread}
use lora_multihop.Link.Rx.Accept.{length_frame, recv-Unread}
use lora_multihop.Link.Transfer.{some_bytes}
use lora_multihop.Multihop.Messages.{Header, Datagram, Body, Message, decode_msg}
use lora_multihop.Multihop.State.{MultihopState}
use lora_multihop.Multihop.Node.{Node, NodeRc}
use lora_multihop.Multihop.Node.Relay.Hop.{tuned, tuned-SameTx}
use lora_multihop.Multihop.Node.Follower.{
  hear_message, Round, hear_clusterhead, hear_loop, follower_rounds, do_follower_recv,
}

-- The messages of a frame, heard one after the other.
abbrev pub hear_all : MultihopState → Bool → List (List ℕ) → MultihopState × Bool
hear_all s waiting [] = (s, waiting)
hear_all s waiting (m ∷ ms) =
    hear_all (hear_clusterhead s waiting m).0 (hear_clusterhead s waiting m).1 ms

-- Messages that decode_msg reads as datagrams.
abbrev pub AllDatagrams : List (List ℕ) → Type 0
AllDatagrams [] = Unit {0}
AllDatagrams (m ∷ ms) =
    ((h : Header) × (d : Datagram) × (decode_msg m
        ≡ some (record { hdr = h; body = Body.datagram d })))
    × AllDatagrams ms

-- A follower that waits for its clusterhead passes over datagrams.
pub hear_all-AllDatagrams :
    (s : MultihopState) (old msgs : List (List ℕ))
    → AllDatagrams old
    → hear_all s true (old ++ msgs) ≡ hear_all s true msgs
unfolding hear_message
hear_all-AllDatagrams s [] msgs all = refl
hear_all-AllDatagrams s (m ∷ ms) msgs ((h, d, e), all) =
    ap
      (λ (o : Option Message).
        hear_all (hear_message s true m o).0 (hear_message s true m o).1 (ms ++ msgs))
      e
    ∙ hear_all-AllDatagrams s ms msgs all

-- The rest of the loop after a getmsg.
abbrev loop_after : ℕ → Node → Bool → Link × LinkRc × Option (List ℕ) → Node × Bool
loop_after k n waiting (link, rc, none) = (record n { link = link }, waiting)
loop_after k n waiting (link, rc, some m) =
    hear_loop k (record n { state = (hear_clusterhead n.state waiting m).0; link = link })
      (hear_clusterhead n.state waiting m).1

hear_loop-after :
    (k : ℕ) (n : Node) (waiting : Bool)
    → hear_loop (suc k) n waiting ≡ loop_after k n waiting (getmsg n.link)
unfolding hear_loop
hear_loop-after k n waiting = refl

hear_loop-Unread :
    (k : ℕ) (msgs : List (List ℕ)) (n : Node) (waiting : Bool)
    → Unread n.link msgs
    → length msgs < k
    → ((hear_loop k n waiting).0.state ≡ (hear_all n.state waiting msgs).0)
      × ((hear_loop k n waiting).1 ≡ (hear_all n.state waiting msgs).1)
hear_loop-Unread zero msgs n waiting u h = absurd (omega arith)
hear_loop-Unread (suc k) [] n waiting u h =
    rw (hear_loop-after k n waiting ∙ ap (loop_after k n waiting) (getmsg-end u)) (refl, refl)
hear_loop-Unread (suc k) (m ∷ ms) n waiting u h =
    rw (hear_loop-after k n waiting ∙ ap (loop_after k n waiting) (getmsg-next u)) (
      hear_loop-Unread k ms _ (hear_clusterhead n.state waiting m).1 (advanced-Unread u)
        (omega arith))

-- A follower with a clusterhead, in the clusterhead's last slot, whose radio hears this frame.
pub record Listens (n : Node) (slot_now : ℕ) (r : Round) (f : List ℕ) : Type 0 where
  pub clusterhead : (unknown_addr == n.state.clusterhead_addr) ≡ false
  pub active : (active_slot n.link slot_now).1 ≡ some n.state.upstream_ack_slot
  pub started : n.link.initialized ≡ true
  pub running :
      in_active_window (update_window (tuned n slot_now 0).link r.recv_now) r.recv_now ≡ true
  pub buffer : 255 ≤ n.link.params.rx_sz
  pub heard :
      r.radio (u8 (update_window (tuned n slot_now 0).link r.recv_now).params.rx_sz)
      ≡ record { rc = LoraRc.okay; bytes = f }

do_follower_recv-first :
    (n : Node) (slot_now : ℕ) (r : Round) (rs : List Round)
    → (unknown_addr == n.state.clusterhead_addr) ≡ false
    → (active_slot n.link slot_now).1 ≡ some n.state.upstream_ack_slot
    → let coded = tuned n slot_now 0 in
      let (link, rc) = recv coded.link r.recv_now r.radio in
      rc ≡ LinkRc.ok
      → let (read, waiting) = hear_loop 256 (record coded { link = link }) true in
        waiting ≡ false → do_follower_recv n slot_now (r ∷ rs) ≡ (read, NodeRc.ok)
unfolding do_follower_recv follower_rounds
do_follower_recv-first n slot_now r rs clusterhead active received done =
    ground (arith, clusterhead, active, received, done)

-- A follower that hears a frame in its clusterhead's last slot, where some message of the frame ends the wait, hears all the messages of
-- the frame in their order, and answers Ok.
pub do_follower_recv-hear_all :
    (n : Node) (slot_now : ℕ) (r : Round) (rs : List Round) {f : List ℕ} {msgs : List (List ℕ)}
    → IsFrame f msgs
    → 0 < length msgs
    → Listens n slot_now r f
    → (hear_all n.state true msgs).1 ≡ false
    → let (after, rc) = do_follower_recv n slot_now (r ∷ rs) in
      (rc ≡ NodeRc.ok) × (after.state ≡ (hear_all n.state true msgs).0)
do_follower_recv-hear_all n slot_now r rs {f} {msgs} i some_message l done =
    let kept = tuned-SameTx n slot_now 0 in
    let coded = tuned n slot_now 0 in
    let (accepted, unread) =
      recv-Unread coded.link r.recv_now r.radio i (some_bytes msgs some_message)
        (omega (arith, length_frame i [], i.payload, l.buffer, kept.rx_sz))
        (kept.initialized ∙ l.started) l.running l.heard in
    let reached : Node = record coded { link = (recv coded.link r.recv_now r.radio).0 } in
    let (state, waiting) = hear_loop-Unread 256 msgs reached true unread i.messages in
    rw (do_follower_recv-first n slot_now r rs l.clusterhead l.active accepted (waiting ∙ done))
      (refl, state)
