-- ===== src/Multihop/Node/Relay/Emit.antt =====
-- What a clusterhead queues in emit_ch_messages of lib/net/src/multihop.cpp: the acks of its slots, and its close_cluster.
use lora_multihop.Prelude.{
  ℕ, suc, ◌+◌, ◌*◌, ◌^◌, ◌≤◌, ◌<◌, ◌≡◌, refl, ap, ◌∙◌, Bool, true, List, [], ◌∷◌, ◌++◌, length,
  length-append, arith, if◌then◌else◌,
}
use lora_multihop.Net.{unknown_addr}
use lora_multihop.Link.{frame_header_size}
use lora_multihop.Link.Payload.{encode_messages, length-encode_messages}
use lora_multihop.Link.Tx.Queue.{Queued}
use lora_multihop.Multihop.Messages.{MessageType, Body, Message, encode}
use lora_multihop.Multihop.Messages.Decode.{IsMessage}
use lora_multihop.Multihop.Node.Follower.Acked.{length-ack_bytes}
use lora_multihop.Multihop.State.{MultihopState, initialized}
use lora_multihop.Multihop.Node.{Node, NodeRc, make_msg, send, close_cluster}
use lora_multihop.Multihop.Node.Data.{ack_bytes}
use lora_multihop.Multihop.Node.Relay.{ack_loop}
use lora_multihop.Multihop.Node.Relay.Acks.{
  send-taken, send_sizes, all_acks, send_acks-all, ack_loop-all,
}
use lora_multihop.Multihop.Node.Relay.Queue.{Room}

-- What the node's close_cluster says.
abbrev pub close_msg : MultihopState → ℕ → Bool → Message
close_msg s now nominated =
    make_msg s now MessageType.close_cluster
      (Body.close_cluster (if nominated then s.address else unknown_addr) s.neighbors)

close_cluster-send :
    (n : Node) (now : ℕ) (nominated : Bool)
    → initialized n.state ≡ true
    → close_cluster n now nominated ≡ send n (close_msg n.state now nominated) []
unfolding close_cluster
close_cluster-send n now nominated started = simp started

-- A clusterhead with followers that has these messages queued, and room behind them for the acks of all its slots and the
-- close_cluster.
pub record Emitting (n : Node) (old : List (List ℕ)) : Type 0 where
  pub prepared : initialized n.state ≡ true
  pub started : n.link.initialized ≡ true
  pub followers : 0 < n.state.slots_assigned
  pub slots : n.state.slots_assigned ≤ n.state.slot_count
  pub stored : length n.state.acks ≡ n.state.slot_count
  pub rings : length n.state.neighbors.counts ≡ 8
  pub small : n.link.params.msg_max_bytes ≤ 255
  pub longest : 16 + 4 * n.state.slot_count ≤ n.link.params.msg_max_bytes
  pub buffer :
      frame_header_size + length (encode_messages old) + 26 + 4 * n.state.slot_count
      ≤ n.link.params.tx_sz
  pub queued : Queued n.link old

abbrev pub acks_bytes : MultihopState → ℕ → List ℕ
acks_bytes s now = encode (all_acks s now) ++ ack_bytes s.acks

abbrev pub close_bytes : MultihopState → ℕ → Bool → List ℕ
close_bytes s now nominated = encode (close_msg s now nominated) ++ []

module _ (n : Node) (old : List (List ℕ)) (e : Emitting n old) (now : ℕ)
    (clock_now : now < 2 ^ 32) where
  pub acks-IsMessage : IsMessage (all_acks n.state now) (ack_bytes n.state.acks)
  unfolding make_msg
  acks-IsMessage = record {
    matches = refl;
    sequence = clock_now;
    body = (
      omega (arith, e.followers, e.slots),
      omega (arith, e.buffer, e.queued.limit),
      omega (arith, length-ack_bytes n.state.acks, e.stored),
    );
  }

  pub close-IsMessage : (nominated : Bool) → IsMessage (close_msg n.state now nominated) []
  unfolding make_msg
  close-IsMessage nominated = record {
    matches = refl;
    sequence = clock_now;
    body = (e.rings, refl);
  }

  pub length_acks : length (acks_bytes n.state now) ≡ 8 + 4 * n.state.slot_count
  unfolding make_msg
  length_acks = omega (arith, length-ack_bytes n.state.acks, e.stored)

  pub length_close : (nominated : Bool) → length (close_bytes n.state now nominated) ≡ 16
  unfolding make_msg
  length_close nominated = omega (arith, length-append n.state.neighbors.counts [], e.rings)

-- The node with the acks queued.
abbrev pub acked : Node → ℕ → Node
acked n now = (send n (all_acks n.state now) (ack_bytes n.state.acks)).0

module _ (n : Node) (old : List (List ℕ)) (e : Emitting n old) (now : ℕ)
    (clock_now : now < 2 ^ 32) where
  acked-Room : Room n (old ++ (acks_bytes n.state now ∷ []))
  acked-Room = record {
    started = e.started;
    small = e.small;
    fits = omega (
      arith,
      length_acks n old e now clock_now,
      length-encode_messages old (acks_bytes n.state now),
      e.buffer,
    );
  }

  acked_lem :
      ((send n (all_acks n.state now) (ack_bytes n.state.acks)).1 ≡ NodeRc.ok)
      × Queued (acked n now).link (old ++ (acks_bytes n.state now ∷ []))
  acked_lem =
      send-taken n (all_acks n.state now) (ack_bytes n.state.acks) old
        (acks-IsMessage n old e now clock_now) e.queued acked-Room
        (omega (arith, length_acks n old e now clock_now, e.longest))

  pub ack_loop-acked :
      (k : ℕ) (clock : ℕ → ℕ)
      → clock (suc k) ≡ now
      → ack_loop (suc (suc k)) n clock 0 ≡ (acked n now)
  ack_loop-acked k clock read =
      let whole =
        send_acks-all n now old e.prepared e.queued (omega (arith, e.buffer, e.queued.limit))
          e.stored (omega (arith, e.buffer)) in
      let (kept, _, _, _) = send_sizes n (all_acks n.state now) (ack_bytes n.state.acks) in
      ack_loop-all k n clock now read whole acked_lem.0 kept e.followers e.slots

  -- Behind the acks there is room for the close_cluster.
  pub closed_lem :
      (close_now : ℕ) (nominated : Bool)
      → close_now < 2 ^ 32
      → let closed = (close_cluster (acked n now) close_now nominated).0 in
        Queued closed.link
          ((old ++ (acks_bytes n.state now ∷ [])) ++ (close_bytes n.state close_now nominated ∷ []))
        × (closed.state ≡ n.state)
        × (closed.link.initialized ≡ true)
  closed_lem close_now nominated later =
      let (kept, started, most, total) =
        send_sizes n (all_acks n.state now) (ack_bytes n.state.acks) in
      let before = old ++ (acks_bytes n.state now ∷ []) in
      let msg = close_msg n.state close_now nominated in
      let room : Room (acked n now) (before ++ (close_bytes n.state close_now nominated ∷ [])) =
        record {
          started = started ∙ e.started;
          small = omega (arith, most, e.small);
          fits = omega (
            arith,
            total,
            length_acks n old e now clock_now,
            length_close n old e close_now later nominated,
            length-encode_messages old (acks_bytes n.state now),
            length-encode_messages before (close_bytes n.state close_now nominated),
            e.buffer,
          );
        } in
      let sent =
        send-taken (acked n now) msg [] before (close-IsMessage n old e close_now later nominated)
          acked_lem.1 room
          (omega (arith, length_close n old e close_now later nominated, most, e.longest)) in
      let closing =
        close_cluster-send (acked n now) close_now nominated (ap initialized kept ∙ e.prepared)
        ∙ ap (λ (k : MultihopState). send (acked n now) (close_msg k close_now nominated) [])
            kept in
      let (same, running, _, _) = send_sizes (acked n now) msg [] in
      rw closing (sent.1, same ∙ kept, running ∙ started ∙ e.started)
