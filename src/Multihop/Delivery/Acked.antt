-- ===== src/Multihop/Delivery/Acked.antt =====
-- An ack on its way back, by the handlers of lib/net/src/multihop.cpp: a clusterhead sends in do_clusterhead_send, and a follower
-- hears it in do_follower_recv.
mod Tests
use lora_multihop.Prelude.{
  length-append, ◌++◌, ℕ, ◌-◌, ◌^◌, ◌<◌, ◌≡◌, some, ap, ◌∙◌, Bool, true, false, List, [], ◌∷◌,
  get_or, set, arith, if◌then◌else◌,
}
use lora_multihop.Lora.{LoraRc}
use lora_multihop.Link.Tx.Queue.{Queued}
use lora_multihop.Link.Tx.Filled.{IsFrame}
use lora_multihop.Net.{Address, unknown_addr}
use lora_multihop.Multihop.Messages.{decode_msg}
use lora_multihop.Multihop.Messages.Decode.{decode_msg-encode}
use lora_multihop.Multihop.State.{MultihopState}
use lora_multihop.Multihop.Node.{Node, NodeRc, make_msg}
use lora_multihop.Multihop.Node.Election.{announce_clusterhead}
use lora_multihop.Multihop.Node.Relay.{do_clusterhead_send}
use lora_multihop.Multihop.Node.Relay.Emit.{
  Emitting, close_bytes, acks_bytes, close_msg, close-IsMessage,
}
use lora_multihop.Multihop.Node.Relay.Closing.{Emits, said, do_clusterhead_send-IsFrame}
use lora_multihop.Multihop.Node.Follower.{
  Round, do_follower_recv, hear_clusterhead, hear_message, take_nomination,
}
use lora_multihop.Multihop.Node.Follower.Acked.{AllWords, hear_clusterhead-acks}
use lora_multihop.Multihop.Node.Follower.Heard.{
  AllDatagrams, hear_all-AllDatagrams, Listens, hear_all, do_follower_recv-hear_all,
}

-- The clusterhead that a close_cluster names.
abbrev pub nominee : MultihopState → Bool → Address
nominee s nominated = if nominated then s.address else unknown_addr

hear_close :
    (s head : MultihopState) (close_now : ℕ) (nominated : Bool)
    → decode_msg (close_bytes head close_now nominated) ≡ some (close_msg head close_now nominated)
    → hear_clusterhead s false (close_bytes head close_now nominated)
      ≡ (take_nomination s (nominee head nominated), false)
unfolding hear_message make_msg
hear_close s head close_now nominated e =
    ap (hear_message s false (close_bytes head close_now nominated)) e

take_nomination_lem :
    (s : MultihopState) (who : Address)
    → ((take_nomination s who).acks ≡ s.acks) × ((take_nomination s who).clusterhead_addr ≡ who)
unfolding take_nomination
take_nomination_lem s who = ground arith

-- A follower's state with the ack of its slot.
abbrev pub with_ack : MultihopState → List ℕ → MultihopState
with_ack s acks = record s { acks = set s.acks 0 (get_or acks s.upstream_relative_slot 0) }

hear_all-two :
    (s s' : MultihopState) (a b : List ℕ) (r : MultihopState × Bool)
    → hear_clusterhead s true a ≡ (s', false)
    → hear_clusterhead s' false b ≡ r
    → hear_all s true (a ∷ b ∷ []) ≡ r
hear_all-two s s' a b r first second =
    ap (λ (x : MultihopState × Bool). hear_clusterhead x.0 x.1 b) first ∙ second

module _ (head : Node) (old : List (List ℕ)) (e : Emitting head old) (acks_now random close_now : ℕ)
    (fits : acks_now < 2 ^ 32) (later : close_now < 2 ^ 32) (words : AllWords head.state.acks) where
  hear_said :
      (s : MultihopState)
      → s.upstream_relative_slot < head.state.slot_count
      → hear_all s true (said head.state acks_now random close_now) ≡ (
        take_nomination
            (with_ack s head.state.acks)
            (nominee head.state (announce_clusterhead head.state random)),
        false,
      )
  hear_said s member =
      let nominated = announce_clusterhead head.state random in
      let same : s.upstream_relative_slot - 0 ≡ s.upstream_relative_slot = omega arith in
      let closes =
        decode_msg-encode (close_msg head.state close_now nominated) []
          (close-IsMessage head old e close_now later nominated) in
      hear_all-two s (with_ack s head.state.acks) (acks_bytes head.state acks_now)
        (close_bytes head.state close_now nominated)
        (take_nomination (with_ack s head.state.acks) (nominee head.state nominated), false)
        (hear_clusterhead-acks s head.state acks_now 0 head.state.slot_count head.state.acks fits
            (omega (arith, e.buffer, e.queued.limit)) (omega arith) member (omega (arith, e.stored))
            words
          ∙ ap (λ (k : ℕ). (record s { acks = set s.acks 0 (get_or head.state.acks k 0) }, false))
              same)
        (hear_close (with_ack s head.state.acks) head.state close_now nominated closes)

-- Let a clusterhead with followers, with no message queued but datagrams, and with room for the acks of all its slots and its
-- close_cluster, send in the last slot of its window, and let its radio take the frame; and let a follower with one of these slots be in its
-- clusterhead's last slot, and its radio hear the frame. Then do_clusterhead_send and do_follower_recv answer Ok; the follower's
-- first ack is the one that the clusterhead has for the follower's slot; and its clusterhead is the one that sent, if that has chosen
-- itself again, and none if not. The datagrams went out in the same frame: the clusterhead has nothing queued then.
pub do_clusterhead_send-do_follower_recv :
    (head : Node) (clock : ℕ → ℕ) (random close_now : ℕ)
    → (old : List (List ℕ)) → Emitting head old
    → AllDatagrams old
    → clock head.link.params.tx_sz < 2 ^ 32
    → close_now < 2 ^ 32
    → AllWords head.state.acks
    → (slot_now now hdr_now : ℕ) (send : List ℕ → LoraRc) (f : List ℕ)
    → Emits head slot_now clock random close_now now hdr_now send f
    → (n : Node) (follower_now : ℕ) (r : Round) (rs : List Round) → Listens n follower_now r f
    → n.state.upstream_relative_slot < head.state.slot_count
    → let (after, rc) = do_follower_recv n follower_now (r ∷ rs) in
      ((do_clusterhead_send head slot_now clock random close_now now hdr_now send).1 ≡ NodeRc.ok)
      × (rc ≡ NodeRc.ok)
      × (after.state.acks
          ≡ set n.state.acks 0 (get_or head.state.acks n.state.upstream_relative_slot 0))
      × (after.state.clusterhead_addr ≡ nominee head.state (announce_clusterhead head.state random))
      × IsFrame f (old ++ said head.state (clock head.link.params.tx_sz) random close_now)
      × Queued (do_clusterhead_send head slot_now clock random close_now now hdr_now send).0.link []
do_clusterhead_send-do_follower_recv head clock random close_now old e datagrams fits later words
      slot_now now hdr_now send f emits n follower_now r rs listens member =
    let read = clock head.link.params.tx_sz in
    let (sent, frame, drained) =
      do_clusterhead_send-IsFrame head slot_now old e clock random close_now fits now hdr_now send
        later emits in
    let all =
      hear_all-AllDatagrams n.state old (said head.state read random close_now) datagrams
      ∙ hear_said head old e read random close_now fits later words n.state member in
    let (answered, state) =
      do_follower_recv-hear_all n follower_now r rs frame
        (omega (arith, length-append old (said head.state read random close_now))) listens
        (ap (λ (x : MultihopState × Bool). x.1) all) in
    let reached = state ∙ ap (λ (x : MultihopState × Bool). x.0) all in
    let who = nominee head.state (announce_clusterhead head.state random) in
    let (acks, chosen) = take_nomination_lem (with_ack n.state head.state.acks) who in
    (
      sent,
      answered,
      ap (λ (s : MultihopState). s.acks) reached ∙ acks,
      ap (λ (s : MultihopState). s.clusterhead_addr) reached ∙ chosen,
      frame,
      drained,
    )
