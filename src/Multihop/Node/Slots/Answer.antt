-- ===== src/Multihop/Node/Slots/Answer.antt =====
-- The message with which accept of lib/net/src/multihop.cpp answers a follower.
use lora_multihop.Prelude.{
  ℕ, ◌+◌, ◌^◌, ◌≤◌, ◌<◌, ◌≡◌, ◌≢◌, ◌⊎◌, inl, inr, refl, ap, sym, subst, ◌∙◌, Bool, true, false,
  List, [], ◌∷◌, ◌++◌, append-nil, length, arith,
}
use lora_multihop.Net.{Address}
use lora_multihop.Link.{frame_header_size}
use lora_multihop.Link.Payload.{encode_messages, length-encode_messages}
use lora_multihop.Link.Tx.Queue.{Queued}
use lora_multihop.Multihop.Messages.{MessageType, Body, Message, encode}
use lora_multihop.Multihop.Messages.Decode.{IsMessage}
use lora_multihop.Multihop.State.{MultihopState, initialized}
use lora_multihop.Multihop.Node.{Node, NodeRc, vtdma_window_size, make_msg}
use lora_multihop.Multihop.Node.Slots.{accept, send_accept}
use lora_multihop.Multihop.Node.Slots.Accept.{slot}
use lora_multihop.Multihop.Node.Slots.Unique.{
  IsAssigned, same, more, accept-Leaves, accept-Answered,
}
use lora_multihop.Multihop.Node.Relay.Queue.{Room}
use lora_multihop.Multihop.Node.Relay.Acks.{send-taken}

-- The Accept message of a node to a follower: whether it is taken in, the first slot of the window, and the follower's slot in it.
abbrev pub answer : Address → ℕ → ℕ → Bool → Address → ℕ → ℕ → Message
answer node body_now now accepted follower start_slot relative_slot = record {
  hdr = record { sequence = now; src = node; type = MessageType.accept };
  body = Body.accept accepted follower start_slot relative_slot body_now;
}

-- A node that has been started, with well-formed slots, and room behind what it has queued for an Accept message.
pub record Answering (n : Node) (old : List (List ℕ)) : Type 0 where
  pub prepared : initialized n.state ≡ true
  pub started : n.link.initialized ≡ true
  pub assigned : IsAssigned n.state n.mac
  pub queued : Queued n.link old
  pub small : n.link.params.msg_max_bytes ≤ 255
  pub longest : 14 ≤ n.link.params.msg_max_bytes
  pub room : frame_header_size + length (encode_messages old) + 15 ≤ n.link.params.tx_sz

module _ (n : Node) (old : List (List ℕ)) (e : Answering n old) (body_now now : ℕ)
    (body_word : body_now < 2 ^ 32) (word : now < 2 ^ 32) (follower : Address) where
  send_accept-Queued :
      (s : MultihopState) (accepted : Bool) (start relative : ℕ)
      → s.address ≡ n.state.address
      → let (after, rc) =
          send_accept (record n { state = s }) body_now now accepted follower start relative in
        (rc ≡ NodeRc.ok)
        × Queued after.link (
            old
            ++ (encode (answer n.state.address body_now now accepted follower start relative) ∷ []))
  unfolding make_msg
  send_accept-Queued s accepted start relative same_node =
      let msg = answer s.address body_now now accepted follower start relative in
      let valid : IsMessage msg [] = record {
        matches = refl;
        sequence = word;
        body = (body_word, refl);
      } in
      let bare : encode msg ++ [] ≡ encode msg = append-nil (encode msg) in
      let room : Room (record n { state = s }) (old ++ ((encode msg ++ []) ∷ [])) = record {
        started = e.started;
        small = e.small;
        fits = omega (arith, e.room, length-encode_messages old (encode msg ++ []));
      } in
      let (taken, queued) =
        send-taken (record n { state = s }) msg [] old valid e.queued room
          (omega (arith, e.longest)) in
      (
        taken,
        subst
            (λ (a : Address).
              Queued
                (send_accept (record n { state = s }) body_now now accepted follower start
                  relative).0.link
                (old ++ (encode (answer a body_now now accepted follower start relative) ∷ [])))
            same_node queued,
      )

  accept-address : (accept n body_now now follower).0.state.address ≡ n.state.address
  accept-address = elim (accept-Leaves n body_now now follower) [
    | same k ↦ ap MultihopState.address k
    | more k free unknown ↦ ap MultihopState.address k
  ]

  -- A node that has been started, with well-formed slots and room for the answer, answers each follower with one Accept message behind
  -- what it has queued. Either it returns Ok, and the message takes the follower in and names the first slot of the window and a
  -- slot that the state after it holds for the follower; or all slots of the window are taken and none is the follower's, it
  -- returns slots_full, and the message is a refusal.
  pub accept-answer :
      let (after, rc) = accept n body_now now follower in
      ((i : ℕ) × (i < after.state.slots_assigned)
        × (slot after.state i ≡ follower)
        × (rc ≡ NodeRc.ok)
        × Queued after.link (
            old
            ++ (encode (
                  answer n.state.address body_now now true follower n.state.downstream_start_slot i)
                ∷ [])))
      ⊎ ((n.state.slots_assigned ≡ vtdma_window_size n.mac)
          × ((i : ℕ) → i < n.state.slots_assigned → slot n.state i ≢ follower)
          × (rc ≡ NodeRc.slots_full)
          × Queued after.link
              (old ++ (encode (answer n.state.address body_now now false follower 0 0) ∷ [])))
  accept-answer = elim (accept-Answered n body_now now follower e.prepared e.assigned) [
    | inl (i, inside, mine, k) ↦
        let (taken, queued) =
          send_accept-Queued (accept n body_now now follower).0.state true
            n.state.downstream_start_slot i accept-address in
        inl (
          i,
          inside,
          mine,
          ap (λ (x : Node × NodeRc). x.1) k ∙ taken,
          subst
              (λ (x : Node × NodeRc). Queued x.0.link (
                old
                ++ (encode (
                      answer n.state.address body_now now true follower
                        n.state.downstream_start_slot i)
                    ∷ [])))
              (sym k) queued,
        )
    | inr (k, full, unknown) ↦ inr (
      full,
      unknown,
      ap (λ (x : Node × NodeRc). x.1) k,
      subst
          (λ (x : Node × NodeRc).
            Queued x.0.link
              (old ++ (encode (answer n.state.address body_now now false follower 0 0) ∷ [])))
          (sym k) (send_accept-Queued n.state false 0 0 refl).1,
    )
  ]
