-- ===== src/Multihop/Phases/Discovery/Silent.antt =====
-- A phase of run_neighbor_discovery of lib/net/src/multihop.cpp in which nothing is heard.
use lora_multihop.Prelude.{
  ℕ, suc, ◌+◌, ◌-◌, ◌&&◌, ◌≤◌, ◌≡◌, ◌⊎◌, inl, inr, refl, sym, subst, ◌∙◌, Bool, true, false, u8,
  if◌then◌else◌, arith,
}
use lora_multihop.Lora.{LoraRc}
use lora_multihop.Time.{MsDeadline}
use lora_multihop.Link.{Link, LinkRc, update_window, in_active_window}
use lora_multihop.Link.Rx.{Reception, recv, receive, truncate_rx}
use lora_multihop.Multihop.{unknown_ring}
use lora_multihop.Multihop.Rings.{lowest, lowest_from, no_neighbors}
use lora_multihop.Multihop.State.{MultihopState, update_ring_from_neighbors, drift}
use lora_multihop.Multihop.State.Hysteresis.{IsNode, round, round_lem, round-IsNode}
use lora_multihop.Multihop.Node.{NodeRc}
use lora_multihop.Multihop.Phases.{World, Run, listen, send_queue}
use lora_multihop.Multihop.Phases.Rules.{branch-Ensures}
use lora_multihop.Multihop.Phases.Rules.State.{listen-own}
use lora_multihop.Multihop.Phases.Discovery.{
  Discovering, time_to_announce, discovery_timeout, discovery_messages, flush_if_ok, announce_ring,
  discovery_round,
}
use lora_multihop.Multihop.Phases.Discovery.Kept.{
  time_to_announce-own, discovery_timeout-own, announce_ring-own,
}

-- The answers of recv with which a round reads no message.
abbrev IsUnheard : LinkRc → Type 0
IsUnheard rc = (rc ≡ LinkRc.not_init) ⊎ (rc ≡ LinkRc.not_in_window) ⊎ (rc ≡ LinkRc.timed_out)

receive-IsUnheard : (s : Link) (p : Reception) → p.rc ≡ LoraRc.timed_out → IsUnheard (receive s p).1
unfolding receive
receive-IsUnheard s p e = ground (arith, e)

tests-IsUnheard :
    (started active : Bool) (s s' : Link) (x : Link × LinkRc)
    → IsUnheard x.1
    → IsUnheard
        (if started
          then (if active then x else (s', LinkRc.not_in_window))
          else (s, LinkRc.not_init)).1
tests-IsUnheard true true s s' x u = u
tests-IsUnheard true false s s' x u = inr (inl refl)
tests-IsUnheard false active s s' x u = inl refl

recv-IsUnheard :
    (s : Link) (now : ℕ) (radio : ℕ → Reception)
    → ((sz : ℕ) → (radio sz).rc ≡ LoraRc.timed_out)
    → IsUnheard (recv s now radio).1
unfolding recv
recv-IsUnheard s now radio e =
    let s' = update_window s now in
    let x = receive (truncate_rx s') (radio (u8 s'.params.rx_sz)) in
    tests-IsUnheard s.initialized (in_active_window s' now) s s' x
      (receive-IsUnheard (truncate_rx s') _ (e _))

discovery_messages-unheard :
    (w : World) (announce : MsDeadline) (d : Discovering) (rc : LinkRc) (r : Run)
    → IsUnheard rc
    → discovery_messages w announce d rc r ≡ (d, r)
unfolding discovery_messages
discovery_messages-unheard w announce d rc r u = elim u [
  | inl e ↦ subst (λ k. discovery_messages w announce d k r ≡ (d, r)) (sym e) refl
  | inr (inl e) ↦ subst (λ k. discovery_messages w announce d k r ≡ (d, r)) (sym e) refl
  | inr (inr e) ↦ subst (λ k. discovery_messages w announce d k r ≡ (d, r)) (sym e) refl
]

-- The state of a node in such a phase: after so many rounds without a lower neighbour, unless its ring is unknown.
pub record Quiet (n : ℕ) (s : MultihopState) : Type 0 where
  pub node : IsNode s
  pub none_heard : s.neighbors ≡ no_neighbors
  pub counted : (s.ring ≡ unknown_ring) ⊎ (n ≤ s.rounds_without_lower)

no_neighbors-lowest : lowest no_neighbors ≡ unknown_ring
unfolding lowest_from
no_neighbors-lowest = refl

round-neighbors : (s : MultihopState) → (round s no_neighbors).neighbors ≡ no_neighbors
unfolding round update_ring_from_neighbors drift
round-neighbors s = ground arith

round-Quiet : (n : ℕ) (s : MultihopState) → Quiet n s → Quiet (suc n) (round s no_neighbors)
round-Quiet n s q = record {
  node = round-IsNode s no_neighbors q.node;
  none_heard = round-neighbors s;
  counted = ground (
    arith,
    q.counted,
    no_neighbors-lowest,
    round_lem s no_neighbors q.node.other q.node.few (omega (arith, no_neighbors-lowest))
        q.node.byte,
  );
}

update-Quiet :
    (n : ℕ) (s : MultihopState) → Quiet n s → Quiet (suc n) (update_ring_from_neighbors s)
unfolding round
update-Quiet n s q =
    subst (λ k. Quiet (suc n) (update_ring_from_neighbors (record s { neighbors = k })))
      (sym q.none_heard) (round-Quiet n s q)

-- The calls of a silent round.
module _ (w : World) where
  module _ (b : ℕ) where
    time_to_announce-call :
        (announce : MsDeadline) (announced : Bool) (r : Run)
        → r.call + 1 ≤ b
        → (time_to_announce w announce announced r).1.call ≤ b
    unfolding time_to_announce
    time_to_announce-call announce true r p = omega arith
    time_to_announce-call announce false r p = omega arith

    discovery_timeout-call :
        (phase announce : MsDeadline) (announced : Bool) (r : Run)
        → r.call + 1 ≤ b
        → (discovery_timeout w phase announce announced r).1.call ≤ b
    unfolding discovery_timeout
    discovery_timeout-call phase announce true r p = omega arith
    discovery_timeout-call phase announce false r p = omega arith

    flush_if_ok-call : (rc : NodeRc) (r : Run) → r.call + 3 ≤ b → (flush_if_ok w rc r).1.call ≤ b
    unfolding flush_if_ok send_queue
    flush_if_ok-call NodeRc.ok r p = omega arith
    flush_if_ok-call _ r p = omega arith

    announce_ring-call :
        (d : Discovering) (r : Run) → r.call + 4 ≤ b → (announce_ring w d r).1.call ≤ b
    unfolding announce_ring
    announce_ring-call d r p =
        branch-Ensures (λ x k. k.call ≤ b) _ _ _ r (omega arith)
          (flush_if_ok-call _ _ (omega arith))

  module _ (silent : (k timeout_ms sz : ℕ) → (w.hears k timeout_ms sz).rc ≡ LoraRc.timed_out) where
    unheard :
        (announce : MsDeadline) (d : Discovering) (timeout_ms : ℕ) (r : Run)
        → discovery_messages w announce d (listen w timeout_ms r).0 (listen w timeout_ms r).1
          ≡ (d, (listen w timeout_ms r).1)
    unfolding listen
    unheard announce d timeout_ms r =
        discovery_messages-unheard w announce d _ _
          (recv-IsUnheard r.node.link _ _ (silent _ timeout_ms))

    listen-call : (b timeout_ms : ℕ) (r : Run) → r.call + 2 ≤ b → (listen w timeout_ms r).1.call ≤ b
    unfolding listen
    listen-call b timeout_ms r p = omega arith

    pub silent_round :
        (n b : ℕ) (phase announce : MsDeadline) (d : Discovering) (r : Run)
        → Quiet n r.node.state
        → r.call + 8 ≤ b
        → Quiet (suc n) (discovery_round w phase announce d r).1.node.state
          × ((discovery_round w phase announce d r).1.call ≤ b)
    unfolding discovery_round
    silent_round n b phase announce d r q p =
        let due = time_to_announce w announce d.announced r in
        let timed = discovery_timeout w phase announce d.announced due.1 in
        let heard = listen w timed.0 timed.1 in
        let updated = record (heard.1) {
          node = record (heard.1.node) { state = update_ring_from_neighbors heard.1.node.state };
        } in
        let d' = record d { try_to_announce = d.has_ring_info && due.0 } in
        subst
          (λ x.
            Quiet (suc n)
              (announce_ring w x.0 (record (x.1) {
                node = record (x.1.node) { state = update_ring_from_neighbors x.1.node.state };
              })).1.node.state
            × ((announce_ring w x.0 (record (x.1) {
              node = record (x.1.node) { state = update_ring_from_neighbors x.1.node.state };
            })).1.call
                ≤ b))
          (sym (unheard announce d' timed.0 timed.1))
          (
            subst (λ k. Quiet (suc n) k.0) (sym (announce_ring-own w d' updated))
                (update-Quiet n heard.1.node.state (
                  subst (λ k. Quiet n k.0)
                    (sym (
                      listen-own w timed.0 timed.1
                      ∙ discovery_timeout-own w phase announce d.announced due.1
                      ∙ time_to_announce-own w announce d.announced r))
                    q)),
            announce_ring-call b d' updated (
                omega (
                  arith,
                  listen-call (b - 4) timed.0 timed.1 (
                      omega (
                        arith,
                        discovery_timeout-call (b - 6) phase announce d.announced due.1 (
                            omega (
                              arith,
                              time_to_announce-call (b - 7) announce d.announced r (omega arith),
                            )),
                      )),
                )),
          )
