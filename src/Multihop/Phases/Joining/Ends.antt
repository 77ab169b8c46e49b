-- ===== src/Multihop/Phases/Joining/Ends.antt =====
-- run_clusterhead_joining of lib/net/src/multihop.cpp makes its calls one after the other, and ends by its deadline.
use lora_multihop.Prelude.{
  ℕ, suc, ◌+◌, ◌≤◌, ◌≡◌, sym, subst, Bool, true, Option, none, some, u32, arith,
}
use lora_multihop.Net.{Address}
use lora_multihop.Time.{MsDeadline, ms_deadline, reached}
use lora_multihop.Multihop.Messages.{Body, Message, decode_msg}
use lora_multihop.Multihop.Node.Election.{ClusterheadCandidates}
use lora_multihop.Multihop.Phases.{World, Run, pure, set_clock, time_until, next_message}
use lora_multihop.Multihop.Phases.Rules.{branch-Ensures, message_loop-keeps}
use lora_multihop.Multihop.Phases.Rules.Ends.{
  After, listen-After, send_queue-After, phase_loop-ends,
}
use lora_multihop.Multihop.Phases.Announcement.Ends.{become_if-call}
use lora_multihop.Multihop.Phases.Joining.{
  Joining, sync_clock, promote, ask, join, follow_second, refused, hear_accept, hear_follow,
  hear_joining, send_follow, joining_timeout, joining_round, run_clusterhead_joining,
}

module _ (w : World) where
  module _ (c : ℕ) where
    sync_clock-After : (t : ℕ) (r : Run) → After c r → After c (sync_clock w t r).1
    unfolding sync_clock
    sync_clock-After t r p =
        branch-Ensures (λ x k. After c k) _ (set_clock t) (pure tt) _ (omega arith) (omega arith)

    promote-After : (r : Run) → After c r → After c (promote w r).1
    unfolding promote
    promote-After r p = subst (λ k. c ≤ k) (sym (become_if-call _ _)) (omega arith)

    join-After :
        (j : Joining) (start relative remote : ℕ) (r : Run)
        → After c r
        → After c (join w j start relative remote r).1
    unfolding join
    join-After j start relative remote r p = promote-After _ (sync_clock-After remote _ p)

    follow_second-After :
        (duration_ms : ℕ) (j : Joining) (r : Run)
        → After c r
        → After c (follow_second w duration_ms j r).1
    unfolding follow_second
    follow_second-After duration_ms j r p =
        branch-Ensures (λ x k. After c k) _ _ _ r p (omega arith)

    refused-After :
        (duration_ms : ℕ) (candidates : ClusterheadCandidates) (j : Joining) (r : Run)
        → After c r
        → After c (refused w duration_ms candidates j r).1
    unfolding refused
    refused-After duration_ms candidates j r p =
        branch-Ensures (λ x k. After c k) _ _ _ r p (follow_second-After duration_ms _ r p)

    hear_accept-After :
        (duration_ms : ℕ) (eligible : Bool) (candidates : ClusterheadCandidates) (j : Joining)
        (src : Address) (b : Body) (r : Run)
        → After c r
        → After c (hear_accept w duration_ms eligible candidates j src b r).1
    unfolding hear_accept
    hear_accept-After duration_ms eligible candidates j src
          (Body.accept accepted follower start relative remote) r p =
        branch-Ensures (λ x k. After c k) _ _ _ r
          (branch-Ensures (λ x k. After c k) accepted _ _ r (join-After j start relative remote r p)
            (refused-After duration_ms candidates j r p))
          p
    hear_accept-After duration_ms eligible candidates j src _ r p = p

    hear_follow-After :
        (is_clusterhead : Bool) (src : Address) (b : Body) (r : Run)
        → After c r
        → After c (hear_follow w is_clusterhead src b r).1
    unfolding hear_follow
    hear_follow-After is_clusterhead src (Body.follow clusterhead follower) r p =
        branch-Ensures (λ x k. After c k) _ _ _ r p (send_queue-After w c _ (omega arith))
    hear_follow-After is_clusterhead src _ r p = p

    hear_joining-After :
        (duration_ms : ℕ) (is_clusterhead eligible : Bool) (candidates : ClusterheadCandidates)
        (j : Joining) (msg : Option Message) (r : Run)
        → After c r
        → After c (hear_joining w duration_ms is_clusterhead eligible candidates j msg r).1
    unfolding hear_joining
    hear_joining-After duration_ms is_clusterhead eligible candidates j none r p = p
    hear_joining-After duration_ms is_clusterhead eligible candidates j (some msg) r p =
        hear_accept-After duration_ms eligible candidates j msg.hdr.src msg.body _
          (hear_follow-After is_clusterhead msg.hdr.src msg.body r p)

    ask-After : (a : Address) (r : Run) → After c r → After c (ask w a r).1
    unfolding ask
    ask-After a r p =
        branch-Ensures (λ x k. After c k) _ _ _ r p (send_queue-After w c _ (omega arith))

    send_follow-After : (j : Joining) (r : Run) → After c r → After c (send_follow w j r).1
    unfolding send_follow
    send_follow-After j r p =
        branch-Ensures (λ x k. After c k) _ _ _ _ (omega arith)
          (ask-After j.target_node _ (omega arith))

    joining_timeout-After :
        (phase deadline : MsDeadline) (r : Run)
        → After c r
        → After c (joining_timeout w phase deadline r).1
    unfolding joining_timeout
    joining_timeout-After phase deadline r p =
        branch-Ensures (λ x k. After c k) _ (time_until w phase) (time_until w deadline) _
          (omega arith) (omega arith)

    joining_round-After :
        (duration_ms : ℕ) (is_clusterhead eligible : Bool) (candidates : ClusterheadCandidates)
        (phase : MsDeadline) (j : Joining) (r : Run)
        → After c r
        → After c (joining_round w duration_ms is_clusterhead eligible candidates phase j r).1
    unfolding joining_round next_message
    joining_round-After duration_ms is_clusterhead eligible candidates phase j r p =
        message_loop-keeps (λ j r. After c r)
          (λ k buf.
            hear_joining w duration_ms is_clusterhead eligible candidates k (decode_msg buf))
          (λ j r p. p)
          (λ j buf r p.
            hear_joining-After duration_ms is_clusterhead eligible candidates j (decode_msg buf) r
              p)
          256 _ _ (listen-After w c _ _ (joining_timeout-After phase _ _ (send_follow-After j r p)))

  pub run_clusterhead_joining-ends :
      (k duration_ms : ℕ) (is_clusterhead : Bool) (candidates : ClusterheadCandidates) (last : ℕ)
      (r : Run)
      → ((i : ℕ)
          → last ≤ i
          → reached (ms_deadline (u32 (w.millis (r.call + 1 + 1))) duration_ms) (u32 (w.millis i))
            ≡ true)
      → last ≤ r.call + k
      → (run_clusterhead_joining w (suc k) duration_ms is_clusterhead candidates r).0.1 ≡ true
  unfolding run_clusterhead_joining
  run_clusterhead_joining-ends k duration_ms is_clusterhead candidates last r over p =
      phase_loop-ends w _ _ last over
        (λ c j r p. joining_round-After c duration_ms is_clusterhead _ candidates _ j r p) k _ _
        (omega arith)
