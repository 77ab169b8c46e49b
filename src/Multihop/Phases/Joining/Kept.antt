-- ===== src/Multihop/Phases/Joining/Kept.antt =====
-- What run_clusterhead_joining of lib/net/src/multihop.cpp keeps of the state: whatever accepting a follower,
-- attaching to the node that is asked, and becoming a clusterhead keep.
use lora_multihop.Prelude.{ℕ, ◌≡◌, refl, sym, subst, ◌∙◌, Bool, Option, none, some, ◌==◌}
use lora_multihop.Net.{Address, MacParams, unknown_addr}
use lora_multihop.Time.{MsDeadline}
use lora_multihop.Multihop.{Ring}
use lora_multihop.Multihop.Messages.{Body, Message, decode_msg}
use lora_multihop.Multihop.State.{MultihopState, acts_as_follower}
use lora_multihop.Multihop.Node.{Node}
use lora_multihop.Multihop.Node.Slots.{accept}
use lora_multihop.Multihop.Node.Election.{ClusterheadCandidates, top, second}
use lora_multihop.Multihop.Phases.{World, Run, pure, set_clock, time_until, listen, next_message}
use lora_multihop.Multihop.Phases.Rules.{branch-Ensures, message_loop-keeps, phase_loop-keeps}
use lora_multihop.Multihop.Phases.Rules.State.{Own, own, listen-own, send_queue-own, follow-own}
use lora_multihop.Multihop.Phases.Joining.{
  Joining, strictly_closer, attach, sync_clock, promote, ask, join, follow_second, refused,
  hear_accept, hear_follow, hear_joining, send_follow, joining_timeout, joining_round,
  run_clusterhead_joining,
}
use lora_multihop.Multihop.Phases.Announcement.{become_clusterhead}
use lora_multihop.Multihop.Phases.Announcement.Kept.{become_if-keeps}

-- A predicate on the node, and one on the node that it asks and on the ring of that node.
module _ (w : World) (I : Own → Type 0) (T : Address → Ring → Type 0)
    (accepts : (n : Node) (body_now now : ℕ) (a : Address)
      → I (own n)
      → I (own (accept n body_now now a).0))
    (attaches : (n : Node) (j : Joining) (start relative : ℕ)
      → T j.target_node j.target_ring
      → I (own n)
      → I (own (attach n j start relative)))
    (becomes : (n : Node) → I (own n) → I (own (become_clusterhead n)))
    (closer : (s : MultihopState) (mac : MacParams) (c : Address × Ring)
      → I (s, mac)
      → T (strictly_closer s.ring c).0 (strictly_closer s.ring c).1) where
  abbrev Kept : Joining → Run → Type 0
  Kept j r = I (own r.node) × T j.target_node j.target_ring

  sync_clock-own : (t : ℕ) (r : Run) → own (sync_clock w t r).1.node ≡ own r.node
  unfolding sync_clock
  sync_clock-own t r =
      branch-Ensures (λ x k. own k.node ≡ own r.node) _ (set_clock t) (pure tt) _ refl refl

  promote-keeps : (r : Run) → I (own r.node) → I (own (promote w r).1.node)
  unfolding promote
  promote-keeps r v = become_if-keeps I becomes _ _ v

  join-Kept :
      (j : Joining) (start relative remote : ℕ) (r : Run)
      → Kept j r
      → Kept (join w j start relative remote r).0.0 (join w j start relative remote r).1
  unfolding join
  join-Kept j start relative remote r (v, t) = (
    promote-keeps _
        (subst I (sym (sync_clock-own remote _)) (attaches r.node j start relative t v)),
    t,
  )

  follow_second-Kept :
      (duration_ms : ℕ) (j : Joining) (r : Run)
      → Kept j r
      → Kept (follow_second w duration_ms j r).0 (follow_second w duration_ms j r).1
  unfolding follow_second
  follow_second-Kept duration_ms j r k =
      branch-Ensures Kept (j.target_node == unknown_addr) _ _ r k k

  refused-Kept :
      (duration_ms : ℕ) (c : ClusterheadCandidates) (j : Joining) (r : Run)
      → Kept j r
      → Kept (refused w duration_ms c j r).0.0 (refused w duration_ms c j r).1
  unfolding refused
  refused-Kept duration_ms c j r (v, t) =
      branch-Ensures (λ x. Kept x.0) j.tried_second _ _ r (v, t)
        (follow_second-Kept duration_ms _ r (v, closer r.node.state r.node.mac (second c) v))

  hear_accept-Kept :
      (duration_ms : ℕ) (eligible : Bool) (c : ClusterheadCandidates) (j : Joining) (src : Address)
      (b : Body) (r : Run)
      → Kept j r
      → Kept
          (hear_accept w duration_ms eligible c j src b r).0.0
          (hear_accept w duration_ms eligible c j src b r).1
  unfolding hear_accept
  hear_accept-Kept duration_ms eligible c j src
        (Body.accept accepted follower start relative remote) r k =
      branch-Ensures (λ x. Kept x.0) _ _ _ r
        (branch-Ensures (λ x. Kept x.0) accepted _ _ r (join-Kept j start relative remote r k)
          (refused-Kept duration_ms c j r k))
        k
  hear_accept-Kept duration_ms eligible c j src _ r k = k

  hear_follow-Kept :
      (is_clusterhead : Bool) (j : Joining) (src : Address) (b : Body) (r : Run)
      → Kept j r
      → Kept j (hear_follow w is_clusterhead src b r).1
  unfolding hear_follow
  hear_follow-Kept is_clusterhead j src (Body.follow clusterhead follower) r (v, t) =
      branch-Ensures (λ x. Kept j) _ _ _ r (v, t)
        (subst I (sym (send_queue-own w _)) (accepts r.node _ _ src v), t)
  hear_follow-Kept is_clusterhead j src _ r k = k

  hear_joining-Kept :
      (duration_ms : ℕ) (is_clusterhead eligible : Bool) (c : ClusterheadCandidates) (j : Joining)
      (msg : Option Message) (r : Run)
      → Kept j r
      → Kept
          (hear_joining w duration_ms is_clusterhead eligible c j msg r).0.0
          (hear_joining w duration_ms is_clusterhead eligible c j msg r).1
  unfolding hear_joining
  hear_joining-Kept duration_ms is_clusterhead eligible c j none r k = k
  hear_joining-Kept duration_ms is_clusterhead eligible c j (some msg) r k =
      hear_accept-Kept duration_ms eligible c j msg.hdr.src msg.body _
        (hear_follow-Kept is_clusterhead j msg.hdr.src msg.body r k)

  ask-own : (a : Address) (r : Run) → own (ask w a r).1.node ≡ own r.node
  unfolding ask
  ask-own a r =
      branch-Ensures (λ x k. own k.node ≡ own r.node) _ _ _ r refl
        (send_queue-own w _ ∙ follow-own r.node _ a)

  send_follow-Kept :
      (j : Joining) (r : Run) → Kept j r → Kept (send_follow w j r).0 (send_follow w j r).1
  unfolding send_follow
  send_follow-Kept j r (v, t) =
      branch-Ensures Kept _ _ _ _ (v, t) (subst I (sym (ask-own j.target_node _)) v, t)

  joining_timeout-own :
      (phase deadline : MsDeadline) (r : Run)
      → own (joining_timeout w phase deadline r).1.node ≡ own r.node
  unfolding joining_timeout
  joining_timeout-own phase deadline r =
      branch-Ensures (λ x k. own k.node ≡ own r.node) _ (time_until w phase) (time_until w deadline)
        _ refl refl

  joining_round-Kept :
      (duration_ms : ℕ) (is_clusterhead eligible : Bool) (c : ClusterheadCandidates)
      (phase : MsDeadline) (j : Joining) (r : Run)
      → Kept j r
      → Kept
          (joining_round w duration_ms is_clusterhead eligible c phase j r).0
          (joining_round w duration_ms is_clusterhead eligible c phase j r).1
  unfolding joining_round next_message
  joining_round-Kept duration_ms is_clusterhead eligible c phase j r k =
      let asked = send_follow w j r in
      let timed = joining_timeout w phase asked.0.follow_deadline asked.1 in
      let (v, t) = send_follow-Kept j r k in
      message_loop-keeps Kept
        (λ k buf. hear_joining w duration_ms is_clusterhead eligible c k (decode_msg buf))
        (λ j r k. k)
        (λ j buf r k.
          hear_joining-Kept duration_ms is_clusterhead eligible c j (decode_msg buf) r k)
        256 asked.0 (listen w timed.0 timed.1).1
        (
          subst I
              (sym (
                listen-own w timed.0 timed.1
                ∙ joining_timeout-own phase asked.0.follow_deadline asked.1))
              v,
          t,
        )

  pub run_clusterhead_joining-keeps :
      (fuel duration_ms : ℕ) (is_clusterhead : Bool) (c : ClusterheadCandidates) (r : Run)
      → I (own r.node)
      → I (own (run_clusterhead_joining w fuel duration_ms is_clusterhead c r).1.node)
  unfolding run_clusterhead_joining
  run_clusterhead_joining-keeps fuel duration_ms is_clusterhead c r v =
      (phase_loop-keeps w _ Kept _ (λ j r k. k)
        (joining_round-Kept duration_ms is_clusterhead (acts_as_follower r.node.state) c _) fuel _ _
        (v, closer r.node.state r.node.mac (top c) v)).0
