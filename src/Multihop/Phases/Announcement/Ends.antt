-- ===== src/Multihop/Phases/Announcement/Ends.antt =====
-- run_clusterhead_announcement of lib/net/src/multihop.cpp makes its calls one after the other, and ends by its
-- deadline.
use lora_multihop.Prelude.{
  ℕ, suc, ◌+◌, ◌≤◌, ◌≡◌, refl, sym, subst, not, ◌&&◌, Bool, true, false, u32, arith,
}
use lora_multihop.Time.{MsDeadline, ms_deadline, reached}
use lora_multihop.Multihop.{Ring}
use lora_multihop.Multihop.Node.{NodeRc}
use lora_multihop.Multihop.Phases.{World, Run, time_until, next_message}
use lora_multihop.Multihop.Phases.Rules.{branch-Ensures, message_loop-keeps}
use lora_multihop.Multihop.Phases.Rules.Ends.{
  After, listen-After, send_queue-After, phase_loop-ends,
}
use lora_multihop.Multihop.Phases.Announcement.{
  Announcing, hear_open_cluster, become_if, elected, flush_result_of, announce_cluster,
  announcement_timeout, announcement_round, run_clusterhead_announcement,
}

pub become_if-call : (b : Bool) (r : Run) → (become_if b r).1.call ≡ r.call
unfolding become_if
become_if-call true r = refl
become_if-call false r = refl

-- The deadline of the announcement, which is made at this call, is reached at every call from the last on.
abbrev Over : World → ℕ → ℕ → ℕ → Type 0
Over w duration_ms last c =
    (i : ℕ)
    → last ≤ i
    → reached (ms_deadline (u32 (w.millis c)) duration_ms) (u32 (w.millis i)) ≡ true

module _ (w : World) where
  module _ (c : ℕ) where
    flush_result_of-After : (rc : NodeRc) (r : Run) → After c r → After c (flush_result_of w rc r).1
    unfolding flush_result_of
    flush_result_of-After NodeRc.ok r p = send_queue-After w c r p
    flush_result_of-After _ r p = p

    announce_cluster-After :
        (announce : MsDeadline) (a : Announcing) (r : Run)
        → After c r
        → After c (announce_cluster w announce a r).1
    unfolding announce_cluster
    announce_cluster-After announce a r p =
        branch-Ensures (λ x k. After c k) _ _ _ _ (omega arith)
          (flush_result_of-After _ _ (omega arith))

    announcement_timeout-After :
        (phase announce : MsDeadline) (need : Bool) (r : Run)
        → After c r
        → After c (announcement_timeout w phase announce need r).1
    unfolding announcement_timeout
    announcement_timeout-After phase announce need r p =
        branch-Ensures (λ x k. After c k) _ (time_until w announce) (time_until w phase) _
          (omega arith) (omega arith)

    announcement_round-After :
        (phase announce : MsDeadline) (a : Announcing) (r : Run)
        → After c r
        → After c (announcement_round w phase announce a r).1
    unfolding announcement_round next_message hear_open_cluster
    announcement_round-After phase announce a r p =
        message_loop-keeps (λ a k. After c k) hear_open_cluster (λ a k p. p) (λ a buf k p. p) 256 _
          _
          (announce_cluster-After announce a _ (
            listen-After w c _ _
              (announcement_timeout-After phase announce a.need_to_announce r p)))

  pub run_clusterhead_announcement-ends :
      (k duration_ms : ℕ) (ring : Ring) (earlier : Bool) (last : ℕ) (r : Run)
      → Over w duration_ms last (r.call + 1)
      → last ≤ r.call + k
      → (run_clusterhead_announcement w (suc k) duration_ms ring earlier r).0.1 ≡ true
  unfolding run_clusterhead_announcement
  run_clusterhead_announcement-ends k duration_ms ring earlier last r over p =
      phase_loop-ends w _ _ last (subst (Over w duration_ms last) (sym (become_if-call _ _)) over)
        (λ c a r p. announcement_round-After c _ _ a r p) k _ _
        (ground (
          arith,
          become_if-call (elected r.node.state ring (w.random r.call) && not earlier)
              (record r { call = r.call + 1 }),
        ))
