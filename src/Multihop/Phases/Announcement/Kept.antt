-- ===== src/Multihop/Phases/Announcement/Kept.antt =====
-- What run_clusterhead_announcement of lib/net/src/multihop.cpp keeps of the state: whatever becoming a
-- clusterhead keeps.
use lora_multihop.Prelude.{ℕ, ◌≡◌, refl, sym, subst, ◌∙◌, Bool, true, false}
use lora_multihop.Time.{MsDeadline}
use lora_multihop.Multihop.{Ring}
use lora_multihop.Multihop.Node.{Node, NodeRc}
use lora_multihop.Multihop.Phases.{World, Run, time_until, next_message}
use lora_multihop.Multihop.Phases.Rules.{branch-Ensures, message_loop-keeps, phase_loop-keeps}
use lora_multihop.Multihop.Phases.Rules.State.{
  Own, own, listen-own, send_queue-own, open_cluster-own,
}
use lora_multihop.Multihop.Phases.Announcement.{
  Announcing, hear_open_cluster, become_clusterhead, become_if, flush_result_of, announce_cluster,
  announcement_timeout, announcement_round, run_clusterhead_announcement,
}

module _ (I : Own → Type 0)
    (becomes : (n : Node) → I (own n) → I (own (become_clusterhead n))) where
  pub become_if-keeps : (b : Bool) (r : Run) → I (own r.node) → I (own (become_if b r).1.node)
  unfolding become_if
  become_if-keeps true r v = becomes r.node v
  become_if-keeps false r v = v

module _ (w : World) where
  flush_result_of-own : (rc : NodeRc) (r : Run) → own (flush_result_of w rc r).1.node ≡ own r.node
  unfolding flush_result_of
  flush_result_of-own NodeRc.ok r = send_queue-own w r
  flush_result_of-own _ r = refl

  announce_cluster-own :
      (announce : MsDeadline) (a : Announcing) (r : Run)
      → own (announce_cluster w announce a r).1.node ≡ own r.node
  unfolding announce_cluster
  announce_cluster-own announce a r =
      branch-Ensures (λ x k. own k.node ≡ own r.node) _ _ _ _ refl
        (flush_result_of-own _ _ ∙ open_cluster-own r.node _)

  announcement_timeout-own :
      (phase announce : MsDeadline) (need : Bool) (r : Run)
      → own (announcement_timeout w phase announce need r).1.node ≡ own r.node
  unfolding announcement_timeout
  announcement_timeout-own phase announce need r =
      branch-Ensures (λ x k. own k.node ≡ own r.node) _ (time_until w announce) (time_until w phase)
        _ refl refl

  announcement_round-own :
      (phase announce : MsDeadline) (a : Announcing) (r : Run)
      → own (announcement_round w phase announce a r).1.node ≡ own r.node
  unfolding announcement_round next_message hear_open_cluster
  announcement_round-own phase announce a r =
      message_loop-keeps (λ a k. own k.node ≡ own r.node) hear_open_cluster (λ a k e. e)
        (λ a buf k e. e) 256 _ _
        (announce_cluster-own announce a _
          ∙ listen-own w _ _
          ∙ announcement_timeout-own phase announce a.need_to_announce r)

  module _ (I : Own → Type 0)
      (becomes : (n : Node) → I (own n) → I (own (become_clusterhead n))) where
    pub run_clusterhead_announcement-keeps :
        (fuel duration_ms : ℕ) (eligible_ring : Ring) (ch_earlier_round : Bool) (r : Run)
        → I (own r.node)
        → I (
            own
              (run_clusterhead_announcement w fuel duration_ms eligible_ring ch_earlier_round
                r).1.node)
    unfolding run_clusterhead_announcement
    run_clusterhead_announcement-keeps fuel duration_ms eligible_ring ch_earlier_round r v =
        phase_loop-keeps w _ (λ a r. I (own r.node)) _ (λ a r v. v)
          (λ a r v. subst I (sym (announcement_round-own _ _ a r)) v) fuel _ _
          (become_if-keeps I becomes _ _ v)
