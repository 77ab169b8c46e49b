-- ===== src/Multihop/Phases/Discovery/Drift.antt =====
-- What silence does to the ring of a node within one run_neighbor_discovery of lib/net/src/multihop.cpp.
use lora_multihop.Prelude.{
  ℕ, zero, suc, ◌+◌, ◌*◌, ◌≤◌, ◌≡◌, inr, refl, sym, subst, false, u32, arith,
}
use lora_multihop.Lora.{LoraRc}
use lora_multihop.Time.{MsDeadline, ms_deadline, reached}
use lora_multihop.Multihop.{unknown_ring}
use lora_multihop.Multihop.State.{MultihopState, reset_neighbors}
use lora_multihop.Multihop.State.Hysteresis.{IsNode}
use lora_multihop.Multihop.Phases.{World, Run, is_reached, phase_loop}
use lora_multihop.Multihop.Phases.Rules.{phase_loop-keeps}
use lora_multihop.Multihop.Phases.Rules.Ends.{phase_loop-next}
use lora_multihop.Multihop.Phases.Discovery.{Discovering, discovery_round, run_neighbor_discovery}
use lora_multihop.Multihop.Phases.Discovery.Silent.{Quiet, silent_round}

Quiet-weaken : (t n : ℕ) (s : MultihopState) → t ≤ n → Quiet n s → Quiet t s
Quiet-weaken t n s p q = record {
  node = q.node;
  none_heard = q.none_heard;
  counted = ground (arith, q.counted);
}

Quiet-ring : (s : MultihopState) → Quiet 3 s → s.ring ≡ unknown_ring
Quiet-ring s q = ground (arith, q.counted, q.node.few)

module _ (w : World)
    (silent : (k timeout_ms sz : ℕ) → (w.hears k timeout_ms sz).rc ≡ LoraRc.timed_out) where
  module _ (phase announce : MsDeadline) (last : ℕ)
      (open_until : (i : ℕ) → i ≤ last → reached phase (u32 (w.millis i)) ≡ false) where
    silent_loop :
        (m fuel n t : ℕ) (d : Discovering) (r : Run)
        → m ≤ fuel
        → t ≤ n + m
        → r.call + 9 * m ≤ last
        → Quiet n r.node.state
        → Quiet t (phase_loop w phase (discovery_round w phase announce) fuel d r).1.node.state
    silent_loop zero fuel n t d r f le p q =
        phase_loop-keeps w phase (λ d r. Quiet t r.node.state) (discovery_round w phase announce)
          (λ d r q. q)
          (λ d r q.
            Quiet-weaken t (suc t) _ (omega arith)
              (silent_round w silent t (r.call + 8) phase announce d r q (omega arith)).0)
          fuel d r (Quiet-weaken t n _ (omega arith) q)
    silent_loop (suc m) zero n t d r f le p q = absurd (omega arith)
    silent_loop (suc m) (suc fuel) n t d r f le p q =
        let r' = (is_reached w phase r).1 in
        let (quiet, few) =
          silent_round w silent n (r.call + 9) phase announce d r' q (omega arith) in
        subst (λ x. Quiet t x.1.node.state)
          (sym (
            phase_loop-next w phase (discovery_round w phase announce) fuel d r
              (open_until r.call (omega arith))))
          (silent_loop m fuel (suc n) t _ (discovery_round w phase announce d r').1 (omega arith)
            (omega arith) (omega arith) quiet)

  -- Let every wait of a phase for heartbeats time out, in a node other than the gateway, and let the deadline of
  -- the phase be reached at none of its first thirty calls. Then the node is in the unknown ring after the phase
  -- if the loop may run for three rounds or more, whatever its ring was and however few phases before were silent.
  pub silent_discovery-ring :
      (k duration_ms : ℕ) (r : Run)
      → IsNode r.node.state
      → ((i : ℕ)
          → i ≤ r.call + 30
          → reached (ms_deadline (u32 (w.millis r.call)) duration_ms) (u32 (w.millis i)) ≡ false)
      → (run_neighbor_discovery w (3 + k) duration_ms r).1.node.state.ring ≡ unknown_ring
  unfolding run_neighbor_discovery reset_neighbors
  silent_discovery-ring k duration_ms r n p = Quiet-ring _ (
      silent_loop _ _ (r.call + 30) p 3 (3 + k) 0 3 _ _ (omega arith) (omega arith) (omega arith)
        (record {
          node = record { other = n.other; few = n.few; byte = n.byte };
          none_heard = refl;
          counted = inr (omega arith);
        }))
