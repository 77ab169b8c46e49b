-- ===== src/Multihop/Phases/Advertise/Ends.antt =====
-- The phases of the advertising slot end: the loops of run_neighbor_discovery, run_clusterhead_announcement and
-- run_clusterhead_joining of lib/net/src/multihop.cpp.
use lora_multihop.Prelude.{ℕ, suc, ◌+◌, ◌≤◌, ◌≡◌, Bool, true, u32, arith}
use lora_multihop.Time.{ms_deadline, reached}
use lora_multihop.Multihop.{Ring}
use lora_multihop.Multihop.Node.Election.{ClusterheadCandidates}
use lora_multihop.Multihop.Phases.{World, Run}
use lora_multihop.Multihop.Phases.Discovery.{run_neighbor_discovery}
use lora_multihop.Multihop.Phases.Discovery.Ends.{run_neighbor_discovery-ends}
use lora_multihop.Multihop.Phases.Announcement.{run_clusterhead_announcement}
use lora_multihop.Multihop.Phases.Announcement.Ends.{run_clusterhead_announcement-ends}
use lora_multihop.Multihop.Phases.Joining.{run_clusterhead_joining}
use lora_multihop.Multihop.Phases.Joining.Ends.{run_clusterhead_joining-ends}

-- Let the deadlines that are made at the next call and at the two behind it be reached at every call from
-- `last` on. Then each of the three phases, started here with one round more than the calls that are left until
-- `last`, is ended by its deadline and not by its bound on rounds, whatever is heard and sent. Each wait is one call.
pub phases-end :
    (w : World) (r : Run) (duration_ms last k : ℕ) (ring : Ring) (earlier is_clusterhead : Bool)
    (candidates : ClusterheadCandidates)
    → ((c i : ℕ)
        → c ≤ r.call + 2
        → last ≤ i
        → reached (ms_deadline (u32 (w.millis c)) duration_ms) (u32 (w.millis i)) ≡ true)
    → last ≤ r.call + k
    → ((run_neighbor_discovery w (suc k) duration_ms r).0 ≡ true)
      × ((run_clusterhead_announcement w (suc k) duration_ms ring earlier r).0.1 ≡ true)
      × ((run_clusterhead_joining w (suc k) duration_ms is_clusterhead candidates r).0.1 ≡ true)
phases-end w r duration_ms last k ring earlier is_clusterhead candidates over p = (
  run_neighbor_discovery-ends w k duration_ms last r (λ i q. over r.call i (omega arith) q) p,
  run_clusterhead_announcement-ends w k duration_ms ring earlier last r
      (λ i q. over (r.call + 1) i (omega arith) q) p,
  run_clusterhead_joining-ends w k duration_ms is_clusterhead candidates last r
      (λ i q. over (r.call + 1 + 1) i (omega arith) q) p,
)
