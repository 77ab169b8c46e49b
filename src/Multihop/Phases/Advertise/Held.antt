-- ===== src/Multihop/Phases/Advertise/Held.antt =====
-- do_advertise of lib/net/src/multihop.cpp leaves each clusterhead with a well-formed window.
use lora_multihop.Prelude.{ℕ, zero, suc, ◌+◌, ◌≡◌, refl, sym, ap, ◌∙◌, Bool, true, false, arith}
use lora_multihop.Net.{MacParams}
use lora_multihop.Multihop.State.{
  MultihopState, reset_neighbors, hear_neighbor, acts_as_clusterhead,
}
use lora_multihop.Multihop.Phases.{World, Run}
use lora_multihop.Multihop.Phases.Rules.{branch-Ensures}
use lora_multihop.Multihop.Phases.Discovery.{run_neighbor_discovery}
use lora_multihop.Multihop.Phases.Discovery.Kept.{run_neighbor_discovery-keeps}
use lora_multihop.Multihop.Phases.Announcement.Kept.{run_clusterhead_announcement-keeps}
use lora_multihop.Multihop.Phases.Joining.Kept.{run_clusterhead_joining-keeps}
use lora_multihop.Multihop.Phases.Joining.{attach}
use lora_multihop.Multihop.Phases.Advertise.{
  leave_cluster, settle_credit, advertise_rounds, advertise_phases, advertise, do_advertise,
}
use lora_multihop.Multihop.Phases.Advertise.Slots.{
  IsHeld, fields, IsHeld-same, IsWindow-same, update_ring_from_neighbors-fields, attach-fields,
  become_clusterhead-IsHeld, accept-IsHeld,
}

settle_credit-fields : (s : MultihopState) → fields (settle_credit s) ≡ fields s
unfolding settle_credit acts_as_clusterhead
settle_credit-fields s = ground arith

leave_cluster-role :
    (s : MultihopState)
    → acts_as_clusterhead (leave_cluster s) ≡ true
    → acts_as_clusterhead s ≡ true
unfolding leave_cluster acts_as_clusterhead
leave_cluster-role s e = ground (arith, e)

leave_cluster-IsHeld :
    (s : MultihopState) (mac : MacParams) → IsHeld s mac → IsHeld (leave_cluster s) mac
unfolding leave_cluster
leave_cluster-IsHeld s mac v = record {
  params = v.params;
  some_slot = v.some_slot;
  fits = v.fits;
  room = v.room;
  promised = λ acts.
      IsWindow-same s _ mac
        (ap (λ b. (b, s.slot_assignments, s.slot_count, s.slots_assigned, s.downstream_start_slot))
          (acts ∙ sym (leave_cluster-role s acts)))
        (v.promised (leave_cluster-role s acts));
}

module _ (w : World) where
  abbrev Held : Run → Type 0
  Held r = IsHeld r.node.state r.node.mac

  discovery-IsHeld :
      (fuel duration_ms : ℕ) (r : Run)
      → Held r
      → Held (run_neighbor_discovery w fuel duration_ms r).1
  unfolding reset_neighbors hear_neighbor acts_as_clusterhead
  discovery-IsHeld fuel duration_ms r v =
      run_neighbor_discovery-keeps w (λ o. IsHeld o.0 o.1)
        (λ s mac ring v. IsHeld-same s _ mac refl v)
        (λ s mac v. IsHeld-same s _ mac (update_ring_from_neighbors-fields s) v) fuel duration_ms r
        (IsHeld-same r.node.state _ r.node.mac refl v)

  advertise_rounds-IsHeld :
      (fuel round_ms left round : ℕ) (is_clusterhead : Bool) (r : Run)
      → Held r
      → Held (advertise_rounds w fuel round_ms left round is_clusterhead r).1
  unfolding advertise_rounds attach
  advertise_rounds-IsHeld fuel round_ms zero round is_clusterhead r v = v
  advertise_rounds-IsHeld fuel round_ms (suc left) round is_clusterhead r v =
      advertise_rounds-IsHeld fuel round_ms left (round + 1) _ _ (
        run_clusterhead_joining-keeps w (λ o. IsHeld o.0 o.1) (λ node ring. Unit {0}) accept-IsHeld
          (λ n j start relative t v.
            IsHeld-same n.state _ n.mac (attach-fields n j start relative) v)
          become_clusterhead-IsHeld (λ s mac c v. tt) fuel round_ms _ _ _
          (run_clusterhead_announcement-keeps w (λ o. IsHeld o.0 o.1) become_clusterhead-IsHeld fuel
            round_ms round is_clusterhead r v))

  advertise_phases-IsHeld :
      (fuel total_ms : ℕ) (r : Run) → Held r → Held (advertise_phases w fuel total_ms r).1
  unfolding advertise_phases
  advertise_phases-IsHeld fuel total_ms r v =
      advertise_rounds-IsHeld fuel _ _ 0 false _ (discovery-IsHeld fuel _ r v)

  advertise-IsHeld : (fuel : ℕ) (r : Run) → Held r → Held (advertise w fuel r).1
  unfolding advertise
  advertise-IsHeld fuel r v =
      IsHeld-same _ _ _ (settle_credit-fields _)
        (advertise_phases-IsHeld fuel _ _ (leave_cluster-IsHeld _ _ v))

  -- Let the parameters leave each window a slot, let the arrays have room for all slots of the superframe, and let
  -- the node, if it acts as clusterhead, have its window within the superframe and distinct nodes in its slots. Then
  -- all of this holds after a call of do_advertise, whatever its answer, whatever the clocks, the random numbers and
  -- the radio give, and however many rounds the phases have.
  pub do_advertise-IsHeld :
      (fuel : ℕ) (r : Run)
      → IsHeld r.node.state r.node.mac
      → IsHeld (do_advertise w fuel r).1.node.state (do_advertise w fuel r).1.node.mac
  unfolding do_advertise
  do_advertise-IsHeld fuel r v =
      branch-Ensures (λ rc k. Held k) _ (advertise w fuel) _ _ (advertise-IsHeld fuel _ v) v
