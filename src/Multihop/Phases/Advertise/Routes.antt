-- ===== src/Multihop/Phases/Advertise/Routes.antt =====
-- Where the advertising slot leaves a node: do_advertise of lib/net/src/multihop.cpp.
use lora_multihop.Prelude.{
  ℕ, zero, suc, ◌+◌, ◌<◌, ◌≡◌, ◌⊎◌, inl, inr, refl, sym, subst, ◌∙◌, Bool, true, false, Bool-cases,
  Option, none, some, ◌≢◌, u32, arith,
}
use lora_multihop.Net.{unknown_addr}
use lora_multihop.Multihop.{Ring, unknown_ring}
use lora_multihop.Multihop.State.{
  MultihopState, reset_neighbors, hear_neighbor, drift, update_ring_from_neighbors,
}
use lora_multihop.Multihop.Node.{NodeRc}
use lora_multihop.Link.Slots.{active_slot}
use lora_multihop.Multihop.Node.Timing.{advertisement_number}
use lora_multihop.Multihop.Node.Relay.{is_slot}
use lora_multihop.Multihop.Phases.{World, Run, branch, pure}
use lora_multihop.Multihop.Phases.Discovery.{run_neighbor_discovery}
use lora_multihop.Multihop.Phases.Discovery.Kept.{run_neighbor_discovery-keeps}
use lora_multihop.Multihop.Phases.Announcement.Kept.{run_clusterhead_announcement-keeps}
use lora_multihop.Multihop.Phases.Joining.Routes.{
  IsRouted, IsRouted-same, route, become_clusterhead-route, run_clusterhead_joining-IsRouted,
}
use lora_multihop.Multihop.Phases.Advertise.{
  leave_cluster, settle_credit, advertise_rounds, advertise_phases, advertise, do_advertise,
}

-- The node is in no cluster, knows no ring, or is in the cluster of a node in a ring below its own.
abbrev pub IsBelow : MultihopState → Type 0
IsBelow s =
    (s.clusterhead_addr ≡ unknown_addr) ⊎ (s.ring ≡ unknown_ring) ⊎ (s.clusterhead_ring < s.ring)

IsRouted-IsBelow : (ring : Ring) (s : MultihopState) → IsRouted ring s → IsBelow s
IsRouted-IsBelow ring s v =
    subst (λ k. (s.clusterhead_addr ≡ unknown_addr) ⊎ (k ≡ unknown_ring) ⊎ (s.clusterhead_ring < k))
      (sym v.same_ring) v.below

update_ring_from_neighbors-clusterhead_addr :
    (s : MultihopState) → (update_ring_from_neighbors s).clusterhead_addr ≡ s.clusterhead_addr
unfolding update_ring_from_neighbors drift
update_ring_from_neighbors-clusterhead_addr s = ground arith

settle_credit-route : (s : MultihopState) → route (settle_credit s) ≡ route s
unfolding settle_credit
settle_credit-route s = ground arith

is_slot-some : (o : Option ℕ) → is_slot o advertisement_number ≡ true → o ≡ some 0
is_slot-some none e = absurd (cc (e))
is_slot-some (some slot) e = ground (arith, e)

is_slot-other : (o : Option ℕ) → is_slot o advertisement_number ≡ false → o ≢ some 0
is_slot-other none e = λ h. cc (h)
is_slot-other (some slot) e = λ h. ground (arith, e, h)

module _ (w : World) where
  discovery-unattached :
      (fuel duration_ms : ℕ) (r : Run)
      → r.node.state.clusterhead_addr ≡ unknown_addr
      → (run_neighbor_discovery w fuel duration_ms r).1.node.state.clusterhead_addr ≡ unknown_addr
  unfolding reset_neighbors hear_neighbor
  discovery-unattached fuel duration_ms r e =
      run_neighbor_discovery-keeps w (λ o. o.0.clusterhead_addr ≡ unknown_addr) (λ s mac ring e. e)
        (λ s mac e. update_ring_from_neighbors-clusterhead_addr s ∙ e) fuel duration_ms r e

  advertise_rounds-IsRouted :
      (ring : Ring) (fuel round_ms left round : ℕ) (is_clusterhead : Bool) (r : Run)
      → IsRouted ring r.node.state
      → IsRouted ring (advertise_rounds w fuel round_ms left round is_clusterhead r).1.node.state
  unfolding advertise_rounds
  advertise_rounds-IsRouted ring fuel round_ms zero round is_clusterhead r v = v
  advertise_rounds-IsRouted ring fuel round_ms (suc left) round is_clusterhead r v =
      advertise_rounds-IsRouted ring fuel round_ms left (round + 1) _ _ (
        run_clusterhead_joining-IsRouted w ring fuel round_ms _ _ _ (
          run_clusterhead_announcement-keeps w (λ o. IsRouted ring o.0)
            (λ n v. IsRouted-same ring _ _ (become_clusterhead-route n) v) fuel round_ms round
            is_clusterhead r v))

  advertise_phases-IsBelow :
      (fuel total_ms : ℕ) (r : Run)
      → r.node.state.clusterhead_addr ≡ unknown_addr
      → IsBelow (advertise_phases w fuel total_ms r).1.node.state
  unfolding advertise_phases
  advertise_phases-IsBelow fuel total_ms r e =
      let found = (run_neighbor_discovery w fuel _ r).1 in
      IsRouted-IsBelow found.node.state.ring _ (
        advertise_rounds-IsRouted found.node.state.ring fuel _ _ 0 false found
          (record { same_ring = refl; below = inl (discovery-unattached fuel _ r e) }))

  advertise-IsBelow :
      (fuel : ℕ) (r : Run)
      → ((advertise w fuel r).0 ≡ NodeRc.ok) × IsBelow (advertise w fuel r).1.node.state
  unfolding advertise leave_cluster
  advertise-IsBelow fuel r = (
    refl,
    subst (λ k. (k.1 ≡ unknown_addr) ⊎ (k.0 ≡ unknown_ring) ⊎ (k.2 < k.0))
        (sym (settle_credit-route _)) (advertise_phases-IsBelow fuel _ _ refl),
  )

  -- The slot that is active at the next call.
  abbrev pub slot_at : Run → Option ℕ
  slot_at r = (active_slot r.node.link (u32 (w.now r.call))).1

  abbrev read_slot : Run → Run
  read_slot r = record r {
    node = record (r.node) { link = (active_slot r.node.link (u32 (w.now r.call))).0 };
    call = r.call + 1;
  }

  do_advertise-branch :
      (fuel : ℕ) (r : Run)
      → do_advertise w fuel r
        ≡ branch
            (is_slot (slot_at r) advertisement_number)
            (advertise w fuel)
            (pure NodeRc.invalid_slot)
            (read_slot r)
  unfolding do_advertise
  do_advertise-branch fuel r = refl

  -- After a call of do_advertise, whatever the clocks, the random numbers and the radio give and however many
  -- rounds the phases have: if the slot that is active at its call is the advertising slot, slot 0, it answers Ok, and the
  -- node is in no cluster, knows no ring, or its clusterhead is in a ring strictly below its own; if no slot or
  -- another slot is active, it answers InvalidSlot and leaves the state as it is.
  pub do_advertise-IsBelow :
      (fuel : ℕ) (r : Run)
      → ((slot_at r ≡ some 0)
          × ((do_advertise w fuel r).0 ≡ NodeRc.ok)
          × IsBelow (do_advertise w fuel r).1.node.state)
        ⊎ ((slot_at r ≢ some 0)
            × ((do_advertise w fuel r).0 ≡ NodeRc.invalid_slot)
            × ((do_advertise w fuel r).1.node.state ≡ r.node.state))
  unfolding branch
  do_advertise-IsBelow fuel r = elim (Bool-cases (is_slot (slot_at r) advertisement_number)) [
    | inl here ↦
        let (answered, below) = advertise-IsBelow fuel (read_slot r) in
        let e = do_advertise-branch fuel r in
        inl (is_slot-some (slot_at r) here, rw (e, here) answered, rw (e, here) below)
    | inr other ↦
        let e = do_advertise-branch fuel r in
        inr (is_slot-other (slot_at r) other, rw (e, other) refl, rw (e, other) refl)
  ]
