-- ===== src/Multihop/Phases/Tests.antt =====
-- The theorems about the advertising slot at concrete nodes.
use lora_multihop.Prelude.{◌+◌, ◌≡◌, ◌≢◌, ◌⊎◌, some, refl, false, length, u32, arith}
use lora_multihop.Time.{ms_deadline, reached}
use lora_multihop.Multihop.{unknown_ring}
use lora_multihop.Multihop.State.{Role}
use lora_multihop.Multihop.Node.{NodeRc}
use lora_multihop.Multihop.Phases.Discovery.{run_neighbor_discovery}
use lora_multihop.Multihop.Phases.Advertise.{do_advertise}
use lora_multihop.Multihop.Phases.Advertise.Routes.{IsBelow, slot_at, do_advertise-IsBelow}
use lora_multihop.Multihop.Node.{vtdma_window_size}
use lora_multihop.Multihop.Node.Slots.{prepare_clusterhead}
use lora_multihop.Multihop.Node.Slots.Windows.{
  IsMac, prepare_clusterhead-window, prepare_clusterhead-IsAssigned,
}
use lora_multihop.Multihop.State.Hysteresis.{IsNode}
use lora_multihop.Multihop.Phases.Advertise.Slots.{IsHeld}
use lora_multihop.Multihop.Phases.Advertise.Held.{do_advertise-IsHeld}
use lora_multihop.Multihop.Phases.Discovery.Drift.{silent_discovery-ring}
use lora_multihop.Multihop.Phases.Samples.{
  main_mac, state_of, start, from_follower, hearing, beside_gateway, gateway, nothing_heard,
  second_ring,
}

do_advertise-IsBelow_example :
    ((slot_at beside_gateway start ≡ some 0)
      × ((do_advertise beside_gateway 3 start).0 ≡ NodeRc.ok)
      × IsBelow (do_advertise beside_gateway 3 start).1.node.state)
    ⊎ ((slot_at beside_gateway start ≢ some 0)
        × ((do_advertise beside_gateway 3 start).0 ≡ NodeRc.invalid_slot)
        × ((do_advertise beside_gateway 3 start).1.node.state ≡ start.node.state))
do_advertise-IsBelow_example = do_advertise-IsBelow beside_gateway 3 start

main_mac-IsMac : IsMac main_mac
main_mac-IsMac = record {
  count_byte = omega arith;
  count_pos = omega arith;
  reuse_pos = omega arith;
  reuse_byte = omega arith;
}

window_of_seven : vtdma_window_size main_mac ≡ 7
unfolding vtdma_window_size
window_of_seven = refl

gateway_arrays :
    (gateway.node.state.slot_count ≡ 22) × (length gateway.node.state.slot_assignments ≡ 22)
unfolding prepare_clusterhead
gateway_arrays = (refl, refl)

gateway-IsHeld : IsHeld gateway.node.state gateway.node.mac
gateway-IsHeld = record {
  params = main_mac-IsMac;
  some_slot = omega (arith, window_of_seven);
  fits = omega (arith, gateway_arrays);
  room = omega (arith, gateway_arrays);
  promised = λ acts. record {
    assigned =
        prepare_clusterhead-IsAssigned main_mac main_mac-IsMac (state_of 0 0 Role.gateway)
          (omega (arith, window_of_seven)) (omega arith) (omega arith);
    behind = (prepare_clusterhead-window main_mac main_mac-IsMac (state_of 0 0 Role.gateway)).0;
    within = (prepare_clusterhead-window main_mac main_mac-IsMac (state_of 0 0 Role.gateway)).1;
  };
}

do_advertise-IsHeld_example :
    IsHeld
      (do_advertise (hearing from_follower) 3 gateway).1.node.state
      (do_advertise (hearing from_follower) 3 gateway).1.node.mac
do_advertise-IsHeld_example = do_advertise-IsHeld (hearing from_follower) 3 gateway gateway-IsHeld

second_ring-IsNode : IsNode second_ring.node.state
second_ring-IsNode = record { other = omega arith; few = omega arith; byte = omega arith }

not_reached : reached (ms_deadline (u32 0) 1000) (u32 0) ≡ false
unfolding reached ms_deadline
not_reached = refl

silent_discovery-ring_example :
    (run_neighbor_discovery nothing_heard (3 + 0) 1000 second_ring).1.node.state.ring ≡ unknown_ring
silent_discovery-ring_example =
    silent_discovery-ring nothing_heard (λ k timeout_ms sz. refl) 0 1000 second_ring
      second_ring-IsNode (λ i p. not_reached)
