-- ===== src/Multihop/Node/Relay/Tests.antt =====
-- The theorems about the slots of a window at a concrete clusterhead.
use lora_multihop.Prelude.{◌+◌, ◌-◌, ◌<◌, ◌≡◌, ◌≢◌, ◌↔◌, refl, [], some, arith}
use lora_multihop.Lora.{LoraRc}
use lora_multihop.Link.{update_window}
use lora_multihop.Link.Slots.{active_slot, current_slot}
use lora_multihop.Multihop.Node.{NodeRc, vtdma_window_size}
use lora_multihop.Multihop.Node.Slots.{prepare_clusterhead}
use lora_multihop.Multihop.Node.Tests.{head, head-IsAssigned}
use lora_multihop.Multihop.Node.Relay.{do_clusterhead_recv}
use lora_multihop.Multihop.Node.Relay.Heard.{do_clusterhead_recv_iff}

window_of_head : head.state.downstream_start_slot + vtdma_window_size head.mac ≡ 15
unfolding prepare_clusterhead vtdma_window_size
window_of_head = refl

second_active : (active_slot head.link 737).1 ≡ some (head.state.downstream_start_slot + 1)
unfolding active_slot current_slot update_window prepare_clusterhead vtdma_window_size
second_active = refl

do_clusterhead_recv_iff_example :
    ((do_clusterhead_recv head 737 737 (λ k. record { rc = LoraRc.timed_out; bytes = [] })).1
      ≢ NodeRc.invalid_slot)
    ↔ ((head.state.downstream_start_slot < head.state.downstream_start_slot + 1)
        × (head.state.downstream_start_slot + 1 + 1
            < head.state.downstream_start_slot + vtdma_window_size head.mac)
        × (head.state.downstream_start_slot + 1 - head.state.downstream_start_slot
            < head.state.slots_assigned))
do_clusterhead_recv_iff_example =
    do_clusterhead_recv_iff head 737 737 (head.state.downstream_start_slot + 1)
      (λ k. record { rc = LoraRc.timed_out; bytes = [] }) head-IsAssigned
      (omega (arith, window_of_head)) (omega (arith, window_of_head)) second_active
