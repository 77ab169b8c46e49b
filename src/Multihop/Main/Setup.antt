-- ===== src/Multihop/Main/Setup.antt =====
-- What setup of multihop/node/src/main.cpp starts a node with.
use lora_multihop.Prelude.{
  ℕ, ◌≡◌, ◌==◌, refl, ap, Bool, true, false, length, replicate, arith, if◌then◌else◌,
}
use lora_multihop.Net.{Address, gateway_addr}
use lora_multihop.Lora.{LoraRc}
use lora_multihop.Link.{Link, LinkRc}
use lora_multihop.Multihop.State.{
  MultihopState, Role, initialized, acts_as_clusterhead, with_address, clusterhead_probability,
  with_acks_array,
}
use lora_multihop.Multihop.Node.{Node, vtdma_window_size}
use lora_multihop.Multihop.Node.Slots.{init, after_link, prepare_clusterhead}
use lora_multihop.Multihop.Node.Slots.Windows.{IsMac}
use lora_multihop.Multihop.Phases.Advertise.Slots.{IsHeld, prepare_clusterhead-IsHeld}
use lora_multihop.Multihop.Main.{setup, returned, firmware_mac, superframe_slot_count}

firmware_mac-IsMac : IsMac firmware_mac
firmware_mac-IsMac = record {
  count_byte = omega arith;
  count_pos = omega arith;
  reuse_pos = omega arith;
  reuse_byte = omega arith;
}

firmware_window : vtdma_window_size firmware_mac ≡ 7
unfolding vtdma_window_size
firmware_window = refl

-- A node that does not act as clusterhead, with the arrays of the firmware.
idle-IsHeld :
    (s : MultihopState)
    → acts_as_clusterhead s ≡ false
    → s.slot_count ≡ superframe_slot_count
    → s.slot_assignments ≡ replicate superframe_slot_count 0
    → IsHeld s firmware_mac
idle-IsHeld s idle count list = record {
  params = firmware_mac-IsMac;
  some_slot = omega (arith, firmware_window);
  fits = omega (arith, count);
  room = omega (arith, count, ap length list);
  promised = λ acts. absurd (ground (arith, idle, acts));
}

-- The state that init makes, before a gateway prepares its window.
abbrev ready : MultihopState → Address → MultihopState
ready s address =
    with_acks_array
      (clusterhead_probability
        (record (with_address s address) { slot_assignments = replicate superframe_slot_count 0 })
        255)
      (replicate superframe_slot_count 0) superframe_slot_count

ready-idle :
    (s : MultihopState) (a : Address)
    → (a == gateway_addr) ≡ false
    → acts_as_clusterhead (ready s a) ≡ false
unfolding with_acks_array clusterhead_probability with_address acts_as_clusterhead
ready-idle s a e = ground (arith, e)

ready_count : (s : MultihopState) (a : Address) → (ready s a).slot_count ≡ superframe_slot_count
unfolding with_acks_array
ready_count s a = refl

ready_list :
    (s : MultihopState) (a : Address)
    → (ready s a).slot_assignments ≡ replicate superframe_slot_count 0
unfolding with_acks_array clusterhead_probability with_address
ready_list s a = ground arith

follower-idle :
    (s : MultihopState) → acts_as_clusterhead (record s { role = Role.follower }) ≡ false
unfolding acts_as_clusterhead
follower-idle s = refl

ready-IsHeld :
    (s : MultihopState) (a : Address) (b : Bool)
    → (a == gateway_addr) ≡ b
    → IsHeld (if b then prepare_clusterhead (ready s a) firmware_mac else ready s a) firmware_mac
ready-IsHeld s a true e =
    prepare_clusterhead-IsHeld (record (ready s a) { role = Role.follower }) (ready s a)
      firmware_mac refl refl
      (idle-IsHeld _ (follower-idle (ready s a)) (ready_count s a) (ready_list s a))
ready-IsHeld s a false e =
    idle-IsHeld (ready s a) (ready-idle s a e) (ready_count s a) (ready_list s a)

after_link-IsHeld :
    (n : Node) (device_id time_s : ℕ) (link : Link) (rc : LinkRc)
    → initialized n.state ≡ false
    → initialized
        (returned firmware_mac (
          after_link n
            (record { address = device_id; time_s = time_s })
            firmware_mac
            (replicate superframe_slot_count 0)
            (replicate superframe_slot_count 0)
            superframe_slot_count
            255
            (link, rc))).state
      ≡ true
    → IsHeld
        (returned firmware_mac (
          after_link n
            (record { address = device_id; time_s = time_s })
            firmware_mac
            (replicate superframe_slot_count 0)
            (replicate superframe_slot_count 0)
            superframe_slot_count
            255
            (link, rc))).state
        (returned firmware_mac (
          after_link n
            (record { address = device_id; time_s = time_s })
            firmware_mac
            (replicate superframe_slot_count 0)
            (replicate superframe_slot_count 0)
            superframe_slot_count
            255
            (link, rc))).mac
after_link-IsHeld n device_id time_s link LinkRc.ok idle started =
    ready-IsHeld n.state device_id _ refl
after_link-IsHeld n device_id time_s link _ idle started = absurd (ground (arith, idle, started))

-- A node that setup has started is well-formed, as long as the memory of its parameters keeps their value.
pub setup-IsHeld :
    (n : Node) (device_id : ℕ) (lora_rc : LoraRc) (time_s now : ℕ)
    → initialized n.state ≡ false
    → initialized (setup n device_id lora_rc firmware_mac time_s now).state ≡ true
    → IsHeld
        (setup n device_id lora_rc firmware_mac time_s now).state
        (setup n device_id lora_rc firmware_mac time_s now).mac
unfolding setup init
setup-IsHeld n device_id LoraRc.okay time_s now idle started =
    after_link-IsHeld n device_id time_s _ _ idle started
setup-IsHeld n device_id _ time_s now idle started = absurd (ground (arith, idle, started))
