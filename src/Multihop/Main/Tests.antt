-- ===== src/Multihop/Main/Tests.antt =====
-- The firmware of multihop/node/src/main.cpp at a gateway that hears a follower in each wait.
use lora_multihop.Prelude.{ℕ, ◌≡◌, refl, true, false, none, List, [], ◌∷◌}
use lora_multihop.Net.{fresh_mac_state, fresh_link_state}
use lora_multihop.Lora.{LoraRc}
use lora_multihop.Multihop.State.{
  initialized, fresh_state, with_address, with_acks_array, clusterhead_probability,
}
use lora_multihop.Multihop.Node.{Node}
use lora_multihop.Multihop.Phases.{Run}
use lora_multihop.Multihop.Phases.Samples.{hearing, from_follower}
use lora_multihop.Multihop.Phases.Advertise.Slots.{IsHeld}
use lora_multihop.Multihop.Main.{setup, superframes, firmware_mac, firmware_link}
use lora_multihop.Link.{init as link_init, update_window}
use lora_multihop.Multihop.Node.Slots.{init, prepare_clusterhead}
use lora_multihop.Multihop.Main.Held.{superframes-IsHeld}
use lora_multihop.Multihop.Main.Setup.{setup-IsHeld}

-- The static variables before setup.
abbrev unstarted : Node
unstarted = record {
  state = fresh_state;
  mac = firmware_mac;
  link = record {
    initialized = false;
    node = record { address = 255; time_s = 0 };
    mac = firmware_mac;
    mac_state = fresh_mac_state;
    params = firmware_link;
    state = fresh_link_state;
  };
}

-- The letters DATA.
abbrev letters : ℕ → List ℕ
letters seq = 68 ∷ 65 ∷ 84 ∷ 65 ∷ []

idle : initialized unstarted.state ≡ false
unfolding initialized
idle = refl

started : initialized (setup unstarted 0 LoraRc.okay firmware_mac 700 700).state ≡ true
unfolding setup init link_init initialized update_window with_address with_acks_array
    clusterhead_probability prepare_clusterhead
started = refl

-- The gateway as setup leaves it.
abbrev set_up : Run
set_up = record {
  node = setup unstarted 0 LoraRc.okay firmware_mac 700 700;
  call = 0;
  clock_set = none;
}

superframes-IsHeld_example :
    IsHeld
      (superframes (hearing from_follower) 2 3 letters 0 set_up).1.node.state
      (superframes (hearing from_follower) 2 3 letters 0 set_up).1.node.mac
superframes-IsHeld_example =
    superframes-IsHeld (hearing from_follower) 2 3 letters 0 set_up
      (setup-IsHeld unstarted 0 LoraRc.okay 700 700 idle started)
