-- ===== src/Mesh/Radio/Tests.antt =====
-- Runs of the radio of loramesh/node/src/LM_NexusModule.cpp. The floating-point parameters are numbers here.
use lora_multihop.Prelude.{ℕ, ◌≡◌, refl, none, some, List, [], ◌∷◌, arith}
use lora_multihop.Prelude.Decimal.{codes}
use lora_multihop.Mesh.Radio.{NexusModule, RadioRc, channel_dir, before_slash, from_fds, destroy}
use lora_multihop.Mesh.Radio.Mailbox.{Op, run, box_run, arrive, take_out, run-box_run}

dir_of_channel : channel_dir (codes "/nexus/ctl.lora_sf7/channel") ≡ codes "/nexus/ctl.lora_sf7"
unfolding channel_dir before_slash
dir_of_channel = refl

abbrev module_7 : NexusModule ℕ
module_7 = from_fds 915 125 (some 3) (some 3) (codes "/nexus/ctl.lora_sf7")

-- The file that is open for both is closed once.
closed_once : (destroy module_7).2 ≡ 3 ∷ []
unfolding destroy from_fds
closed_once = refl

-- The second packet takes the place of the first.
abbrev overtaken : List Op
overtaken = Op.polls (1 ∷ 2 ∷ []) ∷ Op.polls (3 ∷ 4 ∷ 5 ∷ []) ∷ Op.receives 2 ∷ Op.receives 2 ∷ []

replies : box_run none overtaken ≡ (RadioRc.err_none, 3 ∷ 4 ∷ []) ∷ (RadioRc.failed, []) ∷ []
unfolding box_run arrive take_out
replies = refl

module_len : module_7.rx_len ≡ 0
unfolding from_fds
module_len = refl

run-box_run_example : run module_7 overtaken ≡ box_run none overtaken
unfolding from_fds
run-box_run_example = run-box_run module_7 none overtaken (omega arith) (refl, refl)
