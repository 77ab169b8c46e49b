-- ===== src/Mesh/Shims/Tests.antt =====
-- Runs of loramesh/node/src/esp32_shims.cpp.
use lora_multihop.Prelude.{◌⊎◌, ◌^◌, ◌≤◌, ◌<◌, some, ◌≡◌, refl, false, none, [], arith}
use lora_multihop.Prelude.Decimal.{codes}
use lora_multihop.Prelude.Int.{ℤ, pos, negsuc, pos_part, ◌-ℤ◌, ◌≤ℤ◌, ◌<ℤ◌}
use lora_multihop.Mesh.Shims.{
  Shims, random, set_nexus_root, init_time_paths, root_of, mac_address_text,
}
use lora_multihop.Mesh.Shims.Range.{random_range}

abbrev node_258 : Shims
node_258 = record {
  nexus_root_env = none;
  millis_path = [];
  micros_path = [];
  time_paths_init = false;
  node_address = 258;
}

address_text : mac_address_text node_258 ≡ codes "00:00:00:00:01:02"
unfolding mac_address_text
address_text = refl

path_of_root :
    (set_nexus_root node_258 (codes "/nexus") none).millis_path ≡ codes "/nexus/ctl.elapsed/ms"
unfolding set_nexus_root init_time_paths root_of
path_of_root = refl

random_range_example :
    ((2 ^ 63 ≤ pos_part (pos 3 -ℤ negsuc 4)) × (random (negsuc 4) (pos 3) 1000 ≡ none))
    ⊎ ((pos_part (pos 3 -ℤ negsuc 4) < 2 ^ 63)
        × ((r : ℤ) × (random (negsuc 4) (pos 3) 1000 ≡ some r) × (negsuc 4 ≤ℤ r) × (r <ℤ pos 3)))
random_range_example = random_range (negsuc 4) (pos 3) 1000 (omega arith)
