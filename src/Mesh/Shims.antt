-- ===== src/Mesh/Shims.antt =====
-- loramesh/node/src/esp32_shims.cpp: the functions of the platform that the mesh library calls, for the simulator.
pub mod Range
mod Tests
use lora_multihop.Prelude.{
  ℕ, suc, ◌+◌, ◌-◌, ◌*◌, ◌/◌, ◌%◌, ◌^◌, Bool, true, false, Option, none, some, List, [], ◌∷◌, ◌++◌,
  take, length, leb, ltb, u8, u16, u64, if◌then◌else◌,
}
use lora_multihop.Prelude.Decimal.{strtoull, codes}
use lora_multihop.Prelude.Int.{ℤ, pos, pos_part, leb_ℤ, ◌+ℤ◌, ◌-ℤ◌}
use lora_multihop.Time.Clock.{FileRead}

-- NEXUS_ROOT_ENV, millis_path, micros_path, time_paths_init and g_node_address.
pub record Shims : Type 0 where
  pub nexus_root_env : Option (List ℕ)
  pub millis_path : List ℕ
  pub micros_path : List ℕ
  pub time_paths_init : Bool
  pub node_address : ℕ

-- What snprintf leaves of a text in a buffer of 256 bytes.
abbrev pub in_buffer : List ℕ → List ℕ
in_buffer text = take 255 text

-- The root of the simulator's files; `home` is what getenv("HOME") gives.
unfoldable pub root_of : Option (List ℕ) → Option (List ℕ) → List ℕ
root_of (some root) home = root
root_of none (some home) = in_buffer (home ++ codes "/nexus")
root_of none none = in_buffer (codes "/tmp/nexus")

unfoldable pub init_time_paths : Shims → Option (List ℕ) → Shims
init_time_paths s home =
    if s.time_paths_init
    then s
    else (let root = root_of s.nexus_root_env home in
        record s {
          millis_path = in_buffer (root ++ codes "/ctl.elapsed/ms");
          micros_path = in_buffer (root ++ codes "/ctl.elapsed/us");
          time_paths_init = true;
        })

unfoldable pub set_nexus_root : Shims → List ℕ → Option (List ℕ) → Shims
set_nexus_root s root home =
    init_time_paths (record s { nexus_root_env = some root; time_paths_init = false }) home

-- `uint_from_file`: at most 31 bytes are read.
unfoldable pub uint_from_file : FileRead → ℕ
uint_from_file (FileRead.got (c ∷ bytes)) = strtoull ((c ∷ bytes) ++ 0 ∷ [])
uint_from_file _ = 0

-- `millis`: what it returns, and the state with the paths.
unfoldable pub millis : Shims → Option (List ℕ) → (List ℕ → FileRead) → Shims × ℕ
millis s home files = let s' = init_time_paths s home in (s', uint_from_file (files s'.millis_path))

-- `random`, with what rand() gives; `none` where the difference of its arguments overflows a long of 64 bits.
unfoldable pub random : ℤ → ℤ → ℕ → Option ℤ
random howsmall howbig rand =
    if leb_ℤ howbig howsmall
    then some howsmall
    else (if ltb (pos_part (howbig -ℤ howsmall)) (2 ^ 63)
        then some (howsmall +ℤ pos (rand % pos_part (howbig -ℤ howsmall)))
        else none)

-- The loop of `delay`, by what its calls of millis() give: how many it makes.
unfoldable pub spin : ℕ → List ℕ → ℕ
spin deadline [] = 0
spin deadline (now ∷ later) =
    let rest = spin deadline later in if leb now deadline then suc rest else 1

-- `delay`, by what its first call of millis() gives, and the others.
unfoldable pub delay : ℕ → ℕ → List ℕ → ℕ
delay ms now later = spin (u64 (now + ms)) later

unfoldable pub get_free_heap : ℕ
get_free_heap = 512 * 1024

unfoldable pub set_node_address : Shims → ℕ → Shims
set_node_address s addr = record s { node_address = addr }

abbrev hex_digit : ℕ → ℕ
hex_digit d = if ltb d 10 then b'0' + d else b'A' + d - 10

-- "%02X" of a byte.
abbrev hex : ℕ → List ℕ
hex b = hex_digit (b / 16) ∷ hex_digit (b % 16) ∷ []

-- `macAddress`, as a text.
unfoldable pub mac_address_text : Shims → List ℕ
mac_address_text s =
    codes "00:00:00:00:" ++ (hex (u8 (s.node_address / 2 ^ 8)) ++ (b':' ∷ hex (u8 s.node_address)))

-- `macAddress`, as six bytes.
unfoldable pub mac_address : Shims → List ℕ
mac_address s = 0 ∷ 0 ∷ 0 ∷ 0 ∷ u8 (s.node_address / 2 ^ 8) ∷ u8 s.node_address ∷ []
