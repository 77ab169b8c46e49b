-- ===== src/Lora/Simulated.antt =====
-- The driver of the radio in lib/lora/src/LoraRadio.cpp, as it is built for the simulator: a channel is a file.
pub mod Waiting
mod Tests
use lora_multihop.Prelude.{
  ℕ, zero, suc, ◌+◌, ◌==◌, Bool, true, false, not, Option, none, some, List, [], ◌++◌, ◌&&◌, leb,
  length, ltb, u32, if◌then◌else◌,
}
use lora_multihop.Prelude.Decimal.{codes, decimal}
use lora_multihop.Lora.{LoraRc}

-- SF6 to SF12, by the spreading factor's number.
abbrev pub default_sf : ℕ
default_sf = 6

-- INITIALIZED, the descriptor RF95 where the file could be opened, and SPREAD.
pub record Radio : Type 0 where
  pub initialized : Bool
  pub file : Option ℕ
  pub spread : ℕ

-- What the system answers: open for the file of a spreading factor, with `none` for -1; close; write with a
-- descriptor and the bytes, which gives the number of bytes that it has written, `none` for an error; the reads
-- of a wait by their number and the length of the buffer, with `none` where nothing is read; and millis() in a wait, by
-- the number of its call, with 64 bits.
pub record System : Type 0 where
  pub opens : ℕ → Option ℕ
  pub closes : Bool
  pub writes : Option ℕ → List ℕ → Option ℕ
  pub reads : ℕ → ℕ → Option (List ℕ)
  pub millis : ℕ → ℕ

-- The path of the channel for a spreading factor, below the root of the simulator's files; `none` where the program exits.
unfoldable pub sf_string : List ℕ → ℕ → Option (List ℕ)
sf_string root sf =
    if leb 6 sf && leb sf 12
    then some (root ++ (codes "/lora_sf" ++ (decimal sf ++ codes "/channel")))
    else none

-- `get`: the descriptor, once the driver is started.
unfoldable pub get : Radio → Option (Option ℕ)
get s = if s.initialized then some s.file else none

unfoldable pub is_active : Radio → Bool
is_active s = s.initialized

unfoldable pub opened : Radio → Option ℕ → Radio × LoraRc
opened s none = (record s { file = none }, LoraRc.init_failed)
opened s (some fd) = (record s { file = some fd; initialized = true }, LoraRc.okay)

unfoldable pub init : Radio → System → Radio × LoraRc
init s sys = opened s (sys.opens s.spread)

unfoldable pub deinit : Radio → System → Radio × LoraRc
deinit s sys =
    if not s.initialized
    then (s, LoraRc.not_init)
    else (if not sys.closes
        then (s, LoraRc.deinit_failed)
        else (record s { initialized = false }, LoraRc.okay))

unfoldable pub started : Radio → System → Radio × LoraRc
started s sys = if is_active s then (s, LoraRc.okay) else init s sys

unfoldable pub written : LoraRc → ℕ → Option ℕ → LoraRc
written rc sz none = LoraRc.send_failed
written rc sz (some count) = if count == sz then rc else LoraRc.send_failed

unfoldable pub send : Radio → System → List ℕ → Radio × LoraRc
send s sys buf =
    let (s', rc) = started s sys in (s', written rc (length buf) (sys.writes s'.file buf))

-- The loop of `wait_recv` from its read `k` on, with the reads left; its end is `none` if they are used up.
unfoldable pub read_loop : ℕ → System → ℕ → ℕ → ℕ → Option (LoraRc × List ℕ)
read_loop zero sys len end_ms k = none
read_loop (suc left) sys len end_ms k =
    let later = read_loop left sys len end_ms (k + 1) in
    elim (sys.reads len k) [
      | some bytes ↦ some (LoraRc.okay, bytes)
      | none ↦ if ltb (sys.millis (k + 1)) end_ms then later else some (LoraRc.timed_out, [])
    ]

unfoldable pub wait_after : ℕ → System → ℕ → ℕ → Radio × LoraRc → Radio × Option (LoraRc × List ℕ)
wait_after fuel sys len timeout_ms (s, LoraRc.okay) =
    (s, read_loop fuel sys len (u32 (sys.millis 0 + timeout_ms)) 0)
wait_after fuel sys len timeout_ms (s, rc) = (s, some (rc, []))

-- `wait_recv`, with a bound on its reads.
unfoldable pub wait_recv : ℕ → Radio → System → ℕ → ℕ → Radio × Option (LoraRc × List ℕ)
wait_recv fuel s sys len timeout_ms = wait_after fuel sys len timeout_ms (started s sys)

unfoldable pub set_spreading_factor : Radio → System → ℕ → Radio × LoraRc
set_spreading_factor s sys sf =
    let s' = if is_active s then (deinit s sys).0 else s in init (record s' { spread = sf }) sys
