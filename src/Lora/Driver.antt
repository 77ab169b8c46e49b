-- ===== src/Lora/Driver.antt =====
-- The driver of the radio in lib/lora/src/LoraRadio.cpp, as it is built for the hardware.
use lora_multihop.Prelude.{ℕ, ◌==◌, Bool, true, false, not, ◌&&◌, List, if◌then◌else◌}
use lora_multihop.Lora.{LoraRc}

-- What the library of the radio answers: init, setFrequency, send with the bytes, waitPacketSent, and recv with
-- the length of the buffer, which gives the bytes that it has copied.
pub record Rf95 : Type 0 where
  pub inits : Bool
  pub sets_frequency : Bool
  pub sends : List ℕ → Bool
  pub is_sent : Bool
  pub receives : ℕ → Bool × List ℕ

-- How the driver waits for a frame: waitAvailable or waitAvailableTimeout.
pub data Wait : Type 0 where
  without_end : Wait
  at_most : ℕ → Wait

-- INITIALIZED; the pins are not modelled.
pub record Radio : Type 0 where
  pub initialized : Bool

unfoldable pub is_active : Radio → Bool
is_active s = s.initialized

unfoldable pub init : Radio → Rf95 → Radio × LoraRc
init s rf =
    if not rf.inits
    then (s, LoraRc.init_failed)
    else (if not rf.sets_frequency
        then (s, LoraRc.set_frequency_failed)
        else (record s { initialized = true }, LoraRc.okay))

unfoldable pub deinit : Radio → Radio × LoraRc
deinit s =
    if not s.initialized
    then (s, LoraRc.not_init)
    else (record s { initialized = false }, LoraRc.okay)

-- The start of send and wait_recv.
unfoldable pub started : Radio → Rf95 → Radio × LoraRc
started s rf = if is_active s then (s, LoraRc.okay) else init s rf

abbrev pub is_okay : LoraRc → Bool
is_okay LoraRc.okay = true
is_okay _ = false

unfoldable pub send : Radio → Rf95 → List ℕ → Radio × LoraRc
send s rf buf =
    let (s', rc) = started s rf in
    let sent = if is_okay rc && not (rf.sends buf) then LoraRc.send_failed else rc in
    (s', if is_okay sent && not rf.is_sent then LoraRc.timed_out else sent)

abbrev pub wait_of : ℕ → Wait
wait_of timeout_ms = if timeout_ms == 0 then Wait.without_end else Wait.at_most timeout_ms

-- `wait_recv`: how it waits, its answer, and the bytes that it has copied.
unfoldable pub wait_recv : Radio → Rf95 → ℕ → ℕ → Radio × Wait × LoraRc × List ℕ
wait_recv s rf len timeout_ms =
    let (s', rc) = started s rf in
    let (got, bytes) = rf.receives len in
    (s', wait_of timeout_ms, if is_okay rc && not got then LoraRc.recv_failed else rc, bytes)
