-- ===== src/Arduino/Timing.antt =====
-- lib/arduino_stubs/src/time_stub.cpp: the clock and the delays of the simulator, over four files of decimal numbers, whose
-- descriptors are kept once they are open. The messages on the standard error are left out.
pub mod Sleep
mod Tests
use lora_multihop.Prelude.{ℕ, ◌==◌, Bool, Option, none, some, List, if◌then◌else◌}
use lora_multihop.Prelude.Decimal.{decimal}
use lora_multihop.Time.Clock.{terminated}

-- MILLIS_PATH, MICROS_PATH, SLEEP_REL_MS_PATH and SLEEP_REL_US_PATH.
pub data FilePath : Type 0 where
  millis_path micros_path sleep_rel_ms_path sleep_rel_us_path : FilePath

-- The descriptors; `none` is the -1 of one that is not open.
pub record Fds : Type 0 where
  pub millis_fd : Option ℕ
  pub micros_fd : Option ℕ
  pub sleep_rel_ms_fd : Option ℕ
  pub sleep_rel_us_fd : Option ℕ

-- What open and read answer in a call: `none` is an error.
pub record System : Type 0 where
  pub opens : FilePath → Option ℕ
  pub reads : ℕ → Option (List ℕ)

-- `uint_from_fd`; `none` where the zero byte behind the text is written past the end of the buffer.
unfoldable pub uint_from_fd : System → ℕ → Option ℕ
uint_from_fd sys fd = elim (sys.reads fd) [ none ↦ some 2 | some bytes ↦ terminated bytes ]

-- `sleep_write`: the bytes that are written, and where.
unfoldable pub sleep_write : ℕ → ℕ → ℕ × List ℕ
sleep_write fd value = (fd, decimal value)

-- The descriptor of a file, opened if it is not open yet.
abbrev pub open_once : System → FilePath → Option ℕ → Option ℕ
open_once sys path none = sys.opens path
open_once sys path (some fd) = some fd

abbrev pub sleep_if : Option ℕ → ℕ → Option (ℕ × List ℕ)
sleep_if none value = none
sleep_if (some fd) value = some (sleep_write fd value)

unfoldable pub delay : Fds → System → ℕ → Fds × Option (ℕ × List ℕ)
delay s sys ms =
    if ms == 0
    then (s, none)
    else (let fd = open_once sys FilePath.sleep_rel_ms_path s.sleep_rel_ms_fd in
        (record s { sleep_rel_ms_fd = fd }, sleep_if fd ms))

unfoldable pub delay_microseconds : Fds → System → ℕ → Fds × Option (ℕ × List ℕ)
delay_microseconds s sys us =
    if us == 0
    then (s, none)
    else (let fd = open_once sys FilePath.sleep_rel_us_path s.sleep_rel_us_fd in
        (record s { sleep_rel_us_fd = fd }, sleep_if fd us))

abbrev pub read_if : System → Option ℕ → Option ℕ
read_if sys none = some 1
read_if sys (some fd) = uint_from_fd sys fd

unfoldable pub millis : Fds → System → Fds × Option ℕ
millis s sys =
    let fd = open_once sys FilePath.millis_path s.millis_fd in
    (record s { millis_fd = fd }, read_if sys fd)

unfoldable pub micros : Fds → System → Fds × Option ℕ
micros s sys =
    let fd = open_once sys FilePath.micros_path s.micros_fd in
    (record s { micros_fd = fd }, read_if sys fd)
