-- ===== src/Arduino/Timing/Sleep.antt =====
-- The numbers that cross the files of lib/arduino_stubs/src/time_stub.cpp.
use lora_multihop.Prelude.{
  ℕ, ◌^◌, ◌<◌, ◌≡◌, ◌≢◌, refl, ap, ◌∙◌, Option, some, List, [], ◌∷◌, ◌++◌, length, arith,
}
use lora_multihop.Prelude.Decimal.{decimal, strtoull, strtoull-decimal, length-decimal}
use lora_multihop.Arduino.Timing.{Fds, System, FilePath, open_once, sleep_write, delay}

delay-sleep_write :
    (s : Fds) (sys : System) (ms fd : ℕ)
    → ms ≢ 0
    → open_once sys FilePath.sleep_rel_ms_path s.sleep_rel_ms_fd ≡ some fd
    → delay s sys ms ≡ (record s { sleep_rel_ms_fd = some fd }, some (sleep_write fd ms))
unfolding delay
delay-sleep_write s sys ms fd some_time opened = ground (arith, opened)

-- A delay of some milliseconds, where its file is open or can be opened, writes a text to it that fits the buffer of 24 bytes and
-- reads as that number, and keeps the descriptor, so that a later delay writes to the same one, whatever open would answer.
pub delay-delay :
    (s : Fds) (sys sys' : System) (ms ms' fd : ℕ)
    → ms ≢ 0
    → ms' ≢ 0
    → ms < 2 ^ 64
    → open_once sys FilePath.sleep_rel_ms_path s.sleep_rel_ms_fd ≡ some fd
    → let (s', written) = delay s sys ms in
      (text : List ℕ) × (written ≡ some (fd, text))
      × (strtoull (text ++ 0 ∷ []) ≡ ms)
      × (length text < 24)
      × ((delay s' sys' ms').1 ≡ some (sleep_write fd ms'))
unfolding sleep_write
delay-delay s sys sys' ms ms' fd some_time more_time fits opened =
    let first = delay-sleep_write s sys ms fd some_time opened in
    let later = record s { sleep_rel_ms_fd = some fd } in
    (
      decimal ms,
      ap (λ (r : Fds × Option (ℕ × List ℕ)). r.1) first,
      strtoull-decimal ms [] fits,
      omega (arith, length-decimal 19 ms (omega arith)),
      ap (λ (r : Fds × Option (ℕ × List ℕ)). (delay r.0 sys' ms').1) first
          ∙ ap (λ (r : Fds × Option (ℕ × List ℕ)). r.1)
              (delay-sleep_write later sys' ms' fd more_time refl),
    )
