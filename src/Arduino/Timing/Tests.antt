-- ===== src/Arduino/Timing/Tests.antt =====
-- Runs of lib/arduino_stubs/src/time_stub.cpp.
use lora_multihop.Prelude.{◌≡◌, refl, none, some}
use lora_multihop.Arduino.Timing.{Fds, System, millis, uint_from_fd}
use lora_multihop.Time.Clock.{terminated}
use lora_multihop.Prelude.Decimal.{strtoull, skip_spaces, with_sign, value, codes}

abbrev pub closed : Fds
closed = record {
  millis_fd = none;
  micros_fd = none;
  sleep_rel_ms_fd = none;
  sleep_rel_us_fd = none;
}

abbrev pub answering : System
answering = record { opens = λ path. some 3; reads = λ fd. some (codes "  1250\n") }

millis_1250 : (millis closed answering).1 ≡ some 1250
unfolding millis uint_from_fd terminated strtoull skip_spaces with_sign value
millis_1250 = refl
