-- ===== src/Arduino.antt =====
-- The stand-ins for the Arduino runtime with which the simulator builds the firmware, in lib/arduino_stubs: the clock and the
-- delays, the serial port, the two buses, and the pins of pins_stub.cpp here. Trace output is left out.
pub mod Timing
pub mod Serial
pub mod Wire
pub mod Spi
use lora_multihop.Prelude.{ℕ}

unfoldable pub digital_read : ℕ → ℕ
digital_read pin = 0

unfoldable pub analog_read : ℕ → ℕ
analog_read pin = 0
