-- ===== src/Arduino/Serial/Tests.antt =====
-- Runs of the serial port of lib/arduino_stubs/src/serial_stub.cpp.
use lora_multihop.Prelude.{◌≡◌, refl, List, [], ◌∷◌, ◌++◌}
use lora_multihop.Prelude.Decimal.{codes, digits, decimal}
use lora_multihop.Arduino.Serial.{fresh_port, println_unsigned, available, read, peek, poll_input}
use lora_multihop.Arduino.Serial.Input.{Op, step, run, incoming, run_fifo}

abbrev asked : List Op
asked = Op.available_op (1 ∷ 2 ∷ []) ∷ Op.read_op [] ∷ Op.peek_op (3 ∷ []) ∷ Op.read_op [] ∷ []

reads_in_order : (run fresh_port asked).1 ≡ 1 ∷ 2 ∷ []
unfolding run step available read peek poll_input
reads_in_order = refl

run_fifo_example :
    (run fresh_port asked).1 ++ (run fresh_port asked).0.input_buffer ≡ incoming asked
run_fifo_example = run_fifo fresh_port asked

prints_number : (println_unsigned fresh_port 1250).output ≡ codes "1250\n"
unfolding println_unsigned decimal digits
prints_number = refl
