-- ===== src/Arduino/Serial/Input.antt =====
-- The input of the serial port of lib/arduino_stubs/src/serial_stub.cpp as a queue.
use lora_multihop.Prelude.{
  ℕ, ◌≡◌, refl, ap, sym, ◌∙◌, Option, none, some, List, [], ◌∷◌, ◌++◌, append-nil, append_assoc,
}
use lora_multihop.Arduino.Serial.{SerialPort, available, read, peek, poll_input, taken}

-- The operations on the input, each with the bytes that have come in when it asks.
pub data Op : Type 0 where
  available_op : List ℕ → Op
  read_op : List ℕ → Op
  peek_op : List ℕ → Op

abbrev pub come_in : Op → List ℕ
come_in (Op.available_op ready) = ready
come_in (Op.read_op ready) = ready
come_in (Op.peek_op ready) = ready

-- The port after an operation, and what the operation has taken out.
unfoldable pub step : SerialPort → Op → SerialPort × Option ℕ
step s (Op.available_op ready) = ((available s ready).0, none)
step s (Op.read_op ready) = read s ready
step s (Op.peek_op ready) = ((peek s ready).0, none)

abbrev kept_byte : Option ℕ → List ℕ → List ℕ
kept_byte none bytes = bytes
kept_byte (some c) bytes = c ∷ bytes

-- The port after some operations, and the bytes that its reads have returned, in order.
unfoldable pub run : SerialPort → List Op → SerialPort × List ℕ
run s [] = (s, [])
run s (op ∷ ops) =
    let (s', out) = step s op in let (s'', bytes) = run s' ops in (s'', kept_byte out bytes)

unfoldable pub incoming : List Op → List ℕ
incoming [] = []
incoming (op ∷ ops) = come_in op ++ incoming ops

taken_lem :
    (s : SerialPort) (q : List ℕ)
    → s.input_buffer ≡ q
    → kept_byte (taken s q).1 (taken s q).0.input_buffer ≡ q
taken_lem s [] e = e
taken_lem s (c ∷ q) e = refl

step_lem :
    (s : SerialPort) (op : Op)
    → kept_byte (step s op).1 (step s op).0.input_buffer ≡ s.input_buffer ++ come_in op
unfolding step available read peek poll_input
step_lem s (Op.available_op ready) = refl
step_lem s (Op.read_op ready) =
    taken_lem (record s { input_buffer = s.input_buffer ++ ready }) (s.input_buffer ++ ready) refl
step_lem s (Op.peek_op ready) = refl

kept_byte-append : (out : Option ℕ) (a b : List ℕ) → kept_byte out a ++ b ≡ kept_byte out (a ++ b)
kept_byte-append none a b = refl
kept_byte-append (some c) a b = refl

-- The port is a queue: in any sequence of operations, the bytes that the reads return, followed by those that are still in the buffer,
-- are those that were in it, followed by those that have come in since, in their order; none is lost, made up or moved.
pub run_fifo :
    (s : SerialPort) (ops : List Op)
    → (run s ops).1 ++ (run s ops).0.input_buffer ≡ s.input_buffer ++ incoming ops
unfolding run incoming
run_fifo s [] = sym (append-nil s.input_buffer)
run_fifo s (op ∷ ops) =
    let after = step s op in
    kept_byte-append after.1 (run after.0 ops).1 (run after.0 ops).0.input_buffer
    ∙ ap (kept_byte after.1) (run_fifo after.0 ops)
    ∙ sym (kept_byte-append after.1 after.0.input_buffer (incoming ops))
    ∙ ap (λ (q : List ℕ). q ++ incoming ops) (step_lem s op)
    ∙ append_assoc s.input_buffer (come_in op) (incoming ops)
