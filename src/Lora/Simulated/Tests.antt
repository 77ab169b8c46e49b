-- ===== src/Lora/Simulated/Tests.antt =====
-- A wait of the simulator's driver in which the third read gives a byte.
use lora_multihop.Prelude.{
  ◌+◌, ◌*◌, ◌==◌, ◌≡◌, refl, true, none, some, [], ◌∷◌, if◌then◌else◌, arith,
}
use lora_multihop.Lora.Simulated.{System, Radio, wait_recv}
use lora_multihop.Lora.Simulated.Waiting.{answer, first_read, wait_recv-first_read}

abbrev channel : System
channel = record {
  opens = λ sf. some 3;
  closes = true;
  writes = λ fd bytes. none;
  reads = λ len k. if k == 2 then some (65 ∷ []) else none;
  millis = λ k. 100 + k * 10;
}

abbrev radio : Radio
radio = record { initialized = true; file = some 3; spread = 6 }

wait_recv-first_read_example :
    wait_recv 9 radio channel 255 45 ≡ (radio, some (answer (first_read 5 channel 255 0)))
wait_recv-first_read_example =
    wait_recv-first_read radio channel 255 45 4 9 refl (λ i p. omega arith) (omega arith)
      (omega arith)

third : first_read 5 channel 255 0 ≡ some (65 ∷ [])
unfolding first_read
third = refl
