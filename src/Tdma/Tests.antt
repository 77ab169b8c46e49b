-- ===== src/Tdma/Tests.antt =====
-- Runs of the firmware of tdma/node/src/main.cpp on concrete passes, and the theorem about it on them.
use lora_multihop.Prelude.{ℕ, ◌+◌, ◌≡◌, refl, List, [], ◌∷◌, arith}
use lora_multihop.Lora.{LoraRc}
use lora_multihop.Time.{sleep_until}
use lora_multihop.Tdma.Greetings.{sent_in, due, passes-once}
use lora_multihop.Tdma.{Pass, Event, unseen, slot_index, see_slot, heard, own_slot, pass, passes}

abbrev hello : ℕ → ℕ → List ℕ
hello device_id elapsed = 104 ∷ 105 ∷ (48 + device_id) ∷ []

abbrev pass_at : ℕ → Pass
pass_at elapsed = record {
  now = 1767225600 + elapsed;
  later = [];
  transmit = λ msg. LoraRc.okay;
  listen = λ len timeout_ms. (LoraRc.okay, 7 ∷ []);
}

-- Two passes in slot 1, one in slot 2, and one in slot 1 of the next superframe.
abbrev two_superframes : List Pass
two_superframes = pass_at 2 ∷ pass_at 3 ∷ pass_at 4 ∷ pass_at 8 ∷ []

events_of_two_superframes :
    (passes hello 1 unseen two_superframes).1
    ≡ Event.tx (104 ∷ 105 ∷ 49 ∷ []) LoraRc.okay 0
      ∷ Event.waited 0
      ∷ Event.rx (7 ∷ [])
      ∷ Event.tx (104 ∷ 105 ∷ 49 ∷ []) LoraRc.okay 0
      ∷ []
unfolding passes pass own_slot see_slot heard slot_index sleep_until
events_of_two_superframes = refl

passes-once_example :
    sent_in 1 two_superframes (passes hello 1 unseen two_superframes).1 ≡ due 1 1 two_superframes
passes-once_example =
    passes-once hello 1 1 (pass_at 2) (pass_at 3 ∷ pass_at 4 ∷ pass_at 8 ∷ []) (omega arith)
      (omega arith) (omega arith)
      (
        omega arith,
        omega arith,
        omega arith,
        (omega arith, omega arith, omega arith, (omega arith, omega arith, omega arith, tt)),
      )
