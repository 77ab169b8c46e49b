-- ===== src/Time/Tests.antt =====
-- Runs of the deadlines, and the theorems about them at concrete times.
use lora_multihop.Prelude.{◌<◌, ◌≡◌, ◌↔◌, refl, true, some, length, arith}
use lora_multihop.Time.{ms_deadline, millis_until, reached}
use lora_multihop.Prelude.Decimal.{codes, decimal, digits}
use lora_multihop.Time.Clock.{FileRead, set, now, now-set}
use lora_multihop.Time.Deadline.{reached_iff}

counts_down : millis_until (ms_deadline 1000 500) 1200 ≡ 300
unfolding millis_until ms_deadline
counts_down = refl

reached_iff_example : (reached (ms_deadline 1000 500) 1501 ≡ true) ↔ (500 < 501)
reached_iff_example =
    reached_iff 1000 500 501 (omega arith) (omega arith) (omega arith) (omega arith) (omega arith)

set_1767225600 : set true 1767225600 ≡ some (codes "1767225600")
unfolding set decimal digits
set_1767225600 = refl

now-set_example :
    (now (FileRead.got (codes "1767225600")) ≡ some 1767225600) × (length (codes "1767225600") < 16)
now-set_example = now-set 1767225600 (codes "1767225600") (omega arith) set_1767225600
