-- ===== src/Time.antt =====
-- lib/net/src/time_helpers.cpp: the millisecond deadlines of the phases of the advertising slot, and the
-- sleep loops. The values that millis() and now() return are arguments.
use lora_multihop.Prelude.{
  List, [], ◌∷◌, replicate, ℕ, ◌+◌, ◌-◌, ◌^◌, Bool, ◌&&◌, ltb, leb, u32, if◌then◌else◌,
}
pub mod Deadline
pub mod Clock
mod Tests

pub record MsDeadline : Type 0 where
  pub start : ℕ
  pub deadline : ℕ
  pub overflows : Bool

-- The constructor, with the value of millis() that it reads.
unfoldable pub ms_deadline : ℕ → ℕ → MsDeadline
ms_deadline now duration_ms =
    let deadline = u32 (now + duration_ms) in
    record { start = now; deadline = deadline; overflows = ltb deadline now }

unfoldable pub millis_until : MsDeadline → ℕ → ℕ
millis_until d now =
    if d.overflows
    then (let time_until_wraparound : ℕ = if ltb now d.start then 0 else 2 ^ 32 - 1 - now in
        let time_until_deadline : ℕ =
          if ltb now d.deadline
          then (if ltb d.deadline now then 0 else d.deadline - now)
          else d.deadline in
        u32 (time_until_wraparound + time_until_deadline))
    else if ltb now d.start
    then 0
    else (if ltb d.deadline now then 0 else d.deadline - now)

unfoldable pub reached : MsDeadline → ℕ → Bool
reached d now = if d.overflows then ltb d.deadline now && leb now d.start else ltb d.deadline now

-- `sleep_seconds`, as the arguments of its calls of delay().
unfoldable pub sleep_seconds : ℕ → List ℕ
sleep_seconds seconds = replicate seconds 1000

-- `sleep_until`, as the number of its calls of delay(1), by what its calls of now() return.
unfoldable pub sleep_until : ℕ → List ℕ → ℕ
sleep_until point [] = 0
sleep_until point (now ∷ later) =
    let calls = sleep_until point later in if ltb now point then calls + 1 else 0
