-- ===== src/Multihop/Phases/Rules/Ends.antt =====
-- The loop of a phase ends by its deadline, and the calls that an action makes go forward.
use lora_multihop.Prelude.{
  ℕ, zero, suc, ◌+◌, ◌≤◌, ◌≡◌, inl, inr, true, false, Bool-cases, u32, arith,
}
use lora_multihop.Time.{MsDeadline, reached}
use lora_multihop.Multihop.Phases.{World, Run, Act, is_reached, listen, send_queue, phase_loop}

-- Calls have been made up to this one.
abbrev pub After : ℕ → Run → Type 0
After c r = c ≤ r.call

pub listen-After :
    (w : World) (c timeout_ms : ℕ) (r : Run) → After c r → After c (listen w timeout_ms r).1
unfolding listen
listen-After w c timeout_ms r p = omega arith

pub send_queue-After : (w : World) (c : ℕ) (r : Run) → After c r → After c (send_queue w r).1
unfolding send_queue
send_queue-After w c r p = omega arith

-- A round of the loop, at a time at which its deadline is not reached.
pub phase_loop-next :
    {S : Type 0} (w : World) (d : MsDeadline) (body : S → Act S) (k : ℕ) (s : S) (r : Run)
    → reached d (u32 (w.millis r.call)) ≡ false
    → phase_loop w d body (suc k) s r
      ≡ phase_loop w d body k (body s (is_reached w d r).1).0 (body s (is_reached w d r).1).1
unfolding phase_loop
phase_loop-next w d body k s r e = ground (arith, e)

-- If the deadline is reached at every call from `last` on, and a round does not take calls back, the loop has
-- ended by its deadline with one round more than the calls that are left until then.
module _ {S : Type 0} (w : World) (d : MsDeadline) (body : S → Act S) (last : ℕ)
    (over : (k : ℕ) → last ≤ k → reached d (u32 (w.millis k)) ≡ true)
    (forward : (c : ℕ) (s : S) (r : Run) → After c r → After c (body s r).1) where
  pub phase_loop-ends :
      (k : ℕ) (s : S) (r : Run) → last ≤ r.call + k → (phase_loop w d body (suc k) s r).0.1 ≡ true
  unfolding phase_loop
  phase_loop-ends zero s r p = ground (arith, over r.call)
  phase_loop-ends (suc k) s r p = elim (Bool-cases (reached d (u32 (w.millis r.call)))) [
    | inl e ↦ ground (arith, e)
    | inr e ↦ ground (
      arith,
      e,
      over r.call,
      phase_loop-ends k (body s (is_reached w d r).1).0 (body s (is_reached w d r).1).1,
      forward (r.call + 1) s (is_reached w d r).1,
    )
  ]
