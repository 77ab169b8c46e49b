-- ===== src/Lora/Simulated/Waiting.antt =====
-- wait_recv of lib/lora/src/LoraRadio.cpp, as it is built for the simulator, against the reads until its time is up.
use lora_multihop.Prelude.{
  ℕ, zero, suc, ◌+◌, ◌≤◌, ◌<◌, ◌≡◌, ap, ◌∙◌, true, Option, none, some, List, [], u32, arith,
}
use lora_multihop.Lora.{LoraRc}
use lora_multihop.Lora.Simulated.{
  System, Radio, read_loop, wait_after, wait_recv, started, is_active,
}

-- The first of so many reads, from read `k` on, that has read something.
unfoldable pub first_read : ℕ → System → ℕ → ℕ → Option (List ℕ)
first_read zero sys len k = none
first_read (suc count) sys len k = elim (sys.reads len k) [
  | some bytes ↦ some bytes
  | none ↦ first_read count sys len (k + 1)
]

-- What a wait answers that has made its last read.
abbrev pub answer : Option (List ℕ) → LoraRc × List ℕ
answer none = (LoraRc.timed_out, [])
answer (some bytes) = (LoraRc.okay, bytes)

module _ (sys : System) (len end_ms last : ℕ)
    (before : (i : ℕ) → i < last → sys.millis (i + 1) < end_ms)
    (over : end_ms ≤ sys.millis (last + 1)) where
  read_loop-first_read :
      (left count k : ℕ)
      → k + count ≡ last
      → count < left
      → read_loop left sys len end_ms k ≡ some (answer (first_read (suc count) sys len k))
  unfolding read_loop first_read
  read_loop-first_read zero count k e p = absurd (omega arith)
  read_loop-first_read (suc left) zero k e p = ground (arith, over)
  read_loop-first_read (suc left) (suc count) k e p =
      ground (arith, before k, read_loop-first_read left count (k + 1))

started_lem : (s : Radio) (sys : System) → s.initialized ≡ true → started s sys ≡ (s, LoraRc.okay)
unfolding started is_active
started_lem s sys e = ground (arith, e)

-- Let the driver be started, and let the clock stay before the end of the time for the reads up to one with this
-- number, and be at the end behind it. Then a wait that may make one read more than that ends: its answer is Okay with
-- the bytes of the first of these reads that has read something, or TimedOut if there is none. This is so for a timeout
-- of 0 as well, with which the end is at hand: the wait answers after its first read.
pub wait_recv-first_read :
    (s : Radio) (sys : System) (len timeout_ms last fuel : ℕ)
    → s.initialized ≡ true
    → ((i : ℕ) → i < last → sys.millis (i + 1) < u32 (sys.millis 0 + timeout_ms))
    → u32 (sys.millis 0 + timeout_ms) ≤ sys.millis (last + 1)
    → last < fuel
    → wait_recv fuel s sys len timeout_ms ≡ (s, some (answer (first_read (suc last) sys len 0)))
unfolding wait_recv wait_after
wait_recv-first_read s sys len timeout_ms last fuel active before over p =
    ap (wait_after fuel sys len timeout_ms) (started_lem s sys active)
    ∙ ap (λ x. (s, x)) (read_loop-first_read sys len _ last before over fuel last 0 (omega arith) p)
