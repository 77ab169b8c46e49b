-- ===== src/Time/Clock.antt =====
-- The clock of lib/net/src/time_helpers.cpp, in both builds: on the simulator a file with the seconds in decimal
-- text, on the hardware a chip with its library. What the system and the library answer is an argument.
use lora_multihop.Prelude.{
  ℕ, ◌-◌, ◌^◌, ◌<◌, ◌≡◌, Bool, true, Option, none, some, List, [], ◌∷◌, ◌++◌, length, ltb, u32,
  if◌then◌else◌, refl, subst, arith,
}
use lora_multihop.Prelude.Decimal.{decimal, strtoull, strtoull-decimal, length-decimal}

-- What the system gives for a file that is read: it is not opened, the read fails, or some bytes come, of at most as many
-- as are asked for.
pub data FileRead : Type 0 where
  not_opened read_failed : FileRead
  got : List ℕ → FileRead

-- The number that the bytes in a buffer of 32 spell, with a zero byte put behind them; `none` where they fill the buffer, so that
-- this byte is written past its end.
unfoldable pub terminated : List ℕ → Option ℕ
terminated bytes = if ltb (length bytes) 32 then some (strtoull (bytes ++ 0 ∷ [])) else none

-- `uint_from_file`; the signed size is a word of 64 bits.
unfoldable pub uint_from_file : FileRead → Option ℕ
uint_from_file FileRead.not_opened = some (2 ^ 64 - 1)
uint_from_file FileRead.read_failed = some (2 ^ 64 - 2)
uint_from_file (FileRead.got bytes) = terminated bytes

abbrev low_word : Option ℕ → Option ℕ
low_word none = none
low_word (some n) = some (u32 n)

-- `now` on the simulator.
unfoldable pub now : FileRead → Option ℕ
now file = low_word (uint_from_file file)

-- `set` on the simulator: the bytes that are written, if the file is opened.
unfoldable pub set : Bool → ℕ → Option (List ℕ)
set opened t = if opened then some (decimal t) else none

-- The chip: whether RTC.begin() finds it, and the seconds that it gives.
pub record Rtc : Type 0 where
  pub begins : Bool
  pub unixtime : ℕ

-- `now` on the hardware, with INITIALIZED.
unfoldable pub rtc_now : Bool → Rtc → Bool × ℕ
rtc_now initialized rtc = (if initialized then true else rtc.begins, u32 rtc.unixtime)

-- `set` on the hardware: the time that RTC.adjust gets.
unfoldable pub rtc_set : ℕ → ℕ
rtc_set t = t

written_text : (t : ℕ) {text : List ℕ} → set true t ≡ some text → decimal t ≡ text
unfolding set
written_text t h = cc

-- The time that is set is the time that is read, where the file gives back what has been written; and the text fits the
-- buffer of 16 bytes in which set writes it.
pub now-set :
    (t : ℕ) (text : List ℕ)
    → t < 2 ^ 32
    → set true t ≡ some text
    → (now (FileRead.got text) ≡ some t) × (length text < 16)
unfolding now uint_from_file terminated
now-set t text h written =
    let short = length-decimal 9 t (omega arith) in
    subst (λ (b : List ℕ). (now (FileRead.got b) ≡ some t) × (length b < 16))
      (written_text t written)
      (ground (arith, short, strtoull-decimal t [] (omega arith)), omega (arith, short))

-- Where the file cannot be opened, the clock shows the last second of its range, and where it cannot be read the one before.
pub now_failed :
    (now FileRead.not_opened ≡ some (2 ^ 32 - 1)) × (now FileRead.read_failed ≡ some (2 ^ 32 - 2))
unfolding now uint_from_file
now_failed = (refl, refl)
