-- ===== src/Multihop/Datagram.antt =====
-- DatagramIterator of lib/net/src/multihop_messages.cpp: a buffer as numbered fragments.
pub mod Cursor
pub mod Fragments
mod Tests
use lora_multihop.Prelude.{
  ℕ, zero, suc, ◌+◌, ◌-◌, ◌/◌, ◌^◌, ◌==◌, Bool, not, List, [], ◌∷◌, Option, none, some, ltb, u8,
  u16, sub8, sub64, min, slice, if◌then◌else◌,
}
use lora_multihop.Multihop.Messages.{Datagram}

pub record DatagramIterator : Type 0 where
  pub part : ℕ
  pub count : ℕ
  pub i : ℕ
  pub buf : List ℕ
  pub sz : ℕ
  pub max_fragment_bytes : ℕ
  pub last_msg_sz : ℕ

-- ceil((double)sz / max_fragment_bytes), which is exact for sizes below 2 ^ 52.
abbrev pub fragments_of : ℕ → ℕ → ℕ
fragments_of sz m = (sz + m - 1) / m

-- The constructor: more than 255 fragments are refused by an iterator that is at its end.
unfoldable pub datagram_iterator : List ℕ → ℕ → ℕ → DatagramIterator
datagram_iterator buf sz max_fragment_bytes =
    let fresh : DatagramIterator = record {
      part = 0;
      count = u8 (fragments_of sz max_fragment_bytes);
      i = 0;
      buf = buf;
      sz = sz;
      max_fragment_bytes = max_fragment_bytes;
      last_msg_sz = 0;
    } in
    if ltb 255 (fragments_of sz max_fragment_bytes)
    then record fresh { i = sz; count = 0 }
    else fresh

unfoldable pub has_next : DatagramIterator → Bool
has_next it = not (it.i == it.sz)

-- The bytes of the next fragment; `min` is the macro of the source.
abbrev pub packet_bytes_of : DatagramIterator → ℕ
packet_bytes_of it = u16 (min (it.sz - it.i) it.max_fragment_bytes)

-- `peek`: the fragment's header and its bytes; `none` is `false`.
unfoldable pub peek : DatagramIterator → Option (Datagram × List ℕ)
peek it =
    if has_next it
    then some (
      record { packet_bytes = packet_bytes_of it; count = it.count; part = it.part },
      slice it.i (packet_bytes_of it) it.buf,
    )
    else none

-- The state after a fragment has been taken.
unfoldable pub advance : DatagramIterator → ℕ → DatagramIterator
advance it n = record it { last_msg_sz = u16 n; part = u8 (it.part + 1); i = it.i + u16 n }

unfoldable pub next : DatagramIterator → DatagramIterator × Option (Datagram × List ℕ)
next it = elim (peek it) [
  | none ↦ (it, none)
  | some (d, bytes) ↦ (advance it d.packet_bytes, some (d, bytes))
]

-- `rewind`, which returns the size of the fragment it takes back.
unfoldable pub rewind : DatagramIterator → DatagramIterator × ℕ
rewind it = (
  record it { last_msg_sz = 0; i = sub64 it.i it.last_msg_sz; part = sub8 it.part 1 },
  it.last_msg_sz,
)

-- All fragments that calls of `next` give, at most as many as the fuel.
unfoldable pub fragments : ℕ → DatagramIterator → List (Datagram × List ℕ)
fragments zero it = []
fragments (suc fuel) it =
    let (it', out) = next it in elim out [ none ↦ [] | some x ↦ x ∷ fragments fuel it' ]
