-- ===== src/Multihop/Datagram/Cursor.antt =====
-- The iterator's cursor in lib/net/src/multihop_messages.cpp: one fragment cut off the buffer.
use native.Mathlib.Nat.{add-div_right, div-eq_of_lt}
use lora_multihop.Prelude.{
  ℕ, suc, ◌+◌, ◌-◌, ◌/◌, ◌^◌, ◌≤◌, ◌<◌, ◌≡◌, ap, ◌∙◌, List, none, some, length, slice, min, u16,
  arith, dec_lt,
}
use lora_multihop.Multihop.Messages.{Datagram}
use lora_multihop.Multihop.Datagram.{
  DatagramIterator, fragments_of, has_next, packet_bytes_of, peek, advance, next,
}

-- A cursor within a buffer that is cut into fragments of a positive size.
pub record IsIterator (it : DatagramIterator) : Type 0 where
  pub stored : length it.buf ≡ it.sz
  pub positive : 0 < it.max_fragment_bytes
  pub word : it.max_fragment_bytes < 2 ^ 16
  pub within : it.i ≤ it.sz
  pub parts : it.part + fragments_of (it.sz - it.i) it.max_fragment_bytes ≤ 255

pub fragments_of-zero : (m : ℕ) → 0 < m → fragments_of 0 m ≡ 0
fragments_of-zero m h = div-eq_of_lt (omega arith)

-- Cutting off one fragment leaves one fragment less.
pub fragments_of-cut :
    (r m : ℕ) → 0 < m → 0 < r → fragments_of r m ≡ suc (fragments_of (r - min r m) m)
fragments_of-cut r m hm hr = elim (dec_lt m r) [
  | yes more ↦
      let e : r + m - 1 ≡ (r - min r m + m - 1) + m = omega arith in
      ap (λ (k : ℕ). k / m) e ∙ add-div_right (r - min r m + m - 1) hm ∙ omega arith
  | no last ↦
      let e : r + m - 1 ≡ (r - 1) + m = omega arith in
      let z : r - min r m ≡ 0 = omega arith in
      ap (λ (k : ℕ). k / m) e
      ∙ add-div_right (r - 1) hm
      ∙ omega (
        arith,
        div-eq_of_lt {n = r - 1} {m = m} (omega arith),
        fragments_of-zero m hm,
        ap (λ (k : ℕ). fragments_of k m) z,
      )
]

abbrev pub taken : DatagramIterator → ℕ
taken it = min (it.sz - it.i) it.max_fragment_bytes

abbrev pub fragment : DatagramIterator → Datagram × List ℕ
fragment it = (
  record { packet_bytes = taken it; count = it.count; part = it.part },
  slice it.i (taken it) it.buf,
)

module _ {it : DatagramIterator} (v : IsIterator it) where
  pub next-more : it.i < it.sz → next it ≡ (advance it (taken it), some (fragment it))
  unfolding next peek has_next
  next-more h =
      let fits : packet_bytes_of it ≡ taken it = omega (arith, v.word) in ground (arith, fits)

  pub next-end : it.i ≡ it.sz → next it ≡ (it, none)
  unfolding next peek has_next
  next-end h = ground arith

  pub advance-IsIterator : it.i < it.sz → IsIterator (advance it (taken it))
  unfolding advance
  advance-IsIterator h =
      let r = it.sz - it.i in
      let m = it.max_fragment_bytes in
      let cut = fragments_of-cut r m v.positive (omega arith) in
      let small : u16 (taken it) ≡ taken it = omega (arith, v.word) in
      let left : it.sz - (it.i + u16 (taken it)) ≡ r - min r m = omega arith in
      record {
        stored = v.stored;
        positive = v.positive;
        word = v.word;
        within = omega (arith, small);
        parts = omega (arith, v.parts, cut, ap (λ (k : ℕ). fragments_of k m) left);
      }
