-- ===== src/Multihop/Datagram/Fragments.antt =====
-- The fragments of lib/net/src/multihop_messages.cpp make up the buffer.
use lora_multihop.Prelude.{
  ℕ, zero, suc, ◌+◌, ◌-◌, ◌^◌, ◌≤◌, ◌<◌, ◌≡◌, refl, ap, sym, subst, ◌∙◌, List, [], ◌∷◌, ◌++◌, none,
  some, length, length-take, length-drop, drop, drop-drop, take-append-drop, slice, u8, u16, arith,
  dec_lt,
}
use lora_multihop.Multihop.Messages.{Datagram}
use lora_multihop.Multihop.Datagram.{
  DatagramIterator, datagram_iterator, fragments_of, has_next, peek, advance, next, rewind,
  fragments,
}
use lora_multihop.Multihop.Datagram.Cursor.{
  IsIterator, fragments_of-zero, fragments_of-cut, taken, fragment, next-more, next-end,
  advance-IsIterator,
}

-- The fragments are numbered from `part` on, carry `count` and their size, and none is too big.
abbrev pub Numbered : ℕ → ℕ → ℕ → List (Datagram × List ℕ) → Type 0
Numbered part count most [] = Unit {0}
Numbered part count most ((d, bytes) ∷ rest) =
    (d.part ≡ part)
    × (d.count ≡ count)
    × (d.packet_bytes ≡ length bytes)
    × (0 < length bytes)
    × (length bytes ≤ most)
    × Numbered (part + 1) count most rest

abbrev pub joined : List (Datagram × List ℕ) → List ℕ
joined [] = []
joined ((d, bytes) ∷ rest) = bytes ++ joined rest

-- The fragments that are left at a cursor are the bytes behind it, cut into numbered pieces.
pub record Fragmented (it : DatagramIterator) (frags : List (Datagram × List ℕ)) : Type 0 where
  pub bytes : joined frags ≡ drop it.i it.buf
  pub number : length frags ≡ fragments_of (it.sz - it.i) it.max_fragment_bytes
  pub numbered : Numbered it.part it.count it.max_fragment_bytes frags

drop-all : (n : ℕ) (xs : List ℕ) → length xs ≡ n → drop n xs ≡ []
drop-all zero [] h = refl
drop-all zero (x ∷ xs) h = absurd (omega arith)
drop-all (suc n) [] h = refl
drop-all (suc n) (x ∷ xs) h = drop-all n xs (omega arith)

module _ {it : DatagramIterator} (v : IsIterator it) where
  -- At the end of the buffer nothing is left.
  pub Fragmented-end : it.i ≡ it.sz → Fragmented it []
  Fragmented-end e = record {
    bytes = sym (drop-all it.i it.buf (omega (arith, v.stored)));
    number = sym (
        ap (λ (k : ℕ). fragments_of k it.max_fragment_bytes) (omega arith)
        ∙ fragments_of-zero it.max_fragment_bytes v.positive);
    numbered = tt;
  }

  pub length_fragment : length (slice it.i (taken it) it.buf) ≡ taken it
  length_fragment =
      omega (arith, length-take (taken it) (drop it.i it.buf), length-drop it.i it.buf, v.stored)

  -- A fragment is cut off in front of those behind it.
  pub Fragmented-more :
      (frags : List (Datagram × List ℕ))
      → it.i < it.sz
      → Fragmented (advance it (taken it)) frags
      → Fragmented it (fragment it ∷ frags)
  unfolding advance
  Fragmented-more frags h f =
      let small : u16 (taken it) ≡ taken it = omega (arith, v.word) in
      let left : it.sz - (it.i + u16 (taken it)) ≡ it.sz - it.i - taken it = omega arith in
      let cut = fragments_of-cut (it.sz - it.i) it.max_fragment_bytes v.positive (omega arith) in
      let next_part : u8 (it.part + 1) ≡ it.part + 1 = omega (arith, v.parts, cut) in
      record {
        bytes =
            ap (λ (k : List ℕ). slice it.i (taken it) it.buf ++ k)
              (f.bytes
                ∙ ap (λ (k : ℕ). drop (it.i + k) it.buf) small
                ∙ sym (drop-drop (taken it) it.i it.buf))
            ∙ take-append-drop (taken it) (drop it.i it.buf);
        number =
            omega (arith, f.number, cut, ap (λ (k : ℕ). fragments_of k it.max_fragment_bytes) left);
        numbered = (
          refl,
          refl,
          sym length_fragment,
          omega (arith, length_fragment, v.positive),
          omega (arith, length_fragment),
          subst (λ (k : ℕ). Numbered k it.count it.max_fragment_bytes frags) next_part f.numbered,
        );
      }

fragments-end :
    (fuel : ℕ) (it : DatagramIterator) → next it ≡ (it, none) → fragments (suc fuel) it ≡ []
unfolding fragments
fragments-end fuel it e = ground (arith, e)

fragments-more :
    (fuel : ℕ) (it it' : DatagramIterator) (x : Datagram × List ℕ)
    → next it ≡ (it', some x)
    → fragments (suc fuel) it ≡ x ∷ fragments fuel it'
unfolding fragments
fragments-more fuel it it' x e = ground (arith, e)

advance_less :
    {it : DatagramIterator} (v : IsIterator it)
    → it.i < it.sz
    → (advance it (taken it)).sz - (advance it (taken it)).i < it.sz - it.i
unfolding advance
advance_less v h = omega (arith, v.word, v.positive)

-- With fuel for each byte that is left, the fragments are those that are left at the cursor.
pub fragments-Fragmented :
    (fuel : ℕ) (it : DatagramIterator)
    → IsIterator it
    → it.sz - it.i < fuel
    → Fragmented it (fragments fuel it)
fragments-Fragmented zero it v h = absurd (omega arith)
fragments-Fragmented (suc fuel) it v h = elim (dec_lt it.i it.sz) [
  | yes more ↦
      rw (fragments-more fuel it (advance it (taken it)) (fragment it) (next-more v more)) (
        Fragmented-more v (fragments fuel (advance it (taken it))) more (
          fragments-Fragmented fuel (advance it (taken it)) (advance-IsIterator v more)
            (omega (arith, advance_less v more))))
  | no done ↦
      let e : it.i ≡ it.sz = omega (arith, v.within) in
      rw (fragments-end fuel it (next-end v e)) (Fragmented-end v e)
]

abbrev pub fresh_iterator : List ℕ → ℕ → ℕ → DatagramIterator
fresh_iterator buf m count = record {
  part = 0;
  count = count;
  i = 0;
  buf = buf;
  sz = length buf;
  max_fragment_bytes = m;
  last_msg_sz = 0;
}

-- The constructor's iterator for at most 255 fragments.
pub datagram_iterator-fresh :
    (buf : List ℕ) (m : ℕ)
    → fragments_of (length buf) m ≤ 255
    → datagram_iterator buf (length buf) m ≡ fresh_iterator buf m (fragments_of (length buf) m)
unfolding datagram_iterator
datagram_iterator-fresh buf m few = ground arith

pub zero_left :
    (buf : List ℕ) (m : ℕ) → fragments_of (length buf - 0) m ≡ fragments_of (length buf) m
zero_left buf m = ap (λ (k : ℕ). fragments_of k m) (omega arith)

pub fresh-IsIterator :
    (buf : List ℕ) (m : ℕ)
    → 0 < m
    → m < 2 ^ 16
    → fragments_of (length buf) m ≤ 255
    → IsIterator (fresh_iterator buf m (fragments_of (length buf) m))
fresh-IsIterator buf m pos word few = record {
  stored = refl;
  positive = pos;
  word = word;
  within = omega arith;
  parts = omega (arith, zero_left buf m, few);
}

-- A buffer of at most 255 fragments, of at most 65535 bytes each, is handed out whole: the fragments' bytes in order are the buffer,
-- they are numbered from 0, each carries their true number and its own size, and none is empty or
-- above the maximum.
pub datagram_iterator-Fragmented :
    (buf : List ℕ) (m : ℕ)
    → 0 < m
    → m < 2 ^ 16
    → fragments_of (length buf) m ≤ 255
    → let frags = fragments (length buf + 1) (datagram_iterator buf (length buf) m) in
      (joined frags ≡ buf)
      × (length frags ≡ fragments_of (length buf) m)
      × Numbered 0 (length frags) m frags
datagram_iterator-Fragmented buf m pos word few =
    let it = fresh_iterator buf m (fragments_of (length buf) m) in
    let v = fresh-IsIterator buf m pos word few in
    let f = fragments-Fragmented (length buf + 1) it v (omega arith) in
    let number = f.number ∙ zero_left buf m in
    rw (datagram_iterator-fresh buf m few) (
      f.bytes,
      number,
      subst (λ (k : ℕ). Numbered 0 k m (fragments (length buf + 1) it)) (sym number) f.numbered,
    )

-- A buffer of more than 255 fragments is refused: the iterator gives none.
pub datagram_iterator-refused :
    (buf : List ℕ) (m fuel : ℕ)
    → 255 < fragments_of (length buf) m
    → fragments fuel (datagram_iterator buf (length buf) m) ≡ []
unfolding fragments datagram_iterator next peek has_next
datagram_iterator-refused buf m zero many = refl
datagram_iterator-refused buf m (suc fuel) many = ground arith

-- Where `next` gives a fragment, `rewind` returns its size and puts the cursor back where it was before.
pub rewind-next :
    (it : DatagramIterator)
    → IsIterator it
    → it.sz < 2 ^ 64
    → it.i < it.sz
    → (rewind (next it).0 ≡ (record it { last_msg_sz = 0 }, taken it))
unfolding rewind advance
rewind-next it v wide more = rw (next-more v more) (ground (arith, v.word, v.parts))
