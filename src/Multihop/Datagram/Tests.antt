-- ===== src/Multihop/Datagram/Tests.antt =====
-- Buffers cut by lib/net/src/multihop_messages.cpp, and the theorems about it at concrete buffers.
use lora_multihop.Prelude.{ℕ, ◌≡◌, refl, List, [], ◌∷◌, length, arith}
use lora_multihop.Multihop.Datagram.{DatagramIterator, datagram_iterator, fragments}
use lora_multihop.Multihop.Datagram.Cursor.{IsIterator}
use lora_multihop.Multihop.Datagram.Fragments.{Numbered, joined, datagram_iterator-Fragmented}

abbrev five : List ℕ
five = 1 ∷ 2 ∷ 3 ∷ 4 ∷ 5 ∷ []

datagram_iterator-Fragmented_example :
    let frags = fragments 6 (datagram_iterator five 5 2) in
    (joined frags ≡ five) × (length frags ≡ 3) × Numbered 0 (length frags) 2 frags
datagram_iterator-Fragmented_example =
    datagram_iterator-Fragmented five 2 (omega arith) (omega arith) (omega arith)

abbrev start : DatagramIterator
start = record {
  part = 0;
  count = 3;
  i = 0;
  buf = five;
  sz = 5;
  max_fragment_bytes = 2;
  last_msg_sz = 0;
}

start-IsIterator : IsIterator start
start-IsIterator = record {
  stored = refl;
  positive = omega arith;
  word = omega arith;
  within = omega arith;
  parts = omega arith;
}
