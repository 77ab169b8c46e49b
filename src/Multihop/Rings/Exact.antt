-- ===== src/Multihop/Rings/Exact.antt =====
-- The count that the list holds for each ring, under add_neighbor of lib/net/src/multihop_state.cpp.
use lora_multihop.Prelude.{
  ℕ, ◌+◌, ◌-◌, ◌≤◌, ◌<◌, ◌≡◌, ◌⊎◌, sym, subst, ap, arith, if◌then◌else◌, ltb, ◌==◌,
}
use lora_multihop.Multihop.{Ring, unknown_ring}
use lora_multihop.Multihop.Messages.{RingList}
use lora_multihop.Multihop.Rings.{rebase, increment, add_neighbor}
use lora_multihop.Multihop.Rings.Count.{
  at, unheard, fresh, lower, within, IsRings, rebase-at, rebase_start, length-rebase, increment-at,
  increment_start, add_neighbor_cases,
}
use lora_multihop.Multihop.Rings.Shift.{get_or_beyond}

-- How often ring `k` was heard, as far as the window of the list knows.
abbrev pub count_of : RingList → Ring → ℕ
count_of r k = if ltb k r.ring_start then 0 else at r (k - r.ring_start)

-- A count of the list before, while the new window reaches its ring.
abbrev pub kept : RingList → RingList → Ring → ℕ
kept r new k = if ltb k (new.ring_start + 8) then count_of r k else 0

-- The counts of the list `x` are those of `r` with one more heartbeat of `n`.
abbrev Counts : RingList → Ring → Ring → RingList → Type 0
Counts r n k x = count_of x k ≡ (if k == n then count_of r k + 1 else kept r x k)

Counts-fresh :
    (r : RingList) (n k : Ring) (m : ℕ)
    → IsRings r m
    → at r 0 ≡ 0
    → Counts r n k (increment (record { ring_start = n; counts = r.counts }) n)
Counts-fresh r n k m w z =
    let opened : RingList = record { ring_start = n; counts = r.counts } in
    ground (
      arith,
      increment_start opened n,
      increment-at opened n (k - n),
      w.eight,
      w.none_heard z (n - n),
      w.none_heard z (k - n),
      w.none_heard z (k - r.ring_start),
    )

sub_step :
    (r : RingList) (k n : ℕ)
    → n < r.ring_start
    → r.ring_start ≤ k
    → at r (k - n - (r.ring_start - n)) ≡ at r (k - r.ring_start)
sub_step r k n l u =
    let e : k - n - (r.ring_start - n) ≡ k - r.ring_start = omega arith in ap (λ j. at r j) e

Counts-lower :
    (r : RingList) (n k : Ring) (m : ℕ)
    → IsRings r m
    → n < r.ring_start
    → Counts r n k (increment (rebase r n) n)
Counts-lower r n k m w l = ground (
  arith,
  increment_start (rebase r n) n,
  rebase_start r n,
  increment-at (rebase r n) n (k - n),
  length-rebase r n w.eight,
  rebase-at r n (n - n) w.eight,
  rebase-at r n (k - n) w.eight,
  sub_step r k n l,
)

Counts-within :
    (r : RingList) (n k : Ring) (m : ℕ)
    → IsRings r m
    → m < 255
    → r.ring_start ≤ n
    → n < r.ring_start + 8
    → Counts r n k (increment r n)
Counts-within r n k m w few l u = ground (
  arith,
  increment_start r n,
  increment-at r n (k - r.ring_start),
  w.eight,
  w.most (n - r.ring_start),
  get_or_beyond r.counts (k - r.ring_start),
)

-- In a well-formed list whose counts stand below 255, a heartbeat that the list takes in adds one to the count of its ring; the counts of the other rings stay, except
-- those that the window moved down has left behind.
pub add_neighbor-count_of :
    (r : RingList) (n k : Ring) (m : ℕ)
    → IsRings r m
    → m < 255
    → n < unknown_ring
    → (at r 0 ≡ 0) ⊎ (n < r.ring_start + 8)
    → count_of (add_neighbor r n) k
      ≡ (if k == n then count_of r k + 1 else kept r (add_neighbor r n) k)
add_neighbor-count_of r n k m w few known taken = elim (add_neighbor_cases r n) [
  | unheard e far ↦ ground arith
  | fresh e _ z ↦ subst (Counts r n k) (sym e) (Counts-fresh r n k m w z)
  | lower e _ z l ↦ subst (Counts r n k) (sym e) (Counts-lower r n k m w l)
  | within e _ z l u ↦ subst (Counts r n k) (sym e) (Counts-within r n k m w few l u)
]
