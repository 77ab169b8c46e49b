-- ===== src/Multihop/Rings/Heard.antt =====
-- What the list holds after a run of heartbeats: add_neighbor of lib/net/src/multihop_state.cpp, and
-- the search for the lowest ring in its update_ring_from_neighbors.
use lora_multihop.Prelude.{
  ℕ, suc, ◌+◌, ◌-◌, ◌≤◌, ◌<◌, ◌≡◌, ◌≢◌, ◌⊎◌, inl, inr, refl, sym, subst, min, List, [], ◌∷◌, length,
  arith, if◌then◌else◌, ◌==◌, get_or, get_or,
}
use lora_multihop.Multihop.{Ring, unknown_ring}
use lora_multihop.Multihop.Messages.{RingList}
use lora_multihop.Multihop.Rings.{
  rebase, increment, add_neighbor, lowest_from, lowest, no_neighbors,
}
use lora_multihop.Multihop.Rings.Shift.{get_or-replicate}
use lora_multihop.Multihop.Rings.Count.{
  at, unheard, fresh, lower, within, IsRings, increment-IsRings, rebase-at, rebase_start,
  length-rebase, increment_start, add_neighbor_cases,
}

rebase_most : (r : RingList) (n : Ring) (m : ℕ) → IsRings r m → (j : ℕ) → at (rebase r n) j ≤ m
rebase_most r n m w j = ground (arith, rebase-at r n j w.eight, w.most (j - (r.ring_start - n)))

weaken : (r : RingList) (m : ℕ) → IsRings r m → IsRings r (m + 1)
weaken r m w = record {
  eight = w.eight;
  start = w.start;
  most = λ j. omega (arith, w.most j);
  none_heard = w.none_heard;
}

-- The lowest ring that the list knows of, read from its window.
abbrev low_of : RingList → Ring
low_of r = if at r 0 == 0 then unknown_ring else r.ring_start

-- The counts of the list that a heartbeat leads to: well formed, and the window opens at its ring.
abbrev Leads : RingList → Ring → ℕ → Type 0
Leads r low m = IsRings r (m + 1) × (low_of r ≡ low)

increment-Leads :
    (r : RingList) (n : Ring) (m : ℕ)
    → length r.counts ≡ 8
    → r.ring_start < unknown_ring
    → ((j : ℕ) → at r j ≤ m)
    → m < 255
    → n - r.ring_start < 8
    → (at r 0 ≢ 0) ⊎ (n ≡ r.ring_start)
    → Leads (increment r n) r.ring_start m
increment-Leads r n m eight start most few near first =
    let kept = increment-IsRings r n m eight start most few near first in
    (kept.0, ground (arith, kept.1, increment_start r n))

-- A heartbeat of any ring keeps the list well formed while no count can overflow, and the lowest ring
-- is the smaller of the one before and the one heard.
add_neighbor-Leads :
    (r : RingList) (n : Ring) (m : ℕ)
    → IsRings r m
    → m < 255
    → n ≤ unknown_ring
    → Leads (add_neighbor r n) (min (low_of r) n) m
add_neighbor-Leads r n m w few byte = elim (add_neighbor_cases r n) [
  | unheard e far ↦ leads e (unchanged far)
  | fresh e k z ↦ leads e (
      to_min
        (increment-Leads (record { ring_start = n; counts = r.counts }) n m w.eight (omega arith)
          w.most few (omega arith) (inr refl))
        (ground arith))
  | lower e k z l ↦ leads e (
      to_min
        (increment-Leads (rebase r n) n m (length-rebase r n w.eight)
          (omega (arith, rebase_start r n)) (rebase_most r n m w) few
          (omega (arith, rebase_start r n)) (inr (sym (rebase_start r n))))
        (ground (arith, rebase_start r n)))
  | within e k z l u ↦ leads e (
      to_min (increment-Leads r n m w.eight w.start w.most few (omega arith) (inl z))
        (ground arith))
]
  where
    leads :
        {x : RingList}
        → add_neighbor r n ≡ x
        → Leads x (min (low_of r) n) m
        → Leads (add_neighbor r n) (min (low_of r) n) m
    leads e h = subst (λ x. Leads x (min (low_of r) n) m) (sym e) h

    to_min :
        {x : RingList} {low : Ring}
        → Leads x low m
        → low ≡ min (low_of r) n
        → Leads x (min (low_of r) n) m
    to_min {x} h e = subst (λ l. Leads x l m) e h

    unchanged :
        (n ≡ unknown_ring) ⊎ ((at r 0 ≢ 0) × (r.ring_start + 8 ≤ n)) → Leads r (min (low_of r) n) m
    unchanged far = (weaken r m w, ground (arith, w.start))

lowest_from_none :
    (start i : ℕ) (cs : List ℕ)
    → ((j : ℕ) → get_or cs j 0 ≡ 0)
    → lowest_from start i cs ≡ unknown_ring
unfolding lowest_from
lowest_from_none start i [] z = refl
lowest_from_none start i (c ∷ cs) z =
    ground (arith, z 0, lowest_from_none start (i + 1) cs (λ j. z (suc j)))

lowest_from_first :
    (start : ℕ) (cs : List ℕ) → get_or cs 0 0 ≢ 0 → start < 256 → lowest_from start 0 cs ≡ start
unfolding lowest_from
lowest_from_first start [] z b = absurd (z refl)
lowest_from_first start (c ∷ cs) z b = ground arith

lowest-low_of : (r : RingList) (m : ℕ) → IsRings r m → lowest r ≡ low_of r
lowest-low_of r m w = ground (
  arith,
  lowest_from_none r.ring_start 0 r.counts,
  w.none_heard,
  lowest_from_first r.ring_start r.counts,
  w.start,
)

-- The list after the heartbeats of the rings `heard`, in the order received.
abbrev pub hear : RingList → List Ring → RingList
hear r [] = r
hear r (n ∷ heard) = hear (add_neighbor r n) heard

abbrev pub least : List Ring → Ring
least [] = unknown_ring
least (n ∷ heard) = min n (least heard)

abbrev pub AllRings : List Ring → Type 0
AllRings [] = Unit {0}
AllRings (n ∷ heard) = (n ≤ unknown_ring) × AllRings heard

hear-lowest_from :
    (r : RingList) (m : ℕ) (heard : List Ring)
    → IsRings r m
    → AllRings heard
    → m + length heard ≤ 255
    → lowest (hear r heard) ≡ min (low_of r) (least heard)
hear-lowest_from r m [] w all fit = ground (arith, lowest-low_of r m w, w.start)
hear-lowest_from r m (n ∷ heard) w all fit =
    let led = add_neighbor-Leads r n m w (omega arith) all.0 in
    omega
      (arith, hear-lowest_from (add_neighbor r n) (m + 1) heard led.0 all.1 (omega arith), led.1)

no_neighbors-IsRings : IsRings no_neighbors 0
no_neighbors-IsRings = record {
  eight = refl;
  start = omega arith;
  most = λ j. omega (arith, get_or-replicate 8 j);
  none_heard = λ e j. get_or-replicate 8 j;
}

least_le : (heard : List Ring) → AllRings heard → least heard ≤ unknown_ring
least_le [] all = omega arith
least_le (n ∷ heard) all = omega (arith, least_le heard all.1)

-- After at most 255 heartbeats, in any order, the lowest ring of a list that was reset is the least of
-- the rings heard, and the unknown ring when no known ring was heard.
pub hear-lowest :
    (heard : List Ring)
    → AllRings heard
    → length heard ≤ 255
    → lowest (hear no_neighbors heard) ≡ least heard
hear-lowest heard all fit = ground (
  arith,
  hear-lowest_from no_neighbors 0 heard no_neighbors-IsRings all (omega arith),
  least_le heard all,
)
