-- ===== src/Multihop/Node/Slots/Unique.antt =====
-- No slot is given to two followers, by accept of lib/net/src/multihop.cpp.
use lora_multihop.Prelude.{
  ℕ, ◌≤◌, ◌<◌, ◌≡◌, ◌≢◌, ◌⊎◌, inl, inr, refl, ap, sym, subst, ◌∙◌, true, false, [], length,
  length-set, arith, Bool-cases, if◌then◌else◌, ◌==◌,
}
use lora_multihop.Net.{Address, MacParams}
use lora_multihop.Multihop.State.{MultihopState, initialized}
use lora_multihop.Multihop.Rings.Shift.{get_or-set}
use lora_multihop.Multihop.Node.{Node, NodeRc, vtdma_window_size}
use lora_multihop.Multihop.Node.Slots.{accept, assign, send_accept}
use lora_multihop.Multihop.Node.Slots.Accept.{
  slot, again, full, given, accept-Accepts, send-state, vtdma_window_size_byte,
}

-- The slots given out so far are in the window and in the array, and no two of them are for one node.
pub record IsAssigned (s : MultihopState) (mac : MacParams) : Type 0 where
  pub some_slot : 1 ≤ s.slots_assigned
  pub window : s.slots_assigned ≤ vtdma_window_size mac
  pub room : vtdma_window_size mac ≤ length s.slot_assignments
  pub distinct : (i j : ℕ) → i < j → j < s.slots_assigned → slot s i ≢ slot s j

module _ (n : Node) (follower : Address) (v : IsAssigned n.state n.mac)
    (free : n.state.slots_assigned < vtdma_window_size n.mac) where
  assign-slot :
      (j : ℕ)
      → slot (assign n follower).state j
        ≡ (if n.state.slots_assigned == j then follower else slot n.state j)
  assign-slot j =
      get_or-set n.state.slot_assignments n.state.slots_assigned j follower (omega (arith, v.room))

  assign-IsAssigned :
      ((i : ℕ) → i < n.state.slots_assigned → slot n.state i ≢ follower)
      → IsAssigned (assign n follower).state n.mac
  assign-IsAssigned unknown = record {
    some_slot = omega (arith, v.some_slot, vtdma_window_size_byte n.mac);
    window = omega (arith, vtdma_window_size_byte n.mac);
    room =
        omega (arith, v.room, length-set n.state.slot_assignments n.state.slots_assigned follower);
    distinct = λ i j l u. ground (
      arith,
      assign-slot i,
      assign-slot j,
      v.distinct i j l,
      unknown i,
      vtdma_window_size_byte n.mac,
    );
  }

-- What accept leaves: the slots as they were, or with the next one given to the follower.
pub data Leaves (n : Node) (follower : Address) (after : MultihopState) : Type 0 where
  same : after ≡ n.state → Leaves n follower after
  more :
      after ≡ (assign n follower).state
      → n.state.slots_assigned < vtdma_window_size n.mac
      → ((i : ℕ) → i < n.state.slots_assigned → slot n.state i ≢ follower)
      → Leaves n follower after

accept-idle :
    (n : Node) (body_now now : ℕ) (follower : Address)
    → initialized n.state ≡ false
    → accept n body_now now follower ≡ (n, NodeRc.not_init)
unfolding accept
accept-idle n body_now now follower h = rw h refl

abbrev state_of : Node × NodeRc → MultihopState
state_of r = r.0.state

pub accept-Leaves :
    (n : Node) (body_now now : ℕ) (follower : Address)
    → Leaves n follower (accept n body_now now follower).0.state
accept-Leaves n body_now now follower = elim (Bool-cases (initialized n.state)) [
  | inr idle ↦ same (ap state_of (accept-idle n body_now now follower idle))
  | inl started ↦ elim (accept-Accepts n body_now now follower started) [
    | again i _ _ e ↦ same (ap state_of e ∙ send-state n _ [])
    | full _ _ e ↦ same (ap state_of e ∙ send-state n _ [])
    | given unknown free e ↦ more (ap state_of e ∙ send-state (assign n follower) _ []) free unknown
  ]
]

-- Whatever it answers, accept keeps the slots that have been given out distinct, within the window and within
-- the array, if they were so before.
pub accept-IsAssigned :
    (n : Node) (body_now now : ℕ) (follower : Address)
    → IsAssigned n.state n.mac
    → IsAssigned (accept n body_now now follower).0.state n.mac
accept-IsAssigned n body_now now follower v = elim (accept-Leaves n body_now now follower) [
  | same e ↦ subst (λ k. IsAssigned k n.mac) (sym e) v
  | more e free unknown ↦
      subst (λ k. IsAssigned k n.mac) (sym e) (assign-IsAssigned n follower v free unknown)
]

abbrev pub Kept : MultihopState → ℕ → MultihopState → Type 0
Kept s i after = (s.slots_assigned ≤ after.slots_assigned) × (slot after i ≡ slot s i)

-- A slot that has been given out stays with its node when accept is asked for another, or for the same, node.
pub accept-slot :
    (n : Node) (body_now now : ℕ) (follower : Address) (i : ℕ)
    → IsAssigned n.state n.mac
    → i < n.state.slots_assigned
    → Kept n.state i (accept n body_now now follower).0.state
accept-slot n body_now now follower i v h = elim (accept-Leaves n body_now now follower) [
  | same e ↦ subst (Kept n.state i) (sym e) (omega arith, refl)
  | more e free unknown ↦
      subst (Kept n.state i) (sym e) (
        omega (arith, vtdma_window_size_byte n.mac),
        ground (arith, assign-slot n follower v free i),
      )
]

-- The answer of accept to a follower, with the slots that it leaves.
abbrev pub Answered : Node → ℕ → ℕ → Address → Type 0
Answered n body_now now follower =
    let after = (accept n body_now now follower).0.state in
    ((i : ℕ) × (i < after.slots_assigned)
      × (slot after i ≡ follower)
      × (accept n body_now now follower
          ≡ send_accept (record n { state = after }) body_now now true follower
              n.state.downstream_start_slot i))
    ⊎ ((accept n body_now now follower
          ≡ ((send_accept n body_now now false follower 0 0).0, NodeRc.slots_full))
        × (n.state.slots_assigned ≡ vtdma_window_size n.mac)
        × ((i : ℕ) → i < n.state.slots_assigned → slot n.state i ≢ follower))

-- A node that has been started, with well-formed slots, gives one of these two answers.
pub accept-Answered :
    (n : Node) (body_now now : ℕ) (follower : Address)
    → initialized n.state ≡ true
    → IsAssigned n.state n.mac
    → Answered n body_now now follower
accept-Answered n body_now now follower started v =
    elim (accept-Accepts n body_now now follower started) [
      | again i h found e ↦
          let left = ap state_of e ∙ send-state n _ [] in
          inl (
            i,
            subst (λ k. i < k.slots_assigned) (sym left) h,
            ap (λ k. slot k i) left ∙ found,
            e
                ∙ ap
                    (λ k.
                      send_accept (record n { state = k }) body_now now true follower
                        n.state.downstream_start_slot i)
                    (sym left),
          )
      | full unknown h e ↦ inr (e, omega (arith, v.window), unknown)
      | given unknown free e ↦
          let left = ap state_of e ∙ send-state (assign n follower) _ [] in
          let i = n.state.slots_assigned in
          inl (
            i,
            subst (λ k. i < k.slots_assigned) (sym left)
                (omega (arith, vtdma_window_size_byte n.mac)),
            ap (λ k. slot k i) left ∙ ground (arith, assign-slot n follower v free i),
            e
                ∙ ap
                    (λ k.
                      send_accept (record n { state = k }) body_now now true follower
                        n.state.downstream_start_slot i)
                    (sym left),
          )
    ]
