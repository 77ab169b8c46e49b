-- ===== src/Multihop/Node/Slots/Accept.antt =====
-- The branches of accept of lib/net/src/multihop.cpp, and the search of its duplicate guard.
use lora_multihop.Prelude.{
  ℕ, zero, suc, ◌+◌, ◌≤◌, ◌<◌, ◌≡◌, ◌≢◌, inl, inr, refl, subst, true, false, List, [], ◌∷◌, none,
  some, get_or, arith, ℕ_discrete, leb, Option-cases, Bool-cases,
}
use lora_multihop.Net.{Address, MacParams}
use lora_multihop.Multihop.Messages.{Message}
use lora_multihop.Multihop.State.{MultihopState, initialized}
use lora_multihop.Multihop.Node.{Node, NodeRc, vtdma_window_size, send}
use lora_multihop.Multihop.Node.Slots.{accept, assign, find_slot, send_accept}

abbrev pub slot : MultihopState → ℕ → Address
slot s i = get_or s.slot_assignments i 0

pub send-state : (n : Node) (msg : Message) (bs : List ℕ) → (send n msg bs).0.state ≡ n.state
unfolding send
send-state n msg [] = refl
send-state n msg (b ∷ bs) = refl

find_slot-some :
    (left i k : ℕ) (slots : List Address) (follower : Address)
    → find_slot left i slots follower ≡ some k
    → (i ≤ k) × (k < i + left) × (get_or slots k 0 ≡ follower)
unfolding find_slot
find_slot-some zero i k slots follower e = cc
find_slot-some (suc left) i k slots follower e =
    ground (arith, find_slot-some left (i + 1) k slots follower)

find_slot-none :
    (left i k : ℕ) (slots : List Address) (follower : Address)
    → find_slot left i slots follower ≡ none
    → i ≤ k
    → k < i + left
    → get_or slots k 0 ≢ follower
unfolding find_slot
find_slot-none zero i k slots follower e l u = absurd (omega arith)
find_slot-none (suc left) i k slots follower e l u = elim (ℕ_discrete i k) [
  | yes same ↦ subst (λ j. get_or slots j 0 ≢ follower) same (ground (arith, e))
  | no other ↦ ground (arith, find_slot-none left (i + 1) k slots follower, e)
]

pub vtdma_window_size_byte : (mac : MacParams) → vtdma_window_size mac < 256
unfolding vtdma_window_size
vtdma_window_size_byte mac = omega arith

-- What accept does: the slot that the follower has, none, or the next one.
pub data Accepts (n : Node) (body_now now : ℕ) (follower : Address) : Type 0 where
  again :
      (i : ℕ)
      → i < n.state.slots_assigned
      → slot n.state i ≡ follower
      → accept n body_now now follower
        ≡ send_accept n body_now now true follower n.state.downstream_start_slot i
      → Accepts n body_now now follower
  full :
      ((i : ℕ) → i < n.state.slots_assigned → slot n.state i ≢ follower)
      → vtdma_window_size n.mac ≤ n.state.slots_assigned
      → accept n body_now now follower
        ≡ ((send_accept n body_now now false follower 0 0).0, NodeRc.slots_full)
      → Accepts n body_now now follower
  given :
      ((i : ℕ) → i < n.state.slots_assigned → slot n.state i ≢ follower)
      → n.state.slots_assigned < vtdma_window_size n.mac
      → accept n body_now now follower
        ≡ send_accept
            (assign n follower)
            body_now
            now
            true
            follower
            n.state.downstream_start_slot
            n.state.slots_assigned
      → Accepts n body_now now follower

module _ (n : Node) (body_now now : ℕ) (follower : Address)
    (started : initialized n.state ≡ true) where
  accept-again :
      (i : ℕ)
      → find_slot n.state.slots_assigned 0 n.state.slot_assignments follower ≡ some i
      → accept n body_now now follower
        ≡ send_accept n body_now now true follower n.state.downstream_start_slot i
  unfolding accept
  accept-again i e = rw (started, e)

  accept-full :
      find_slot n.state.slots_assigned 0 n.state.slot_assignments follower ≡ none
      → leb (vtdma_window_size n.mac) n.state.slots_assigned ≡ true
      → accept n body_now now follower
        ≡ ((send_accept n body_now now false follower 0 0).0, NodeRc.slots_full)
  unfolding accept
  accept-full e h = rw (started, e, h)

  accept-given :
      find_slot n.state.slots_assigned 0 n.state.slot_assignments follower ≡ none
      → leb (vtdma_window_size n.mac) n.state.slots_assigned ≡ false
      → accept n body_now now follower
        ≡ send_accept
            (assign n follower)
            body_now
            now
            true
            follower
            n.state.downstream_start_slot
            n.state.slots_assigned
  unfolding accept
  accept-given e h = rw (started, e, h)

  pub accept-Accepts : Accepts n body_now now follower
  accept-Accepts =
      let slots = n.state.slot_assignments in
      let used = n.state.slots_assigned in
      elim (Option-cases (find_slot used 0 slots follower)) [
        | inr (i, e) ↦
            let (low, high, found) = find_slot-some used 0 i slots follower e in
            again i (omega arith) found (accept-again i e)
        | inl e ↦
            let unknown = λ (i : ℕ) (h : i < used).
              find_slot-none used 0 i slots follower e (omega arith) (omega arith) in
            elim (Bool-cases (leb (vtdma_window_size n.mac) used)) [
              | inl h ↦ full unknown (ground arith) (accept-full e h)
              | inr h ↦ given unknown (ground arith) (accept-given e h)
            ]
      ]
