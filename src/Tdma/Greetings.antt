-- ===== src/Tdma/Greetings.antt =====
-- What a node of tdma/node/src/main.cpp sends in each slot of the clock, over any number of passes of its loop.
use lora_multihop.Prelude.{
  ℕ, ◌+◌, ◌-◌, ◌/◌, ◌%◌, ◌^◌, ◌≤◌, ◌<◌, ◌≡◌, ◌==◌, ◌&&◌, ◌||◌, Bool, not, true, false, List, [],
  ◌∷◌, refl, ap, ◌∙◌, if◌then◌else◌, arith,
}
use lora_multihop.Lora.{LoraRc}
use lora_multihop.Tdma.{
  epoch_s, slot_seconds, node_count, Node, Pass, Event, unseen, msg_buf_sz, rx_poll_ms, slot_index,
  see_slot, heard, own_slot, pass, passes,
}

-- How many messages an event hands to the radio.
unfoldable pub tally : Event → ℕ
tally (Event.tx msg rc delays) = 1
tally event = 0

-- The slot of the clock, numbered from the epoch on.
abbrev pub clock_slot : ℕ → ℕ
clock_slot now = (now - epoch_s) / slot_seconds

-- How many messages are handed to the radio in passes that begin in this slot of the clock.
unfoldable pub sent_in : ℕ → List Pass → List Event → ℕ
sent_in j [] events = 0
sent_in j (p ∷ ps) [] = 0
sent_in j (p ∷ ps) (event ∷ events) =
    (if clock_slot p.now == j then tally event else 0) + sent_in j ps events

-- Whether a pass begins in this slot of the clock.
unfoldable pub found : ℕ → List Pass → Bool
found j [] = false
found j (p ∷ ps) = clock_slot p.now == j || found j ps

-- One message in a slot of the node's own, if a pass begins in it.
abbrev pub due : ℕ → ℕ → List Pass → ℕ
due device_id j ps = if j % node_count == device_id && found j ps then 1 else 0

-- Each pass begins at a time of 32 bits, no earlier than the one before and at most four seconds behind it.
abbrev pub Runs : ℕ → List Pass → Type 0
Runs t [] = Unit {0}
Runs t (p ∷ ps) = (t ≤ p.now) × (p.now ≤ t + 4) × (p.now < 2 ^ 32) × Runs p.now ps

-- Whether a pass in this slot greets, by the slot of the pass before.
unfoldable pub entry : ℕ → ℕ → ℕ → ℕ
entry device_id last slot = if slot == device_id then (if last == device_id then 0 else 1) else 0

-- A node that has seen its slot begin has sent in it.
unfoldable Greeted : ℕ → Node → Type 0
Greeted device_id s = s.last_slot_seen ≡ device_id → s.transmitted_this_slot ≡ true

heard-tally : (answer : LoraRc × List ℕ) → tally (heard answer) ≡ 0
unfolding tally heard
heard-tally (LoraRc.okay, b ∷ bytes) = refl
heard-tally (rc, bytes) = refl

module _ (hello : ℕ → ℕ → List ℕ) (device_id : ℕ) where
  pass_lem :
      (s : Node) (p : Pass)
      → Greeted device_id s
      → let after = pass hello device_id s p in
        (tally after.1 ≡ entry device_id s.last_slot_seen (slot_index p.now))
        × (after.0.last_slot_seen ≡ slot_index p.now)
        × Greeted device_id after.0
  unfolding Greeted pass see_slot own_slot tally entry
  pass_lem s p h = ground (arith, heard-tally (p.listen (msg_buf_sz - 1) rx_poll_ms))

slot_index_lem :
    (now : ℕ) → epoch_s ≤ now → now < 2 ^ 32 → slot_index now ≡ clock_slot now % node_count
unfolding slot_index
slot_index_lem now p q = omega arith

found-later :
    (j t : ℕ) (ps : List Pass) → Runs t ps → epoch_s ≤ t → j < clock_slot t → found j ps ≡ false
unfolding found
found-later j t [] r e p = refl
found-later j t (pass ∷ ps) (after, near, word, r) e p =
    ground (arith, found-later j pass.now ps r (omega (arith, after)) (omega (arith, after)))

entry-clock_slot :
    (device_id t now : ℕ)
    → epoch_s ≤ t
    → t ≤ now
    → now ≤ t + 4
    → now < 2 ^ 32
    → entry device_id (slot_index t) (slot_index now) ≡ (
        if clock_slot now % node_count == device_id && not (clock_slot now == clock_slot t)
        then 1
        else 0)
unfolding entry
entry-clock_slot device_id t now e after near word =
    ground (arith, slot_index_lem t e, slot_index_lem now)

module _ (hello : ℕ → ℕ → List ℕ) (device_id j : ℕ) where
  passes-sent_in :
      (s : Node) (t : ℕ) (ps : List Pass)
      → Greeted device_id s
      → s.last_slot_seen ≡ slot_index t
      → epoch_s ≤ t
      → Runs t ps
      → sent_in j ps (passes hello device_id s ps).1
        ≡ (if clock_slot t == j then 0 else due device_id j ps)
  unfolding passes sent_in found
  passes-sent_in s t [] g last e r = ground arith
  passes-sent_in s t (p ∷ ps) g last e (after, near, word, r) =
      let (sent, seen, greeted) = pass_lem hello device_id s p g in
      ground (
        arith,
        sent ∙ ap (λ l. entry device_id l (slot_index p.now)) last,
        entry-clock_slot device_id t p.now e after near word,
        found-later j p.now ps r (omega (arith, e, after)),
        passes-sent_in (pass hello device_id s p).0 p.now ps greeted seen (omega (arith, e, after))
            r,
      )

-- Let the passes of the loop, from the start of the firmware on, begin in their order, the first one no earlier than
-- the epoch, and each at most four seconds behind the one before. Then a node with an address of one byte sends
-- exactly one message in each slot that is its own and in which a pass begins, and none in any other slot,
-- whatever its radio answers and hears and however many passes there are.
pub passes-once :
    (hello : ℕ → ℕ → List ℕ) (device_id j : ℕ) (p : Pass) (ps : List Pass)
    → device_id < 256
    → epoch_s ≤ p.now
    → p.now < 2 ^ 32
    → Runs p.now ps
    → sent_in j (p ∷ ps) (passes hello device_id unseen (p ∷ ps)).1 ≡ due device_id j (p ∷ ps)
unfolding passes sent_in found Greeted entry
passes-once hello device_id j p ps small e word r =
    let (sent, seen, greeted) =
      pass_lem hello device_id unseen p (λ e. absurd (omega (arith, e, small))) in
    ground (
      arith,
      sent,
      slot_index_lem p.now e word,
      found-later j p.now ps r e,
      passes-sent_in hello device_id j (pass hello device_id unseen p).0 p.now ps greeted seen e r,
    )
