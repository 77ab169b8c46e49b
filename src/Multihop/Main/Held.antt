-- ===== src/Multihop/Main/Held.antt =====
-- The slots that a clusterhead has given out stay well-formed for as long as the firmware of
-- multihop/node/src/main.cpp runs.
use lora_multihop.Prelude.{ℕ, zero, suc, ◌+◌, ◌-◌, ◌≡◌, refl, ◌∙◌, not, Option, List}
use lora_multihop.Multihop.State.{acts_as_clusterhead}
use lora_multihop.Multihop.Node.{Node, NodeRc}
use lora_multihop.Multihop.Node.Timing.{advertisement_slot, my_slot}
use lora_multihop.Multihop.Phases.{World, Run, pure}
use lora_multihop.Multihop.Phases.Rules.{branch-Ensures}
use lora_multihop.Multihop.Phases.Advertise.{do_advertise}
use lora_multihop.Multihop.Phases.Advertise.Slots.{IsHeld}
use lora_multihop.Multihop.Phases.Advertise.Held.{do_advertise-IsHeld}
use lora_multihop.Multihop.Main.{
  sleep, wait_for, clusterhead_recv, clusterhead_send, listen_slots, clusterhead_phase,
  follower_send, follower_recv, follower_phase, slots_phase, loop, superframes, vtdma_window,
}
use lora_multihop.Multihop.Main.Base.{
  base, base-IsHeld, epoch_and_offset-base, my_slot-base, do_follower_send-base, send_datagram-base,
  do_clusterhead_recv-base, do_clusterhead_send-base,
}
use lora_multihop.Multihop.Main.Hearing.{do_follower_recv-base}

module _ (w : World) where
  -- The node has the base of this one.
  abbrev Same : Run → Run → Type 0
  Same r k = base k.node ≡ base r.node

  sleep-Same : (fuel point : ℕ) (r : Run) → Same r (sleep w fuel point r).1
  unfolding sleep
  sleep-Same zero point r = refl
  sleep-Same (suc fuel) point r =
      branch-Ensures (λ x k. Same r k) _ _ (pure tt) _ (sleep-Same fuel point _) refl

  module _ (slot : Node → ℕ → Node × NodeRc × Option (ℕ × ℕ))
      (asks : (n : Node) (now : ℕ) → base (slot n now).0 ≡ base n) where
    wait_for-Same : (fuel : ℕ) (r : Run) → Same r (wait_for w fuel slot r).1
    unfolding wait_for
    wait_for-Same fuel r =
        branch-Ensures (λ x k. Same r k) _ _ _ _ (asks r.node _)
          (sleep-Same fuel _ _ ∙ asks r.node _)

  clusterhead_recv-Same : (r : Run) → Same r (clusterhead_recv w r).1
  unfolding clusterhead_recv
  clusterhead_recv-Same r = do_clusterhead_recv-base r.node _ _ _

  clusterhead_send-Same : (r : Run) → Same r (clusterhead_send w r).1
  unfolding clusterhead_send
  clusterhead_send-Same r = do_clusterhead_send-base r.node _ _ _ _ _ _ _

  listen_slots-Same : (fuel left slot : ℕ) (r : Run) → Same r (listen_slots w fuel left slot r).1
  unfolding listen_slots
  listen_slots-Same fuel zero slot r = refl
  listen_slots-Same fuel (suc left) slot r =
      let waited = wait_for-Same _ (λ n now. epoch_and_offset-base n _ now) fuel r in
      branch-Ensures (λ x k. Same r k) _ _ _ _ waited
        (listen_slots-Same fuel left (slot + 1) _ ∙ clusterhead_recv-Same _ ∙ waited)

  clusterhead_phase-Same : (fuel : ℕ) (r : Run) → Same r (clusterhead_phase w fuel r).1
  unfolding clusterhead_phase
  clusterhead_phase-Same fuel r =
      let waited =
        wait_for-Same _ (λ n now. epoch_and_offset-base n _ now) fuel _
        ∙ listen_slots-Same fuel (vtdma_window - 2) 1 r in
      branch-Ensures (λ x k. Same r k) _ _ _ _ waited (clusterhead_send-Same _ ∙ waited)

  follower_send-Same : (payload : List ℕ) (r : Run) → Same r (follower_send w payload r).1
  unfolding follower_send
  follower_send-Same payload r = do_follower_send-base _ _ _ _ _ ∙ send_datagram-base r.node _ _

  follower_recv-Same : (fuel : ℕ) (r : Run) → Same r (follower_recv w fuel r).1
  unfolding follower_recv
  follower_recv-Same fuel r = do_follower_recv-base r.node _ _

  follower_phase-Same :
      (fuel : ℕ) (payload : ℕ → List ℕ) (data_seq : ℕ) (r : Run)
      → Same r (follower_phase w fuel payload data_seq r).1
  unfolding follower_phase
  follower_phase-Same fuel payload data_seq r =
      let mine = wait_for-Same my_slot my_slot-base fuel r in
      let sent =
        branch-Ensures (λ x k. Same r k) _ _ _ (wait_for w fuel my_slot r).1 mine
          (follower_send-Same (payload data_seq) _ ∙ mine) in
      let waited = wait_for-Same _ (λ n now. epoch_and_offset-base n _ now) fuel _ ∙ sent in
      branch-Ensures (λ x k. Same r k) _ _ _ _ waited (follower_recv-Same fuel _ ∙ waited)

  slots_phase-Same :
      (fuel : ℕ) (payload : ℕ → List ℕ) (data_seq : ℕ) (r : Run)
      → Same r (slots_phase w fuel payload data_seq r).1
  unfolding slots_phase
  slots_phase-Same fuel payload data_seq r =
      let heads =
        branch-Ensures (λ x k. Same r k) (not (acts_as_clusterhead r.node.state)) (pure tt)
          (clusterhead_phase w fuel) r refl (clusterhead_phase-Same fuel r) in
      branch-Ensures (λ x k. Same r k) _ (pure data_seq) _ _ heads
        (follower_phase-Same fuel payload data_seq _ ∙ heads)

  abbrev Held : Run → Type 0
  Held r = IsHeld r.node.state r.node.mac

  Same-Held : (r k : Run) → Same r k → Held r → Held k
  Same-Held r k e v = base-IsHeld r.node k.node e v

  advertisement_slot-base : (n : Node) (now : ℕ) → base (advertisement_slot n now).0 ≡ base n
  unfolding advertisement_slot
  advertisement_slot-base n now = epoch_and_offset-base n _ now

  loop-Held :
      (fuel : ℕ) (payload : ℕ → List ℕ) (data_seq : ℕ) (r : Run)
      → Held r
      → Held (loop w fuel payload data_seq r).1
  unfolding loop
  loop-Held fuel payload data_seq r v =
      let r1 = (wait_for w fuel advertisement_slot r).1 in
      let r2 = (do_advertise w fuel r1).1 in
      let slept =
        Same-Held r r1 (wait_for-Same advertisement_slot advertisement_slot-base fuel r) v in
      let joined = do_advertise-IsHeld w fuel r1 slept in
      branch-Ensures (λ x k. Held k) _ (pure data_seq) _ r v
        (branch-Ensures (λ x k. Held k) _ (pure data_seq) _ r1 slept
          (branch-Ensures (λ x k. Held k) _ (pure data_seq) (slots_phase w fuel payload data_seq) r2
            joined
            (Same-Held r2 (slots_phase w fuel payload data_seq r2).1
              (slots_phase-Same fuel payload data_seq r2) joined)))

  -- Let the arrays of a node have room for all slots of the superframe, let its parameters leave each window a slot
  -- and stay as they are, and if it acts as clusterhead, let its window lie within the superframe behind the
  -- advertisement slot, with distinct nodes in the slots that it has given out. After any number of superframes of
  -- the firmware, whatever the clocks, the random numbers, the payloads and the radio give and however long each
  -- wait lasts, all of this still holds.
  pub superframes-IsHeld :
      (count fuel : ℕ) (payload : ℕ → List ℕ) (data_seq : ℕ) (r : Run)
      → IsHeld r.node.state r.node.mac
      → IsHeld
          (superframes w count fuel payload data_seq r).1.node.state
          (superframes w count fuel payload data_seq r).1.node.mac
  unfolding superframes
  superframes-IsHeld zero fuel payload data_seq r v = v
  superframes-IsHeld (suc n) fuel payload data_seq r v =
      superframes-IsHeld n fuel payload _ _ (loop-Held fuel payload data_seq r v)
