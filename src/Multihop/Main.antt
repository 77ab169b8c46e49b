-- ===== src/Multihop/Main.antt =====
-- The firmware of multihop/node/src/main.cpp: setup, and a superframe of loop. The node layer keeps a pointer to the
-- local parameters of setup: what the memory behind it holds once setup has returned is an argument of setup, and
-- it stays the same from then on.
pub mod Base
pub mod Hearing
pub mod Held
pub mod Setup
mod Tests
use lora_multihop.Prelude.{
  ℕ, zero, suc, ◌+◌, ◌-◌, ◌*◌, ◌==◌, Bool, true, false, not, ◌&&◌, ◌||◌, Option, none, some, List,
  [], ◌∷◌, length, replicate, ltb, leb, u8, u32, sub64, if◌then◌else◌,
}
use lora_multihop.Net.{NodeParams, MacParams, LinkParams, Address, unknown_addr, slot_duration}
use lora_multihop.Lora.{LoraRc}
use lora_multihop.Link.{Link}
use lora_multihop.Link.Tx.{mtu}
use lora_multihop.Multihop.Messages.{header_size}
use lora_multihop.Multihop.Datagram.{datagram_iterator}
use lora_multihop.Multihop.State.{MultihopState, initialized, acts_as_clusterhead, acts_as_follower}
use lora_multihop.Multihop.Node.{Node, NodeRc}
use lora_multihop.Multihop.Node.Slots.{init}
use lora_multihop.Multihop.Node.Timing.{epoch_and_offset, advertisement_slot, my_slot}
use lora_multihop.Multihop.Node.Data.{send_datagram}
use lora_multihop.Multihop.Node.Relay.{do_follower_send, do_clusterhead_recv, do_clusterhead_send}
use lora_multihop.Multihop.Node.Follower.{Round, do_follower_recv}
use lora_multihop.Multihop.Phases.{
  World, Act, branch, pure, gets, on_node, ◌>>=◌, ◌>>◌, next_call, read_now, read_random,
}
use lora_multihop.Multihop.Phases.Advertise.{do_advertise}

-- SUPERFRAME_SLOT_COUNT and the macros that it is made of, VTDMA_WINDOW, and MSG_BUF_SIZE.
abbrev pub vtdma_window : ℕ
vtdma_window = 7

abbrev pub superframe_slot_count : ℕ
superframe_slot_count = 22

abbrev pub msg_buf_size : ℕ
msg_buf_size = 255

abbrev pub firmware_mac : MacParams
firmware_mac = record {
  superframe_slot_s = 3;
  superframe_frequency_s = 71;
  superframe_slot_count = superframe_slot_count;
  guard_period_s = 0;
  reuse_distance = 3;
}

-- The link parameters, with the zeroed static buffers.
abbrev pub firmware_link : LinkParams
firmware_link = record {
  msg_max_bytes = 221;
  tx_buf = replicate msg_buf_size 0;
  tx_sz = msg_buf_size;
  rx_buf = replicate msg_buf_size 0;
  rx_sz = msg_buf_size;
}

-- A node that has kept the pointer finds there what the memory holds now.
abbrev pub returned : MacParams → Node × NodeRc → Node
returned left (n, NodeRc.ok) = record n { mac = left }
returned left (n, rc) = n

-- `setup` after the serial port is ready, for the node with this device id: the answer of lora::init, what the memory
-- of the local parameters holds once setup has returned, and the two reads of the clock.
unfoldable pub setup : Node → ℕ → LoraRc → MacParams → ℕ → ℕ → Node
setup n device_id LoraRc.okay left time_s now = returned left (
    init n (record { address = device_id; time_s = time_s }) firmware_mac firmware_link
      (replicate superframe_slot_count 0) (replicate superframe_slot_count 0) superframe_slot_count
      255 now)
setup n device_id _ left time_s now = n

-- The answers of epoch_and_offset after which the node goes on.
abbrev pub may_wait : NodeRc → Bool
may_wait NodeRc.ok = true
may_wait NodeRc.not_in_window = true
may_wait _ = false

-- The time that epoch_and_offset has written, if it has.
abbrev pub time_of : Option (ℕ × ℕ) → ℕ
time_of none = 0
time_of (some (time, offset)) = time

abbrev pub found_in : Node × NodeRc × Option (ℕ × ℕ) → Node × (Bool × ℕ)
found_in (n, rc, time) = (n, (may_wait rc, time_of time))

module _ (w : World) where
  -- `sleep_until`, with the turns left.
  unfoldable pub sleep : ℕ → ℕ → Act (Unit {0})
  sleep zero point = pure tt
  sleep (suc k) point = do now ← read_now w; branch (ltb now point) (sleep k point) (pure tt)

  -- A wait for a slot: whether the node may go on, after it has slept until the slot.
  unfoldable pub wait_for : ℕ → (Node → ℕ → Node × NodeRc × Option (ℕ × ℕ)) → Act Bool
  wait_for fuel slot = do
    now ← read_now w
    found ← on_node (λ n. found_in (slot n now))
    branch (not found.0) (pure false) do sleep fuel found.1; pure true

  -- `link::recv` waits for a slot.
  abbrev pub slot_duration_ms : Act ℕ
  slot_duration_ms r = (u32 (slot_duration r.node.mac * 1000), r)

  unfoldable pub clusterhead_recv : Act NodeRc
  clusterhead_recv = do
    slot_now ← read_now w
    timeout_ms ← slot_duration_ms
    now ← read_now w
    k ← next_call
    on_node (λ n. do_clusterhead_recv n slot_now now (w.hears k timeout_ms))

  -- The clock of the loop over the acks is read at the calls from the next one on.
  unfoldable pub clusterhead_send : Act NodeRc
  clusterhead_send = do
    slot_now ← read_now w
    random ← read_random w
    close_now ← read_now w
    now ← read_now w
    hdr_now ← read_now w
    k ← next_call
    on_node (λ n.
        do_clusterhead_send n slot_now (λ i. u32 (w.now (k + i))) random close_now now hdr_now
          (w.sends k))

  -- The slots behind the node's own, from this one on, with the slots left; a slot that is not to be waited for ends them.
  unfoldable pub listen_slots : ℕ → ℕ → ℕ → Act (Unit {0})
  listen_slots fuel zero slot = pure tt
  listen_slots fuel (suc left) slot = do
    start ← gets MultihopState.downstream_start_slot
    go ← wait_for fuel (λ n now. epoch_and_offset n (u8 (start + slot)) now)
    branch (not go) (pure tt) do clusterhead_recv; listen_slots fuel left (slot + 1)

  unfoldable pub clusterhead_phase : ℕ → Act (Unit {0})
  clusterhead_phase fuel = do
    listen_slots fuel (vtdma_window - 2) 1
    start ← gets MultihopState.downstream_start_slot
    go ← wait_for fuel (λ n now. epoch_and_offset n (u8 (start + vtdma_window - 1)) now)
    branch (not go) (pure tt) do clusterhead_send; pure tt

  -- The payload of the sequence number goes out, in the first fragment of its datagram.
  unfoldable pub follower_send : List ℕ → Act NodeRc
  follower_send payload = do
    msg_now ← read_now w
    on_node (λ n.
        let it =
          datagram_iterator payload (length payload) (sub64 (sub64 (mtu n.link) header_size) 4) in
        let (sent, it', rc) = send_datagram n it msg_now in (sent, rc))
    slot_now ← read_now w
    now ← read_now w
    hdr_now ← read_now w
    k ← next_call
    on_node (λ n. do_follower_send n slot_now now hdr_now (w.sends k))

  -- What so many rounds of do_follower_recv read from this call on.
  unfoldable pub rounds_from : ℕ → ℕ → ℕ → List Round
  rounds_from zero k timeout_ms = []
  rounds_from (suc left) k timeout_ms =
      record {
        recv_now = u32 (w.now k);
        radio = w.hears (k + 1) timeout_ms;
        slot_now = u32 (w.now (k + 2));
      }
      ∷ rounds_from left (k + 3) timeout_ms

  unfoldable pub follower_recv : ℕ → Act NodeRc
  follower_recv fuel = do
    slot_now ← read_now w
    timeout_ms ← slot_duration_ms
    k ← next_call
    on_node (λ n. do_follower_recv n slot_now (rounds_from fuel k timeout_ms))

  -- The slots of a node that has joined a cluster, and the next sequence number.
  unfoldable pub follower_phase : ℕ → (ℕ → List ℕ) → ℕ → Act ℕ
  follower_phase fuel payload data_seq = do
    mine ← wait_for fuel my_slot
    branch (not mine) (pure tt) do follower_send (payload data_seq); pure tt
    ack_slot ← gets MultihopState.upstream_ack_slot
    go ← wait_for fuel (λ n now. epoch_and_offset n ack_slot now)
    branch (not go) (pure tt) do follower_recv fuel; pure tt
    pure (if mine then u32 (data_seq + 1) else data_seq)

  -- A superframe after a successful advertising slot.
  unfoldable pub slots_phase : ℕ → (ℕ → List ℕ) → ℕ → Act ℕ
  slots_phase fuel payload data_seq = do
    heads ← gets acts_as_clusterhead
    branch (not heads) (pure tt) (clusterhead_phase fuel)
    follows ← gets (λ s. acts_as_follower s && not (s.clusterhead_addr == unknown_addr))
    branch (not follows) (pure data_seq) (follower_phase fuel payload data_seq)

  abbrev pub advertised : NodeRc → Bool
  advertised NodeRc.ok = true
  advertised _ = false

  -- `loop`: `payload` gives what snprintf writes for a sequence number, and `fuel` bounds each loop that waits. It
  -- gives the next sequence number.
  unfoldable pub loop : ℕ → (ℕ → List ℕ) → ℕ → Act ℕ
  loop fuel payload data_seq = do
    started ← gets initialized
    branch (not started) (pure data_seq) do
      go ← wait_for fuel advertisement_slot
      branch (not go) (pure data_seq) do
        rc ← do_advertise w fuel
        branch (not (advertised rc)) (pure data_seq) (slots_phase fuel payload data_seq)

  -- `main` after setup, for so many calls of loop.
  unfoldable pub superframes : ℕ → ℕ → (ℕ → List ℕ) → ℕ → Act ℕ
  superframes zero fuel payload data_seq = pure data_seq
  superframes (suc n) fuel payload data_seq = do
    next ← loop fuel payload data_seq
    superframes n fuel payload next
