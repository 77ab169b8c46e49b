-- ===== src/Multihop/Node/Slots/Windows.antt =====
-- Where the windows of the clusterheads lie in the superframe, by prepare_clusterhead of
-- lib/net/src/multihop.cpp.
use native.Mathlib.Nat.{mul-le-mul_right, div-mul-le_self, div-le_self, mod-lt, add-mul, mul_comm}
use lora_multihop.Prelude.{
  ℕ, ◌+◌, ◌-◌, ◌*◌, ◌/◌, ◌%◌, ◌≤◌, ◌<◌, ◌≡◌, ap, length, length-append, length-replicate,
  length-set, u8, sub64, drop, replicate, arith,
}
use lora_multihop.Net.{MacParams}
use lora_multihop.Multihop.State.{MultihopState}
use lora_multihop.Multihop.Node.{vtdma_window_size}
use lora_multihop.Multihop.Node.Slots.{prepare_clusterhead, clear}
use lora_multihop.Multihop.Node.Slots.Unique.{IsAssigned}

-- The parameters that fit their fields, with a window for each ring.
pub record IsMac (mac : MacParams) : Type 0 where
  pub count_byte : mac.superframe_slot_count < 256
  pub count_pos : 1 ≤ mac.superframe_slot_count
  pub reuse_pos : 1 ≤ mac.reuse_distance
  pub reuse_byte : mac.reuse_distance < 256

module _ (mac : MacParams) (v : IsMac mac) where
  window_exact : vtdma_window_size mac ≡ (mac.superframe_slot_count - 1) / mac.reuse_distance
  unfolding vtdma_window_size
  window_exact =
      omega (arith, div-le_self (mac.superframe_slot_count - 1) mac.reuse_distance, v.count_byte)

  -- As many windows as the reuse distance allows lie beside the advertisement slot.
  windows_fit : vtdma_window_size mac * mac.reuse_distance ≤ mac.superframe_slot_count - 1
  windows_fit = omega (
    arith,
    ap (λ k. k * mac.reuse_distance) window_exact,
    div-mul-le_self (mac.superframe_slot_count - 1) mac.reuse_distance,
  )

  -- The place of a ring's window, counted from the end of the superframe.
  abbrev place : ℕ → ℕ
  place ring = mac.reuse_distance - 1 - ring % mac.reuse_distance

  place_fits : (ring : ℕ) → (place ring + 1) * vtdma_window_size mac ≤ mac.superframe_slot_count - 1
  place_fits ring =
      let w = vtdma_window_size mac in
      omega (
        arith,
        mul-le-mul_right {m = place ring + 1} {n = mac.reuse_distance} w
            (omega (arith, v.reuse_pos)),
        mul_comm w mac.reuse_distance,
        windows_fit,
      )

  -- The first slot of the window that prepare_clusterhead sets.
  start_exact :
      (s : MultihopState)
      → (prepare_clusterhead s mac).downstream_start_slot ≡ 1 + place s.ring * vtdma_window_size mac
  unfolding prepare_clusterhead
  start_exact s =
      let w = vtdma_window_size mac in
      let small : u8 (place s.ring) ≡ place s.ring = omega (arith, v.reuse_byte) in
      rw small (omega (arith, add-mul (place s.ring) 1 w, place_fits s.ring, v.count_byte))

  -- With a slot count and a reuse distance of at least 1, the window of a clusterhead lies behind the advertisement
  -- slot and within the superframe.
  pub prepare_clusterhead-window :
      (s : MultihopState)
      → let start = (prepare_clusterhead s mac).downstream_start_slot in
        (1 ≤ start) × (start + vtdma_window_size mac ≤ mac.superframe_slot_count)
  prepare_clusterhead-window s = omega (
    arith,
    start_exact s,
    add-mul (place s.ring) 1 (vtdma_window_size mac),
    place_fits s.ring,
    v.count_pos,
  )

  -- With a slot count and a reuse distance of at least 1, of two clusterheads the one whose ring has the larger
  -- remainder by the reuse distance has its whole window before the other's.
  pub prepare_clusterhead-apart :
      (s r : MultihopState)
      → s.ring % mac.reuse_distance < r.ring % mac.reuse_distance
      → (prepare_clusterhead r mac).downstream_start_slot + vtdma_window_size mac
        ≤ (prepare_clusterhead s mac).downstream_start_slot
  prepare_clusterhead-apart s r h =
      let w = vtdma_window_size mac in
      omega (
        arith,
        start_exact s,
        start_exact r,
        add-mul (place r.ring) 1 w,
        mul-le-mul_right {m = place r.ring + 1} {n = place s.ring} w
            (omega (arith, mod-lt r.ring v.reuse_pos, mod-lt s.ring v.reuse_pos)),
      )

  -- A clusterhead that prepares a window of at least one slot, with arrays for the slots of the superframe,
  -- starts with well-formed slots.
  pub prepare_clusterhead-IsAssigned :
      (s : MultihopState)
      → 1 ≤ vtdma_window_size mac
      → mac.superframe_slot_count ≤ s.slot_count
      → s.slot_count ≤ length s.slot_assignments
      → IsAssigned (prepare_clusterhead s mac) mac
  unfolding prepare_clusterhead
  prepare_clusterhead-IsAssigned s some fits room =
      let w = vtdma_window_size mac in
      let cleared = clear s.slot_count s.slot_assignments in
      record {
        some_slot = omega arith;
        window = some;
        room = omega (
          arith,
          window_exact,
          div-le_self (mac.superframe_slot_count - 1) mac.reuse_distance,
          length-set cleared (u8 (sub64 s.slot_count 1)) s.address,
          length-append {A = ℕ} (replicate s.slot_count 0) (drop s.slot_count s.slot_assignments),
          length-replicate {A = ℕ} s.slot_count 0,
        );
        distinct = λ i j l u. absurd (omega arith);
      }
