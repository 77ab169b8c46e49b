-- ===== src/Multihop/Phases/Advertise/Slots.antt =====
-- The slots that a clusterhead has given out by the end of the advertising slot: do_advertise of
-- lib/net/src/multihop.cpp.
use lora_multihop.Prelude.{
  ℕ, ◌+◌, ◌≤◌, ◌≡◌, refl, sym, ap, subst, ◌∙◌, Bool, true, List, length, length-set, length-append,
  length-replicate, drop, replicate, u8, sub64, arith,
}
use lora_multihop.Net.{Address, MacParams}
use lora_multihop.Multihop.State.{
  MultihopState, drift, update_ring_from_neighbors, acts_as_clusterhead,
}
use lora_multihop.Multihop.Node.{Node, send, vtdma_window_size}
use lora_multihop.Multihop.Node.Slots.{accept, clear, prepare_clusterhead}
use lora_multihop.Multihop.Node.Slots.Unique.{
  IsAssigned, accept-IsAssigned, accept-Leaves, same, more,
}
use lora_multihop.Multihop.Node.Slots.Windows.{
  IsMac, prepare_clusterhead-window, prepare_clusterhead-IsAssigned,
}
use lora_multihop.Multihop.Phases.Announcement.{become_clusterhead}
use lora_multihop.Multihop.Phases.Joining.{Joining, attach}

-- What a clusterhead has promised: a window of slots within the superframe, behind the advertisement slot, and
-- distinct slots in it for the nodes that it has accepted.
pub record IsWindow (s : MultihopState) (mac : MacParams) : Type 0 where
  pub assigned : IsAssigned s mac
  pub behind : 1 ≤ s.downstream_start_slot
  pub within : s.downstream_start_slot + vtdma_window_size mac ≤ mac.superframe_slot_count

-- The parameters and the arrays are large enough, and a node that acts as clusterhead has such a window.
pub record IsHeld (s : MultihopState) (mac : MacParams) : Type 0 where
  pub params : IsMac mac
  pub some_slot : 1 ≤ vtdma_window_size mac
  pub fits : mac.superframe_slot_count ≤ s.slot_count
  pub room : s.slot_count ≤ length s.slot_assignments
  pub promised : acts_as_clusterhead s ≡ true → IsWindow s mac

-- The fields that it is about.
abbrev pub Fields : Type 0
Fields = Bool × List Address × ℕ × ℕ × ℕ

abbrev pub fields : MultihopState → Fields
fields s = (
  acts_as_clusterhead s,
  s.slot_assignments,
  s.slot_count,
  s.slots_assigned,
  s.downstream_start_slot,
)

pub IsWindow-same :
    (s t : MultihopState) (mac : MacParams) → fields t ≡ fields s → IsWindow s mac → IsWindow t mac
IsWindow-same s t mac e v =
    let list = ap (λ (k : Fields). k.1) e in
    let used = ap (λ (k : Fields). k.3) e in
    let first = ap (λ (k : Fields). k.4) e in
    record {
      assigned = record {
        some_slot = omega (arith, used, v.assigned.some_slot);
        window = omega (arith, used, v.assigned.window);
        room = subst (λ k. vtdma_window_size mac ≤ length k) (sym list) v.assigned.room;
        distinct = λ i j l u. ground (arith, list, used, v.assigned.distinct i j l);
      };
      behind = omega (arith, first, v.behind);
      within = omega (arith, first, v.within);
    }

pub IsHeld-same :
    (s t : MultihopState) (mac : MacParams) → fields t ≡ fields s → IsHeld s mac → IsHeld t mac
IsHeld-same s t mac e v =
    let list = ap (λ (k : Fields). k.1) e in
    let count = ap (λ (k : Fields). k.2) e in
    record {
      params = v.params;
      some_slot = v.some_slot;
      fits = omega (arith, count, v.fits);
      room = ground (arith, count, list, v.room);
      promised =
          λ acts. IsWindow-same s t mac e (v.promised (sym (ap (λ (k : Fields). k.0) e) ∙ acts));
    }

pub update_ring_from_neighbors-fields :
    (s : MultihopState) → fields (update_ring_from_neighbors s) ≡ fields s
unfolding update_ring_from_neighbors drift acts_as_clusterhead
update_ring_from_neighbors-fields s = ground arith

pub attach-fields :
    (n : Node) (j : Joining) (start relative : ℕ)
    → fields (attach n j start relative).state ≡ fields n.state
unfolding attach acts_as_clusterhead
attach-fields n j start relative = refl

accept-mac : (n : Node) (body_now now : ℕ) (a : Address) → (accept n body_now now a).0.mac ≡ n.mac
unfolding accept send
accept-mac n body_now now a = ground arith

prepare_clusterhead-room :
    (s : MultihopState) (mac : MacParams)
    → s.slot_count ≤ length s.slot_assignments
    → s.slot_count ≤ length (prepare_clusterhead s mac).slot_assignments
unfolding prepare_clusterhead
prepare_clusterhead-room s mac room = omega (
  arith,
  length-set (clear s.slot_count s.slot_assignments) (u8 (sub64 s.slot_count 1)) s.address,
  length-append {A = ℕ} (replicate s.slot_count 0) (drop s.slot_count s.slot_assignments),
  length-replicate {A = ℕ} s.slot_count 0,
)

prepare_clusterhead-slot_count :
    (s : MultihopState) (mac : MacParams) → (prepare_clusterhead s mac).slot_count ≡ s.slot_count
unfolding prepare_clusterhead
prepare_clusterhead-slot_count s mac = refl

-- Whatever its role was, a node that prepares its window has one.
pub prepare_clusterhead-IsHeld :
    (s t : MultihopState) (mac : MacParams)
    → t.slot_count ≡ s.slot_count
    → t.slot_assignments ≡ s.slot_assignments
    → IsHeld s mac
    → IsHeld (prepare_clusterhead t mac) mac
prepare_clusterhead-IsHeld s t mac count list v =
    let fits : mac.superframe_slot_count ≤ t.slot_count = omega (arith, count, v.fits) in
    let room : t.slot_count ≤ length t.slot_assignments = ground (arith, count, list, v.room) in
    record {
      params = v.params;
      some_slot = v.some_slot;
      fits = omega (arith, prepare_clusterhead-slot_count t mac);
      room =
          omega (arith, prepare_clusterhead-slot_count t mac, prepare_clusterhead-room t mac room);
      promised = λ acts. record {
        assigned = prepare_clusterhead-IsAssigned mac v.params t v.some_slot fits room;
        behind = (prepare_clusterhead-window mac v.params t).0;
        within = (prepare_clusterhead-window mac v.params t).1;
      };
    }

pub become_clusterhead-IsHeld :
    (n : Node)
    → IsHeld n.state n.mac
    → IsHeld (become_clusterhead n).state (become_clusterhead n).mac
unfolding become_clusterhead
become_clusterhead-IsHeld n v = prepare_clusterhead-IsHeld n.state _ n.mac refl refl v

pub accept-IsHeld :
    (n : Node) (body_now now : ℕ) (a : Address)
    → IsHeld n.state n.mac
    → IsHeld (accept n body_now now a).0.state (accept n body_now now a).0.mac
unfolding acts_as_clusterhead
accept-IsHeld n body_now now a v =
    subst (IsHeld (accept n body_now now a).0.state) (sym (accept-mac n body_now now a))
      (elim (accept-Leaves n body_now now a) [
        | same e ↦ subst (λ k. IsHeld k n.mac) (sym e) v
        | more e free unknown ↦ record {
          params = v.params;
          some_slot = v.some_slot;
          fits = ground (arith, ap MultihopState.slot_count e, v.fits);
          room = ground (
            arith,
            ap MultihopState.slot_count e,
            ap MultihopState.slot_assignments e,
            v.room,
            length-set n.state.slot_assignments n.state.slots_assigned a,
          );
          promised = λ acts.
              let w = v.promised (sym (ap acts_as_clusterhead e) ∙ acts) in
              record {
                assigned = accept-IsAssigned n body_now now a w.assigned;
                behind = omega (arith, ap MultihopState.downstream_start_slot e, w.behind);
                within = omega (arith, ap MultihopState.downstream_start_slot e, w.within);
              };
        }
      ])
