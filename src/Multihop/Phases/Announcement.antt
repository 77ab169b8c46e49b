-- ===== src/Multihop/Phases/Announcement.antt =====
-- run_clusterhead_announcement of lib/net/src/multihop.cpp: a round's election of clusterheads.
pub mod Kept
pub mod Ends
use lora_multihop.Prelude.{
  ℕ, ◌==◌, Bool, true, false, ◌&&◌, ◌||◌, not, Option, none, some, List, ltb, if◌then◌else◌,
}
use lora_multihop.Net.{Address}
use lora_multihop.Time.{MsDeadline}
use lora_multihop.Multihop.{Ring}
use lora_multihop.Multihop.Messages.{Header, Body, Message, RingList, decode_msg}
use lora_multihop.Multihop.Rings.{score}
use lora_multihop.Multihop.State.{MultihopState, Role}
use lora_multihop.Multihop.Node.{Node, NodeRc, rand_delay_ms, open_cluster}
use lora_multihop.Multihop.Node.Slots.{prepare_clusterhead}
use lora_multihop.Multihop.Node.Election.{
  Candidate, ClusterheadCandidates, announce_clusterhead, reset, update,
}
use lora_multihop.Multihop.Phases.{
  World, Act, pure, gets, branch, on_node, ◌>>=◌, ◌>>◌, read_now, read_random, deadline_in,
  is_reached, time_until, listen, send_queue, message_loop, phase_loop,
}

pub record Announcing : Type 0 where
  pub is_clusterhead : Bool
  pub need_to_announce : Bool
  pub candidates : ClusterheadCandidates

-- The sender, ring and score of a valid OpenCluster.
unfoldable pub opened_cluster : List ℕ → Option Candidate
opened_cluster buf = elim (decode_msg buf) [
  | none ↦ none
  | some msg ↦ elim msg.body [
    | Body.open_cluster ring node neighbors ↦
        some (record { address = msg.hdr.src; ring = ring; score = score neighbors ring })
    | _ ↦ none
  ]
]

-- A clusterhead of the same ring has announced itself: the address decides between it and the node.
unfoldable pub yield_to : MultihopState → Announcing → Candidate → Announcing
yield_to s a c =
    if a.is_clusterhead && c.ring == s.ring && (a.need_to_announce || ltb s.address c.address)
    then record a { is_clusterhead = false; need_to_announce = false }
    else a

unfoldable pub consider : MultihopState → Announcing → Option Candidate → Announcing
consider s a none = a
consider s a (some c) =
    if c.address == s.address
    then a
    else yield_to s (record a { candidates = update a.candidates c }) c

unfoldable pub hear_open_cluster : Announcing → List ℕ → Act (Announcing × Bool)
hear_open_cluster a buf = gets (λ s. (consider s a (opened_cluster buf), true))

-- A node that wins a round's election for the first time prepares its window.
unfoldable pub become_clusterhead : Node → Node
become_clusterhead n =
    let promoted = record (n.state) {
      role = elim n.state.role [ Role.gateway ↦ Role.gateway | _ ↦ Role.clusterhead ];
    } in
    record n { state = prepare_clusterhead promoted n.mac }

unfoldable pub become_if : Bool → Act (Unit {0})
become_if true = on_node (λ n. (become_clusterhead n, tt))
become_if false = pure tt

abbrev pub is_gateway : Role → Bool
is_gateway Role.gateway = true
is_gateway _ = false

unfoldable pub elected : MultihopState → Ring → ℕ → Bool
elected s eligible_ring random =
    s.ring == eligible_ring && (is_gateway s.role || announce_clusterhead s random)

module _ (w : World) where
  -- The node's own OpenCluster, when it is due; it stays due unless it is sent.
  unfoldable pub flush_result_of : NodeRc → Act NodeRc
  flush_result_of NodeRc.ok = send_queue w
  flush_result_of rc = pure rc

  abbrev pub failed : NodeRc → Bool
  failed NodeRc.ok = false
  failed _ = true

  unfoldable pub announce_cluster : MsDeadline → Announcing → Act Announcing
  announce_cluster announce a = do
    due ← is_reached w announce
    branch (not (a.need_to_announce && due)) (pure a) do
      now ← read_now w
      rc ← on_node (λ n. open_cluster n now)
      sent ← flush_result_of rc
      pure (record a { need_to_announce = failed sent })

  unfoldable pub announcement_timeout : MsDeadline → MsDeadline → Bool → Act ℕ
  announcement_timeout phase announce need = do
    due ← is_reached w announce
    branch (need && not due) (time_until w announce) (time_until w phase)

  unfoldable pub announcement_round : MsDeadline → MsDeadline → Announcing → Act Announcing
  announcement_round phase announce a = do
    timeout_ms ← announcement_timeout phase announce a.need_to_announce
    listen w timeout_ms
    announced ← announce_cluster announce a
    message_loop hear_open_cluster 256 announced

  -- `run_clusterhead_announcement`, with a bound on its rounds: what it has found, and whether the deadline
  -- has ended it.
  unfoldable pub run_clusterhead_announcement : ℕ → ℕ → Ring → Bool → Act (Announcing × Bool)
  run_clusterhead_announcement fuel duration_ms eligible_ring ch_earlier_round = do
    random ← read_random w
    won ← gets (λ s. elected s eligible_ring random)
    become_if (won && not ch_earlier_round)
    phase ← deadline_in w duration_ms
    delay_random ← read_random w
    announce ← deadline_in w (rand_delay_ms delay_random 0 duration_ms)
    phase_loop w phase (announcement_round phase announce) fuel (record {
      is_clusterhead = won;
      need_to_announce = won && not ch_earlier_round;
      candidates = reset;
    })
