-- ===== src/Multihop/Main/Hearing.antt =====
-- do_follower_recv of lib/net/src/multihop.cpp leaves what the slots of a node rest on as it is.
use lora_multihop.Prelude.{
  ℕ, zero, suc, ◌≡◌, ◌==◌, refl, ap, ◌∙◌, Bool, true, false, Option, none, some, List, [], ◌∷◌,
}
use lora_multihop.Net.{Address, unknown_addr}
use lora_multihop.Link.{LinkRc}
use lora_multihop.Link.Slots.{active_slot}
use lora_multihop.Link.Rx.{recv, getmsg}
use lora_multihop.Multihop.Messages.{Body, Message}
use lora_multihop.Multihop.State.{MultihopState, acts_as_clusterhead}
use lora_multihop.Multihop.Node.{Node, NodeRc}
use lora_multihop.Multihop.Node.Relay.{is_slot}
use lora_multihop.Multihop.Node.Follower.{
  Round, take_ack, take_nomination, hear_message, hear_loop, follower_rounds, do_follower_recv,
}
use lora_multihop.Multihop.Phases.Advertise.Slots.{fields}
use lora_multihop.Multihop.Main.Base.{base, either}

take_ack-fields :
    (s : MultihopState) (start end : ℕ) (buf : List ℕ)
    → fields (take_ack s start end buf) ≡ fields s
unfolding take_ack acts_as_clusterhead
take_ack-fields s start end buf = either (λ x. fields x ≡ fields s) _ _ _ refl refl

take_nomination-fields : (s : MultihopState) (a : Address) → fields (take_nomination s a) ≡ fields s
unfolding take_nomination acts_as_clusterhead
take_nomination-fields s a = either (λ x. fields x ≡ fields s) _ _ _ refl refl

hear_body-fields :
    (s : MultihopState) (waiting : Bool) (buf : List ℕ) (b : Body)
    → fields
        (elim b as (λ x. MultihopState × Bool) [
          | Body.send_acks start end ↦ (take_ack s start end buf, false)
          | Body.close_cluster nomination neighbors ↦ (take_nomination s nomination, false)
          | _ ↦ (s, waiting)
        ]).0
      ≡ fields s
hear_body-fields s waiting buf (Body.send_acks start end) = take_ack-fields s start end buf
hear_body-fields s waiting buf (Body.close_cluster nomination neighbors) =
    take_nomination-fields s nomination
hear_body-fields s waiting buf _ = refl

hear_message-fields :
    (s : MultihopState) (waiting : Bool) (buf : List ℕ) (msg : Option Message)
    → fields (hear_message s waiting buf msg).0 ≡ fields s
unfolding hear_message
hear_message-fields s waiting buf none = refl
hear_message-fields s waiting buf (some msg) = hear_body-fields s waiting buf msg.body

heard-base :
    (n : Node) (waiting : Bool) (out : Option (List ℕ)) (rest : List ℕ → Node × Bool)
    → ((buf : List ℕ) → base (rest buf).0 ≡ base n)
    → base (elim out as (λ x. Node × Bool) [ none ↦ (n, waiting) | some buf ↦ rest buf ]).0 ≡ base n
heard-base n waiting none rest p = refl
heard-base n waiting (some buf) rest p = p buf

hear_loop-base : (k : ℕ) (n : Node) (waiting : Bool) → base (hear_loop k n waiting).0 ≡ base n
unfolding hear_loop
hear_loop-base zero n waiting = refl
hear_loop-base (suc k) n waiting =
    heard-base (record n { link = (getmsg n.link).0 }) waiting (getmsg n.link).2 _
      (λ buf.
        hear_loop-base k _ _ ∙ ap (λ f. (f, n.mac)) (hear_message-fields n.state waiting buf _))

answered-base :
    (n heard : Node) (rc : LinkRc) (go : Node × NodeRc)
    → base go.0 ≡ base n
    → base heard ≡ base n
    → base
        (elim rc as (λ x. Node × NodeRc) [
          | LinkRc.ok ↦ go
          | LinkRc.timed_out ↦ (heard, NodeRc.no_data)
          | _ ↦ (heard, NodeRc.link_error)
        ]).0
      ≡ base n
answered-base n heard LinkRc.ok go p q = p
answered-base n heard LinkRc.timed_out go p q = q
answered-base n heard _ go p q = q

follower_rounds-base :
    (ch_slot : ℕ) (rs : List Round) (n : Node) → base (follower_rounds ch_slot rs n).0 ≡ base n
unfolding follower_rounds
follower_rounds-base ch_slot [] n = refl
follower_rounds-base ch_slot (r ∷ rs) n =
    let (link, rc) = recv n.link r.recv_now r.radio in
    let heard = record n { link = link } in
    let (read, waiting) = hear_loop 256 heard true in
    let loop = hear_loop-base 256 heard true in
    answered-base n heard rc _
      (either (λ (x : Node × NodeRc). base x.0 ≡ base n) waiting _ _
        (either (λ (x : Node × NodeRc). base x.0 ≡ base n)
          (is_slot (active_slot read.link r.slot_now).1 ch_slot) _ _
          (follower_rounds-base ch_slot rs _ ∙ loop) loop)
        loop)
      refl

pub do_follower_recv-base :
    (n : Node) (slot_now : ℕ) (rs : List Round) → base (do_follower_recv n slot_now rs).0 ≡ base n
unfolding do_follower_recv
do_follower_recv-base n slot_now rs =
    either (λ (x : Node × NodeRc). base x.0 ≡ base n) (unknown_addr == n.state.clusterhead_addr) _ _
      refl
      (either (λ (x : Node × NodeRc). base x.0 ≡ base n) _ _ _
        (follower_rounds-base n.state.upstream_ack_slot rs _) refl)
