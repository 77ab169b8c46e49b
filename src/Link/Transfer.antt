-- ===== src/Link/Transfer.antt =====
-- From one node's transmit queue to another node's receive loop, over lib/net/src/link_layer.cpp.
use lora_multihop.Prelude.{
  ℕ, ◌≤◌, ◌<◌, ◌≡◌, sym, subst, ◌∙◌, true, List, [], ◌∷◌, some, length, u8, arith,
}
use lora_multihop.Lora.{LoraRc}
use lora_multihop.Link.{Link, LinkRc, update_window, in_active_window}
use lora_multihop.Link.Payload.{encode_messages}
use lora_multihop.Link.Tx.{flush}
use lora_multihop.Link.Tx.Queue.{Queued}
use lora_multihop.Link.Tx.Filled.{IsFrame}
use lora_multihop.Link.Tx.Flush.{flush-Flushed}
use lora_multihop.Link.Rx.{Reception, recv, drain}
use lora_multihop.Link.Rx.Read.{drain-Unread}
use lora_multihop.Link.Rx.Accept.{length_frame, recv-Unread}

pub some_bytes : (msgs : List (List ℕ)) → 0 < length msgs → 0 < length (encode_messages msgs)
some_bytes [] h = h
some_bytes (m ∷ ms) h = omega arith

pub frame_unique : {f g : List ℕ} → some f ≡ some g → f ≡ g
frame_unique e = cc

-- A sender and a receiver, both started and in their windows, a radio that takes each frame, and a
-- receiver's radio that hears the frame that the sender's flush hands over.
pub record Exchange (s r : Link) (now hdr_now later : ℕ) (send : List ℕ → LoraRc)
    (hear : ℕ → Reception) (f : List ℕ) : Type 0 where
  pub sender_started : s.initialized ≡ true
  pub sender_active : in_active_window (update_window s now) now ≡ true
  pub sends : (g : List ℕ) → send g ≡ LoraRc.okay
  pub receiver_started : r.initialized ≡ true
  pub receiver_active : in_active_window (update_window r later) later ≡ true
  pub receiver_room : 255 ≤ r.params.rx_sz
  pub handed : (flush s now hdr_now send).2 ≡ some f
  pub heard :
      hear (u8 (update_window r later).params.rx_sz) ≡ record { rc = LoraRc.okay; bytes = f }

-- Where the receiver's radio hears the frame that the sender's flush hands over, all queued messages,
-- at least one, arrive: the receiver's recv returns `ok`, and its loop, with fuel for one read more than
-- there are messages, reads exactly them in the order in which they were queued and ends with `no_msg`.
pub flush-recv-drain :
    {s r : Link} {msgs : List (List ℕ)} (now hdr_now later fuel : ℕ) (send : List ℕ → LoraRc)
    (hear : ℕ → Reception) (f : List ℕ)
    → Queued s msgs
    → 0 < length msgs
    → length msgs < fuel
    → Exchange s r now hdr_now later send hear f
    → ((recv r later hear).1 ≡ LinkRc.ok)
      × ((drain fuel (recv r later hear).0).2 ≡ msgs)
      × ((drain fuel (recv r later hear).0).1 ≡ LinkRc.no_msg)
flush-recv-drain {s} {r} {msgs} now hdr_now later fuel send hear f q some_message enough x =
    let out = flush-Flushed now hdr_now send q x.sender_started x.sender_active x.sends in
    let same : out.frame ≡ f = frame_unique (sym out.handed ∙ x.handed) in
    let i : IsFrame f msgs = subst (λ (g : List ℕ). IsFrame g msgs) same out.holds in
    let (accepted, unread) =
      recv-Unread r later hear i (some_bytes msgs some_message)
        (omega (arith, length_frame i [], i.payload, x.receiver_room)) x.receiver_started
        x.receiver_active x.heard in
    let (all, last) = drain-Unread fuel msgs unread enough in (accepted, all, last)
