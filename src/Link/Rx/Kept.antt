-- ===== src/Link/Rx/Kept.antt =====
-- Reading the clock, choosing a code and receiving, in lib/net/src/link_layer.cpp, leave the transmit queue as it is.
use lora_multihop.Prelude.{
  ℕ, zero, suc, ◌≡◌, sym, ap, ◌∙◌, Option-cases, inl, inr, List, length, arith,
}
use lora_multihop.Link.{Link, update_window}
use lora_multihop.Link.Slots.{active_slot, current_slot}
use lora_multihop.Link.Code.{set_cdma_code}
use lora_multihop.Link.Tx.Queue.{Queued}
use lora_multihop.Link.Rx.{
  Reception, recv, receive, accept_frame, rewind, truncate_rx, getmsg, getmsg_at, drain,
}

-- Two links with the same transmit queue, and the same sizes.
pub record SameTx (s t : Link) : Type 0 where
  pub initialized : t.initialized ≡ s.initialized
  pub tx_buf : t.params.tx_buf ≡ s.params.tx_buf
  pub tx_sz : t.params.tx_sz ≡ s.params.tx_sz
  pub rx_sz : t.params.rx_sz ≡ s.params.rx_sz
  pub msg_max_bytes : t.params.msg_max_bytes ≡ s.params.msg_max_bytes
  pub tx_msg_count : t.state.tx_msg_count ≡ s.state.tx_msg_count
  pub tx_bytes_queued : t.state.tx_bytes_queued ≡ s.state.tx_bytes_queued

pub SameTx-trans : {s t u : Link} → SameTx s t → SameTx t u → SameTx s u
SameTx-trans a b = record {
  initialized = b.initialized ∙ a.initialized;
  tx_buf = b.tx_buf ∙ a.tx_buf;
  tx_sz = b.tx_sz ∙ a.tx_sz;
  rx_sz = b.rx_sz ∙ a.rx_sz;
  msg_max_bytes = b.msg_max_bytes ∙ a.msg_max_bytes;
  tx_msg_count = b.tx_msg_count ∙ a.tx_msg_count;
  tx_bytes_queued = b.tx_bytes_queued ∙ a.tx_bytes_queued;
}

pub Queued-SameTx : {s t : Link} {msgs : List (List ℕ)} → SameTx s t → Queued s msgs → Queued t msgs
Queued-SameTx a q = record {
  header = q.header;
  rest = q.rest;
  header_length = q.header_length;
  layout = a.tx_buf ∙ q.layout;
  storage = ap length a.tx_buf ∙ q.storage ∙ sym a.tx_sz;
  limit = omega (arith, q.limit, a.tx_sz);
  count = a.tx_msg_count ∙ q.count;
  total = omega (arith, q.total, a.tx_msg_count, a.tx_bytes_queued);
}

pub update_window-SameTx : (s : Link) (now : ℕ) → SameTx s (update_window s now)
unfolding update_window
update_window-SameTx s now = ground arith

pub active_slot-SameTx : (s : Link) (now : ℕ) → SameTx s (active_slot s now).0
unfolding active_slot current_slot update_window
active_slot-SameTx s now = ground arith

pub set_cdma_code-SameTx : (s : Link) (id : ℕ) → SameTx s (set_cdma_code s id).0
unfolding set_cdma_code
set_cdma_code-SameTx s id = ground arith

receive-SameTx : (s : Link) (r : Reception) → SameTx s (receive s r).0
unfolding receive accept_frame rewind
receive-SameTx s r = ground arith

pub recv-SameTx : (s : Link) (now : ℕ) (radio : ℕ → Reception) → SameTx s (recv s now radio).0
unfolding recv update_window truncate_rx receive accept_frame rewind
recv-SameTx s now radio = ground arith

getmsg-SameTx : (s : Link) → SameTx s (getmsg s).0
unfolding getmsg getmsg_at
getmsg-SameTx s = ground arith

pub drain-SameTx : (fuel : ℕ) (s : Link) → SameTx s (drain fuel s).0
unfolding drain
drain-SameTx zero s = ground arith
drain-SameTx (suc fuel) s = elim (Option-cases (getmsg s).2) [
  | inl last ↦ rw (last, drain) (getmsg-SameTx s)
  | inr (m, more) ↦
      rw (more, drain) (SameTx-trans (getmsg-SameTx s) (drain-SameTx fuel (getmsg s).0))
]
