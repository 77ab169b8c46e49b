-- ===== src/Link/Tx/Flush.antt =====
-- Flushing the transmit queue of lib/net/src/link_layer.cpp: what goes to the radio is a frame with the
-- queued messages.
use lora_multihop.Prelude.{
  ℕ, ◌+◌, ◌≡◌, refl, ap, ap₂, sym, ◌∙◌, Bool, true, List, [], ◌++◌, Option, some, length, take,
  take-append, arith,
}
use lora_multihop.Net.{LinkParams, LinkState}
use lora_multihop.Lora.{LoraRc}
use lora_multihop.Link.{Link, LinkRc, frame_header_size, update_window, in_active_window}
use lora_multihop.Link.Tx.{fill_frame_header, transmit, truncate_tx, flush}
use lora_multihop.Link.Tx.Queue.{Queued}
use lora_multihop.Link.Tx.Filled.{IsFrame, frame_of, frame_of-IsFrame, filled, emptied}

-- The frame that the buffer starts with goes out, and the queue is emptied.
transmit-okay :
    (s : Link) (f rest : List ℕ) (radio : List ℕ → LoraRc)
    → frame_header_size + s.state.tx_msg_count + s.state.tx_bytes_queued ≡ length f
    → s.params.tx_buf ≡ f ++ rest
    → radio f ≡ LoraRc.okay
    → transmit s radio ≡ (truncate_tx s, LinkRc.ok, some f)
unfolding transmit
transmit-okay s f rest radio sized starts sent =
    let cut : take (frame_header_size + s.state.tx_msg_count + s.state.tx_bytes_queued)
          s.params.tx_buf
        ≡ f =
      ap₂ (λ (n : ℕ) (b : List ℕ). take n b) sized starts ∙ take-append f rest in
    ground (arith, cut, sent)

-- The clock and the configuration do not matter to the queue.
Queued-same :
    (s t : Link) {msgs : List (List ℕ)}
    → t.params ≡ s.params
    → t.state ≡ s.state
    → Queued s msgs
    → Queued t msgs
Queued-same s t p e q = record {
  header = q.header;
  rest = q.rest;
  header_length = q.header_length;
  layout = ap (λ (k : LinkParams). k.tx_buf) p ∙ q.layout;
  storage =
      ap (λ (k : LinkParams). length k.tx_buf) p
      ∙ q.storage
      ∙ sym (ap (λ (k : LinkParams). k.tx_sz) p);
  limit = omega (arith, q.limit, ap (λ (k : LinkParams). k.tx_sz) p);
  count = ap (λ (k : LinkState). k.tx_msg_count) e ∙ q.count;
  total = ap (λ (k : LinkState). k.tx_msg_count + k.tx_bytes_queued) e ∙ q.total;
}

-- The queue as it stands once the clock has been read.
Queued-update_window :
    {s : Link} {msgs : List (List ℕ)} (now : ℕ) → Queued s msgs → Queued (update_window s now) msgs
unfolding update_window
Queued-update_window {s} now q = Queued-same s (update_window s now) (ground arith) (ground arith) q

-- What flush returns where the radio takes the frame: `ok`, a frame with the queued messages in order,
-- and an empty queue.
pub record Flushed (msgs : List (List ℕ)) (r : Link × LinkRc × Option (List ℕ)) : Type 0 where
  pub frame : List ℕ
  pub returned : r.1 ≡ LinkRc.ok
  pub handed : r.2 ≡ some frame
  pub holds : IsFrame frame msgs
  pub empty : Queued r.0 []

flush-transmit :
    (s : Link) (now hdr_now : ℕ) (radio : List ℕ → LoraRc)
    → s.initialized ≡ true
    → in_active_window (update_window s now) now ≡ true
    → (fill_frame_header (update_window s now) hdr_now).1 ≡ true
    → flush s now hdr_now radio ≡ transmit (fill_frame_header (update_window s now) hdr_now).0 radio
unfolding flush
flush-transmit s now hdr_now radio started active done = simp (started, active, done)

-- In the window of a node that has been started, where the radio takes each frame, flush returns `ok`
-- and hands over a frame with the queued messages in their order, and the queue is empty after it.
pub flush-Flushed :
    {s : Link} {msgs : List (List ℕ)} (now hdr_now : ℕ) (radio : List ℕ → LoraRc)
    → Queued s msgs
    → s.initialized ≡ true
    → in_active_window (update_window s now) now ≡ true
    → ((f : List ℕ) → radio f ≡ LoraRc.okay)
    → Flushed msgs (flush s now hdr_now radio)
flush-Flushed {s} {msgs} now hdr_now radio q started active sends =
    let u = update_window s now in
    let qu = Queued-update_window now q in
    let frame = frame_of u msgs hdr_now in
    let full = filled qu hdr_now in
    let sized : frame_header_size + u.state.tx_msg_count + u.state.tx_bytes_queued ≡ length frame =
      omega (arith, qu.total) in
    let out =
      flush-transmit s now hdr_now radio started active (ap (λ (r : Link × Bool). r.1) full)
      ∙ ap (λ (r : Link × Bool). transmit r.0 radio) full
      ∙ transmit-okay _ frame qu.rest radio sized refl (sends frame) in
    rw out (record {
      frame = frame;
      returned = refl;
      handed = refl;
      holds = frame_of-IsFrame qu hdr_now;
      empty = rw full at (emptied qu hdr_now);
    })
