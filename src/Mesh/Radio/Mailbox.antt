-- ===== src/Mesh/Radio/Mailbox.antt =====
-- The receive path of loramesh/node/src/LM_NexusModule.cpp as a box for one packet.
use lora_multihop.Prelude.{
  ℕ, zero, suc, ◌+◌, ◌≤◌, ◌<◌, ◌≡◌, refl, ap, ap₂, ◌∙◌, Option, none, some, List, [], ◌∷◌, ◌++◌,
  length, length-append, length-drop, take, drop, min, arith,
}
use lora_multihop.Mesh.Radio.{NexusModule, RadioRc, poll_round, receive}

-- The polling task reads a packet, or nothing; or the mesh library receives with a buffer of this length.
pub data Op : Type 0 where
  polls : List ℕ → Op
  receives : ℕ → Op

abbrev pub Reply : Type 0
Reply = RadioRc × List ℕ

-- The box: the packet that came last and has not been received.
abbrev pub Box : Type 0
Box = Option (List ℕ)

unfoldable pub arrive : Box → List ℕ → Box
arrive box [] = box
arrive box (b ∷ bytes) = some (b ∷ bytes)

unfoldable pub take_out : Box → ℕ → Reply
take_out none len = (RadioRc.failed, [])
take_out (some bytes) len = (RadioRc.err_none, take len bytes)

-- What the receives are answered in a run.
unfoldable pub box_run : Box → List Op → List Reply
box_run box [] = []
box_run box (Op.polls bytes ∷ ops) = box_run (arrive box bytes) ops
box_run box (Op.receives len ∷ ops) = take_out box len ∷ box_run none ops

take-min :
    (len : ℕ) (bytes rest : List ℕ) → take (min len (length bytes)) (bytes ++ rest) ≡ take len bytes
take-min zero bytes rest =
    let none_left : min 0 (length bytes) ≡ 0 = omega arith in
    ap (λ (k : ℕ). take k (bytes ++ rest)) none_left
take-min (suc len) [] rest =
    let none_left : min (suc len) 0 ≡ 0 = omega arith in ap (λ (k : ℕ). take k rest) none_left
take-min (suc len) (b ∷ bytes) rest =
    let one_more : min (suc len) (suc (length bytes)) ≡ suc (min len (length bytes)) =
      omega arith in
    ap (λ (k : ℕ). take k (b ∷ (bytes ++ rest))) one_more
    ∙ ap (λ (read : List ℕ). b ∷ read) (take-min len bytes rest)

-- A read gives at most 256 bytes, the size of its buffer.
abbrev pub AllFit : List Op → Type 0
AllFit [] = Unit {0}
AllFit (Op.polls bytes ∷ ops) = (length bytes ≤ 256) × AllFit ops
AllFit (Op.receives len ∷ ops) = AllFit ops

module _ {F : Type 0} where
  unfoldable pub run : NexusModule F → List Op → List Reply
  run s [] = []
  run s (Op.polls bytes ∷ ops) = run (poll_round s bytes).0 ops
  run s (Op.receives len ∷ ops) = let (s', rc, bytes) = receive s len in (rc, bytes) ∷ run s' ops

  -- The object holds what is in the box.
  abbrev pub Holds : NexusModule F → Box → Type 0
  Holds s none = (s.rx_len ≡ 0) × (length s.rx_buf ≡ 256)
  Holds s (some bytes) =
      (s.rx_len ≡ length bytes)
      × (0 < length bytes)
      × (length s.rx_buf ≡ 256)
      × ((rest : List ℕ) × (s.rx_buf ≡ bytes ++ rest))

  Holds-size : (s : NexusModule F) (box : Box) → Holds s box → length s.rx_buf ≡ 256
  Holds-size s none h = h.1
  Holds-size s (some bytes) h = h.2

  poll_round-Holds :
      (s : NexusModule F) (box : Box) (bytes : List ℕ)
      → length bytes ≤ 256
      → Holds s box
      → Holds (poll_round s bytes).0 (arrive box bytes)
  unfolding poll_round arrive
  poll_round-Holds s box [] fits h = h
  poll_round-Holds s box (b ∷ bytes) fits h =
      let size = Holds-size s box h in
      (
        refl,
        omega arith,
        omega (
          arith,
          size,
          length-append bytes (drop (0 + suc (length bytes)) s.rx_buf),
          length-drop (0 + suc (length bytes)) s.rx_buf,
        ),
        (drop (0 + suc (length bytes)) s.rx_buf, refl),
      )

  receive_none :
      (s : NexusModule F) (len : ℕ) → s.rx_len ≡ 0 → receive s len ≡ (s, RadioRc.failed, [])
  unfolding receive
  receive_none s len e = ground (arith, e)

  receive_some :
      (s : NexusModule F) (len : ℕ)
      → 0 < s.rx_len
      → receive s len
        ≡ (record s { rx_len = 0 }, RadioRc.err_none, take (min len s.rx_len) s.rx_buf)
  unfolding receive
  receive_some s len e = ground (arith, e)

  receive-Holds :
      (s : NexusModule F) (box : Box) (len : ℕ)
      → Holds s box
      → Holds (receive s len).0 none × (((receive s len).1, (receive s len).2) ≡ take_out box len)
  unfolding take_out
  receive-Holds s none len h = rw (receive_none s len h.0) (h, refl)
  receive-Holds s (some bytes) len h =
      let (rest, layout) = h.3 in
      rw (receive_some s len (omega (arith, h.0, h.1))) (
        (refl, h.2),
        ap (λ (read : List ℕ). (RadioRc.err_none, read))
            (ap₂ (λ (k : ℕ) (b : List ℕ). take (min len k) b) h.0 layout ∙ take-min len bytes rest),
      )

  -- For the mesh library the object is a box for one packet: in any run of polls and receives, a receive is answered with the packet that
  -- came last, cut to the length that is asked for, and once only; a packet that comes before the one there has been received
  -- takes its place.
  pub run-box_run :
      (s : NexusModule F) (box : Box) (ops : List Op)
      → AllFit ops
      → Holds s box
      → run s ops ≡ box_run box ops
  unfolding run box_run
  run-box_run s box [] fit h = refl
  run-box_run s box (Op.polls bytes ∷ ops) fit h =
      run-box_run (poll_round s bytes).0 (arrive box bytes) ops fit.1
        (poll_round-Holds s box bytes fit.0 h)
  run-box_run s box (Op.receives len ∷ ops) fit h =
      let (left, answer) = receive-Holds s box len h in
      ap₂ (λ (r : Reply) (rs : List Reply). r ∷ rs) answer
        (run-box_run (receive s len).0 none ops fit left)
