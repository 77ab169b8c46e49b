-- ===== src/Multihop/Phases.antt =====
-- What the phases of the advertising slot in lib/net/src/multihop.cpp are made of: actions on the node
-- that read the clocks, rand() and the radio, and the two loops that the phases share.
pub mod Rules
pub mod Discovery
pub mod Announcement
pub mod Joining
pub mod Advertise
pub mod Samples
mod Tests
use lora_multihop.Prelude.{
  ℕ, zero, suc, ◌+◌, Bool, true, false, Option, none, some, List, u32, if◌then◌else◌,
}
use lora_multihop.Lora.{LoraRc}
use lora_multihop.Time.{MsDeadline, ms_deadline, millis_until, reached}
use lora_multihop.Link.{Link, LinkRc}
use lora_multihop.Link.Rx.{Reception, recv, getmsg}
use lora_multihop.Multihop.State.{MultihopState}
use lora_multihop.Multihop.Node.{Node, NodeRc}
use lora_multihop.Multihop.Node.Timing.{flush}

-- What lies outside of the node. Each value is that of the call with the given number, counted over all
-- calls: millis(), time::now(), rand(), lora::wait_recv with its timeout and the length of the buffer, and lora::send with the frame.
pub record World : Type 0 where
  pub millis : ℕ → ℕ
  pub now : ℕ → ℕ
  pub random : ℕ → ℕ
  pub hears : ℕ → ℕ → ℕ → Reception
  pub sends : ℕ → List ℕ → LoraRc

-- The node in the course of its phases: the number of the next call, and the last value that has been
-- given to time::set.
pub record Run : Type 0 where
  pub node : Node
  pub call : ℕ
  pub clock_set : Option ℕ

abbrev pub Act : Type 0 → Type 0
Act A = Run → A × Run

module _ {A : Type 0} where
  abbrev pub pure : A → Act A
  pure a r = (a, r)

  -- A part of the node that is read.
  abbrev pub gets : (MultihopState → A) → Act A
  gets f r = (f r.node.state, r)

  -- An operation of the node.
  abbrev pub on_node : (Node → Node × A) → Act A
  on_node f r = let (n, a) = f r.node in (a, record r { node = n })

-- A test in an action.
unfoldable pub branch : {A : Type 0} → Bool → Act A → Act A → Act A
branch true if_true if_false = if_true
branch false if_true if_false = if_false

infixl 5 ◌>>=◌ ◌>>◌
abbrev pub ◌>>=◌ : {A B : Type 0} → Act A → (A → Act B) → Act B
◌>>=◌ m f r = let (a, r') = m r in f a r'

abbrev pub ◌>>◌ : {A B : Type 0} → Act A → Act B → Act B
m >> k = m >>= λ _. k

abbrev pub on_state : (MultihopState → MultihopState) → Act (Unit {0})
on_state f r = (tt, record r { node = record (r.node) { state = f r.node.state } })

-- The number of the next call.
abbrev pub next_call : Act ℕ
next_call r = (r.call, record r { call = r.call + 1 })

-- `time::set`
abbrev pub set_clock : ℕ → Act (Unit {0})
set_clock t r = (tt, record r { clock_set = some t })

module _ (w : World) where
  abbrev pub read_millis : Act ℕ
  read_millis = do k ← next_call; pure (u32 (w.millis k))

  abbrev pub read_now : Act ℕ
  read_now = do k ← next_call; pure (u32 (w.now k))

  abbrev pub read_random : Act ℕ
  read_random = do k ← next_call; pure (w.random k)

  -- `MsDeadline(duration_ms)`
  abbrev pub deadline_in : ℕ → Act MsDeadline
  deadline_in duration_ms = do now ← read_millis; pure (ms_deadline now duration_ms)

  abbrev pub is_reached : MsDeadline → Act Bool
  is_reached d = do now ← read_millis; pure (reached d now)

  abbrev pub time_until : MsDeadline → Act ℕ
  time_until d = do now ← read_millis; pure (millis_until d now)

  -- `link::recv`
  unfoldable pub listen : ℕ → Act LinkRc
  listen timeout_ms = do
    now ← read_now
    k ← next_call
    on_node (λ n.
        let (link, rc) = recv n.link now (w.hears k timeout_ms) in (record n { link = link }, rc))

  -- `flush`
  unfoldable pub send_queue : Act NodeRc
  send_queue = do
    now ← read_now
    hdr_now ← read_now
    k ← next_call
    on_node (λ n. flush n now hdr_now (w.sends k))

-- `link::getmsg`
unfoldable pub next_message : Act (Option (List ℕ))
next_message = on_node (λ n. let (link, rc, out) = getmsg n.link in (record n { link = link }, out))

-- The rest of a loop over messages after a round, which says whether the loop goes on.
unfoldable pub after_message : {S : Type 0} → (S → Act S) → S × Bool → Act S
after_message rest (s, true) = rest s
after_message rest (s, false) = pure s

-- A round of such a loop, if there is a message.
unfoldable pub on_message :
    {S : Type 0} → (S → List ℕ → Act (S × Bool)) → (S → Act S) → S → Option (List ℕ) → Act S
on_message body rest s none = pure s
on_message body rest s (some buf) = body s buf >>= after_message rest

-- A loop over the messages of a frame, with the rounds left.
unfoldable pub message_loop : {S : Type 0} → (S → List ℕ → Act (S × Bool)) → ℕ → S → Act S
message_loop body zero s = pure s
message_loop body (suc k) s = next_message >>= on_message body (message_loop body k) s

-- `while (!phase_deadline.reached())`, with the rounds left; the Boolean says that the deadline has ended it.
unfoldable pub phase_loop : {S : Type 0} → World → MsDeadline → (S → Act S) → ℕ → S → Act (S × Bool)
phase_loop w phase body zero s = pure (s, false)
phase_loop w phase body (suc k) s = do
  over ← is_reached w phase
  elim over [ true ↦ pure (s, true) | false ↦ do s' ← body s; phase_loop w phase body k s' ]
