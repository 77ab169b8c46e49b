-- ===== src/Multihop/Phases/Rules.antt =====
-- What the actions and loops of the phases keep: predicates on a run that later calls do not break.
pub mod State
pub mod Ends
use lora_multihop.Prelude.{
  ℕ, zero, suc, ◌+◌, ◌-◌, ◌≤◌, ◌<◌, ◌≡◌, ◌⊎◌, inl, inr, refl, Bool, true, false, Bool-cases, Option,
  Option-cases, none, some, List, u32, arith,
}
use lora_multihop.Time.{MsDeadline, reached}
use lora_multihop.Multihop.Phases.{
  World, Run, Act, branch, is_reached, next_message, after_message, on_message, message_loop,
  phase_loop,
}

abbrev pub Ensures : {A : Type 0} → (Run → Type 0) → Act A → (A → Run → Type 0) → Type 0
Ensures P m Q = (r : Run) → P r → Q (m r).0 (m r).1

abbrev pub Keeps : {A : Type 0} → (Run → Type 0) → Act A → Type 0
Keeps P m = (r : Run) → P r → P (m r).1

-- Both branches of a test give what the test as a whole gives.
pub branch-Ensures :
    {A : Type 0} (Q : A → Run → Type 0) (b : Bool) (if_true if_false : Act A) (r : Run)
    → Q (if_true r).0 (if_true r).1
    → Q (if_false r).0 (if_false r).1
    → Q (branch b if_true if_false r).0 (branch b if_true if_false r).1
unfolding branch
branch-Ensures Q true if_true if_false r p q = p
branch-Ensures Q false if_true if_false r p q = q

-- A round of a message loop, and so the loop, keeps what next_message keeps.
module _ {S : Type 0} (P : S → Run → Type 0) (body : S → List ℕ → Act (S × Bool))
    (reads : (s : S) → Keeps (P s) next_message)
    (round : (s : S) (buf : List ℕ) (r : Run) → P s r → P (body s buf r).0.0 (body s buf r).1) where
  after_message-keeps :
      (rest : S → Act S) (x : S × Bool) (r : Run)
      → ((s : S) (r : Run) → P s r → P (rest s r).0 (rest s r).1)
      → P x.0 r
      → P (after_message rest x r).0 (after_message rest x r).1
  unfolding after_message
  after_message-keeps rest (s, true) r keep p = keep s r p
  after_message-keeps rest (s, false) r keep p = p

  on_message-keeps :
      (rest : S → Act S) (s : S) (out : Option (List ℕ)) (r : Run)
      → ((s : S) (r : Run) → P s r → P (rest s r).0 (rest s r).1)
      → P s r
      → P (on_message body rest s out r).0 (on_message body rest s out r).1
  unfolding on_message
  on_message-keeps rest s none r keep p = p
  on_message-keeps rest s (some buf) r keep p =
      after_message-keeps rest (body s buf r).0 (body s buf r).1 keep (round s buf r p)

  pub message_loop-keeps :
      (k : ℕ) (s : S) (r : Run) → P s r → P (message_loop body k s r).0 (message_loop body k s r).1
  unfolding message_loop
  message_loop-keeps zero s r p = p
  message_loop-keeps (suc k) s r p =
      on_message-keeps (message_loop body k) s (next_message r).0 (next_message r).1
        (message_loop-keeps k) (reads s r p)

module _ {S : Type 0} (w : World) (d : MsDeadline) (P : S → Run → Type 0) (body : S → Act S)
    (asks : (s : S) → Keeps (P s) (is_reached w d))
    (round : (s : S) (r : Run) → P s r → P (body s r).0 (body s r).1) where
  pub phase_loop-keeps :
      (k : ℕ) (s : S) (r : Run)
      → P s r
      → P (phase_loop w d body k s r).0.0 (phase_loop w d body k s r).1
  unfolding phase_loop
  phase_loop-keeps zero s r p = p
  phase_loop-keeps (suc k) s r p = ground (
    arith,
    asks s r p,
    round s (is_reached w d r).1 (asks s r p),
    phase_loop-keeps k (body s (is_reached w d r).1).0 (body s (is_reached w d r).1).1,
  )
