-- ===== src/Multihop/Phases/Rules/State.antt =====
-- Which actions of the phases leave STATE and MAC of lib/net/src/multihop.cpp as they are.
use lora_multihop.Prelude.{ℕ, ◌≡◌, refl, Bool, true, false, if◌then◌else◌, List, [], arith}
use lora_multihop.Net.{Address, MacParams}
use lora_multihop.Lora.{LoraRc}
use lora_multihop.Multihop.Messages.{Message}
use lora_multihop.Multihop.State.{MultihopState, initialized}
use lora_multihop.Multihop.Node.{Node, NodeRc, send, open_cluster, follow, send_heartbeat}
use lora_multihop.Multihop.Node.Timing.{flush}
use lora_multihop.Multihop.Phases.{World, Run, listen, send_queue}

-- STATE and MAC
abbrev pub Own : Type 0
Own = MultihopState × MacParams

abbrev pub own : Node → Own
own n = (n.state, n.mac)

flush-own :
    (n : Node) (now hdr_now : ℕ) (radio : List ℕ → LoraRc)
    → own (flush n now hdr_now radio).0 ≡ own n
unfolding flush
flush-own n now hdr_now radio = ground arith

pub listen-own :
    (w : World) (timeout_ms : ℕ) (r : Run) → own (listen w timeout_ms r).1.node ≡ own r.node
unfolding listen
listen-own w timeout_ms r = refl

pub send_queue-own : (w : World) (r : Run) → own (send_queue w r).1.node ≡ own r.node
unfolding send_queue
send_queue-own w r = flush-own _ _ _ _

send-own : (n : Node) (msg : Message) → own (send n msg []).0 ≡ own n
unfolding send
send-own n msg = refl

guarded-own :
    (b : Bool) (n : Node) (msg : Message)
    → own (if b then send n msg [] else (n, NodeRc.not_init)).0 ≡ own n
guarded-own true n msg = send-own n msg
guarded-own false n msg = refl

pub open_cluster-own : (n : Node) (now : ℕ) → own (open_cluster n now).0 ≡ own n
unfolding open_cluster
open_cluster-own n now = guarded-own (initialized n.state) n _

pub follow-own : (n : Node) (now : ℕ) (a : Address) → own (follow n now a).0 ≡ own n
unfolding follow
follow-own n now a = guarded-own (initialized n.state) n _

pub send_heartbeat-own : (n : Node) (now : ℕ) → own (send_heartbeat n now).0 ≡ own n
unfolding send_heartbeat
send_heartbeat-own n now = guarded-own (initialized n.state) n _
