-- ===== src/Mesh/App.antt =====
-- loramesh/node/src/main.cpp: what a node of the mesh does on top of the mesh library, whose answers are arguments. F is the type of
-- the floating-point parameters.
use lora_multihop.Prelude.{
  ℕ, zero, suc, ◌+◌, ◌*◌, ◌/◌, ◌==◌, Bool, true, false, Option, none, some, List, [], ◌∷◌, ◌++◌,
  u16, u32, if◌then◌else◌,
}
use lora_multihop.Prelude.Decimal.{codes}
use lora_multihop.Mesh.Shims.{Shims, set_node_address, set_nexus_root}
use lora_multihop.Mesh.Radio.{NexusModule, from_fds}

pub record DataPayload : Type 0 where
  pub counter : ℕ
  pub src_addr : ℕ

-- The inner loop of `appRecvTask`: in each round the length of the queue, and the packet that the library gives, if it gives one.
-- The result are the payloads that are shown.
unfoldable pub app_recv_task : List (ℕ × Option DataPayload) → List DataPayload
app_recv_task [] = []
app_recv_task ((size, none) ∷ later) =
    let rest = app_recv_task later in if size == 0 then [] else rest
app_recv_task ((size, some payload) ∷ later) =
    let rest = app_recv_task later in if size == 0 then [] else payload ∷ rest

-- The time in ticks that `dataSendTask` waits first, with the milliseconds of a tick.
unfoldable pub stagger : ℕ → ℕ → ℕ
stagger tick_ms node_addr = (1000 + node_addr * 500) / tick_ms

-- So many rounds of the loop of `dataSendTask`: what is handed to the library.
unfoldable pub data_send_task : ℕ → ℕ → ℕ → List DataPayload
data_send_task zero node_addr counter = []
data_send_task (suc rounds) node_addr counter =
    record { counter = counter; src_addr = node_addr }
    ∷ data_send_task rounds node_addr (u32 (counter + 1))

-- What `main` has put into the variables of the file before the tasks start.
pub record Boot : Type 0 where
  pub node_addr : ℕ
  pub nexus_root : List ℕ
  pub channel_rd_fd : Option ℕ
  pub channel_wr_fd : Option ℕ
  pub shims : Shims

-- The root of the simulator's files, by the second argument and getenv("HOME").
unfoldable pub root_of_args : Option (List ℕ) → Option (List ℕ) → List ℕ
root_of_args (some root) home = root
root_of_args none (some home) = home ++ codes "/nexus"
root_of_args none none = codes "/tmp" ++ codes "/nexus"

-- `main`, with what atoi makes of the first argument (as a word), or `none` where there is none: it returns 1 then. `opens` answers to a path and
-- to whether it is opened for writing.
unfoldable pub main :
    Shims → Option ℕ → Option (List ℕ) → Option (List ℕ) → (List ℕ → Bool → Option ℕ) → Option Boot
main shims none root home opens = none
main shims (some address) root home opens =
    let nexus_root = root_of_args root home in
    let channel_path = nexus_root ++ codes "/lora_sf7/channel" in
    some (record {
      node_addr = u16 address;
      nexus_root = nexus_root;
      channel_rd_fd = opens channel_path false;
      channel_wr_fd = opens channel_path true;
      shims = set_nexus_root shims nexus_root home;
    })

-- What `mainTask` sets in the configuration of the library.
pub record LoraMesherConfig (F : Type 0) : Type 0 where
  pub lora_cs : ℕ
  pub lora_irq : ℕ
  pub lora_rst : ℕ
  pub freq : F
  pub bw : F
  pub sf : ℕ
  pub cr : ℕ

module _ {F : Type 0} where
  unfoldable pub mesh_config : F → F → LoraMesherConfig F
  mesh_config freq bw = record {
    lora_cs = 0;
    lora_irq = 0;
    lora_rst = 0;
    freq = freq;
    bw = bw;
    sf = 7;
    cr = 5;
  }

  -- The part of `mainTask` before the library is called: the address, the radio and the configuration that the library gets.
  unfoldable pub main_task : Boot → F → F → Boot × NexusModule F × LoraMesherConfig F
  main_task b freq bw = (
    record b { shims = set_node_address b.shims b.node_addr },
    from_fds freq bw b.channel_rd_fd b.channel_wr_fd (b.nexus_root ++ codes "/ctl.lora_sf7"),
    mesh_config freq bw,
  )
