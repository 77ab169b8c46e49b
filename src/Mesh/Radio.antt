-- ===== src/Mesh/Radio.antt =====
-- loramesh/node/src/LM_NexusModule.cpp: the radio of the mesh library, over two files of the simulator. What the system and the
-- real-time system answer is an argument; F is the type of the floating-point parameters, which are kept and never computed
-- with here. getTimeOnAir, getRSSI and getSNR compute with them, and are left out.
pub mod Mailbox
pub mod Lifetime
mod Tests
use lora_multihop.Prelude.{
  ℕ, zero, suc, ◌+◌, ◌-◌, ◌==◌, Bool, true, false, not, ◌&&◌, Option, none, some, List, [], ◌∷◌,
  ◌++◌, length, take, min, replicate, write_at, leb, if◌then◌else◌,
}
use lora_multihop.Prelude.Decimal.{codes}

-- RADIOLIB_ERR_NONE, and -1.
pub data RadioRc : Type 0 where
  err_none failed : RadioRc

-- What stands in front of the last slash of a path, if there is one.
unfoldable pub before_slash : List ℕ → Option (List ℕ)
before_slash [] = none
before_slash (c ∷ path) = elim (before_slash path) [
  | some dir ↦ some (c ∷ dir)
  | none ↦ if c == b'/' then some [] else none
]

unfoldable pub channel_dir : List ℕ → List ℕ
channel_dir path = elim (before_slash path) [ none ↦ path | some dir ↦ dir ]

-- The object. A descriptor is `none` where it is -1; the action and the task are `none` where they are null, and otherwise the
-- function's and the task's number.
pub record NexusModule (F : Type 0) : Type 0 where
  pub channel_path : List ℕ
  pub rssi_path : List ℕ
  pub snr_path : List ℕ
  pub channel_fd : Option ℕ
  pub channel_wr_fd : Option ℕ
  pub freq : F
  pub bw : F
  pub sf : ℕ
  pub cr : ℕ
  pub rx_buf : List ℕ
  pub rx_len : ℕ
  pub dio_rx_action : Option ℕ
  pub polling_active : Bool
  pub poll_task : Option ℕ

abbrev pub is_some : Option ℕ → Bool
is_some none = false
is_some (some x) = true

abbrev to_list : Option ℕ → List ℕ
to_list none = []
to_list (some x) = x ∷ []

abbrev write_fd_to_close : Option ℕ → Option ℕ → List ℕ
write_fd_to_close none rd = []
write_fd_to_close (some wr) none = wr ∷ []
write_fd_to_close (some wr) (some rd) = if wr == rd then [] else wr ∷ []

module _ {F : Type 0} where
  -- The two constructors; `freq` and `bw` are 915 and 125.
  unfoldable pub from_path : F → F → List ℕ → NexusModule F
  from_path freq bw channel_path = record {
    channel_path = channel_path;
    rssi_path = channel_dir channel_path ++ codes "/rssi";
    snr_path = channel_dir channel_path ++ codes "/snr";
    channel_fd = none;
    channel_wr_fd = none;
    freq = freq;
    bw = bw;
    sf = 7;
    cr = 5;
    rx_buf = replicate 256 0;
    rx_len = 0;
    dio_rx_action = none;
    polling_active = false;
    poll_task = none;
  }

  unfoldable pub from_fds : F → F → Option ℕ → Option ℕ → List ℕ → NexusModule F
  from_fds freq bw rd_fd wr_fd ctl_dir = record {
    channel_path = codes "<pre-opened>";
    rssi_path = ctl_dir ++ codes "/rssi";
    snr_path = ctl_dir ++ codes "/snr";
    channel_fd = rd_fd;
    channel_wr_fd = wr_fd;
    freq = freq;
    bw = bw;
    sf = 7;
    cr = 5;
    rx_buf = replicate 256 0;
    rx_len = 0;
    dio_rx_action = none;
    polling_active = false;
    poll_task = none;
  }

  -- The destructor: the object, the task that is deleted, and the descriptors that are closed.
  unfoldable pub destroy : NexusModule F → NexusModule F × List ℕ × List ℕ
  destroy s = (
    record s { polling_active = false; poll_task = none },
    to_list s.poll_task,
    to_list s.channel_fd ++ write_fd_to_close s.channel_wr_fd s.channel_fd,
  )

  -- The loop of `begin`, with the attempts left; `opens` answers by the number of the attempt. The number is that of its calls of
  -- usleep(500000).
  unfoldable pub open_loop : ℕ → ℕ → NexusModule F → (ℕ → Option ℕ) → NexusModule F × RadioRc × ℕ
  open_loop zero attempt s opens = (s, RadioRc.failed, attempt)
  open_loop (suc left) attempt s opens = elim (opens attempt) [
    | some fd ↦ (record s { channel_fd = some fd }, RadioRc.err_none, attempt)
    | none ↦ open_loop left (attempt + 1) s opens
  ]

  unfoldable pub begin :
      NexusModule F → F → F → ℕ → ℕ → (ℕ → Option ℕ) → NexusModule F × RadioRc × ℕ
  begin s freq bw sf cr opens =
      let s' = record s { freq = freq; bw = bw; sf = sf; cr = cr } in
      if is_some s.channel_fd then (s', RadioRc.err_none, 0) else open_loop 10 0 s' opens

  -- `startReceive`, with the task that xTaskCreate makes, and whether it is called.
  unfoldable pub start_receive : NexusModule F → ℕ → NexusModule F × RadioRc × Bool
  start_receive s task =
      if not s.polling_active && is_some s.dio_rx_action
      then (record s { polling_active = true; poll_task = some task }, RadioRc.err_none, true)
      else (s, RadioRc.err_none, false)

  -- A round of the loop of `pollTask`: `bytes` are what is read, none of them where the read fails; and the action that is called.
  unfoldable pub poll_round : NexusModule F → List ℕ → NexusModule F × Option ℕ
  poll_round s [] = (s, none)
  poll_round s (b ∷ bytes) = (
    record s { rx_buf = write_at s.rx_buf 0 (b ∷ bytes); rx_len = length (b ∷ bytes) },
    s.dio_rx_action,
  )

  -- `receive` and `readData`: what is copied to a buffer of `len` bytes.
  unfoldable pub receive : NexusModule F → ℕ → NexusModule F × RadioRc × List ℕ
  receive s len =
      if s.rx_len == 0
      then (s, RadioRc.failed, [])
      else (record s { rx_len = 0 }, RadioRc.err_none, take (min len s.rx_len) s.rx_buf)

  unfoldable pub read_data : NexusModule F → ℕ → NexusModule F × RadioRc × List ℕ
  read_data s num_bytes = receive s num_bytes

  unfoldable pub get_packet_length : NexusModule F → ℕ
  get_packet_length s = s.rx_len

  abbrev write_fd : NexusModule F → Option ℕ
  write_fd s = elim s.channel_wr_fd [ some wr ↦ some wr | none ↦ s.channel_fd ]

  -- `transmit`: `writes` is how many bytes write() takes, `none` for an error.
  unfoldable pub transmit : NexusModule F → List ℕ → (ℕ → List ℕ → Option ℕ) → RadioRc
  transmit s buffer writes = elim (write_fd s) [
    | none ↦ RadioRc.failed
    | some fd ↦ elim (writes fd buffer) [
      | none ↦ RadioRc.failed
      | some n ↦ if n == length buffer then RadioRc.err_none else RadioRc.failed
    ]
  ]

  unfoldable pub set_dio_action_for_receiving : NexusModule F → Option ℕ → NexusModule F
  set_dio_action_for_receiving s action = record s { dio_rx_action = action }

  unfoldable pub clear_dio_actions : NexusModule F → NexusModule F
  clear_dio_actions s = record s { dio_rx_action = none }

  unfoldable pub set_frequency : NexusModule F → F → NexusModule F × RadioRc
  set_frequency s freq = (record s { freq = freq }, RadioRc.err_none)

  unfoldable pub set_bandwidth : NexusModule F → F → NexusModule F × RadioRc
  set_bandwidth s bw = (record s { bw = bw }, RadioRc.err_none)

  unfoldable pub set_spreading_factor : NexusModule F → ℕ → NexusModule F × RadioRc
  set_spreading_factor s sf = (record s { sf = sf }, RadioRc.err_none)

  unfoldable pub set_coding_rate : NexusModule F → ℕ → NexusModule F × RadioRc
  set_coding_rate s cr = (record s { cr = cr }, RadioRc.err_none)
