-- ===== src/Mesh/Radio/Lifetime.antt =====
-- The descriptors and the task of the object of loramesh/node/src/LM_NexusModule.cpp, from its begin to its destructor.
use lora_multihop.Prelude.{ℕ, zero, suc, ◌+◌, ◌<◌, ◌≡◌, refl, ap, ◌∙◌, Option, none, some, arith}
use lora_multihop.Mesh.Radio.{NexusModule, RadioRc, open_loop, begin}

module _ {F : Type 0} where
  -- Where the attempts up to one with this number fail, and that one opens the file, the loop ends with its descriptor.
  open_loop-first :
      (left attempt k fd : ℕ) (s : NexusModule F) (opens : ℕ → Option ℕ)
      → k < left
      → ((i : ℕ) → i < k → opens (attempt + i) ≡ none)
      → opens (attempt + k) ≡ some fd
      → open_loop left attempt s opens
        ≡ (record s { channel_fd = some fd }, RadioRc.err_none, attempt + k)
  unfolding open_loop
  open_loop-first zero attempt k fd s opens h failing opened = elim h [ ]
  open_loop-first (suc left) attempt zero fd s opens h failing opened = ground (arith, opened)
  open_loop-first (suc left) attempt (suc k) fd s opens h failing opened =
      let rest =
        open_loop-first left (attempt + 1) k fd s opens (omega arith)
          (λ i p. ap opens (omega arith) ∙ failing (suc i) (omega arith))
          (ap opens (omega arith) ∙ opened) in
      let first : opens attempt ≡ none = ap opens (omega arith) ∙ failing 0 (omega arith) in
      ground (arith, first, rest)

  open_loop-failed :
      (left attempt : ℕ) (s : NexusModule F) (opens : ℕ → Option ℕ)
      → ((i : ℕ) → i < left → opens (attempt + i) ≡ none)
      → open_loop left attempt s opens ≡ (s, RadioRc.failed, attempt + left)
  unfolding open_loop
  open_loop-failed zero attempt s opens failing = ground arith
  open_loop-failed (suc left) attempt s opens failing =
      let rest =
        open_loop-failed left (attempt + 1) s opens
          (λ i p. ap opens (omega arith) ∙ failing (suc i) (omega arith)) in
      let first : opens attempt ≡ none = ap opens (omega arith) ∙ failing 0 (omega arith) in
      ground (arith, first, rest)

  begin-open_loop :
      (s : NexusModule F) (freq bw : F) (sf cr : ℕ) (opens : ℕ → Option ℕ)
      → s.channel_fd ≡ none
      → begin s freq bw sf cr opens
        ≡ open_loop 10 0 (record s { freq = freq; bw = bw; sf = sf; cr = cr }) opens
  unfolding begin
  begin-open_loop s freq bw sf cr opens closed = ground (arith, closed)

  -- With no descriptor, begin keeps the first one that open gives within ten attempts, with a wait for each attempt before it.
  pub begin_first :
      (s : NexusModule F) (freq bw : F) (sf cr k fd : ℕ) (opens : ℕ → Option ℕ)
      → s.channel_fd ≡ none
      → k < 10
      → ((i : ℕ) → i < k → opens i ≡ none)
      → opens k ≡ some fd
      → let (s', rc, waits) = begin s freq bw sf cr opens in
        (rc ≡ RadioRc.err_none) × (s'.channel_fd ≡ some fd) × (waits ≡ k)
  begin_first s freq bw sf cr k fd opens closed in_time failing opened =
      let set_up : NexusModule F = record s { freq = freq; bw = bw; sf = sf; cr = cr } in
      rw
        (
          begin-open_loop s freq bw sf cr opens closed,
          open_loop-first 10 0 k fd set_up opens in_time
              (λ i p. ap opens (omega arith) ∙ failing i p) (ap opens (omega arith) ∙ opened),
        )
        (refl, refl, omega arith)

  -- If all ten attempts fail, begin gives up with -1 after ten waits, and has no descriptor.
  pub begin-failed :
      (s : NexusModule F) (freq bw : F) (sf cr : ℕ) (opens : ℕ → Option ℕ)
      → s.channel_fd ≡ none
      → ((i : ℕ) → i < 10 → opens i ≡ none)
      → let (s', rc, waits) = begin s freq bw sf cr opens in
        (rc ≡ RadioRc.failed) × (s'.channel_fd ≡ none) × (waits ≡ 10)
  begin-failed s freq bw sf cr opens closed failing =
      let set_up : NexusModule F = record s { freq = freq; bw = bw; sf = sf; cr = cr } in
      rw
        (
          begin-open_loop s freq bw sf cr opens closed,
          open_loop-failed 10 0 set_up opens (λ i p. ap opens (omega arith) ∙ failing i p),
        )
        (refl, closed, omega arith)
