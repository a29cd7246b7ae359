-- ===== src/Mt7697/Queue/State.antt =====
-- The structs of linux_kernel_modules/mt7697q/queue.h, one queue at a time, and the accessors of
-- queue.c. A queue is seen together with the part of `struct mt7697q_info` that its operations
-- touch; pointers to code and to private data are numbers, 0 for NULL.
use mang_oh.Prelude.{ℕ, ◌+◌, ◌-◌, ◌%◌, ◌^◌, Bool, true, false, leb, if◌then◌else◌}
use mang_oh.Prelude.Monad.{M, ok, err, halt, deadlock, finally}
use mang_oh.Mt7697.Fields.{bf_get}

-- struct mt7697q_data
pub record Data : Type 0 where
  pub flags : ℕ
  pub base_addr : ℕ
  pub rd_offset : ℕ
  pub reserved1 : ℕ
  pub wr_offset : ℕ
  pub reserved2 : ℕ

-- struct mt7697q_spec, without the pointer back to `qinfo`
pub record Spec : Type 0 where
  pub q_data : Data
  pub priv : ℕ
  pub notify_tx_fcn : ℕ
  pub rx_fcn : ℕ
  pub ch : ℕ

-- struct mt7697_rsp_hdr
pub record RspHdr : Type 0 where
  pub len : ℕ
  pub grp : ℕ
  pub cmd_type : ℕ
  pub result : ℕ

-- `*qs` and the fields of `*qs->qinfo` that its operations touch; `held` is the mutex.
pub record Port (W : Type 0) : Type 0 where
  pub spec : Spec
  pub rsp : RspHdr
  pub blocked_writer : Bool
  pub held : Bool
  pub hw : W

-- size_t and u32 subtraction
abbrev pub sub32 : ℕ → ℕ → ℕ
sub32 a b = (a + 2 ^ 32 - b) % 2 ^ 32

unfoldable pub buf_diff : ℕ → ℕ → ℕ → ℕ
buf_diff size from to = if leb from to then to - from else (sub32 size from + to) % 2 ^ 32

module _ (genmask : ℕ → ℕ → ℕ) where
  unfoldable pub flags_get_in_use : ℕ → ℕ
  unfolding bf_get
  flags_get_in_use flags = bf_get genmask flags 0 1

  unfoldable pub flags_get_dir : ℕ → ℕ
  unfolding bf_get
  flags_get_dir flags = bf_get genmask flags 1 1

  -- The number of words of the ring, as the flags hold it.
  abbrev pub buff_words : Data → ℕ
  buff_words d = bf_get genmask d.flags 16 16

  unfoldable pub get_capacity : Data → ℕ
  get_capacity d = sub32 (buff_words d) 1

  unfoldable pub get_num_words : Data → ℕ
  unfolding buf_diff
  get_num_words d = buf_diff (buff_words d) d.rd_offset d.wr_offset

  unfoldable pub get_free_words : Data → ℕ
  unfolding get_capacity get_num_words
  get_free_words d = sub32 (get_capacity d) (get_num_words d)

module _ {W : Type 0} where
  abbrev pub set_data : Data → Port W → Port W
  set_data d p = let s = p.spec in record p { spec = record s { q_data = d } }

  -- A call into the bus.
  abbrev pub bus : {A : Type 0} → M W A → M (Port W) A
  bus m p = elim (m p.hw) [
    | ok a w ↦ ok a (record p { hw = w })
    | err e w ↦ err e (record p { hw = w })
    | halt f ↦ halt f
  ]

  -- mutex_lock and mutex_unlock round a body, whose errors pass through the unlock.
  unfoldable pub locked : {A : Type 0} → M (Port W) A → M (Port W) A
  locked m p =
      if p.held
      then halt deadlock
      else finally (λ q. record q { held = false }) m (record p { held = true })
