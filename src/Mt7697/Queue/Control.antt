-- ===== src/Mt7697/Queue/Control.antt =====
-- The requests to the co-processor, and the start and the end of the use of a pair of queues:
-- linux_kernel_modules/mt7697q/queue.c, mt7697q_wr_init, mt7697q_wr_unused, mt7697q_wr_reset,
-- mt7697q_init, mt7697q_shutdown and the small accessors.
use mang_oh.Prelude.{
  ℕ, ◌+◌, ◌-◌, ◌*◌, ◌^◌, Bool, false, ◌||◌, Option, none, List, [], ◌∷◌, bit_and, bit_or, leb, ◌==◌,
  if◌then◌else◌,
}
use mang_oh.Prelude.Monad.{M, pure, fail, eio, einval, ◌>>=◌, ◌>>◌}
use mang_oh.Mt7697.Fields.{bf_get, bf_define}
use mang_oh.Mt7697.Bus.{Bus}
use mang_oh.Mt7697.Queue.State.{Spec, RspHdr, Port, bus, locked}
use mang_oh.Mt7697.Queue.Pointers.{modify, read_state}
use mang_oh.Mt7697.Queue.Transfer.{write}
use mang_oh.Mt7697.Queue.Info.{Info, set_spec, on}

abbrev pub num_queues : ℕ
num_queues = 6

-- enum mt7697q_cmd_types
abbrev pub cmd_queue_init : ℕ
cmd_queue_init = 0

abbrev pub cmd_queue_init_rsp : ℕ
cmd_queue_init_rsp = 1

abbrev pub cmd_queue_unused : ℕ
cmd_queue_unused = 2

abbrev pub cmd_queue_reset : ℕ
cmd_queue_reset = 3

abbrev pub cmd_queue_reset_rsp : ℕ
cmd_queue_reset_rsp = 4

-- A request's three words: its header of length, group 0 and type, and the two channels.
unfoldable pub request : ℕ → ℕ → ℕ → List ℕ
request cmd_type m2s_ch s2m_ch = (12 + cmd_type * 2 ^ 24) ∷ m2s_ch ∷ s2m_ch ∷ []

-- flags &= ~BF_GET(flags, IN_USE)
unfoldable pub clear_in_use : (ℕ → ℕ → ℕ) → ℕ → ℕ
unfolding bf_get
clear_in_use genmask flags = bit_and flags (2 ^ 32 - 1 - bf_get genmask flags 0 1)

-- flags |= BF_DEFINE(1, IN_USE)
unfoldable pub set_in_use : (ℕ → ℕ → ℕ) → ℕ → ℕ
unfolding bf_define
set_in_use genmask flags = bit_or flags (bf_define genmask 1 0 1)

unfoldable pub with_flags : (ℕ → ℕ) → Spec → Spec
with_flags f x = record x { q_data = record (x.q_data) { flags = f x.q_data.flags } }

module _ (b : Bus) where
  open b use {W, genmask}

  -- A request that is written in part is an error.
  unfoldable pub send : List ℕ → M (Port W) ℕ
  send req = do n ← write b req; if n == 3 then pure 0 else fail eio

  unfoldable pub wr_init : ℕ → ℕ → M (Port W) ℕ
  unfolding send request
  wr_init tx_ch rx_ch = send (request cmd_queue_init tx_ch rx_ch)

  unfoldable pub wr_unused : ℕ → ℕ → M (Info W) ℕ
  unfolding send request clear_in_use with_flags on
  wr_unused m2s s2m s =
      let req = request cmd_queue_unused (s.queues m2s).ch (s.queues s2m).ch in
      (do
        modify (λ t. set_spec m2s (with_flags (clear_in_use genmask) (t.queues m2s)) t)
        modify (λ t. set_spec s2m (with_flags (clear_in_use genmask) (t.queues s2m)) t)
        on m2s (send req))
        s

  unfoldable pub wr_reset : ℕ → ℕ → M (Info W) ℕ
  unfolding send request on
  wr_reset m2s s2m s = on m2s (send (request cmd_queue_reset (s.queues m2s).ch (s.queues s2m).ch)) s

  -- `found` says whether the SPI bus, the device and its driver data were found. The two memsets behind
  -- `cleanup:` clear the local pointers and the stack behind them, and nothing of the state.
  unfoldable pub init : Bool → ℕ → ℕ → ℕ → ℕ → ℕ → M (Info W) (ℕ × ℕ)
  unfolding wr_init read_state set_in_use with_flags on
  init found tx_ch rx_ch priv notify_tx_fcn rx_fcn =
      if found
      then if leb num_queues tx_ch || leb num_queues rx_ch then fail einval else (do
        modify (λ s.
            set_spec tx_ch
              (record (s.queues tx_ch) { ch = tx_ch; priv = priv; notify_tx_fcn = notify_tx_fcn })
              s)
        modify (λ s. record s { blocked_writer = false })
        modify (λ s.
            set_spec rx_ch (record (s.queues rx_ch) { ch = rx_ch; rx_fcn = rx_fcn; priv = priv }) s)
        on tx_ch (read_state b tx_ch)
        on rx_ch (read_state b rx_ch)
        modify (λ s. set_spec tx_ch (with_flags (set_in_use genmask) (s.queues tx_ch)) s)
        modify (λ s. set_spec rx_ch (with_flags (set_in_use genmask) (s.queues rx_ch)) s)
        on tx_ch (wr_init tx_ch rx_ch)
        pure (tx_ch, rx_ch))
      else fail einval

  -- The handles after the call, NULL if it succeeded.
  unfoldable pub shutdown : ℕ → ℕ → M (Info W) (Option ℕ × Option ℕ)
  unfolding wr_unused
  shutdown tx_hndl rx_hndl = do wr_unused tx_hndl rx_hndl; pure (none, none)

  unfoldable pub get_s2m_mbx : M (Port W) ℕ
  unfolding locked
  get_s2m_mbx = locked (do s2m_mbox ← bus b.rd_s2m_mbx; bus (b.clr_s2m_mbx s2m_mbox); pure s2m_mbox)

  unfoldable pub unblock_writer : M (Port W) (Unit {0})
  unblock_writer = modify (λ p. record p { blocked_writer = false })

  unfoldable pub proc_queue_rsp : RspHdr → M (Port W) (Unit {0})
  proc_queue_rsp rsp =
      if rsp.cmd_type == cmd_queue_init_rsp || rsp.cmd_type == cmd_queue_reset_rsp
      then pure tt
      else fail einval
