-- ===== src/Mt7697/Io.antt =====
-- The register and memory access of linux_kernel_modules/mt7697q/io.c. A function whose return code
-- is only tested for its sign returns `tt` where it succeeds. WARN_ON and the log are left out.
pub mod Slave
pub mod Registers
pub mod Laws
pub mod Endings
use mang_oh.Prelude.{
  ℕ, zero, suc, ◌+◌, ◌*◌, ◌/◌, ◌%◌, ◌^◌, Bool, true, false, Option, none, some, List, [], ◌∷◌,
  bit_or, ◌==◌, get_or, if◌then◌else◌,
}
use mang_oh.Prelude.Monad.{M, ok, err, halt, pure, stop, spin, ◌>>=◌, ◌>>◌}
use mang_oh.Mt7697.Fields.{bf_get, bf_define}
use mang_oh.Mt7697.Host.{Host}

abbrev pub cmd_write : ℕ
cmd_write = 0x80

abbrev pub cmd_read : ℕ
cmd_read = 0x00

abbrev pub reg_read_data : ℕ
reg_read_data = 0x00

abbrev pub reg_write_data : ℕ
reg_write_data = 0x04

abbrev pub reg_bus_addr : ℕ
reg_bus_addr = 0x08

abbrev pub reg_command : ℕ
reg_command = 0x0C

abbrev pub reg_status : ℕ
reg_status = 0x10

abbrev pub reg_irq : ℕ
reg_irq = 0x14

abbrev pub reg_mailbox_s2m : ℕ
reg_mailbox_s2m = 0x18

abbrev pub reg_mailbox_m2s : ℕ
reg_mailbox_m2s = 0x1C

module _ (h : Host) where
  open h use {W, write, write_then_read, genmask, polls}

  unfoldable pub io_busy : ℕ → Bool
  unfolding bf_get
  io_busy value = bf_get genmask value 0 1 == 1

  unfoldable pub write16 : ℕ → ℕ → M W (Unit {0})
  write16 reg value = write (cmd_write ∷ reg ∷ (value / 2 ^ 8 % 2 ^ 8) ∷ (value % 2 ^ 8) ∷ [])

  unfoldable pub write32 : ℕ → ℕ → M W (Unit {0})
  unfolding write16 bf_get
  write32 reg value = do
    write16 reg (bf_get genmask value 0 16 % 2 ^ 16)
    write16 ((reg + 2) % 2 ^ 8) (bf_get genmask value 16 16 % 2 ^ 16)

  unfoldable pub read16 : ℕ → M W ℕ
  read16 reg = do
    rx ← write_then_read (cmd_read ∷ reg ∷ 0 ∷ 0 ∷ [])
    pure (bit_or (get_or rx 2 0 * 2 ^ 8) (get_or rx 3 0))

  unfoldable pub read32 : ℕ → M W ℕ
  unfolding read16
  read32 reg = do
    low ← read16 reg
    high ← read16 ((reg + 2) % 2 ^ 8)
    pure (bit_or (high * 2 ^ 16) low)

  unfoldable pub chk_slave_busy : M W Bool
  unfolding read16 io_busy
  chk_slave_busy = do value ← read16 reg_status; pure (io_busy value)

  -- The loop has no bound in the source. A failed check leaves it.
  unfoldable pub slave_wait : ℕ → M W (Unit {0})
  unfolding chk_slave_busy
  slave_wait zero = stop spin
  slave_wait (suc n) = do busy ← chk_slave_busy; elim busy [ true ↦ slave_wait n | false ↦ pure tt ]

  unfoldable pub wr_m2s_mbx : ℕ → M W (Unit {0})
  unfolding write16 bf_define
  wr_m2s_mbx bits = write16 reg_mailbox_m2s (bf_define genmask bits 0 7 % 2 ^ 16)

  unfoldable pub rd_s2m_mbx : M W ℕ
  unfolding read16 bf_get
  rd_s2m_mbx = do value ← read16 reg_mailbox_s2m; pure (bf_get genmask value 0 6 % 2 ^ 8)

  unfoldable pub clr_s2m_mbx : ℕ → M W (Unit {0})
  unfolding write16 bf_define
  clr_s2m_mbx s2m_mbx = write16 reg_mailbox_s2m (bf_define genmask s2m_mbx 0 6 % 2 ^ 16)

  -- The word for the command register: a bus access of a word, to write or to read.
  unfoldable pub command : ℕ → ℕ
  unfolding bf_define
  command rw_val = bit_or (bf_define genmask 2 1 2) (bf_define genmask rw_val 0 1)

  unfoldable pub wr_loop : List ℕ → M W (Unit {0})
  unfolding write32 write16 command slave_wait
  wr_loop [] = pure tt
  wr_loop (d ∷ ds) = do
    write32 reg_write_data d
    write16 reg_command (command 1)
    slave_wait polls
    wr_loop ds

  -- The list is `data[0..num)`.
  unfoldable pub wr : ℕ → List ℕ → M W (Unit {0})
  unfolding write32 wr_loop
  wr addr ds = do write32 reg_bus_addr addr; wr_loop ds

  unfoldable pub rd_word : M W ℕ
  unfolding write16 command slave_wait read32
  rd_word = do write16 reg_command (command 0); slave_wait polls; read32 reg_read_data

  -- A read that fails has filled the destination up to the word that failed: the words come back
  -- beside the error, if any.
  unfoldable pub rd_loop : ℕ → M W (Option ℕ × List ℕ)
  unfolding rd_word
  rd_loop zero w = ok (none, []) w
  rd_loop (suc n) w = elim (rd_word w) [
    | ok v w' ↦ (do (e, vs) ← rd_loop n; pure (e, v ∷ vs)) w'
    | err e w' ↦ ok (some e, []) w'
    | halt f ↦ halt f
  ]

  unfoldable pub rd : ℕ → ℕ → M W (Option ℕ × List ℕ)
  unfolding write32 rd_loop
  rd addr num w = elim (write32 reg_bus_addr addr w) [
    | ok _ w' ↦ rd_loop num w'
    | err e w' ↦ ok (some e, []) w'
    | halt f ↦ halt f
  ]

  unfoldable pub trigger_intr : M W (Unit {0})
  unfolding write16 bf_define
  trigger_intr = write16 reg_irq (bf_define genmask 1 0 1 % 2 ^ 16)
