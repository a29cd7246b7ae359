-- ===== src/Rtc.antt =====
-- The real-time clock of linux_kernel_modules/rtc-pcf85063/rtc-pcf85063.c: its square-wave output,
-- reading and setting the time, sysfs, and the probe. The mutex is taken at the start and released
-- at the end of each access, and is left out; the log too.
pub mod Chip
pub mod Setting
pub mod Output
mod Tests
use mang_oh.Prelude.{
  ℕ, zero, suc, ◌+◌, ◌-◌, ◌*◌, ◌/◌, ◌%◌, ◌^◌, Bool, true, false, ◌||◌, Option, none, some, List, [],
  ◌∷◌, bit_and, bit_or, ltb, ◌==◌, get_or, if◌then◌else◌,
}
use mang_oh.Prelude.Monad.{M, ok, err, halt, pure, fail, eio, einval, enodev, ◌>>=◌, ◌>>◌}

-- What the driver calls of the kernel: the SMBus transfers, the BCD conversions, the number parser,
-- and the registration of the clock and of its attribute.
pub record Kernel : Type 1 where
  pub W : Type 0
  pub read_byte : ℕ → M W ℕ
  pub write_byte : ℕ → ℕ → M W ℕ
  -- how many bytes have come, and the buffer of as many as were asked for
  pub read_block : ℕ → ℕ → M W (ℕ × List ℕ)
  pub write_block : ℕ → List ℕ → M W ℕ
  pub bcd2bin : ℕ → ℕ
  pub bin2bcd : ℕ → ℕ
  pub kstrtou16 : List ℕ → Option ℕ
  pub check_functionality : W → Bool
  pub register_rtc : M W (Unit {0})
  pub create_file : M W (Unit {0})
  pub remove_file : M W (Unit {0})

abbrev pub reg_ctrl1 : ℕ
reg_ctrl1 = 0x00

abbrev pub reg_ctrl2 : ℕ
reg_ctrl2 = 0x01

abbrev pub reg_sc : ℕ
reg_sc = 0x04

-- struct rtc_time. A month register of 0 reads as the month -1, so months are counted from 1 here:
-- `mon1` is `tm_mon + 1`.
pub record RtcTime : Type 0 where
  pub sec : ℕ
  pub min : ℕ
  pub hour : ℕ
  pub mday : ℕ
  pub wday : ℕ
  pub mon1 : ℕ
  pub year : ℕ

abbrev pub clkout_freq_table : List ℕ
clkout_freq_table = 32768 ∷ 16384 ∷ 8192 ∷ 4096 ∷ 2048 ∷ 1024 ∷ 1 ∷ 0 ∷ []

-- The loop over the table: the first index from `i` on that holds the frequency.
unfoldable pub find_freq : List ℕ → ℕ → ℕ → Option ℕ
find_freq [] freq i = none
find_freq (f ∷ fs) freq i =
    let rest = find_freq fs freq (i + 1) in if f == freq then some i else rest

module _ (k : Kernel) where
  open k use {W, read_byte, write_byte, read_block, write_block, bcd2bin, bin2bcd}

  -- An access that fails with another error.
  abbrev pub or_fail : {A : Type 0} → ℕ → M W A → M W A
  or_fail e m w = elim (m w) [ ok a w' ↦ ok a w' | err _ w' ↦ err e w' | halt f ↦ halt f ]

  unfoldable pub get_clkout_freq : M W ℕ
  get_clkout_freq = do
    ctrl2 ← or_fail eio (read_byte reg_ctrl2)
    pure (get_or clkout_freq_table (ctrl2 % 2 ^ 8 % 2 ^ 3) 0)

  -- A positive return of the write is passed on as it is.
  abbrev pub set_index : Option ℕ → M W ℕ
  set_index none = fail einval
  set_index (some i) = write_byte reg_ctrl2 (i % 2 ^ 3)

  unfoldable pub set_clkout_freq : ℕ → M W ℕ
  set_clkout_freq freq = set_index (find_freq clkout_freq_table freq 0)

  -- The value handed back for the restart of the clock is the return code of the write.
  unfoldable pub stop_clock : M W ℕ
  stop_clock = do
    ctrl1 ← or_fail eio (read_byte reg_ctrl1)
    ret ← or_fail eio (write_byte reg_ctrl1 (bit_or ctrl1 0x20 % 2 ^ 8))
    pure (ret % 2 ^ 8)

  unfoldable pub start_clock : ℕ → M W (Unit {0})
  start_clock ctrl1 = do or_fail eio (write_byte reg_ctrl1 (bit_and ctrl1 0xDF)); pure tt

  -- The seven time registers as a time.
  unfoldable pub decode : List ℕ → RtcTime
  decode regs = record {
    sec = bcd2bin (get_or regs 0 0 % 2 ^ 7);
    min = bcd2bin (get_or regs 1 0 % 2 ^ 7);
    hour = bcd2bin (get_or regs 2 0 % 2 ^ 6);
    mday = bcd2bin (get_or regs 3 0 % 2 ^ 6);
    wday = get_or regs 4 0 % 2 ^ 3;
    mon1 = bcd2bin (get_or regs 5 0 % 2 ^ 5);
    year = bcd2bin (get_or regs 6 0) + 100;
  }

  -- What is made of the transfer. The oscillator-stop flag is bit 7 of the seconds.
  unfoldable pub read_regs : ℕ × List ℕ → M W RtcTime
  unfolding decode
  read_regs (rc, regs) =
      if rc == 7
      then (if get_or regs 0 0 / 2 ^ 7 % 2 == 1 then fail einval else pure (decode regs))
      else fail eio

  unfoldable pub read_time : M W RtcTime
  unfolding read_regs
  read_time = or_fail eio (read_block reg_sc 7) >>= read_regs

  unfoldable pub encode : RtcTime → List ℕ
  encode tm =
      (bin2bcd tm.sec % 2 ^ 7)
      ∷ (bin2bcd tm.min % 2 ^ 8)
      ∷ (bin2bcd tm.hour % 2 ^ 8)
      ∷ (bin2bcd tm.mday % 2 ^ 8)
      ∷ (tm.wday % 2 ^ 3)
      ∷ (bin2bcd tm.mon1 % 2 ^ 8)
      ∷ (bin2bcd (tm.year - 100) % 2 ^ 8)
      ∷ []

  unfoldable pub set_time : RtcTime → M W (Unit {0})
  unfolding stop_clock start_clock encode
  set_time tm =
      if ltb tm.year 100 || ltb 199 tm.year
      then fail einval
      else (do ctrl1 ← stop_clock; write_block reg_sc (encode tm); start_clock ctrl1)

  -- The number that is printed.
  unfoldable pub show_clkout_freq : M W ℕ
  unfolding get_clkout_freq
  show_clkout_freq = get_clkout_freq

  -- The result is the count of bytes taken.
  unfoldable pub store_clkout_freq : List ℕ → ℕ → M W ℕ
  unfolding set_clkout_freq
  store_clkout_freq buf size = elim (k.kstrtou16 buf) [
    | none ↦ fail einval
    | some freq ↦ (do e ← set_clkout_freq freq; if e == 0 then pure size else pure e)
  ]

  -- The return code: one that is positive stays as it is.
  unfoldable pub probe : M W ℕ
  unfolding set_clkout_freq
  probe w =
      if k.check_functionality w
      then (do
        read_byte reg_ctrl1
        k.register_rtc
        e ← set_clkout_freq 0
        if e == 0 then (do k.create_file; pure 0) else pure e)
          w
      else fail enodev w

  unfoldable pub remove : M W (Unit {0})
  remove = do k.remove_file; pure tt
