-- ===== src/Rtc/Tests.antt =====
-- Runs of linux_kernel_modules/rtc-pcf85063/rtc-pcf85063.c on a chip of byte registers.
use mang_oh.Prelude.{◌+◌, ◌*◌, ◌/◌, ◌%◌, ◌≡◌, refl, true, none, arith}
use mang_oh.Prelude.Monad.{ok, Does}
use mang_oh.Rtc.{Kernel, RtcTime, get_clkout_freq, set_clkout_freq, read_time, set_time}
use mang_oh.Rtc.Chip.{Registers, set_reg, set_regs, seven, IsChip}
use mang_oh.Rtc.Setting.{IsTime, read_time-set_time}
use mang_oh.Rtc.Output.{get_clkout_freq-set_clkout_freq}

abbrev kernel : Kernel
kernel = record {
  W = Registers;
  read_byte = λ a r. ok (r a) r;
  write_byte = λ a v r. ok 0 (set_reg r a v);
  read_block = λ a n r. ok (7, seven r a) r;
  write_block = λ a vs r. ok 0 (set_regs r a vs);
  bcd2bin = λ n. n / 16 * 10 + n % 16;
  bin2bcd = λ n. n / 10 * 16 + n % 10;
  kstrtou16 = λ s. none;
  check_functionality = λ r. true;
  register_rtc = λ r. ok tt r;
  create_file = λ r. ok tt r;
  remove_file = λ r. ok tt r;
}

chip : IsChip kernel
chip = record {
  regs = λ r. r;
  bin2bcd_lem = λ n l. refl;
  bcd2bin_lem = λ t u l m. omega arith;
  read_lem = λ a r. record { next = r; returned = refl; result = refl };
  write_lem = λ a v r l. record { next = set_reg r a v; returned = refl; result = refl };
  read_block_lem = λ a r. record { next = r; returned = refl; result = refl };
  write_block_lem = λ a vs r l. record { next = set_regs r a vs; returned = refl; result = refl };
}

abbrev registers : Registers
registers a = 0x11

-- 23:59:58 on the 31st of December 2019.
abbrev new_year_eve : RtcTime
new_year_eve = record { sec = 58; min = 59; hour = 23; mday = 31; wday = 2; mon1 = 12; year = 119 }

new_year_eve-IsTime : IsTime new_year_eve
new_year_eve-IsTime = record {
  sec_in = omega arith;
  min_in = omega arith;
  hour_in = omega arith;
  mday_in = omega arith;
  wday_in = omega arith;
  mon_in = omega arith;
  year_from = omega arith;
  year_to = omega arith;
}

read_time-set_time_example :
    Does
      (set_time kernel new_year_eve registers)
      tt
      (λ r. Does (read_time kernel r) new_year_eve (λ u. u ≡ r) × (r 0 ≡ 0))
unfolding chip
read_time-set_time_example =
    read_time-set_time kernel chip new_year_eve registers new_year_eve-IsTime

get_clkout_freq-set_clkout_freq_example :
    Does
      (set_clkout_freq kernel 4096 registers)
      0
      (λ r. Does (get_clkout_freq kernel r) 4096 (λ u. u ≡ r))
unfolding chip
get_clkout_freq-set_clkout_freq_example =
    get_clkout_freq-set_clkout_freq kernel chip 3 registers (omega arith)
