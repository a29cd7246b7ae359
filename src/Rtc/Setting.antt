-- ===== src/Rtc/Setting.antt =====
-- Setting the time of linux_kernel_modules/rtc-pcf85063/rtc-pcf85063.c, and reading it back.
use native.Mathlib.Nat.{mod-eq_of_lt}
use mathlib.Core.Path.{subst}
use mang_oh.Prelude.{
  ℕ, ◌+◌, ◌-◌, ◌*◌, ◌/◌, ◌%◌, ◌^◌, ◌≤◌, ◌<◌, ◌≡◌, refl, ◌∙◌, ap, ◌⊎◌, bit_or, arith, ◌==◌, le→ltb,
  length, get_or, false,
}
use mang_oh.Prelude.Monad.{
  M, err, einval, eio, Does, Does-bind, Does-then, Does-pure, Does-weaken, ◌>>◌,
}
use mang_oh.Rtc.{
  Kernel, RtcTime, or_fail, read_regs, stop_clock, start_clock, decode, encode, read_time, set_time,
}
use mang_oh.Rtc.Chip.{IsChip, seven, set_reg, set_regs}

-- A time that the chip can hold: a day of the years 2000 to 2099, to the second.
pub record IsTime (tm : RtcTime) : Type 0 where
  pub sec_in : tm.sec < 60
  pub min_in : tm.min < 60
  pub hour_in : tm.hour < 24
  pub mday_in : tm.mday < 32
  pub wday_in : tm.wday < 7
  pub mon_in : tm.mon1 < 13
  pub year_from : 100 ≤ tm.year
  pub year_to : tm.year ≤ 199

pub Does-or_fail {κ} :
    (k : Kernel) {A : Type 0} (e : ℕ) (m : M k.W A) {w : k.W} {a : A} {Q : k.W → Type κ}
    → Does (m w) a Q
    → Does (or_fail k e m w) a Q
Does-or_fail k e m d = record {
  next = d.next;
  returned = rw (d.returned, or_fail) refl;
  result = d.result;
}

module _ (k : Kernel) (c : IsChip k) where
  open c use {regs, bin2bcd_lem, bcd2bin_lem}

  -- The two digits of a number, through masks that leave them whole.
  digits_back : (n m : ℕ) → n < 100 → n / 10 * 16 + n % 10 < m → k.bcd2bin (k.bin2bcd n % m) ≡ n
  digits_back n m h l =
      rw (bin2bcd_lem n h, mod-eq_of_lt l)
        (bcd2bin_lem (n / 10) (n % 10) (omega arith) (omega arith) ∙ omega arith)

  digits_back_twice :
      (n a m : ℕ)
      → n < 100
      → n / 10 * 16 + n % 10 < a
      → n / 10 * 16 + n % 10 < m
      → k.bcd2bin (k.bin2bcd n % a % m) ≡ n
  digits_back_twice n a m h p q =
      rw (bin2bcd_lem n h, mod-eq_of_lt p, mod-eq_of_lt q)
        (bcd2bin_lem (n / 10) (n % 10) (omega arith) (omega arith) ∙ omega arith)

  -- What `encode` writes, `decode` reads.
  decode-encode : (tm : RtcTime) → IsTime tm → decode k (encode k tm) ≡ tm
  unfolding decode encode
  decode-encode tm t =
      let sec =
        digits_back_twice tm.sec (2 ^ 7) (2 ^ 7) (omega (arith, t)) (omega (arith, t))
          (omega (arith, t)) in
      let min =
        digits_back_twice tm.min (2 ^ 8) (2 ^ 7) (omega (arith, t)) (omega (arith, t))
          (omega (arith, t)) in
      let hour =
        digits_back_twice tm.hour (2 ^ 8) (2 ^ 6) (omega (arith, t)) (omega (arith, t))
          (omega (arith, t)) in
      let mday =
        digits_back_twice tm.mday (2 ^ 8) (2 ^ 6) (omega (arith, t)) (omega (arith, t))
          (omega (arith, t)) in
      let mon1 =
        digits_back_twice tm.mon1 (2 ^ 8) (2 ^ 5) (omega (arith, t)) (omega (arith, t))
          (omega (arith, t)) in
      let wday : tm.wday % 2 ^ 3 % 2 ^ 3 ≡ tm.wday = omega (arith, t) in
      let year : k.bcd2bin (k.bin2bcd (tm.year - 100) % 2 ^ 8) + 100 ≡ tm.year =
        omega
          (arith, t, digits_back (tm.year - 100) (2 ^ 8) (omega (arith, t)) (omega (arith, t))) in
      λ i. record {
        sec = sec i;
        min = min i;
        hour = hour i;
        mday = mday i;
        wday = wday i;
        mon1 = mon1 i;
        year = year i;
      }

  seven-set_regs : (r : ℕ → ℕ) (tm : RtcTime) → seven (set_regs r 4 (encode k tm)) 4 ≡ encode k tm
  unfolding encode
  seven-set_regs r tm = refl

  -- The seconds are written with bit 7 clear.
  running : (tm : RtcTime) → (get_or (encode k tm) 0 0 / 2 ^ 7 % 2 == 1) ≡ false
  unfolding encode
  running tm = ground arith

  read_regs_lem :
      (tm : RtcTime) (w : k.W) {Q : k.W → Type 0}
      → IsTime tm
      → Q w
      → Does (read_regs k (7, encode k tm) w) tm Q
  unfolding read_regs
  read_regs_lem tm w t q = rw (running tm, decode-encode tm t) (Does-pure tm w q)

  -- Reading the time from registers that were written as `encode` has it.
  read_time_lem :
      (tm : RtcTime) (w : k.W)
      → IsTime tm
      → seven (regs w) 4 ≡ encode k tm
      → Does (read_time k w) tm (λ w'. regs w' ≡ regs w)
  unfolding read_time
  read_time_lem tm w t e =
      Does-bind (or_fail k eio (k.read_block 4 7)) (read_regs k) w
        (Does-or_fail k eio (k.read_block 4 7) (
          subst (λ l. Does (k.read_block 4 7 w) (7, l) (λ w'. regs w' ≡ regs w)) e
            (c.read_block_lem 4 w)))
        (λ u r. read_regs_lem tm u t r)

  stop_clock_lem : (w : k.W) → Does (stop_clock k w) 0 (λ _. Unit {0})
  unfolding stop_clock
  stop_clock_lem w =
      Does-bind (or_fail k eio (k.read_byte 0)) _ w
        (Does-or_fail k eio (k.read_byte 0) (c.read_lem 0 w))
        (λ u _.
          Does-bind (or_fail k eio (k.write_byte 0 (bit_or (regs w 0) 0x20 % 2 ^ 8))) _ u
            (Does-or_fail k eio (k.write_byte 0 (bit_or (regs w 0) 0x20 % 2 ^ 8))
              (c.write_lem 0 (bit_or (regs w 0) 0x20 % 2 ^ 8) u (omega arith)))
            (λ x _. Does-pure 0 x tt))

  start_clock_lem : (w : k.W) → Does (start_clock k 0 w) tt (λ y. regs y ≡ set_reg (regs w) 0 0)
  unfolding start_clock
  start_clock_lem w =
      Does-then (or_fail k eio (k.write_byte 0 0)) _ w
        (Does-or_fail k eio (k.write_byte 0 0) (c.write_lem 0 0 w (omega arith)))
        (λ x r. Does-pure tt x r)

  -- Set on a chip that works, a time of the years 2000 to 2099 is read back as it was. But the first
  -- control register is then 0, whatever bits it held before.
  pub read_time-set_time :
      (tm : RtcTime) (w : k.W)
      → IsTime tm
      → Does
          (set_time k tm w)
          tt
          (λ w'. Does (read_time k w') tm (λ u. regs u ≡ regs w') × (regs w' 0 ≡ 0))
  unfolding set_time
  read_time-set_time tm w t =
      rw (le→ltb tm.year 100 t.year_from, le→ltb 199 tm.year t.year_to)
        (Does-bind (stop_clock k) (λ c1. k.write_block 4 (encode k tm) >> start_clock k c1) w
          (stop_clock_lem w)
          (λ u _.
            Does-then (k.write_block 4 (encode k tm)) (start_clock k 0) u
              (c.write_block_lem 4 (encode k tm) u seven_long)
              (λ x r.
                Does-weaken
                  (λ y s. (
                    read_time_lem tm y t (
                        ap (λ g. seven g 4) s
                        ∙ ap (λ g. seven (set_reg g 0 0) 4) r
                        ∙ seven-set_regs (regs u) tm),
                    ap (λ (g : ℕ → ℕ). g 0) s,
                  ))
                  (start_clock_lem x))))
    where
      seven_long : length (encode k tm) ≡ 7
      seven_long = unfold encode in refl

module _ (k : Kernel) where
  -- A year that the chip cannot hold is refused, and nothing is written.
  set_time_year :
      (tm : RtcTime) (w : k.W) → (tm.year < 100) ⊎ (199 < tm.year) → set_time k tm w ≡ err einval w
  unfolding set_time
  set_time_year tm w h = ground arith
