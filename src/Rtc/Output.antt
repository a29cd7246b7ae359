-- ===== src/Rtc/Output.antt =====
-- The square-wave output of linux_kernel_modules/rtc-pcf85063/rtc-pcf85063.c: the frequency that is
-- set, and the one that is read.
use native.Mathlib.Nat.{mod-eq_of_lt}
use mang_oh.Prelude.{
  ℕ, zero, suc, ◌+◌, ◌%◌, ◌^◌, ◌<◌, ◌≡◌, refl, ap, ◌≢◌, none, some, List, [], ◌∷◌, arith, get_or,
  All,
}
use mang_oh.Prelude.Monad.{err, einval, eio, pure, Does, Does-bind, Does-pure, Does-weaken}
use mang_oh.Rtc.{
  Kernel, clkout_freq_table, find_freq, or_fail, get_clkout_freq, set_index, set_clkout_freq,
}
use mang_oh.Rtc.Chip.{IsChip}
use mang_oh.Rtc.Setting.{Does-or_fail}

-- The table holds each frequency once.
find_freq-get_or :
    (i : ℕ) → i < 8 → find_freq clkout_freq_table (get_or clkout_freq_table i 0) 0 ≡ some i
unfolding find_freq
find_freq-get_or zero l = refl
find_freq-get_or (suc zero) l = refl
find_freq-get_or (suc (suc zero)) l = refl
find_freq-get_or (suc (suc (suc zero))) l = refl
find_freq-get_or (suc (suc (suc (suc zero)))) l = refl
find_freq-get_or (suc (suc (suc (suc (suc zero))))) l = refl
find_freq-get_or (suc (suc (suc (suc (suc (suc zero)))))) l = refl
find_freq-get_or (suc (suc (suc (suc (suc (suc (suc zero))))))) l = refl
find_freq-get_or (suc (suc (suc (suc (suc (suc (suc (suc i)))))))) l = absurd (omega arith)

find_freq-none : (fs : List ℕ) (freq i : ℕ) → All (λ f. f ≢ freq) fs → find_freq fs freq i ≡ none
unfolding find_freq
find_freq-none [] freq i d = refl
find_freq-none (f ∷ fs) freq i d = ground (arith, find_freq-none fs freq (i + 1) d.1, d.0)

module _ (k : Kernel) (c : IsChip k) where
  open c use {regs}

  get_clkout_freq_lem :
      (i : ℕ) (w : k.W)
      → i < 8
      → regs w 1 ≡ i
      → Does (get_clkout_freq k w) (get_or clkout_freq_table i 0) (λ u. regs u ≡ regs w)
  unfolding get_clkout_freq
  get_clkout_freq_lem i w l e =
      Does-bind (or_fail k eio (k.read_byte 1))
        (λ v. pure (get_or clkout_freq_table (v % 2 ^ 8 % 2 ^ 3) 0)) w
        (Does-or_fail k eio (k.read_byte 1) (c.read_lem 1 w))
        (λ u r. rw (index) (Does-pure (get_or clkout_freq_table i 0) u r))
    where
      index : regs w 1 % 2 ^ 8 % 2 ^ 3 ≡ i
      index = omega arith

  -- A frequency of the table is set without a failure, and is then the one that is read.
  pub get_clkout_freq-set_clkout_freq :
      (i : ℕ) (w : k.W)
      → i < 8
      → Does
          (set_clkout_freq k (get_or clkout_freq_table i 0) w)
          0
          (λ w'. Does (get_clkout_freq k w') (get_or clkout_freq_table i 0) (λ u. regs u ≡ regs w'))
  unfolding set_clkout_freq
  get_clkout_freq-set_clkout_freq i w l =
      rw (find_freq-get_or i l, set_index, mod-eq_of_lt l)
        (Does-weaken (λ u r. get_clkout_freq_lem i u l (ap (λ (g : ℕ → ℕ). g 1) r))
          (c.write_lem 1 i w (omega (arith, l))))

module _ (k : Kernel) where
  -- A frequency that is not in the table is refused, and nothing is written.
  set_clkout_freq-unknown :
      (freq : ℕ) (w : k.W)
      → All (λ f. f ≢ freq) clkout_freq_table
      → set_clkout_freq k freq w ≡ err einval w
  unfolding set_clkout_freq
  set_clkout_freq-unknown freq w d = rw (find_freq-none clkout_freq_table freq 0 d) refl
