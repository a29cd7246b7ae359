-- ===== src/RtcSync.antt =====
-- The thread that keeps the real-time clock and the system time in step,
-- linux_kernel_modules/rtc_sync/rtc_sync.c. Times are counted from 1970 on, in seconds of 32 bits.
pub mod Steps
pub mod Checking
mod Tests
use mang_oh.Prelude.{
  ◌%◌, ◌^◌, ℕ, zero, suc, ◌+◌, ◌-◌, ◌*◌, Bool, true, false, ltb, ◌==◌, if◌then◌else◌,
}
use mang_oh.Prelude.Monad.{M, ok, err, halt, spin, pure, ◌>>=◌, ◌>>◌, enodev}

abbrev pub nsec_per_sec : ℕ
nsec_per_sec = 1000000000

-- NSEC_PER_SEC >> 1
abbrev pub half_sec : ℕ
half_sec = 500000000

-- struct timespec
pub record Timespec : Type 0 where
  pub tv_sec : ℕ
  pub tv_nsec : ℕ

unfoldable pub timespec_to_ns : Timespec → ℕ
timespec_to_ns t = t.tv_sec * nsec_per_sec + t.tv_nsec

-- What the code calls of the kernel, with struct rtc_time as `Tm`: whether there is a clock, whether
-- it can be set, the codes of its calls, and the conversions.
pub record Kernel : Type 1 where
  pub W : Type 0
  pub Tm : Type 0
  pub rtc_class_open : W → Bool × W
  pub rtc_class_close : W → W
  pub has_set_time : W → Bool
  pub rtc_read_time : W → ℕ × Tm × W
  pub rtc_set_time : Tm → W → ℕ × W
  pub rtc_valid_tm : Tm → ℕ
  pub rtc_tm_to_time : Tm → ℕ
  pub rtc_time_to_tm : ℕ → Tm
  pub do_settimeofday : Timespec → W → W
  pub ktime_get_real_ts : W → Timespec × W
  pub schedule_timeout : ℕ → W → ℕ × W
  pub kthread_should_stop : W → Bool
  pub hz : ℕ

module _ (k : Kernel) where
  open k use {W, Tm, rtc_class_open, rtc_class_close, rtc_time_to_tm, ktime_get_real_ts}

  -- The time that the system is set to for what the clock shows.
  unfoldable pub guess : Tm → Timespec
  guess tm = record { tv_sec = k.rtc_tm_to_time tm; tv_nsec = half_sec }

  -- A clock that cannot be read, or shows no valid time, is no failure.
  unfoldable pub rtc_hctosys : M W (Unit {0})
  unfolding guess
  rtc_hctosys w =
      let (present, v) = rtc_class_open w in
      if present
      then (let (code, tm, u) = k.rtc_read_time v in
          if code == 0
          then (if k.rtc_valid_tm tm == 0
              then ok tt (rtc_class_close (k.do_settimeofday (guess tm) u))
              else ok tt (rtc_class_close u))
          else ok tt (rtc_class_close u))
      else err enodev v

  -- The second that the clock is set to, an unsigned long.
  unfoldable pub nearest : Timespec → ℕ
  nearest now = if ltb now.tv_nsec half_sec then now.tv_sec else (now.tv_sec + 1) % 2 ^ 32

  unfoldable pub systohc : Timespec → M W (Unit {0})
  unfolding nearest
  systohc now w =
      let (present, v) = rtc_class_open w in
      if present
      then (if k.has_set_time v
          then (let (code, u) = k.rtc_set_time (rtc_time_to_tm (nearest now)) v in
              if code == 0 then ok tt (rtc_class_close u) else err code (rtc_class_close u))
          else err enodev (rtc_class_close v))
      else err enodev v

  -- The loop round schedule_timeout, for so many wakes at most.
  unfoldable pub sleep : ℕ → ℕ → M W (Unit {0})
  sleep n zero w = ok tt w
  sleep zero (suc timeout) w = halt spin
  sleep (suc n) (suc timeout) w =
      let (left, v) = k.schedule_timeout (suc timeout) w in sleep n left v

  -- abs64(delta_ns - expected_delta_ns) > 1 * NSEC_PER_SEC
  unfoldable pub has_jumped : Timespec → Timespec → Bool
  unfolding timespec_to_ns
  has_jumped before after =
      let expected = timespec_to_ns before + 10 * nsec_per_sec in
      ltb nsec_per_sec ((timespec_to_ns after - expected) + (expected - timespec_to_ns after))

  -- A call whose failure the code does not look at.
  abbrev pub ignore_error : M W (Unit {0}) → M W (Unit {0})
  ignore_error m w = elim (m w) [ ok x v ↦ ok tt v | err e v ↦ ok tt v | halt f ↦ halt f ]

  unfoldable pub get_time : M W Timespec
  get_time w = let (now, v) = ktime_get_real_ts w in ok now v

  -- A round of the thread.
  unfoldable pub check_once : ℕ → M W (Unit {0})
  unfolding get_time sleep has_jumped systohc
  check_once wakes = do
    before ← get_time
    sleep wakes (10 * k.hz)
    after ← get_time
    if has_jumped before after then ignore_error (systohc after) else pure tt

  -- The thread, for so many rounds at most.
  unfoldable pub time_check : ℕ → ℕ → M W (Unit {0})
  unfolding check_once
  time_check wakes zero w = if k.kthread_should_stop w then ok tt w else halt spin
  time_check wakes (suc n) w =
      if k.kthread_should_stop w then ok tt w else (do check_once wakes; time_check wakes n) w
