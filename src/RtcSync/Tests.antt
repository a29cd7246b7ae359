-- ===== src/RtcSync/Tests.antt =====
-- Tests of linux_kernel_modules/rtc_sync/rtc_sync.c with a clock that counts seconds.
use mang_oh.Prelude.{
  zero, suc, ◌-◌, ◌/◌, ◌%◌, ◌^◌, ◌⊎◌, inl, inr, ℕ, ◌+◌, ◌≤◌, ◌<◌, ◌≡◌, refl, true, false, arith,
}
use mang_oh.Prelude.Monad.{ok, Does, ◌>>◌}
use mang_oh.RtcSync.{
  Kernel, Timespec, timespec_to_ns, nearest, rtc_hctosys, systohc, sleep, has_jumped, check_once,
  get_time,
}
use mang_oh.RtcSync.Steps.{IsClock, systohc-rtc_hctosys}
use mang_oh.RtcSync.Checking.{IsQuiet, Checked, check_once_lem}

-- The second that the clock shows, the system time, and the signals that are still to come.
record Times : Type 0 where
  clock : ℕ
  system : Timespec
  signals : ℕ

-- A signal comes after half of the time; somebody sets the time ahead by an hour while the thread sleeps.
abbrev asleep : ℕ → ℕ → Times → ℕ × Times
asleep zero t w = (
  0,
  record w {
    system = record { tv_sec = w.system.tv_sec + t + 3600; tv_nsec = w.system.tv_nsec };
    signals = 0;
  },
)
asleep (suc n) t w = (
  t - t / 2,
  record w {
    system = record { tv_sec = w.system.tv_sec + t / 2; tv_nsec = w.system.tv_nsec };
    signals = n;
  },
)

-- A kernel whose ticks are seconds.
abbrev kernel : Kernel
kernel = record {
  W = Times;
  Tm = ℕ;
  rtc_class_open = λ w. (true, w);
  rtc_class_close = λ w. w;
  has_set_time = λ w. true;
  rtc_read_time = λ w. (0, w.clock, w);
  rtc_set_time = λ tm w. (0, record w { clock = tm });
  rtc_valid_tm = λ tm. 0;
  rtc_tm_to_time = λ tm. tm;
  rtc_time_to_tm = λ s. s;
  do_settimeofday = λ t w. record w { system = t };
  ktime_get_real_ts = λ w.
      (record { tv_sec = w.system.tv_sec % 2 ^ 30; tv_nsec = w.system.tv_nsec % 1000000000 }, w);
  schedule_timeout = λ t w. asleep w.signals t w;
  kthread_should_stop = λ w. false;
  hz = 1;
}

abbrev clock_works : IsClock kernel
clock_works = record {
  stored = λ w. w.clock;
  system = λ w. w.system;
  open_lem = λ w. (refl, refl);
  close_lem = λ w. (refl, refl);
  has_lem = λ w. refl;
  set_lem = λ tm w. (refl, refl);
  read_lem = λ w. (refl, refl);
  settime_lem = λ t w. refl;
  valid_lem = λ s b. refl;
  convert_lem = λ s b. refl;
}

asleep_lem :
    (n t : ℕ) (w : Times)
    → w.signals ≡ n
    → (((asleep n t w).0 ≡ 0) ⊎ ((asleep n t w).1.signals < w.signals))
      × ((asleep n t w).1.clock ≡ w.clock)
asleep_lem zero t w e = (inl refl, refl)
asleep_lem (suc n) t w e = (inr (omega (arith, e)), refl)

abbrev kernel_quiet : IsQuiet kernel clock_works
kernel_quiet = record {
  early = λ w. w.signals;
  range_lem = λ w. (omega arith, omega arith);
  ktime_lem = λ w. (refl, refl);
  timeout_lem = λ t w h. asleep_lem w.signals t w refl;
}

abbrev noon : Timespec
noon = record { tv_sec = 43200; tv_nsec = 700000000 }

abbrev start : Times
start = record { clock = 0; system = noon; signals = 1 }

-- A round finds the time changed, and sets the clock to it.
check_once_clock :
    check_once kernel 10 start
    ≡ ok tt (record {
      clock = 46811;
      system = record { tv_sec = 46810; tv_nsec = 700000000 };
      signals = 0;
    })
unfolding check_once get_time sleep has_jumped systohc nearest timespec_to_ns
check_once_clock = refl

systohc-rtc_hctosys_example : Does ((systohc kernel noon >> rtc_hctosys kernel) start) tt (λ v.
    (timespec_to_ns noon < timespec_to_ns (clock_works.system v))
    × (timespec_to_ns (clock_works.system v) ≤ timespec_to_ns noon + 1000000000))
systohc-rtc_hctosys_example =
    systohc-rtc_hctosys kernel clock_works noon start (omega arith) (omega arith)

check_once_lem_example :
    (u : Times) × (sleep kernel 10 10 start ≡ ok tt u)
    × Does
        (check_once kernel 10 start)
        tt
        (Checked kernel clock_works kernel_quiet noon (kernel.ktime_get_real_ts u).0 0)
check_once_lem_example = check_once_lem kernel clock_works kernel_quiet 10 start (omega arith)
