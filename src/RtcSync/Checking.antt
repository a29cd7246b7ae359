-- ===== src/RtcSync/Checking.antt =====
-- A round of the thread of linux_kernel_modules/rtc_sync/rtc_sync.c.
use mang_oh.Prelude.{
  ◌+◌, ◌^◌, ◌⊎◌, false, ℕ, zero, suc, ◌*◌, ◌≤◌, ◌<◌, ◌≡◌, refl, ◌∙◌, inl, inr, Bool-cases,
  if◌then◌else◌, arith,
}
use mang_oh.Prelude.Monad.{M, ok, Does, pure, ◌>>=◌, >>-run}
use mang_oh.RtcSync.{
  timespec_to_ns, Kernel, Timespec, nearest, systohc, sleep, has_jumped, ignore_error, get_time,
  check_once,
}
use mang_oh.RtcSync.Steps.{nearest_near, has_jumped_lem, IsClock, systohc_lem}

-- The time that the kernel tells is of 31 bits and less than a second. Telling it leaves the clock
-- alone, and so does sleeping. A sleep is over with its timer, or is broken off by a signal: `early` is
-- how often that will still happen.
pub record IsQuiet (k : Kernel) (c : IsClock k) : Type 0 where
  pub early : k.W → ℕ
  pub range_lem :
      (w : k.W)
      → ((k.ktime_get_real_ts w).0.tv_sec + 1 < 2 ^ 31)
        × ((k.ktime_get_real_ts w).0.tv_nsec < 1000000000)
  pub ktime_lem :
      (w : k.W)
      → (c.stored (k.ktime_get_real_ts w).1 ≡ c.stored w)
        × (early (k.ktime_get_real_ts w).1 ≡ early w)
  pub timeout_lem :
      (t : ℕ) (w : k.W)
      → 0 < t
      → (((k.schedule_timeout t w).0 ≡ 0) ⊎ (early (k.schedule_timeout t w).1 < early w))
        × (c.stored (k.schedule_timeout t w).1 ≡ c.stored w)

-- Less than nine, or more than eleven seconds have passed between two times.
abbrev pub Changed : Timespec → Timespec → Type 0
Changed before after =
    (timespec_to_ns before + 11000000000 < timespec_to_ns after)
    ⊎ (timespec_to_ns after < timespec_to_ns before + 9000000000)

abbrev pub Unchanged : Timespec → Timespec → Type 0
Unchanged before after =
    (timespec_to_ns before + 9000000000 ≤ timespec_to_ns after)
    × (timespec_to_ns after ≤ timespec_to_ns before + 11000000000)

-- A second is the nearest one to a time.
abbrev pub Nearest : ℕ → Timespec → Type 0
Nearest second t =
    (timespec_to_ns t < second * 1000000000 + 500000000)
    × (second * 1000000000 ≤ timespec_to_ns t + 500000000)

module _ (k : Kernel) (c : IsClock k) (q : IsQuiet k c) where
  slept :
      (n left : ℕ) (v w : k.W)
      → ((u : k.W)
          → q.early u < n
          → (t : ℕ) → Does (sleep k n t u) tt (λ x. c.stored x ≡ c.stored u))
      → q.early w < suc n
      → (left ≡ 0) ⊎ (q.early v < q.early w)
      → Does (sleep k n left v) tt (λ x. c.stored x ≡ c.stored v)
  unfolding sleep
  slept n zero v w again h o = record { next = v; returned = refl; result = refl }
  slept n (suc t) v w again h (inl e) = absurd (omega (arith, e))
  slept n (suc t) v w again h (inr l) = again v (omega (arith, l, h)) (suc t)

  sleep_lem :
      (n : ℕ) (w : k.W)
      → q.early w < n
      → (timeout : ℕ) → Does (sleep k n timeout w) tt (λ v. c.stored v ≡ c.stored w)
  unfolding sleep
  sleep_lem n w h zero = record { next = w; returned = refl; result = refl }
  sleep_lem zero w h (suc timeout) = absurd (omega (arith, h))
  sleep_lem (suc n) w h (suc timeout) =
      let a = q.timeout_lem (suc timeout) w (omega arith) in
      let r = k.schedule_timeout (suc timeout) w in
      let d = slept n r.0 r.1 w (λ u l t. sleep_lem n u l t) h a.0 in
      record { next = d.next; returned = d.returned; result = d.result ∙ a.1 }

  -- The clock after a round, by the time before and after the sleep: the second nearest to the latter
  -- if they are not about ten seconds apart, and as it was otherwise.
  abbrev pub Checked : Timespec → Timespec → k.Tm → k.W → Type 0
  Checked before after tm v =
      (Changed before after
        × ((second : ℕ) × (c.stored v ≡ k.rtc_time_to_tm second) × Nearest second after))
      ⊎ (Unchanged before after × (c.stored v ≡ tm))

  abbrev compare_times : Timespec → Timespec → M k.W (Unit {0})
  compare_times before after =
      if has_jumped k before after then ignore_error k (systohc k after) else pure tt

  not_jumped :
      (before after : Timespec) → has_jumped k before after ≡ false → Unchanged before after
  unfolding has_jumped
  not_jumped before after e = (ground (arith, e), ground (arith, e))

  compared :
      (before after : Timespec) (tm : k.Tm) (w : k.W)
      → after.tv_sec + 1 < 2 ^ 31
      → after.tv_nsec < 1000000000
      → c.stored w ≡ tm
      → Does (compare_times before after w) tt (Checked before after tm)
  compared before after tm w b l same = elim (Bool-cases (has_jumped k before after)) [
    | inl e ↦
        let d = systohc_lem k c after w in
        let near = nearest_near k c after b l in
        record {
          next = d.next;
          returned = rw (e, ignore_error, d.returned) refl;
          result = inl (
            (has_jumped_lem k before after).0 e,
            (nearest k after, d.result, (near.0, omega (arith, near.1))),
          );
        }
    | inr e ↦ record {
      next = w;
      returned = rw e refl;
      result = inr (not_jumped before after e, same);
    }
  ]

  -- Over a clock that works and a kernel that tells the time in 31 bits and lets the thread sleep, a
  -- round of the thread ends, within one wake more than its sleep is broken off by signals. If less
  -- than nine or more than eleven seconds have passed on the system's clock, it sets the clock to the
  -- second nearest to the time after the sleep; it leaves the clock as it is otherwise.
  pub check_once_lem :
      (wakes : ℕ) (w : k.W)
      → q.early w < wakes
      → (u : k.W) × (sleep k wakes (10 * k.hz) (k.ktime_get_real_ts w).1 ≡ ok tt u)
        × Does
            (check_once k wakes w)
            tt
            (Checked (k.ktime_get_real_ts w).0 (k.ktime_get_real_ts u).0 (c.stored w))
  unfolding check_once get_time
  check_once_lem wakes w h =
      let before = (k.ktime_get_real_ts w).0 in
      let s =
        sleep_lem wakes (k.ktime_get_real_ts w).1 (omega (arith, h, (q.ktime_lem w).1))
          (10 * k.hz) in
      let after = (k.ktime_get_real_ts s.next).0 in
      let d =
        compared before after (c.stored w) (k.ktime_get_real_ts s.next).1 (q.range_lem s.next).0
          (q.range_lem s.next).1 ((q.ktime_lem s.next).0 ∙ s.result ∙ (q.ktime_lem w).0) in
      (
        s.next,
        s.returned,
        record {
          next = d.next;
          returned =
              >>-run (sleep k wakes (10 * k.hz)) (get_time k >>= compare_times before)
                {s = (k.ktime_get_real_ts w).1} s.returned
              ∙ d.returned;
          result = d.result;
        },
      )
