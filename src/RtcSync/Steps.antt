-- ===== src/RtcSync/Steps.antt =====
-- What linux_kernel_modules/rtc_sync/rtc_sync.c does to the system time and to the clock.
use mang_oh.Prelude.{
  ◌^◌, ℕ, ◌+◌, ◌*◌, ◌≤◌, ◌<◌, ◌≡◌, refl, ap, ◌∙◌, ◌↔◌, ◌⊎◌, inl, inr, true, Bool-cases, ltb, arith,
}
use mang_oh.Prelude.Monad.{Does, Does-then, Does-weaken, ◌>>◌}
use mang_oh.RtcSync.{
  Kernel, Timespec, timespec_to_ns, guess, nearest, rtc_hctosys, systohc, has_jumped,
}

-- A clock that works: it is there, shows what it was set to, and the conversions fit together for the
-- times of a 32-bit time_t.
pub record IsClock (k : Kernel) : Type 0 where
  pub stored : k.W → k.Tm
  pub system : k.W → Timespec
  pub open_lem :
      (w : k.W) → ((k.rtc_class_open w).0 ≡ true) × (stored (k.rtc_class_open w).1 ≡ stored w)
  pub close_lem :
      (w : k.W)
      → (stored (k.rtc_class_close w) ≡ stored w) × (system (k.rtc_class_close w) ≡ system w)
  pub has_lem : (w : k.W) → k.has_set_time w ≡ true
  pub set_lem :
      (tm : k.Tm) (w : k.W) → ((k.rtc_set_time tm w).0 ≡ 0) × (stored (k.rtc_set_time tm w).1 ≡ tm)
  pub read_lem : (w : k.W) → ((k.rtc_read_time w).0 ≡ 0) × ((k.rtc_read_time w).1 ≡ stored w)
  pub settime_lem : (t : Timespec) (w : k.W) → system (k.do_settimeofday t w) ≡ t
  pub valid_lem : (s : ℕ) → s < 2 ^ 31 → k.rtc_valid_tm (k.rtc_time_to_tm s) ≡ 0
  pub convert_lem : (s : ℕ) → s < 2 ^ 31 → k.rtc_tm_to_time (k.rtc_time_to_tm s) ≡ s

module _ (k : Kernel) (c : IsClock k) where
  pub systohc_lem :
      (now : Timespec) (w : k.W)
      → Does (systohc k now w) tt (λ v. c.stored v ≡ k.rtc_time_to_tm (nearest k now))
  unfolding systohc
  systohc_lem now w =
      let tm = k.rtc_time_to_tm (nearest k now) in
      let v = (k.rtc_class_open w).1 in
      let u = (k.rtc_set_time tm v).1 in
      record {
        next = k.rtc_class_close u;
        returned = rw (systohc, (c.open_lem w).0, c.has_lem v, (c.set_lem tm v).0) refl;
        result = (c.close_lem u).0 ∙ (c.set_lem tm v).1;
      }

  rtc_hctosys_lem :
      (s : ℕ) (w : k.W)
      → s < 2 ^ 31
      → c.stored w ≡ k.rtc_time_to_tm s
      → Does (rtc_hctosys k w) tt (λ v. c.system v ≡ record { tv_sec = s; tv_nsec = 500000000 })
  unfolding rtc_hctosys guess
  rtc_hctosys_lem s w b e =
      let v = (k.rtc_class_open w).1 in
      let (code, tm) = c.read_lem v in
      let u = (k.rtc_read_time v).2 in
      let shown : (k.rtc_read_time v).1 ≡ k.rtc_time_to_tm s = tm ∙ (c.open_lem w).1 ∙ e in
      let t = guess k (k.rtc_time_to_tm s) in
      record {
        next = k.rtc_class_close (k.do_settimeofday t u);
        returned = rw (rtc_hctosys, (c.open_lem w).0, code, shown, c.valid_lem s b) refl;
        result =
            (c.close_lem (k.do_settimeofday t u)).1
            ∙ c.settime_lem t u
            ∙ ap (λ (x : ℕ). record { tv_sec = x; tv_nsec = 500000000 }) (c.convert_lem s b);
      }

  pub nearest_near :
      (now : Timespec)
      → now.tv_sec + 1 < 2 ^ 31
      → now.tv_nsec < 1000000000
      → (timespec_to_ns now < nearest k now * 1000000000 + 500000000)
        × (nearest k now * 1000000000 + 500000000 ≤ timespec_to_ns now + 1000000000)
  unfolding nearest timespec_to_ns
  nearest_near now b l = elim (Bool-cases (ltb now.tv_nsec 500000000)) [
    | inl e ↦ rw (nearest, e) (ground (arith, e, b), ground (arith, e, b))
    | inr e ↦ rw (nearest, e) (ground (arith, e, l, b), ground (arith, e, l, b))
  ]

  nearest_fits : (now : Timespec) → now.tv_sec + 1 < 2 ^ 31 → nearest k now < 2 ^ 31
  unfolding nearest
  nearest_fits now b = ground (arith, b)

  -- The system time, whose second has one after it in 31 bits, stored in a clock that works and read
  -- back at once, comes back later than it was, by a second at most.
  pub systohc-rtc_hctosys :
      (now : Timespec) (w : k.W)
      → now.tv_sec + 1 < 2 ^ 31
      → now.tv_nsec < 1000000000
      → Does ((systohc k now >> rtc_hctosys k) w) tt (λ v.
        (timespec_to_ns now < timespec_to_ns (c.system v))
        × (timespec_to_ns (c.system v) ≤ timespec_to_ns now + 1000000000))
  unfolding timespec_to_ns
  systohc-rtc_hctosys now w b l =
      Does-then (systohc k now) (rtc_hctosys k) w (systohc_lem now w) (λ v e.
        Does-weaken (λ u f. near u f) (rtc_hctosys_lem (nearest k now) v (nearest_fits now b) e))
    where
      near :
          (u : k.W)
          → c.system u ≡ record { tv_sec = nearest k now; tv_nsec = 500000000 }
          → (timespec_to_ns now < timespec_to_ns (c.system u))
            × (timespec_to_ns (c.system u) ≤ timespec_to_ns now + 1000000000)
      near u f = rw f (nearest_near now b l)

-- The thread takes the time to have been changed during its ten seconds if and only if more than
-- eleven, or less than nine, have passed on the system's clock.
pub has_jumped_lem :
    (k : Kernel) (before after : Timespec)
    → (has_jumped k before after ≡ true) ↔ (
        (timespec_to_ns before + 11000000000 < timespec_to_ns after)
        ⊎ (timespec_to_ns after < timespec_to_ns before + 9000000000))
unfolding has_jumped
has_jumped_lem k before after = ground arith
