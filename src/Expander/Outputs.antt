-- ===== src/Expander/Outputs.antt =====
-- The outputs of linux_kernel_modules/expander/expander.c and their pins.
use mang_oh.Prelude.{
  Option, ◌-◌, ℕ, none, ◌<◌, ◌⊎◌, inl, inr, le-or-lt, lt→ltb, ◌≤◌, ◌≡◌, ◌≢◌, refl, ap, ◌∙◌, Bool,
  true, false, some, List, arith, if◌then◌else◌, ◌==◌, [], ◌∷◌, All, le→ltb,
}
use mang_oh.Prelude.Monad.{M, Out, ok, err, einval, Does, >>-run, Does-then, Does-weaken, ◌>>◌}
use mang_oh.Expander.{
  Output, generic_led, pcm_sel, wl_reg_on, tri_led_blu, tri_led_red, tri_led_grn, same, offset_of,
  active_low, Kernel, Device, show, atomic_set, pin, kernel_call, modify, level_for, store,
  gpio_initial_status, initial_outputs,
}
use mang_oh.Expander.Pins.{IsGpio}

same_refl : (o : Output) → same o o ≡ true
same_refl generic_led = refl
same_refl pcm_sel = refl
same_refl wl_reg_on = refl
same_refl tri_led_blu = refl
same_refl tri_led_red = refl
same_refl tri_led_grn = refl

module _ (k : Kernel) (ig : IsGpio k) where
  open ig use {level}

  -- Refused with EINVAL, and nothing changes.
  abbrev pub Refused : Output → List ℕ → ℕ → Device k.W → Type 0
  Refused o buf count s = store k o buf count s ≡ err einval s

  -- The number is the one that is shown, its pin has it for its level, or the other level if the output
  -- is active low, and every other pin stays as it is.
  abbrev pub Kept : Output → ℕ → Device k.W → Device k.W → Type 0
  Kept o v s t =
      (show o t ≡ ok v t)
      × (level t.hw (pin o s) ≡ (if active_low o then 1 - v else v))
      × ((p : ℕ) → p ≢ pin o s → level t.hw p ≡ level s.hw p)

  -- What happens to bytes, by the number that they are.
  abbrev pub Stores : Option ℕ → Output → List ℕ → ℕ → Device k.W → Type 0
  Stores none o buf count s = Refused o buf count s
  Stores (some v) o buf count s =
      ((v ≤ 1) × Does (store k o buf count s) count (Kept o v s))
      ⊎ ((1 < v) × Refused o buf count s)

  -- Bytes that are no number, or one above 1, are refused with EINVAL, and nothing changes. With pins
  -- that work, any other number is the one that is shown, and the pin of the output has it for its
  -- level, or the other level if the output is active low; every other pin stays as it is.
  pub store_lem :
      (o : Output) (buf : List ℕ) (count : ℕ) (parsed : Option ℕ) (s : Device k.W)
      → k.kstrtou8 buf ≡ parsed
      → Stores parsed o buf count s
  unfolding store show
  store_lem o buf count none s e = rw (store, e) refl
  store_lem o buf count (some v) s e = elim (le-or-lt v 1) [
    | inr l ↦ inr (l, rw (store, e, lt→ltb 1 v l) refl)
    | inl l ↦
        let t = atomic_set o v s in
        let driven = ig.set_value_lem (pin o s) (level_for k o v) s.hw in
        inl (
          l,
          record {
            next = record t { hw = k.set_value (pin o t) (level_for k o v) t.hw };
            returned = rw (store, e, le→ltb 1 v l) refl;
            result = (
              rw (same_refl o) refl,
              ground (arith, driven (pin o s)),
              λ p d. ground (arith, driven p),
            );
          },
        )
  ]

  -- The device with one output set, at its pin too.
  record Set (o : Output) (v : ℕ) (s t : Device k.W) : Type 0 where
    base : t.gpio_expander_base ≡ s.gpio_expander_base
    value : (p : Output) → t.val p ≡ (if same p o then v else s.val p)
    driven : (p : ℕ) → level t.hw p ≡ (if p == pin o s then v else level s.hw p)

  kernel_call_lem :
      (m : k.W → Out k.W (Unit {0})) (s : Device k.W) {w : k.W}
      → m s.hw ≡ ok tt w
      → kernel_call m s ≡ ok tt (record s { hw = w })
  kernel_call_lem m s e = rw (kernel_call, e) refl

  initial_lem :
      (o : Output) (v : ℕ) (open_drain : Bool) (s : Device k.W)
      → Does (gpio_initial_status k o v open_drain s) tt (Set o v s)
  unfolding gpio_initial_status
  initial_lem o v open_drain s =
      let a = ig.request_one_lem (pin o s) v open_drain s.hw in
      let b = ig.create_file_lem o a.next in
      record {
        next = record (atomic_set o v s) { hw = b.next };
        returned =
            >>-run (kernel_call (k.request_one (pin o s) v open_drain))
              (modify (atomic_set o v) >> kernel_call (k.create_file o)) {s = s}
              (kernel_call_lem (k.request_one (pin o s) v open_drain) s a.returned)
            ∙ kernel_call_lem (k.create_file o) (record (atomic_set o v s) { hw = a.next })
                b.returned;
        result = record {
          base = refl;
          value = λ p. refl;
          driven = λ p. ap (λ (l : ℕ → ℕ). l p) b.result ∙ a.result p;
        };
      }

  abbrev status : Output → ℕ → Bool → M (Device k.W) (Unit {0})
  status = gpio_initial_status k

  -- The level that the probe gives an output.
  abbrev initial : Output → ℕ
  initial o = if active_low o then 1 else 0

  -- An output that shows its first level, which its pin has.
  Settled : Output → Device k.W → Type 0
  Settled o s = (s.val o ≡ initial o) × (level s.hw (pin o s) ≡ initial o)

  fresh : (o : Output) (s t : Device k.W) → Set o (initial o) s t → Settled o t
  unfolding Settled
  fresh o s t e = (e.value o ∙ rw (same_refl o) refl, ground (arith, e.base, e.driven (pin o t)))

  kept :
      (o p : Output) (v : ℕ) (s t : Device k.W)
      → same p o ≡ false
      → offset_of p ≢ offset_of o
      → Set o v s t
      → Settled p s
      → Settled p t
  unfolding Settled
  kept o p v s t d x e g = (e.value p ∙ rw (d) g.0, ground (arith, e.base, e.driven (pin p t), g.1))

  Apart : Output → Output → Type 0
  Apart o p = (same p o ≡ false) × (offset_of p ≢ offset_of o)

  kept_each :
      (o : Output) (v : ℕ) (s t : Device k.W) (ps : List Output)
      → All (Apart o) ps
      → Set o v s t
      → All (λ p. Settled p s) ps
      → All (λ p. Settled p t) ps
  unfolding Apart
  kept_each o v s t [] d e g = tt
  kept_each o v s t (p ∷ ps) d e g =
      (kept o p v s t d.0.0 d.0.1 e g.0, kept_each o v s t ps d.1 e g.1)

  initial_step :
      (o : Output) (open_drain : Bool) (s : Device k.W) (ps : List Output)
      → All (Apart o) ps
      → All (λ p. Settled p s) ps
      → Does (status o (initial o) open_drain s) tt (λ t. All (λ p. Settled p t) (o ∷ ps))
  initial_step o open_drain s ps d g =
      Does-weaken (λ t e. (fresh o s t e, kept_each o (initial o) s t ps d e g))
        (initial_lem o (initial o) open_drain s)

  settled :
      (t : Device k.W)
      → All
          (λ p. Settled p t)
          (tri_led_grn ∷ tri_led_red ∷ tri_led_blu ∷ wl_reg_on ∷ pcm_sel ∷ generic_led ∷ [])
      → (o : Output) → (show o t ≡ ok (initial o) t) × (level t.hw (pin o t) ≡ initial o)
  unfolding Settled show
  settled t (a, (b, (c, (d, (e, (f, g)))))) tri_led_grn = (ap (λ (v : ℕ). ok v t) a.0, a.1)
  settled t (a, (b, (c, (d, (e, (f, g)))))) tri_led_red = (ap (λ (v : ℕ). ok v t) b.0, b.1)
  settled t (a, (b, (c, (d, (e, (f, g)))))) tri_led_blu = (ap (λ (v : ℕ). ok v t) c.0, c.1)
  settled t (a, (b, (c, (d, (e, (f, g)))))) wl_reg_on = (ap (λ (v : ℕ). ok v t) d.0, d.1)
  settled t (a, (b, (c, (d, (e, (f, g)))))) pcm_sel = (ap (λ (v : ℕ). ok v t) e.0, e.1)
  settled t (a, (b, (c, (d, (e, (f, g)))))) generic_led = (ap (λ (v : ℕ). ok v t) f.0, f.1)

  -- With a kernel that works, the probe gives the LEDs, which are active low, the level 1 and the two
  -- other outputs the level 0, and each of them shows its level as its value: an LED that is off
  -- shows 1.
  pub initial_outputs_lem :
      (s : Device k.W)
      → Does
          (initial_outputs k s)
          tt
          (λ t. (o : Output) → (show o t ≡ ok (initial o) t) × (level t.hw (pin o t) ≡ initial o))
  unfolding initial_outputs Apart
  initial_outputs_lem s =
      Does-then (status generic_led 1 true)
        (status pcm_sel 0 false
          >> (status wl_reg_on 0 false
              >> (status tri_led_blu 1 true
                  >> (status tri_led_red 1 true >> status tri_led_grn 1 true))))
        s (initial_step generic_led true s ([]) tt tt)
        (λ a ga.
          Does-then (status pcm_sel 0 false)
            (status wl_reg_on 0 false
              >> (status tri_led_blu 1 true
                  >> (status tri_led_red 1 true >> status tri_led_grn 1 true)))
            a (initial_step pcm_sel false a (generic_led ∷ []) ((refl, omega arith), tt) ga)
            (λ b gb.
              Does-then (status wl_reg_on 0 false)
                (status tri_led_blu 1 true
                  >> (status tri_led_red 1 true >> status tri_led_grn 1 true))
                b
                (initial_step wl_reg_on false b (pcm_sel ∷ generic_led ∷ [])
                  ((refl, omega arith), ((refl, omega arith), tt)) gb)
                (λ c gc.
                  Does-then (status tri_led_blu 1 true)
                    (status tri_led_red 1 true >> status tri_led_grn 1 true) c
                    (initial_step tri_led_blu true c (wl_reg_on ∷ pcm_sel ∷ generic_led ∷ [])
                      ((refl, omega arith), ((refl, omega arith), ((refl, omega arith), tt))) gc)
                    (λ d gd.
                      Does-then (status tri_led_red 1 true) (status tri_led_grn 1 true) d
                        (initial_step tri_led_red true d
                          (tri_led_blu ∷ wl_reg_on ∷ pcm_sel ∷ generic_led ∷ [])
                          (
                            (refl, omega arith),
                            ((refl, omega arith), ((refl, omega arith), ((refl, omega arith), tt))),
                          )
                          gd)
                        (λ e ge.
                          Does-weaken (λ f gf o. settled f gf o)
                            (initial_step tri_led_grn true e
                              (tri_led_red ∷ tri_led_blu ∷ wl_reg_on ∷ pcm_sel ∷ generic_led ∷ [])
                              (
                                (refl, omega arith),
                                (
                                  (refl, omega arith),
                                  (
                                    (refl, omega arith),
                                    ((refl, omega arith), ((refl, omega arith), tt)),
                                  ),
                                ),
                              )
                              ge))))))
