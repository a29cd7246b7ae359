-- ===== src/Led/InSync.antt =====
-- The LED of linux_kernel_modules/led/led.c and its pin.
use mang_oh.Prelude.{
  ℕ, ◌≤◌, ◌<◌, ◌≡◌, ◌⊎◌, inl, inr, refl, ap, ◌∙◌, true, some, List, le→ltb, lt→ltb, le-or-lt,
}
use mang_oh.Prelude.Monad.{ok, err, einval, Does}
use mang_oh.Led.{Kernel, Led, show, store, probe}

-- A kernel whose calls succeed, and drive the pin that they name.
pub record IsGpio (k : Kernel) : Type 0 where
  pub level : k.W → ℕ → ℕ
  pub kzalloc_lem : (w : k.W) → (k.kzalloc w).0 ≡ true
  pub request_low_lem : (pin : ℕ) (w : k.W) → Does (k.request_low pin w) tt (λ w'. level w' pin ≡ 0)
  pub create_file_lem : (w : k.W) → Does (k.create_file w) tt (λ w'. level w' ≡ level w)
  pub set_value_lem : (pin v : ℕ) (w : k.W) → level (k.set_value pin v w) pin ≡ v

module _ (k : Kernel) (ig : IsGpio k) where
  open ig use {level}

  -- With a kernel whose calls succeed, the probe leaves the LED off, and shows 0.
  show-probe :
      (gpio : ℕ) (s : Led k.W)
      → Does
          (probe k (some gpio) s)
          tt
          (λ t. (t.gpio ≡ gpio) × (show k t ≡ ok 0 t) × (level t.hw gpio ≡ 0))
  unfolding probe show
  show-probe gpio s =
      let a = ig.request_low_lem gpio (k.kzalloc s.hw).1 in
      let b = ig.create_file_lem a.next in
      record {
        next = record { val = 0; gpio = gpio; hw = b.next };
        returned = rw (probe, ig.kzalloc_lem s.hw, a.returned, b.returned) refl;
        result = (refl, refl, ap (λ (l : ℕ → ℕ). l gpio) b.result ∙ a.result);
      }

  -- With a kernel whose calls succeed, a number that is stored is the one that is shown and the
  -- level of the pin, if it is 0 or 1; any
  -- other one is refused with EINVAL, and nothing changes.
  pub show-store :
      (buf : List ℕ) (count v : ℕ) (s : Led k.W)
      → k.kstrtou8 buf ≡ some v
      → Does
          (store k buf count s)
          count
          (λ t. (v ≤ 1) × (show k t ≡ ok v t) × (level t.hw s.gpio ≡ v))
        ⊎ ((1 < v) × (store k buf count s ≡ err einval s))
  unfolding store show
  show-store buf count v s e = elim (le-or-lt v 1) [
    | inl l ↦ inl (record {
      next = record s { val = v; hw = k.set_value s.gpio v s.hw };
      returned = rw (store, e, le→ltb 1 v l) refl;
      result = (l, refl, ig.set_value_lem s.gpio v s.hw);
    })
    | inr l ↦ inr (l, rw (store, e, lt→ltb 1 v l) refl)
  ]
