-- ===== src/Expander/Pins.antt =====
-- Pins that work, as linux_kernel_modules/expander/expander.c relies on them.
use mang_oh.Prelude.{ℕ, ◌≡◌, Bool, if◌then◌else◌, ◌==◌}
use mang_oh.Prelude.Monad.{Does}
use mang_oh.Expander.{Output, Kernel}

pub record IsGpio (k : Kernel) : Type 0 where
  pub level : k.W → ℕ → ℕ
  pub request_one_lem :
      (pin v : ℕ) (open_drain : Bool) (w : k.W)
      → Does
          (k.request_one pin v open_drain w)
          tt
          (λ w'. (p : ℕ) → level w' p ≡ (if p == pin then v else level w p))
  pub set_value_lem :
      (pin v : ℕ) (w : k.W) (p : ℕ)
      → level (k.set_value pin v w) p ≡ (if p == pin then v else level w p)
  pub create_file_lem :
      (o : Output) (w : k.W) → Does (k.create_file o w) tt (λ w'. level w' ≡ level w)
  pub remove_file_lem : (o : Output) (w : k.W) → level (k.remove_file o w) ≡ level w
