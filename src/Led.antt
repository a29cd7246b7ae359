-- ===== src/Led.antt =====
-- An LED on a pin: linux_kernel_modules/led/led.c. The log is left out.
pub mod InSync
mod Tests
use mang_oh.Prelude.{ℕ, Bool, true, false, Option, none, some, List, ltb, if◌then◌else◌}
use mang_oh.Prelude.Monad.{M, ok, err, halt, einval, enomem}

-- What the driver calls of the kernel: the number parser, devm_gpio_request_one for an output that
-- starts low, gpio_set_value_cansleep, the attribute's file, and devm_kzalloc and whether there was
-- memory.
pub record Kernel : Type 1 where
  pub W : Type 0
  pub kstrtou8 : List ℕ → Option ℕ
  pub request_low : ℕ → M W (Unit {0})
  pub set_value : ℕ → ℕ → W → W
  pub create_file : M W (Unit {0})
  pub remove_file : W → W
  pub kzalloc : W → Bool × W

-- struct led_device
pub record Led (W : Type 0) : Type 0 where
  pub val : ℕ
  pub gpio : ℕ
  pub hw : W

module _ (k : Kernel) where
  open k use {W, kstrtou8, request_low, set_value, create_file, remove_file, kzalloc}

  -- The number that is printed.
  unfoldable pub show : M (Led W) ℕ
  show s = ok s.val s

  -- The result is the count of bytes taken.
  unfoldable pub store : List ℕ → ℕ → M (Led W) ℕ
  store buf count s = elim (kstrtou8 buf) [
    | none ↦ err einval s
    | some v ↦
        if ltb 1 v
        then err einval s
        else ok count (record s { val = v; hw = set_value s.gpio v s.hw })
  ]

  -- With the pin of the platform data, if there is any.
  unfoldable pub probe : Option ℕ → M (Led W) (Unit {0})
  probe none s = err einval s
  probe (some gpio) s =
      let (found, w) = kzalloc s.hw in
      elim found [
        | false ↦ err enomem (record s { hw = w })
        | true ↦ elim (request_low gpio w) [
          | ok a x ↦ elim (create_file x) [
            | ok b y ↦ ok tt (record { val = 0; gpio = gpio; hw = y })
            | err e y ↦ err e (record s { hw = y })
            | halt f ↦ halt f
          ]
          | err e x ↦ err e (record s { hw = x })
          | halt f ↦ halt f
        ]
      ]

  unfoldable pub remove : M (Led W) (Unit {0})
  remove s = ok tt (record s { hw = set_value s.gpio 0 (remove_file s.hw) })
