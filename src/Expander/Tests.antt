-- ===== src/Expander/Tests.antt =====
-- Runs of linux_kernel_modules/expander/expander.c on pins that are a function.
use mang_oh.Prelude.{ℕ, ◌≡◌, refl, true, none, some, List, [], ◌∷◌, Option, if◌then◌else◌, ◌==◌}
use mang_oh.Prelude.Monad.{ok, Does, after}
use mang_oh.Expander.{
  Output, tri_led_blu, active_low, Kernel, Device, show, pin, store, initial_outputs,
}
use mang_oh.Expander.Pins.{IsGpio}
use mang_oh.Expander.Outputs.{Stores, store_lem, initial_outputs_lem}

abbrev put : ℕ → ℕ → (ℕ → ℕ) → ℕ → ℕ
put at v w p = if p == at then v else w p

-- A string of one digit.
abbrev digit : List ℕ → Option ℕ
digit [] = none
digit (c ∷ cs) = if c == 0x31 then some 1 else if c == 0x30 then some 0 else none

abbrev kernel : Kernel
kernel = record {
  W = ℕ → ℕ;
  kstrtou8 = digit;
  request_one = λ at v open_drain w. ok tt (put at v w);
  set_value = λ at v w. put at v w;
  create_file = λ o w. ok tt w;
  remove_file = λ o w. w;
  kzalloc = λ w. (true, w);
}

kernel-IsGpio : IsGpio kernel
kernel-IsGpio = record {
  level = λ w. w;
  request_one_lem = λ at v d w. record { next = put at v w; returned = refl; result = λ p. refl };
  set_value_lem = λ at v w p. refl;
  create_file_lem = λ o w. record { next = w; returned = refl; result = refl };
  remove_file_lem = λ o w. refl;
}

abbrev device : Device (ℕ → ℕ)
device = record { val = λ o. 0; gpio_expander_base = 100; hw = λ p. 0 }

-- A 0 takes an LED, which is active low, to the level 1.
store_zero : (after (store kernel tri_led_blu (0x30 ∷ []) 1 device) device).hw 107 ≡ 1
unfolding store
store_zero = refl

store_lem_example : Stores kernel kernel-IsGpio (some 0) tri_led_blu (0x30 ∷ []) 1 device
store_lem_example = store_lem kernel kernel-IsGpio tri_led_blu (0x30 ∷ []) 1 (some 0) device refl

initial_outputs_lem_example : Does (initial_outputs kernel device) tt (λ t.
    (o : Output)
    → (show o t ≡ ok (if active_low o then 1 else 0) t)
      × (t.hw (pin o t) ≡ (if active_low o then 1 else 0)))
unfolding kernel-IsGpio
initial_outputs_lem_example = initial_outputs_lem kernel kernel-IsGpio device
