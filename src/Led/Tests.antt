-- ===== src/Led/Tests.antt =====
-- Runs of linux_kernel_modules/led/led.c on pins that are a function.
use mang_oh.Prelude.{
  ℕ, ◌≤◌, ◌<◌, ◌≡◌, ◌⊎◌, refl, arith, true, none, some, List, [], ◌∷◌, Option, if◌then◌else◌, ◌==◌,
}
use mang_oh.Prelude.Monad.{ok, err, einval, Does}
use mang_oh.Led.{Kernel, Led, show, store}
use mang_oh.Led.InSync.{IsGpio, show-store}

abbrev put : ℕ → ℕ → (ℕ → ℕ) → ℕ → ℕ
put at v w p = if p == at then v else w p

-- A string of one byte stands for its number.
abbrev number : List ℕ → Option ℕ
number [] = none
number (c ∷ cs) = some c

abbrev kernel : Kernel
kernel = record {
  W = ℕ → ℕ;
  kstrtou8 = number;
  request_low = λ at w. ok tt (put at 0 w);
  set_value = λ at v w. put at v w;
  create_file = λ w. ok tt w;
  remove_file = λ w. w;
  kzalloc = λ w. (true, w);
}

kernel-IsGpio : IsGpio kernel
kernel-IsGpio = record {
  level = λ w. w;
  kzalloc_lem = λ w. refl;
  request_low_lem = λ at w. record { next = put at 0 w; returned = refl; result = ground arith };
  create_file_lem = λ w. record { next = w; returned = refl; result = refl };
  set_value_lem = λ at v w. ground arith;
}

abbrev led : Led (ℕ → ℕ)
led = record { val = 0; gpio = 9; hw = λ p. 1 }

show-store_example :
    Does (store kernel (1 ∷ []) 1 led) 1 (λ t. (1 ≤ 1) × (show kernel t ≡ ok 1 t) × (t.hw 9 ≡ 1))
    ⊎ ((1 < 1) × (store kernel (1 ∷ []) 1 led ≡ err einval led))
unfolding kernel-IsGpio
show-store_example = show-store kernel kernel-IsGpio (1 ∷ []) 1 1 led refl
