-- ===== src/RedMux/Tests.antt =====
-- Runs of linux_kernel_modules/mangoh/mangoh_red_mux.c on pins that are a function.
use mang_oh.Prelude.{ℕ, ◌≡◌, refl, true, false, [], ◌∷◌, arith, if◌then◌else◌, ◌==◌}
use mang_oh.Prelude.Monad.{ok}
use mang_oh.RedMux.{Gpio, board, iot_slot, Mux, State, sdio, pcm, reset}
use mang_oh.RedMux.Holds.{requested, IsGpio, selects, releases, none_held, calls, serve}
use mang_oh.RedMux.Interleaving.{on_sdio, on_pcm, serve_both, ops, ops-serve_both}
use mang_oh.RedMux.Switching.{Keeps, calls-serve}

abbrev put : ℕ → ℕ → (ℕ → ℕ) → ℕ → ℕ
put pin v w p = if p == pin then v else w p

abbrev pins : Gpio
pins = record {
  W = ℕ → ℕ;
  request_one = λ pin flags w. ok tt (put pin (requested flags (w pin)) w);
  direction_output = λ pin v w. ok tt (put pin v w);
  free = λ pin w. w;
}

pins-IsGpio : IsGpio pins
pins-IsGpio = record {
  level = λ w. w;
  request_one_lem = λ pin flags w. record {
    next = put pin (requested flags (w pin)) w;
    returned = refl;
    result = λ p. ground arith;
  };
  direction_output_lem =
      λ pin v w. record { next = put pin v w; returned = refl; result = λ p. refl };
}

abbrev high : ℕ → ℕ
high p = 1

-- A switch at pin 4 that nobody holds.
abbrev at_rest : Mux (ℕ → ℕ)
at_rest = record { mux_gpio = 4; current_selection = board; num_requested = 0; hw = high }

at_rest-Keeps : Keeps pins-IsGpio none_held at_rest
unfolding pins-IsGpio
at_rest-Keeps = record { at_board = refl; at_iot_slot = refl; pin = refl }

abbrev before : State (ℕ → ℕ)
before = record {
  sdio_mux_gpio = 0;
  sdio_current_selection = iot_slot;
  sdio_num_requested = 7;
  pcm_mux_gpio = 0;
  pcm_current_selection = iot_slot;
  pcm_num_requested = 7;
  hw = λ p. 0;
}

-- The slot is granted, the board refused, the slot given back, and the board granted.
calls-serve_example :
    let cs = selects iot_slot ∷ selects board ∷ releases iot_slot ∷ selects board ∷ [] in
    ((calls pins cs at_rest).0 ≡ true ∷ false ∷ true ∷ true ∷ [])
    × Keeps pins-IsGpio (serve cs none_held).1 (calls pins cs at_rest).1
unfolding serve
calls-serve_example =
    calls-serve pins pins-IsGpio
      (selects iot_slot ∷ selects board ∷ releases iot_slot ∷ selects board ∷ []) none_held at_rest
      at_rest-Keeps (omega arith)

-- Both switches at rest, at pins 4 and 5.
abbrev both_at_rest : State (ℕ → ℕ)
both_at_rest = reset pins 4 5 high

-- The slot has its side of the one switch, and the board that of the other one.
ops-serve_both_example :
    let os =
      on_sdio (selects iot_slot)
      ∷ on_pcm (selects board)
      ∷ on_sdio (selects board)
      ∷ on_pcm (selects iot_slot)
      ∷ [] in
    ((ops pins os both_at_rest).0 ≡ true ∷ true ∷ false ∷ false ∷ [])
    × Keeps pins-IsGpio (serve_both os none_held none_held).1 (sdio (ops pins os both_at_rest).1)
    × Keeps pins-IsGpio (serve_both os none_held none_held).2 (pcm (ops pins os both_at_rest).1)
unfolding pins-IsGpio serve_both
ops-serve_both_example =
    ops-serve_both pins pins-IsGpio
      (on_sdio (selects iot_slot)
        ∷ on_pcm (selects board)
        ∷ on_sdio (selects board)
        ∷ on_pcm (selects iot_slot)
        ∷ [])
      none_held none_held both_at_rest (record { at_board = refl; at_iot_slot = refl; pin = refl })
      (record { at_board = refl; at_iot_slot = refl; pin = refl }) (omega arith) (omega arith)
      (omega arith)
