-- ===== src/RedMux.antt =====
-- The two bus switches of the mangOH Red: linux_kernel_modules/mangoh/mangoh_red_mux.c. Each of the
-- functions takes its switch's mutex at the start and releases it at the end, so a call is one step;
-- the mutex is left out, and so is the log.
pub mod Holds
pub mod Switching
pub mod Interleaving
mod Tests
use mang_oh.Prelude.{ℕ, ◌+◌, ◌-◌, ◌%◌, ◌^◌, Bool, true, false, List, [], ◌∷◌, if◌then◌else◌, ◌==◌}
use mang_oh.Prelude.Monad.{M, Out, ok, err, halt, pure, fail, ebusy, eacces, enolck, ◌>>◌}

-- The flag of a request of a pin.
pub data Flags : Type 0 where
  gpiof_in gpiof_out_init_low gpiof_out_init_high : Flags

-- What the switches call of the kernel: devm_gpio_request_one with its flag,
-- gpio_direction_output, devm_gpio_free.
pub record Gpio : Type 1 where
  pub W : Type 0
  pub request_one : ℕ → Flags → M W (Unit {0})
  pub direction_output : ℕ → ℕ → M W (Unit {0})
  pub free : ℕ → W → W

-- enum sdio_selection and enum pcm_selection: the IoT slot, or the board's own side, which is
-- SDIO_SELECTION_SD_CARD_SLOT and PCM_SELECTION_ONBOARD.
pub data Selection : Type 0 where
  board iot_slot : Selection

abbrev pub same : Selection → Selection → Bool
same board board = true
same board iot_slot = false
same iot_slot board = false
same iot_slot iot_slot = true

-- The level of the pin.
abbrev pub level_of : Selection → ℕ
level_of board = 1
level_of iot_slot = 0

-- sdio_mux_gpio, sdio_current_selection and sdio_num_requested, or those of pcm, with the kernel.
pub record Mux (W : Type 0) : Type 0 where
  pub mux_gpio : ℕ
  pub current_selection : Selection
  pub num_requested : ℕ
  pub hw : W

pub record State (W : Type 0) : Type 0 where
  pub sdio_mux_gpio : ℕ
  pub sdio_current_selection : Selection
  pub sdio_num_requested : ℕ
  pub pcm_mux_gpio : ℕ
  pub pcm_current_selection : Selection
  pub pcm_num_requested : ℕ
  pub hw : W

module _ {W : Type 0} where
  abbrev pub sdio : State W → Mux W
  sdio s = record {
    mux_gpio = s.sdio_mux_gpio;
    current_selection = s.sdio_current_selection;
    num_requested = s.sdio_num_requested;
    hw = s.hw;
  }

  abbrev pub put_sdio : State W → Mux W → State W
  put_sdio s m = record s {
    sdio_mux_gpio = m.mux_gpio;
    sdio_current_selection = m.current_selection;
    sdio_num_requested = m.num_requested;
    hw = m.hw;
  }

  abbrev pub pcm : State W → Mux W
  pcm s = record {
    mux_gpio = s.pcm_mux_gpio;
    current_selection = s.pcm_current_selection;
    num_requested = s.pcm_num_requested;
    hw = s.hw;
  }

  abbrev pub put_pcm : State W → Mux W → State W
  put_pcm s m = record s {
    pcm_mux_gpio = m.mux_gpio;
    pcm_current_selection = m.current_selection;
    pcm_num_requested = m.num_requested;
    hw = m.hw;
  }

  -- A call on one of the two switches.
  abbrev pub on :
      (State W → Mux W)
      → (State W → Mux W → State W)
      → M (Mux W) (Unit {0})
      → M (State W) (Unit {0})
  on get put m s = elim (m (get s)) [
    | ok a t ↦ ok a (put s t)
    | err e t ↦ err e (put s t)
    | halt f ↦ halt f
  ]

  -- The body of sdio_release and of pcm_release.
  unfoldable pub release : Selection → M (Mux W) (Unit {0})
  release selection m =
      if same selection m.current_selection
      then (if m.num_requested == 0
          then err enolck m
          else ok tt (record m { num_requested = m.num_requested - 1 }))
      else err eacces m

  unfoldable pub sdio_release : Selection → M (State W) (Unit {0})
  unfolding release
  sdio_release selection = on sdio put_sdio (release selection)

  unfoldable pub pcm_release : Selection → M (State W) (Unit {0})
  unfolding release
  pcm_release selection = on pcm put_pcm (release selection)

module _ (g : Gpio) where
  open g use {W, request_one, direction_output, free}

  -- gpio_direction_output, seen from a switch.
  abbrev pub drive : ℕ → M (Mux W) (Unit {0})
  drive v m = elim (direction_output m.mux_gpio v m.hw) [
    | ok a w ↦ ok a (record m { hw = w })
    | err e w ↦ err e (record m { hw = w })
    | halt f ↦ halt f
  ]

  abbrev pub granted : Selection → M (Mux W) (Unit {0})
  granted selection m =
      ok tt
        (record m { current_selection = selection; num_requested = (m.num_requested + 1) % 2 ^ 32 })

  -- The body of sdio_select and of pcm_select.
  unfoldable pub select : Selection → M (Mux W) (Unit {0})
  select selection m =
      if same selection m.current_selection
      then ok tt (record m { num_requested = (m.num_requested + 1) % 2 ^ 32 })
      else (if m.num_requested == 0
          then (drive (level_of selection) >> granted selection) m
          else err ebusy m)

  unfoldable pub sdio_select : Selection → M (State W) (Unit {0})
  unfolding select
  sdio_select selection = on sdio put_sdio (select selection)

  unfoldable pub pcm_select : Selection → M (State W) (Unit {0})
  unfolding select
  pcm_select selection = on pcm put_pcm (select selection)

  -- The variables as they are after the pins are requested.
  abbrev pub reset : ℕ → ℕ → W → State W
  reset sdio_gpio pcm_gpio w = record {
    sdio_mux_gpio = sdio_gpio;
    sdio_current_selection = board;
    sdio_num_requested = 0;
    pcm_mux_gpio = pcm_gpio;
    pcm_current_selection = board;
    pcm_num_requested = 0;
    hw = w;
  }

  abbrev pub at_hw : State W → ℕ → ℕ → W → State W
  at_hw s sdio_gpio pcm_gpio w = record s {
    sdio_mux_gpio = sdio_gpio;
    pcm_mux_gpio = pcm_gpio;
    hw = w;
  }

  unfoldable pub init : ℕ → ℕ → M (State W) (Unit {0})
  init sdio_gpio pcm_gpio s = elim (request_one sdio_gpio gpiof_out_init_high s.hw) [
    | ok a w ↦ elim (request_one pcm_gpio gpiof_out_init_high w) [
      | ok b x ↦ ok tt (reset sdio_gpio pcm_gpio x)
      | err e x ↦ err e (at_hw s sdio_gpio pcm_gpio (free sdio_gpio x))
      | halt f ↦ halt f
    ]
    | err e w ↦ err e (at_hw s sdio_gpio pcm_gpio w)
    | halt f ↦ halt f
  ]

  unfoldable pub deinit : M (State W) (Unit {0})
  deinit s = ok tt (record s { hw = free s.sdio_mux_gpio (free s.pcm_mux_gpio s.hw) })
