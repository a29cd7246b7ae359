-- ===== src/IotSlot/Calls.antt =====
-- What linux_kernel_modules/iot_slot/iot-slot-core.c asks of the kernel and of the board. What they
-- answer is a parameter, which may depend on all calls before; the calls are kept in a log.
use mang_oh.Prelude.{ℕ, not, List, ◌∷◌, ◌==◌, if◌then◌else◌, Option, none, some}
use mang_oh.Eeprom.{Kernel}

-- The flags of a request of a pin: GPIOF_IN, or GPIOF_OUT_INIT_HIGH | GPIOF_ACTIVE_LOW.
pub data Flags : Type 0 where
  gpiof_in out_high_active_low : Flags

-- struct i2c_board_info and struct spi_board_info: the name, the interrupt, and the address or the
-- chip select.
pub record Board : Type 0 where
  pub modalias : List ℕ
  pub line : ℕ
  pub select : ℕ

pub data Call : Type 0 where
  devm_kzalloc kzalloc kfree new_eeprom unregister_eeprom : Call
  gpio_request_one : (gpio : ℕ) → (flags : Flags) → Call
  gpio_free : (gpio : ℕ) → Call
  gpio_get_value : (gpio : ℕ) → Call
  gpio_set_value : (gpio : ℕ) → (value : ℕ) → Call
  gpio_direction_output : (gpio : ℕ) → (value : ℕ) → Call
  gpio_direction_input : (gpio : ℕ) → Call
  gpio_pull_up : (gpio : ℕ) → Call
  gpio_pull_down : (gpio : ℕ) → Call
  gpio_to_irq : (gpio : ℕ) → Call
  msleep : (ms : ℕ) → Call
  i2c_new_device : (i2c_adapter : ℕ) → (board : Board) → Call
  i2c_unregister_device : (client : ℕ) → Call
  spi_new_device : (master : ℕ) → (board : Board) → Call
  spi_unregister_device : (device : ℕ) → Call
  request_i2c release_i2c request_spi release_spi request_uart release_uart : Call
  request_adc release_adc request_sdio release_sdio request_pcm release_pcm : Call

-- The calls and what they returned, the last one first: a code, a level, or an address that is 0 for
-- NULL.
abbrev pub Log : Type 0
Log = List (Call × ℕ)

-- The kernel and the board: what a call returns, what a read of the EEPROM gives if it succeeds, and
-- what request_i2c and request_spi leave in their output parameters.
pub record Env : Type 0 where
  pub answer : Log → Call → ℕ
  pub contents : Log → Option (ℕ → ℕ)
  pub adapter : Log → ℕ
  pub spi_master : Log → ℕ
  pub chip_select : Log → ℕ

-- The part of it that the code for the EEPROM uses.
abbrev pub kernel : Env → Kernel
kernel env = record {
  W = Log;
  kzalloc = λ w. let a = env.answer w kzalloc in (not (a == 0), (kzalloc, a) ∷ w);
  kfree = λ w. (kfree, 0) ∷ w;
  new_device = λ w.
      let a = env.answer w new_eeprom in
      (if a == 0 then none else some (env.contents w), (new_eeprom, a) ∷ w);
  unregister_device = λ w. (unregister_eeprom, 0) ∷ w;
}
