-- ===== src/IotSlot/Interfaces.antt =====
-- The calls of linux_kernel_modules/iot_slot/iot-slot-core.c, and the interfaces that they give a slot:
-- iot_slot_add_gpio to iot_slot_add_uart.
use mang_oh.Prelude.{ℕ, zero, suc, ◌∷◌, ◌==◌, if◌then◌else◌}
use mang_oh.Prelude.Monad.{M, ok, bug, pure, fail, stop, ◌>>=◌, ◌>>◌, eacces, enodev, einval}
use mang_oh.Eeprom.{
  if_gpio_cfg, if_i2c_address, if_i2c_irq_gpio, if_i2c_modalias, if_spi_irq_gpio, if_spi_modalias,
}
use mang_oh.IotSlot.Calls.{Call, Flags, Board, Env}
use mang_oh.IotSlot.{
  irq_gpio_unused, PlatformData, Interface, Work, reading, room, append, succeeded, gpio_at,
  strncpy, interface_gpio, interface_i2c, interface_spi, interface_sdio, interface_adc,
  interface_pcm, interface_uart,
}

module _ (env : Env) where
  open env use {answer, adapter, spi_master, chip_select}

  -- A call, and what it returned.
  unfoldable pub ask : Call → M Work ℕ
  ask c s =
      let a = answer s.eeprom.hw c in
      ok a (record s { eeprom = record s.eeprom { hw = (c, a) ∷ s.eeprom.hw } })

  -- A call whose result the code does not use.
  unfoldable pub tell : Call → M Work (Unit {0})
  unfolding ask
  tell c = do a ← ask c; pure tt

  -- A callback of the board that is called as it is, and one that is called if it is not NULL.
  unfoldable pub callback : PlatformData → Call → M Work ℕ
  unfolding ask
  callback p c = if p.has c then ask c else stop bug

  unfoldable pub optional : PlatformData → Call → M Work ℕ
  unfolding ask
  optional p c = if p.has c then ask c else pure 0

  -- What follows a request of pin `i` that was refused: the loop over the pins before it returns in
  -- its first round, and has no round for the first pin.
  unfoldable pub refuse : PlatformData → ℕ → M Work (Unit {0})
  unfolding tell
  refuse p zero = pure tt
  refuse p (suc i) = do tell (Call.gpio_free (p.gpio 0)); fail eacces

  unfoldable pub configure : ℕ → ℕ → M Work (Unit {0})
  unfolding tell
  configure cfg gpio =
      if cfg == 4
      then tell (Call.gpio_direction_output gpio 0)
      else if cfg == 5
      then tell (Call.gpio_direction_output gpio 1)
      else if cfg == 1
      then (do tell (Call.gpio_direction_input gpio); tell (Call.gpio_pull_up gpio))
      else if cfg == 2
      then (do tell (Call.gpio_direction_input gpio); tell (Call.gpio_pull_down gpio))
      else if cfg == 3
      then tell (Call.gpio_direction_input gpio)
      else pure tt

  unfoldable pub add_pin : PlatformData → ℕ → ℕ → M Work (Unit {0})
  unfolding ask configure refuse reading room if_gpio_cfg
  add_pin p item i = do
    cfg ← reading (if_gpio_cfg item i)
    room
    ret ← ask (Call.gpio_request_one (p.gpio i) Flags.gpiof_in)
    if ret == 0 then pure tt else refuse p i
    configure cfg (p.gpio i)

  unfoldable pub add_gpio : PlatformData → ℕ → M Work (Unit {0})
  unfolding add_pin append
  add_gpio p item = do
    add_pin p item 0
    add_pin p item 1
    add_pin p item 2
    add_pin p item 3
    append interface_gpio

  -- board.irq
  unfoldable pub irq : PlatformData → ℕ → M Work ℕ
  unfolding ask gpio_at
  irq p irq_gpio =
      if irq_gpio == irq_gpio_unused
      then pure 0
      else (do gpio ← gpio_at p irq_gpio; ask (Call.gpio_to_irq gpio))

  unfoldable pub i2c_new_device : Board → M Work ℕ
  unfolding ask
  i2c_new_device board s = ask (Call.i2c_new_device s.slot.i2c_adapter board) s

  unfoldable pub add_i2c : PlatformData → ℕ → M Work (Unit {0})
  unfolding irq strncpy append room i2c_new_device if_i2c_modalias if_i2c_irq_gpio if_i2c_address
  add_i2c p item = do
    name ← reading (do at ← if_i2c_modalias item; strncpy 20 at)
    irq_gpio ← reading (if_i2c_irq_gpio item)
    line ← irq p irq_gpio
    addr ← reading (if_i2c_address item)
    room
    client ← i2c_new_device (record { modalias = name; line = line; select = addr })
    if client == 0 then fail einval else append (interface_i2c client)

  -- The master and the chip select that request_spi gives.
  unfoldable pub spi_connection : M Work (ℕ × ℕ)
  spi_connection s = ok (spi_master s.eeprom.hw, chip_select s.eeprom.hw) s

  unfoldable pub add_spi : PlatformData → ℕ → M Work (Unit {0})
  unfolding callback succeeded spi_connection irq strncpy append if_spi_modalias if_spi_irq_gpio
  add_spi p item = do
    ret ← callback p Call.request_spi
    succeeded ret enodev
    bus ← spi_connection
    irq_gpio ← reading (if_spi_irq_gpio item)
    line ← irq p irq_gpio
    name ← reading (do at ← if_spi_modalias item; strncpy 32 at)
    device ←
        ask (Call.spi_new_device bus.0 (record { modalias = name; line = line; select = bus.1 }))
    if device == 0
        then (do ret ← callback p Call.release_spi; fail enodev)
        else append (interface_spi device)

  -- iot_slot_add_sdio, _adc, _pcm and _uart: a callback that may be NULL, and an interface.
  unfoldable pub add_requested : Call → Interface → PlatformData → M Work (Unit {0})
  unfolding optional append
  add_requested request x p = do
    ret ← optional p request
    if ret == 0 then append x else fail enodev

  unfoldable pub add_sdio : PlatformData → M Work (Unit {0})
  unfolding add_requested
  add_sdio = add_requested Call.request_sdio interface_sdio

  unfoldable pub add_adc : PlatformData → M Work (Unit {0})
  unfolding add_requested
  add_adc = add_requested Call.request_adc interface_adc

  unfoldable pub add_pcm : PlatformData → M Work (Unit {0})
  unfolding add_requested
  add_pcm = add_requested Call.request_pcm interface_pcm

  unfoldable pub add_uart : PlatformData → M Work (Unit {0})
  unfolding add_requested
  add_uart = add_requested Call.request_uart interface_uart
