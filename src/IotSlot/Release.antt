-- ===== src/IotSlot/Release.antt =====
-- iot_slot_release_resources and iot_slot_request_essential_resources in
-- linux_kernel_modules/iot_slot/iot-slot-core.c. The labels of the pins are left out: with a slot
-- below 3 they are shorter than their arrays.
use mang_oh.Prelude.{ℕ, false, none, some, List, [], ◌∷◌, ◌==◌, if◌then◌else◌}
use mang_oh.Prelude.Monad.{M, ok, halt, bug, pure, fail, ◌>>=◌, ◌>>◌}
use mang_oh.IotSlot.{
  PlatformData, PlatformDevice, Interface, interface_gpio, interface_i2c, interface_spi,
  interface_usb, interface_sdio, interface_adc, interface_pcm, interface_clk, interface_uart,
  interface_platform, Work,
}
use mang_oh.IotSlot.Interfaces.{ask, tell, callback, optional}
use mang_oh.IotSlot.Calls.{Call, Flags, Env}

-- slot->pdev, which all functions on a slot dereference.
unfoldable pub platform_device : M Work PlatformDevice
platform_device s = elim s.slot.pdev [ none ↦ halt bug | some pdev ↦ ok pdev s ]

abbrev pub without_adapter : Work → Work
without_adapter s = record s { slot = record s.slot { i2c_adapter = 0 } }

-- slot->pdev = NULL; slot->card_present = false
unfoldable pub forget_card : M Work (Unit {0})
forget_card s = ok tt (record s { slot = record s.slot { pdev = none; card_present = false } })

module _ (env : Env) where
  unfoldable pub free_gpios : PlatformData → M Work (Unit {0})
  unfolding tell
  free_gpios p = do
    tell env (Call.gpio_free (p.gpio 0))
    tell env (Call.gpio_free (p.gpio 1))
    tell env (Call.gpio_free (p.gpio 2))
    tell env (Call.gpio_free (p.gpio 3))

  unfoldable pub release_interface : PlatformData → Interface → M Work (Unit {0})
  unfolding free_gpios tell callback optional
  release_interface p interface_gpio = free_gpios p
  release_interface p (interface_i2c client) = tell env (Call.i2c_unregister_device client)
  release_interface p (interface_spi device) = do
    tell env (Call.spi_unregister_device device)
    ret ← callback env p Call.release_spi
    pure tt
  release_interface p interface_usb = pure tt
  release_interface p interface_sdio = do ret ← callback env p Call.release_sdio; pure tt
  release_interface p interface_adc = do ret ← callback env p Call.release_adc; pure tt
  release_interface p interface_pcm = do ret ← callback env p Call.release_pcm; pure tt
  release_interface p interface_clk = pure tt
  release_interface p interface_uart = do ret ← optional env p Call.release_uart; pure tt
  release_interface p interface_platform = pure tt

  -- The loop over the interfaces.
  unfoldable pub release_interfaces : PlatformData → List Interface → M Work (Unit {0})
  unfolding release_interface
  release_interfaces p [] = pure tt
  release_interfaces p (x ∷ xs) = do release_interface p x; release_interfaces p xs

  unfoldable pub release_adapter : PlatformData → M Work (Unit {0})
  unfolding callback
  release_adapter p s =
      if s.slot.i2c_adapter == 0
      then ok tt s
      else (do ret ← callback env p Call.release_i2c; λ t. ok tt (without_adapter t)) s

  unfoldable pub release_with : PlatformData → M Work (Unit {0})
  unfolding release_interfaces release_adapter tell forget_card
  release_with p s =
      (do
        release_interfaces p s.slot.interfaces
        release_adapter p
        tell env (Call.gpio_free p.card_detect_gpio)
        tell env (Call.gpio_free p.reset_gpio)
        forget_card)
        s

  unfoldable pub release_resources : M Work (Unit {0})
  unfolding platform_device release_with
  release_resources = do pdev ← platform_device; release_with pdev.platdata

  -- request_i2c, with what it leaves in slot->i2c_adapter.
  unfoldable pub request_i2c : PlatformData → M Work ℕ
  unfolding callback
  request_i2c p = do
    ret ← callback env p Call.request_i2c
    λ s. ok ret (record s { slot = record s.slot { i2c_adapter = env.adapter s.eeprom.hw } })

  -- The code behind `cleanup:`
  unfoldable pub cleanup : ℕ → M Work (Unit {0})
  unfolding release_resources
  cleanup ret = do release_resources; fail ret

  unfoldable pub request_essential_resources : M Work (Unit {0})
  unfolding platform_device ask request_i2c cleanup
  request_essential_resources = do
    pdev ← platform_device
    ret ← ask env (Call.gpio_request_one pdev.platdata.reset_gpio Flags.out_high_active_low)
    if ret == 0
        then (do
          ret ← ask env (Call.gpio_request_one pdev.platdata.card_detect_gpio Flags.gpiof_in)
          if ret == 0
              then (do ret ← request_i2c pdev.platdata; if ret == 0 then pure tt else cleanup ret)
              else cleanup ret)
        else cleanup ret
