-- ===== src/IotSlot/Tests.antt =====
-- Runs of linux_kernel_modules/iot_slot/iot-slot-core.c with a card that has an SPI device.
use mang_oh.Prelude.{ℕ, ◌≡◌, refl, true, false, some, none, [], ◌∷◌, List, if◌then◌else◌, ◌==◌}
use mang_oh.Prelude.Monad.{after}
use mang_oh.Prelude.Outcome.{Post}
use mang_oh.Eeprom.{filled}
use mang_oh.IotSlot.{PlatformDevice, Interface, interface_spi}
use mang_oh.IotSlot.Calls.{
  Call, Log, Env, devm_kzalloc, kzalloc, new_eeprom, spi_new_device, i2c_new_device,
}
use mang_oh.IotSlot.Driver.{State, probe, remove}
use mang_oh.IotSlot.Holdings.{Resource, Stops}
use mang_oh.IotSlot.Settling.{HasSlot, Unlocked, Undone, Gone, Never, probe-Settled, remove-Settled}

-- A header, the description of an SPI device with its interrupt on pin 1, and the mark of the end.
abbrev card : ℕ → ℕ
card at =
    if at == 0
    then 0xAA
    else if at == 1
    then 0x55
    else if at == 2
    then 1
    else if at == 192
    then 2
    else if at == 193
    then 1
    else if at == 256
    then 0xFF
    else 0

-- Codes are 0, and addresses are not.
abbrev answers : Log → Call → ℕ
answers w devm_kzalloc = 7
answers w kzalloc = 9
answers w new_eeprom = 5
answers w (spi_new_device master board) = 11
answers w (i2c_new_device adapter board) = 13
answers w _ = 0

abbrev env : Env
env = record {
  answer = answers;
  contents = λ w. some card;
  adapter = λ w. 3;
  spi_master = λ w. 4;
  chip_select = λ w. 1;
}

abbrev pdev : PlatformDevice
pdev = record {
  address = 21;
  id = 1;
  platdata = record { gpio = λ i. i; reset_gpio = 8; card_detect_gpio = 9; has = λ c. true };
}

abbrev before : State
before = record {
  slots = λ i. none;
  drvdata = λ d. 0;
  management_mutex = false;
  eeprom = record { buffer = filled; interfaces = []; hw = [] };
}

abbrev nobody : Resource → ℕ
nobody r = 0

-- The interfaces of a slot.
abbrev listed : State → List Interface
listed s = elim (s.slots 1) [ none ↦ [] | some slot ↦ slot.interfaces ]

listed-probe : listed (after (probe env pdev before) before) ≡ interface_spi 11 ∷ []
unfolding probe
listed-probe = refl

probe-Settled_example :
    Post
      (Unlocked env pdev nobody (HasSlot env pdev nobody))
      (λ e. Unlocked env pdev nobody (Undone env pdev nobody e) e)
      Stops
      (probe env pdev before)
probe-Settled_example = probe-Settled env pdev nobody before refl (λ r. refl)

-- The state that the probe leaves.
abbrev probed : State
probed = after (probe env pdev before) before

probed-HasSlot : HasSlot env pdev nobody probed
unfolding probe
probed-HasSlot = (probe-Settled env pdev nobody before refl (λ r. refl)).1

remove-Settled_example :
    Post (Gone env pdev nobody) (Never env pdev nobody) Stops (remove env pdev probed)
remove-Settled_example = remove-Settled env pdev nobody probed refl probed-HasSlot
