-- ===== src/IotSlot.antt =====
-- The slots for IoT cards, linux_kernel_modules/iot_slot/iot-slot-core.c: what it asks of the kernel
-- and of the board, the state of a slot, and how a description in the EEPROM of a card becomes an
-- interface of the slot, for which Interfaces has the functions. Releasing is in Release, the walk over
-- a card and the calls of the driver are in Driver.
pub mod Calls
pub mod Interfaces
pub mod Release
pub mod Driver
pub mod Holdings
pub mod Readings
pub mod Loading
pub mod Neutral
pub mod Adding
pub mod Pins
pub mod Devices
pub mod Items
pub mod Releasing
pub mod Enumerating
pub mod Probing
pub mod Freeing
pub mod Settling
mod Tests
use mang_oh.Prelude.{
  ℕ, zero, suc, ◌+◌, Bool, List, [], ◌∷◌, ◌++◌, length, replicate, ltb, ◌==◌, if◌then◌else◌, Option,
  none, some,
}
use mang_oh.Prelude.Monad.{
  M, ok, err, halt, corrupt, overflow, bug, pure, fail, stop, ◌>>=◌, ◌>>◌, eacces, enodev, einval,
}
use mang_oh.Eeprom.{
  Map, byte_at, if_gpio, if_i2c, if_spi, if_usb, if_sdio, if_adc, if_pcm, if_clk, if_uart, if_plat,
  if_gpio_cfg, if_i2c_address, if_i2c_irq_gpio, if_i2c_modalias, if_spi_irq_gpio, if_spi_modalias,
}
use mang_oh.IotSlot.Calls.{Call, Flags, Board, Log, Env}

-- CONFIG_IOT_SLOT_MAX_INTERFACES_PER_CARD
abbrev pub max_interfaces : ℕ
max_interfaces = 10

abbrev pub irq_gpio_unused : ℕ
irq_gpio_unused = 0xFF

-- struct iot_slot_platform_data: the pins, and which of the callbacks are not NULL.
pub record PlatformData : Type 0 where
  pub gpio : ℕ → ℕ
  pub reset_gpio : ℕ
  pub card_detect_gpio : ℕ
  pub has : Call → Bool

-- A platform device, by its address; `id` is an int in its 32 bits.
pub record PlatformDevice : Type 0 where
  pub address : ℕ
  pub id : ℕ
  pub platdata : PlatformData

-- struct iot_slot_interface_data, by the type of the interface.
pub data Interface : Type 0 where
  interface_gpio interface_usb interface_sdio interface_adc interface_pcm : Interface
  interface_clk interface_uart interface_platform : Interface
  interface_i2c : (client : ℕ) → Interface
  interface_spi : (device : ℕ) → Interface

-- struct iot_slot: the address that it was allocated at, and as many interfaces as num_interfaces.
pub record Slot : Type 0 where
  pub address : ℕ
  pub pdev : Option PlatformDevice
  pub card_present : Bool
  pub i2c_adapter : ℕ
  pub interfaces : List Interface

-- What a function on a slot works with: the slot, and the client for the EEPROM with the calls so far.
pub record Work : Type 0 where
  pub slot : Slot
  pub eeprom : Map Log

-- enum EepromInterface, as the `switch` over it tells its values apart.
pub data Described : Type 0 where
  described_gpio described_i2c described_spi described_usb described_sdio : Described
  described_adc described_pcm described_clk described_uart described_plat other : Described

unfoldable pub described : ℕ → Described
described type =
    if type == if_gpio
    then described_gpio
    else if type == if_i2c
    then described_i2c
    else if type == if_spi
    then described_spi
    else if type == if_usb
    then described_usb
    else if type == if_sdio
    then described_sdio
    else if type == if_adc
    then described_adc
    else if type == if_pcm
    then described_pcm
    else if type == if_clk
    then described_clk
    else if type == if_uart
    then described_uart
    else if type == if_plat
    then described_plat
    else other

-- A function of the EEPROM's.
unfoldable pub reading : {A : Type 0} → M (Map Log) A → M Work A
reading m s = elim (m s.eeprom) [
  | ok a t ↦ ok a (record s { eeprom = t })
  | err e t ↦ err e (record s { eeprom = t })
  | halt f ↦ halt f
]

-- Whether the interface at num_interfaces is one of the array.
unfoldable pub room : M Work (Unit {0})
room s = if ltb (length s.slot.interfaces) max_interfaces then ok tt s else halt overflow

-- slot->interfaces[slot->num_interfaces++] = interface
unfoldable pub append : Interface → M Work (Unit {0})
append x s =
    if ltb (length s.slot.interfaces) max_interfaces
    then ok tt (record s { slot = record s.slot { interfaces = s.slot.interfaces ++ x ∷ [] } })
    else halt overflow

-- A return code that is not 0 ends the function, with an error of its own.
unfoldable pub succeeded : ℕ → ℕ → M Work (Unit {0})
succeeded ret e = if ret == 0 then pure tt else fail e

-- pdata->gpio[i]
unfoldable pub gpio_at : PlatformData → ℕ → M Work ℕ
gpio_at p i = if ltb i 4 then pure (p.gpio i) else stop corrupt

-- strncpy of `n` bytes at most from the buffer, which fills with zeros.
unfoldable pub strncpy : ℕ → ℕ → M (Map Log) (List ℕ)
unfolding byte_at
strncpy zero at = pure []
strncpy (suc n) at = do
  byte ← byte_at at
  if byte == 0
      then pure (replicate (suc n) 0)
      else (do rest ← strncpy n (at + 1); pure (byte ∷ rest))
