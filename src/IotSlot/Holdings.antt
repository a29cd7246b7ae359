-- ===== src/IotSlot/Holdings.antt =====
-- What a slot of linux_kernel_modules/iot_slot/iot-slot-core.c holds: the resources that the calls in
-- the log have taken and given back, against what the interfaces and the adapter of the slot stand for.
use mang_oh.Prelude.{
  ℕ, ◌+◌, ◌≤◌, ◌≡◌, ◌≢◌, Bool, true, false, not, Option, none, some, List, [], ◌∷◌, length, ◌==◌,
  if◌then◌else◌,
}
use mang_oh.Prelude.Monad.{Fault, deadlock, spin, corrupt, overflow, bug}
use mang_oh.IotSlot.{
  PlatformData, PlatformDevice, Interface, interface_gpio, interface_i2c, interface_spi,
  interface_usb, interface_sdio, interface_adc, interface_pcm, interface_clk, interface_uart,
  interface_platform, Slot, Work,
}
use mang_oh.IotSlot.Calls.{
  Call, Env, Log, i2c_new_device, spi_new_device, i2c_unregister_device, spi_unregister_device,
  request_i2c, release_i2c, request_spi, release_spi, request_uart, release_uart, request_adc,
  release_adc, request_sdio, release_sdio, request_pcm, release_pcm, gpio_direction_output,
}

-- The busses of the board, and the devices that the slot has registered.
pub data Resource : Type 0 where
  i2c_bus spi_bus uart_port adc_port sdio_port pcm_port : Resource
  i2c_client spi_device : (address : ℕ) → Resource

abbrev same : Resource → Resource → Bool
same i2c_bus i2c_bus = true
same spi_bus spi_bus = true
same uart_port uart_port = true
same adc_port adc_port = true
same sdio_port sdio_port = true
same pcm_port pcm_port = true
same (i2c_client a) (i2c_client b) = a == b
same (spi_device a) (spi_device b) = a == b
same _ _ = false

abbrev pub one : Option Resource → Resource → ℕ
one none r = 0
one (some x) r = if same x r then 1 else 0

-- The resource that a call takes, by what it returned.
abbrev pub taken : Call → ℕ → Option Resource
taken (i2c_new_device adapter board) a = if a == 0 then none else some (i2c_client a)
taken (spi_new_device master board) a = if a == 0 then none else some (spi_device a)
taken request_i2c a = if a == 0 then some i2c_bus else none
taken request_spi a = if a == 0 then some spi_bus else none
taken request_uart a = if a == 0 then some uart_port else none
taken request_adc a = if a == 0 then some adc_port else none
taken request_sdio a = if a == 0 then some sdio_port else none
taken request_pcm a = if a == 0 then some pcm_port else none
taken _ a = none

-- The one that it gives back.
abbrev pub given : Call → Option Resource
given (i2c_unregister_device client) = some (i2c_client client)
given (spi_unregister_device device) = some (spi_device device)
given release_i2c = some i2c_bus
given release_spi = some spi_bus
given release_uart = some uart_port
given release_adc = some adc_port
given release_sdio = some sdio_port
given release_pcm = some pcm_port
given _ = none

-- How often a resource has been taken, and given back.
abbrev pub acquired : Resource → Log → ℕ
acquired r [] = 0
acquired r (x ∷ w) = one (taken x.0 x.1) r + acquired r w

abbrev pub released : Resource → Log → ℕ
released r [] = 0
released r (x ∷ w) = one (given x.0) r + released r w

-- All that was taken has been given back.
abbrev pub IsSettled : Log → Type 0
IsSettled w = (r : Resource) → acquired r w ≡ released r w

-- A resource behind a callback that may be NULL.
abbrev pub behind : Bool → Resource → Resource → ℕ
behind b x r = one (if b then some x else none) r

-- What an interface stands for.
abbrev pub uses : PlatformData → Interface → Resource → ℕ
uses p interface_gpio r = 0
uses p (interface_i2c client) r = one (some (i2c_client client)) r
uses p (interface_spi device) r = one (some (spi_device device)) r + one (some spi_bus) r
uses p interface_usb r = 0
uses p interface_sdio r = behind (p.has request_sdio) sdio_port r
uses p interface_adc r = behind (p.has request_adc) adc_port r
uses p interface_pcm r = behind (p.has request_pcm) pcm_port r
uses p interface_clk r = 0
uses p interface_uart r = behind (p.has request_uart) uart_port r
uses p interface_platform r = 0

abbrev pub uses_of : PlatformData → List Interface → Resource → ℕ
uses_of p [] r = 0
uses_of p (x ∷ xs) r = uses p x r + uses_of p xs r

abbrev pub adapter_use : ℕ → Resource → ℕ
adapter_use a r = one (if a == 0 then none else some i2c_bus) r

-- What the code relies on: the callbacks come in pairs, request_i2c sets the adapter if and only if it
-- succeeds, and the pin that detects a card can be an output.
pub record IsSound (env : Env) (p : PlatformData) : Type 0 where
  pub sdio : p.has release_sdio ≡ p.has request_sdio
  pub adc : p.has release_adc ≡ p.has request_adc
  pub pcm : p.has release_pcm ≡ p.has request_pcm
  pub uart : p.has release_uart ≡ p.has request_uart
  pub adapter_lem : (w : Log) (a : ℕ) → (env.adapter ((request_i2c, a) ∷ w) == 0) ≡ not (a == 0)
  pub output_lem : (w : Log) → env.answer w (gpio_direction_output p.card_detect_gpio 1) ≡ 0

-- The faults that a card or a board can lead to.
abbrev pub Stops : Fault → Type 0
Stops deadlock = ⊥
Stops spin = ⊥
Stops overflow = ⊥
Stops corrupt = Unit
Stops bug = Unit

-- What the other slots hold, the device that a slot belongs to, and the address of the slot.
pub record Context : Type 0 where
  pub others : Resource → ℕ
  pub pdev : PlatformDevice
  pub address : ℕ

-- The slot of a context, whose device has these data.
abbrev pub IsOn : PlatformData → Context → Option PlatformDevice → ℕ → Type 0
IsOn p ctx pdev address = (pdev ≡ some ctx.pdev) × (ctx.pdev.platdata ≡ p) × (address ≡ ctx.address)

module _ (env : Env) (p : PlatformData) (ctx : Context) where
  -- What is taken and not given back is `hold`, besides what others hold.
  abbrev pub Owes : (Resource → ℕ) → Log → Type 0
  Owes hold w = IsSound env p → (r : Resource) → acquired r w ≡ released r w + ctx.others r + hold r

  abbrev pub total : Slot → (Resource → ℕ) → Resource → ℕ
  total slot h r = uses_of p slot.interfaces r + adapter_use slot.i2c_adapter r + h r

  -- A slot with so many interfaces at most, which stands for all that is held but for `h`.
  abbrev pub Held : ℕ → (Resource → ℕ) → Work → Type 0
  Held n h s =
      (length s.slot.interfaces ≤ n)
      × Owes (total s.slot h) s.eeprom.hw
      × IsOn p ctx s.slot.pdev s.slot.address

  abbrev pub nothing : Resource → ℕ
  nothing r = 0

  -- An error, after which all is given back.
  abbrev pub Cleared : ℕ → Work → Type 0
  Cleared e s = (e ≢ 0) × Owes nothing s.eeprom.hw
