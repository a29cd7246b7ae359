-- ===== src/Board.antt =====
-- What the drivers of the Yellow and of the Red board share: linux_kernel_modules/mangoh/
-- mangoh_yellow.c and mangoh_red_board.c. The calls of the kernel are kept in a log, the last one
-- first; what it answers is a parameter, which may depend on the calls before.
pub mod Ledger
pub mod Steps
pub mod Removal
pub mod Neutral
use Prim.Native.Char.{code}
use Prim.Native.String.{String}
use mang_oh.Prelude.{
  ℕ, Bool, true, false, Option, none, some, List, [], ◌∷◌, ◌++◌, ◌&&◌, ◌==◌, if◌then◌else◌,
}
use mang_oh.Prelude.Monad.{M, ok, err, halt, bug, enodev}

-- PRIMARY_I2C_BUS, and the ports of the switch.
pub data Bus : Type 0 where
  primary port0 port1 port2 port3 : Bus

-- The boards of the i2c_board_info structs.
pub data Info : Type 0 where
  at24 pca954x sx1509q bmi160 pcf85063 opt3002 bq25601 bq24296 bq27426 ltc2942 bmp280 : Info

-- The pointers of the driver's data.
pub data Device : Type 0 where
  eeprom i2c_switch gpio_expander imu rtc light battery_gauge battery_charger : Device
  accelerometer pressure : Device

-- The platform devices that a driver registers.
pub data Platform : Type 0 where
  expander led : Platform

pub data Rev : Type 0 where
  unknown dv2 dv3 dv5 dv6 rev_1_0 : Rev

pub data Call : Type 0 where
  msleep : (ms : ℕ) → Call
  i2c_get_adapter : (bus : Bus) → (found : Bool) → Call
  i2c_put_adapter : (bus : Bus) → (found : Bool) → Call
  i2c_new_device : (bus : Bus) → (info : Info) → (client : Option ℕ) → Call
  i2c_unregister_device : (client : Option ℕ) → Call
  i2c_get_clientdata : Call
  platform_device_register : (device : Platform) → (code : ℕ) → Call
  platform_device_unregister : (device : Platform) → Call
  gpio_request_one : (code : ℕ) → Call
  kmalloc mem_read mem_write kfree : Call

-- Whether there is an adapter; the client for a board, or NULL; the base of the expander's pins, if
-- its driver is bound; the codes of platform_device_register and of gpio_request_one; and for the
-- EEPROM, whether its driver calls `setup`, whether there is memory, and what it reads, if it reads all.
pub record Kernel : Type 0 where
  pub get_adapter : Bus → List Call → Bool
  pub new_device : Info → List Call → Option ℕ
  pub get_clientdata : List Call → Option ℕ
  pub register : Platform → List Call → ℕ
  pub request_one : List Call → ℕ
  pub calls_setup : List Call → Bool
  pub kmalloc : List Call → Bool
  pub mem_read : List Call → Option (List ℕ)

-- struct mangoh_yellow_driver_data or struct mangoh_red_driver_data with mangoh_red_pdata, the pin
-- that is handed to the platform device, and the calls.
pub record State : Type 0 where
  pub client : Device → Option ℕ
  pub registered : Platform → Bool
  pub board_rev : Rev
  pub eeprom_read_success : Bool
  pub pin_base : ℕ
  pub log : List Call

-- The number of a field.
abbrev pub number : Device → ℕ
number eeprom = 0
number i2c_switch = 1
number gpio_expander = 2
number imu = 3
number rtc = 4
number light = 5
number battery_gauge = 6
number battery_charger = 7
number accelerometer = 8
number pressure = 9

abbrev pub same : Device → Device → Bool
same d e = number d == number e

abbrev pub same_platform : Platform → Platform → Bool
same_platform expander expander = true
same_platform led led = true
same_platform _ _ = false

abbrev pub tell : Call → State → State
tell c s = record s { log = c ∷ s.log }

abbrev pub set_client : Device → Option ℕ → State → State
set_client d c s = record s { client = λ e. if same d e then c else s.client e }

abbrev pub set_registered : Platform → State → State
set_registered p s = record s {
  registered = λ q. if same_platform p q then true else s.registered q;
}

abbrev pub check_client : Option ℕ → M State (Unit {0})
check_client none s = err enodev s
check_client (some _) s = ok tt s

abbrev pub check_code : Platform → ℕ → M State (Unit {0})
check_code p code s = if code == 0 then ok tt (set_registered p s) else err code s

-- The bytes of a string, and those with its end.
abbrev pub codes : String → List ℕ
codes String.[] = []
codes (String.◌∷◌ c s) = code c ∷ codes s

abbrev pub terminated : String → List ℕ
terminated s = codes s ++ 0 ∷ []

abbrev pub strstarts : List ℕ → List ℕ → Bool
strstarts bytes [] = true
strstarts [] (p ∷ ps) = false
strstarts (d ∷ ds) (p ∷ ps) = let rest = strstarts ds ps in (d == p) && rest

module _ (k : Kernel) where
  unfoldable pub get_adapter : Bus → M State Bool
  get_adapter bus s =
      let found = k.get_adapter bus s.log in ok found (tell (Call.i2c_get_adapter bus found) s)

  -- A device whose client is missing is a failure.
  unfoldable pub map_device : Bus → Info → Device → M State (Unit {0})
  map_device bus info d s =
      let c = k.new_device info s.log in
      check_client c (set_client d c (tell (Call.i2c_new_device bus info c) s))

  unfoldable pub register : Platform → M State (Unit {0})
  register p s =
      let code = k.register p s.log in
      check_code p code (tell (Call.platform_device_register p code) s)

abbrev pub safe_unregister_device : Option ℕ → State → State
safe_unregister_device none s = s
safe_unregister_device (some c) s = tell (Call.i2c_unregister_device (some c)) s

abbrev pub unregister_device : Option ℕ → State → State
unregister_device c s = tell (Call.i2c_unregister_device c) s

-- i2c_unregister_device of the kernels that the driver is for does not test for NULL: it takes the
-- device of the client.
unfoldable pub unregister_each : List Device → M State (Unit {0})
unregister_each [] s = ok tt s
unregister_each (d ∷ ds) s = elim (s.client d) [
  | none ↦ halt bug
  | some c ↦ unregister_each ds (tell (Call.i2c_unregister_device (some c)) s)
]

abbrev pub unregister_platform : Platform → State → State
unregister_platform p s = if s.registered p then tell (Call.platform_device_unregister p) s else s

module _ (unregister : Option ℕ → State → State) where
  unfoldable pub unregister_all : List Device → State → State
  unregister_all [] s = s
  unregister_all (d ∷ ds) s = unregister_all ds (unregister (s.client d) s)

  -- Some devices, the platform device if it is registered, and the other devices.
  unfoldable pub remove_devices : List Device → Platform → List Device → State → State
  unfolding unregister_all
  remove_devices ds p es s = unregister_all es (unregister_platform p (unregister_all ds s))
