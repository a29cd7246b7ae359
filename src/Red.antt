-- ===== src/Red.antt =====
-- The devices of the Red board, linux_kernel_modules/mangoh/mangoh_red_board.c, as it is built without
-- ENABLE_IOT_SLOT, without the log and the flag that makes the EEPROM read-only.
pub mod Cleaning
pub mod Sound
pub mod Probing
mod Tests
use mang_oh.Prelude.{
  ℕ, ◌+◌, Bool, true, false, ◌&&◌, Option, none, some, List, [], ◌∷◌, if◌then◌else◌,
}
use mang_oh.Prelude.Monad.{M, ok, err, halt, bug, fail, pure, enodev, einval, ◌>>=◌, ◌>>◌}
use mang_oh.Board.{
  Bus, primary, port1, port2, Info, at24, pca954x, sx1509q, bmi160, bmp280, bq24296, bq27426,
  ltc2942, Device, eeprom, i2c_switch, gpio_expander, accelerometer, pressure, battery_gauge,
  battery_charger, Platform, led, Rev, unknown, dv5, dv6, Call, Kernel, State, terminated,
  strstarts, tell, get_adapter, map_device, register, unregister_platform, unregister_each,
}

abbrev pub dv5_string : List ℕ
dv5_string =
    terminated
      "mangOH Red DV5.1 PCB Rev 5.0 with SWI MT7697 FW v4.3.0-0 - Manufactured by Talon Communications in Q1 2018"

abbrev pub dv5_alt_string : List ℕ
dv5_alt_string = terminated "mangOH Red DV4 PCB Rev 5 - Manufactured by Talon Communications"

abbrev pub dv6_string : List ℕ
dv6_string =
    terminated
      "mangOH Red DV6.0 PCB Rev 6.0 with SWI MT7697 FW v4.3.0-0 - Manufactured by Talon Communications in Q4 2018"

unfoldable pub detected_rev : List ℕ → Rev
detected_rev bytes =
    if strstarts bytes dv5_string
    then dv5
    else (if strstarts bytes dv5_alt_string
        then dv5
        else (if strstarts bytes dv6_string then dv6 else unknown))

-- The revision that the user gives goes before the one that is detected.
abbrev pub choose_rev : Rev → Rev → Rev
choose_rev unknown detected = detected
choose_rev given detected = given

-- What is removed before and after the platform device.
abbrev pub sensors : List Device
sensors = battery_gauge ∷ battery_charger ∷ pressure ∷ accelerometer ∷ []

abbrev pub base_devices : List Device
base_devices = gpio_expander ∷ i2c_switch ∷ eeprom ∷ []

abbrev pub remove_led : M State (Unit {0})
remove_led s = ok tt (unregister_platform led s)

unfoldable pub remove : M State (Unit {0})
unfolding unregister_each
remove = do unregister_each sensors; remove_led; unregister_each base_devices

abbrev pub put_adapters : Bool → Bool → State → State
put_adapters expander_found charger_found s =
    tell (Call.i2c_put_adapter port1 charger_found) (
      tell (Call.i2c_put_adapter port2 expander_found) (tell (Call.i2c_put_adapter primary true) s))

-- A step whose failure goes to `cleanup:`, with or without the adapters behind the switch.
unfoldable pub or_cleanup : Bool → Bool → M State (Unit {0}) → M State (Unit {0})
unfolding remove
or_cleanup expander_found charger_found m s = elim (m s) [
  | ok a t ↦ ok a t
  | err e t ↦ elim (remove (put_adapters expander_found charger_found t)) [
    | ok a u ↦ err e u
    | err f u ↦ err e u
    | halt f ↦ halt f
  ]
  | halt f ↦ halt f
]

abbrev pub put_all : Bool → Bool → M State (Unit {0})
put_all expander_found charger_found s = ok tt (put_adapters expander_found charger_found s)

abbrev pub check_rev : Rev → M State (Unit {0})
check_rev unknown s = err einval s
check_rev _ s = ok tt s

abbrev pub check_board : M State (Unit {0})
check_board s = check_rev s.board_rev s

abbrev pub msleep : M State (Unit {0})
msleep s = ok tt (tell (Call.msleep 5000) s)

-- The pin of the LED; without a driver of the expander, `gpio_expander` is NULL.
abbrev pub led_pin : Option ℕ → M State (Unit {0})
led_pin none s = halt bug
led_pin (some base) s = ok tt (record s { pin_base = base + 8 })

abbrev pub gauge_info : Rev → Info
gauge_info dv5 = ltc2942
gauge_info _ = bq27426

module _ (k : Kernel) where
  unfoldable pub eeprom_setup : State → State
  unfolding detected_rev
  eeprom_setup s =
      let t = tell Call.mem_read s in
      elim (k.mem_read s.log) [
        | none ↦ t
        | some bytes ↦ record t { board_rev = choose_rev t.board_rev (detected_rev bytes) }
      ]

  -- The EEPROM's driver calls `setup` when it is bound to the new device.
  abbrev pub run_setup : M State (Unit {0})
  run_setup s = ok tt (if k.calls_setup s.log then eeprom_setup s else s)

  unfoldable pub map_eeprom : M State (Unit {0})
  unfolding map_device eeprom_setup
  map_eeprom = do map_device k primary at24 eeprom; run_setup

  unfoldable pub find_expander : M State (Unit {0})
  find_expander s = led_pin (k.get_clientdata s.log) (tell Call.i2c_get_clientdata s)

  -- The expander and the LED, with both adapters.
  unfoldable pub attach_led : M State (Unit {0})
  unfolding map_device find_expander register
  attach_led = do map_device k port2 sx1509q gpio_expander; find_expander; register k led

  abbrev pub map_gauge : M State (Unit {0})
  map_gauge s = map_device k port1 (gauge_info s.board_rev) battery_gauge s

  unfoldable pub attach_battery : M State (Unit {0})
  unfolding map_device
  attach_battery = do map_device k port1 bq24296 battery_charger; map_gauge

  -- Without the accelerometer or the pressure sensor the probe returns at once.
  unfoldable pub attach_sensors : Bool → Bool → M State (Unit {0})
  unfolding or_cleanup map_device attach_battery
  attach_sensors expander_found charger_found = do
    map_device k primary bmi160 accelerometer
    map_device k primary bmp280 pressure
    or_cleanup expander_found charger_found attach_battery
    put_all expander_found charger_found

  unfoldable pub attach : Bool → Bool → M State (Unit {0})
  unfolding or_cleanup attach_led attach_sensors
  attach expander_found charger_found = do
    or_cleanup expander_found charger_found
        (if expander_found && charger_found then attach_led else fail enodev)
    attach_sensors expander_found charger_found

  unfoldable pub downstream : M State (Unit {0})
  unfolding get_adapter attach
  downstream = do
    expander_found ← get_adapter k port2
    charger_found ← get_adapter k port1
    attach expander_found charger_found

  -- With the primary adapter.
  unfoldable pub map_devices : M State (Unit {0})
  unfolding or_cleanup map_eeprom map_device downstream
  map_devices = do
    msleep
    or_cleanup false false map_eeprom
    check_board
    or_cleanup false false (map_device k primary pca954x i2c_switch)
    downstream

  unfoldable pub probe : M State (Unit {0})
  unfolding get_adapter map_devices
  probe = do found ← get_adapter k primary; if found then map_devices else fail enodev
