-- ===== src/Yellow.antt =====
-- The devices of the Yellow board, linux_kernel_modules/mangoh/mangoh_yellow.c, without the log and
-- the number of the light sensor's interrupt.
pub mod Neutral
pub mod Attaching
pub mod Probing
mod Tests
use mang_oh.Prelude.{
  ℕ, Bool, true, false, ◌&&◌, Option, none, some, List, [], ◌∷◌, ◌++◌, ◌==◌, if◌then◌else◌,
}
use mang_oh.Prelude.Monad.{M, ok, err, halt, fail, pure, enodev, ◌>>=◌, ◌>>◌}
use mang_oh.Board.{
  Bus, primary, port1, port2, port3, Info, at24, pca954x, sx1509q, bmi160, pcf85063, opt3002,
  bq25601, bq27426, Device, eeprom, i2c_switch, gpio_expander, imu, rtc, light, battery_gauge,
  battery_charger, Platform, expander, Rev, unknown, dv2, dv3, rev_1_0, Call, Kernel, State, codes,
  terminated, strstarts, tell, get_adapter, map_device, register, safe_unregister_device,
  remove_devices,
}

abbrev pub production_first_line : List ℕ
production_first_line = codes "mangOH Yellow\n"

abbrev pub dv3_string : List ℕ
dv3_string = terminated "mangOH Yellow DV3"

abbrev pub is_blank : List ℕ → Bool
is_blank [] = true
is_blank (d ∷ ds) = let rest = is_blank ds in (d == 255) && rest

-- A blank EEPROM is written with what names the newest revision.
unfoldable pub identify : List ℕ → State → State
identify bytes s =
    if is_blank bytes
    then tell Call.mem_write (record s { board_rev = rev_1_0 })
    else (if strstarts bytes production_first_line
        then record s { board_rev = rev_1_0 }
        else (if strstarts bytes dv3_string then record s { board_rev = dv3 } else s))

abbrev pub check_rev : Rev → M State (Unit {0})
check_rev rev_1_0 s = ok tt s
check_rev dv3 s = ok tt s
check_rev _ s = err enodev s

abbrev pub is_unknown : Rev → Bool
is_unknown unknown = true
is_unknown _ = false

abbrev pub check_board : M State (Unit {0})
check_board s = check_rev s.board_rev s

abbrev pub msleep : M State (Unit {0})
msleep s = ok tt (tell (Call.msleep 5000) s)

-- What is removed before and after the platform device.
abbrev pub sensors : List Device
sensors = imu ∷ light ∷ battery_charger ∷ battery_gauge ∷ rtc ∷ []

abbrev pub base_devices : List Device
base_devices = gpio_expander ∷ i2c_switch ∷ eeprom ∷ []

abbrev pub remove_all : State → State
remove_all = remove_devices safe_unregister_device sensors expander base_devices

unfoldable pub remove : M State (Unit {0})
remove s = ok tt (remove_all s)

abbrev pub put_adapters : Bool → Bool → Bool → State → State
put_adapters found1 found2 found3 s = tell (Call.i2c_put_adapter primary true) (
    tell (Call.i2c_put_adapter port1 found1)
      (tell (Call.i2c_put_adapter port2 found2) (tell (Call.i2c_put_adapter port3 found3) s)))

-- `cleanup:`, behind `m`.
unfoldable pub cleanup : Bool → Bool → Bool → M State (Unit {0}) → M State (Unit {0})
cleanup found1 found2 found3 m s = elim (m s) [
  | ok a t ↦ ok a (put_adapters found1 found2 found3 t)
  | err e t ↦ err e (remove_all (put_adapters found1 found2 found3 t))
  | halt f ↦ halt f
]

-- EPROBE_DEFER says that there is no such pin, which is no failure.
abbrev pub check_pin : ℕ → M State (Unit {0})
check_pin code s = if code == 0 then ok tt s else (if code == 517 then ok tt s else err enodev s)

abbrev pub bind : Option ℕ → M State (Unit {0})
bind none s = err enodev s
bind (some base) s = ok tt (record s { pin_base = base })

module _ (k : Kernel) where
  -- What the EEPROM's driver reads, if it reads all.
  abbrev pub read_eeprom : State → State
  read_eeprom s = elim (k.mem_read s.log) [
    | none ↦ s
    | some bytes ↦ identify bytes (record s { eeprom_read_success = true })
  ]

  unfoldable pub eeprom_setup : State → State
  unfolding identify
  eeprom_setup s =
      if is_unknown s.board_rev
      then (let t = tell Call.kmalloc s in
          if k.kmalloc s.log then tell Call.kfree (read_eeprom (tell Call.mem_read t)) else t)
      else s

  -- The EEPROM's driver calls `setup` when it is bound to the new device.
  abbrev pub run_setup : M State (Unit {0})
  run_setup s = ok tt (if k.calls_setup s.log then eeprom_setup s else s)

  unfoldable pub map_eeprom : M State (Unit {0})
  unfolding map_device eeprom_setup
  map_eeprom = do map_device k primary at24 eeprom; run_setup

  unfoldable pub find_expander : M State (Unit {0})
  find_expander s = bind (k.get_clientdata s.log) (tell Call.i2c_get_clientdata s)

  unfoldable pub request_pin : M State (Unit {0})
  request_pin s =
      let code = k.request_one s.log in check_pin code (tell (Call.gpio_request_one code) s)

  unfoldable pub attach_sensors : M State (Unit {0})
  unfolding map_device request_pin
  attach_sensors = do
    map_device k port1 bmi160 imu
    map_device k port3 pcf85063 rtc
    map_device k port2 bq25601 battery_charger
    map_device k port2 bq27426 battery_gauge
    request_pin
    map_device k port2 opt3002 light

  -- The devices behind the switch.
  unfoldable pub attach : M State (Unit {0})
  unfolding map_device find_expander register attach_sensors
  attach = do
    map_device k port3 sx1509q gpio_expander
    find_expander
    register k expander
    attach_sensors

  unfoldable pub downstream : M State (Unit {0})
  unfolding get_adapter cleanup attach
  downstream = do
    found1 ← get_adapter k port1
    found2 ← get_adapter k port2
    found3 ← get_adapter k port3
    cleanup found1 found2 found3 (if found1 && found2 && found3 then attach else fail enodev)

  -- With the primary adapter.
  unfoldable pub map_devices : M State (Unit {0})
  unfolding map_eeprom map_device downstream
  map_devices = do
    msleep
    map_eeprom
    check_board
    map_device k primary pca954x i2c_switch
    downstream

  unfoldable pub probe : M State (Unit {0})
  unfolding get_adapter map_devices
  probe = do found ← get_adapter k primary; if found then map_devices else fail enodev
