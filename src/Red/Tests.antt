-- ===== src/Red/Tests.antt =====
-- Tests of linux_kernel_modules/mangoh/mangoh_red_board.c on a DV6, with and without its pressure sensor.
use mang_oh.Prelude.{
  ℕ, suc, ◌≡◌, refl, true, false, Option, none, some, List, [], ◌∷◌, ◌++◌, length,
}
use mang_oh.Prelude.Monad.{after, halt, bug}
use mang_oh.Prelude.Outcome.{Post}
use mang_oh.Board.{
  Info, unregister_each, pca954x, bmp280, unknown, dv6, led, Call, Kernel, State, get_adapter,
  map_device, register,
}
use mang_oh.Board.Ledger.{Resource, adapter, client, platform, acquired, released, Released}
use mang_oh.Red.{
  remove, dv6_string, detected_rev, eeprom_setup, map_eeprom, find_expander, attach_led,
  attach_battery, attach_sensors, attach, or_cleanup, downstream, map_devices, probe,
}
use mang_oh.Red.Cleaning.{Kept}
use mang_oh.Red.Probing.{Ended, NullPointer, red-probe_ends}

abbrev board : (Info → List Call → Option ℕ) → Kernel
board new_device = record {
  get_adapter = λ bus log. true;
  new_device = new_device;
  get_clientdata = λ log. some 100;
  register = λ p log. 0;
  request_one = λ log. 517;
  calls_setup = λ log. true;
  kmalloc = λ log. true;
  mem_read = λ log. some (dv6_string ++ 255 ∷ []);
}

-- A client is numbered by the calls before it.
abbrev whole : Kernel
whole = board (λ info log. some (length log))

abbrev no_pressure : Info → List Call → Option ℕ
no_pressure bmp280 log = none
no_pressure _ log = some (length log)

abbrev without_pressure : Kernel
without_pressure = board no_pressure

abbrev nothing : State
nothing = record {
  client = λ d. none;
  registered = λ p. false;
  board_rev = unknown;
  eeprom_read_success = false;
  pin_base = 0;
  log = [];
}

abbrev before : Resource → ℕ
before r = 0

-- The revision is read from the EEPROM.
probe-board_rev : (after (probe whole nothing) nothing).board_rev ≡ dv6
unfolding probe map_devices map_eeprom eeprom_setup detected_rev get_adapter map_device downstream
    attach attach_led find_expander register attach_sensors attach_battery or_cleanup
probe-board_rev = refl

-- Without the pressure sensor the probe fails, and keeps the LED.
acquired-released :
    let log = (after (probe without_pressure nothing) nothing).log in
    acquired (platform led) log ≡ suc (released (platform led) log)
unfolding probe map_devices map_eeprom eeprom_setup detected_rev get_adapter map_device downstream
    attach attach_led find_expander register attach_sensors attach_battery or_cleanup
acquired-released = refl

-- Without the switch the cleanup unregisters NULL.
abbrev no_switch : Info → List Call → Option ℕ
no_switch pca954x log = none
no_switch _ log = some (length log)

probe-no_switch : probe (board no_switch) nothing ≡ halt bug
unfolding probe map_devices map_eeprom eeprom_setup detected_rev get_adapter map_device downstream
    or_cleanup remove unregister_each
probe-no_switch = refl

nothing-Released : Released before 0 nothing
nothing-Released adapter = refl
nothing-Released (client a) = refl
nothing-Released (platform p) = refl

red-probe_ends_example :
    Post (λ _. Kept before 0) (Ended before) (NullPointer before whole) (probe whole nothing)
red-probe_ends_example =
    red-probe_ends before whole nothing nothing-Released
      ((refl, (refl, (refl, (refl, (refl, (refl, (refl, tt))))))), (refl, tt))
