-- ===== src/Yellow/Tests.antt =====
-- Tests of linux_kernel_modules/mangoh/mangoh_yellow.c on a board with a blank EEPROM, with and
-- without its light sensor.
use mang_oh.Prelude.{ℕ, ◌≡◌, refl, true, false, Option, none, some, List, [], ◌∷◌, length}
use mang_oh.Prelude.Monad.{after}
use mang_oh.Prelude.Outcome.{Post}
use mang_oh.Board.{
  Info, opt3002, unknown, rev_1_0, expander, Call, Kernel, State, get_adapter, map_device, register,
  unregister_all, remove_devices,
}
use mang_oh.Board.Ledger.{
  Resource, adapter, client, platform, acquired, released, Holds, Released, Never,
}
use mang_oh.Yellow.{
  identify, eeprom_setup, map_eeprom, find_expander, request_pin, attach_sensors, attach, cleanup,
  downstream, map_devices, probe,
}
use mang_oh.Yellow.Attaching.{yellow}
use mang_oh.Yellow.Probing.{Ended, probe_ends}

abbrev board : (Info → List Call → Option ℕ) → Kernel
board new_device = record {
  get_adapter = λ bus log. true;
  new_device = new_device;
  get_clientdata = λ log. some 100;
  register = λ p log. 0;
  request_one = λ log. 517;
  calls_setup = λ log. true;
  kmalloc = λ log. true;
  mem_read = λ log. some (255 ∷ 255 ∷ []);
}

-- A client is numbered by the calls before it.
abbrev whole : Kernel
whole = board (λ info log. some (length log))

abbrev no_light : Info → List Call → Option ℕ
no_light opt3002 log = none
no_light _ log = some (length log)

abbrev without_light : Kernel
without_light = board no_light

abbrev nothing : State
nothing = record {
  client = λ d. none;
  registered = λ p. false;
  board_rev = unknown;
  eeprom_read_success = false;
  pin_base = 0;
  log = [];
}

abbrev before : Resource → ℕ
before r = 0

-- The blank EEPROM is taken for the newest revision.
probe-board_rev : (after (probe whole nothing) nothing).board_rev ≡ rev_1_0
unfolding probe map_devices map_eeprom eeprom_setup identify get_adapter map_device downstream
    attach find_expander register attach_sensors request_pin cleanup
probe-board_rev = refl

-- The expander's device is registered, and unregistered again without the light sensor.
acquired-released :
    let log = (after (probe without_light nothing) nothing).log in
    acquired (platform expander) log ≡ released (platform expander) log
unfolding probe map_devices map_eeprom eeprom_setup identify get_adapter map_device downstream
    attach find_expander register attach_sensors request_pin cleanup remove_devices unregister_all
acquired-released = refl

nothing-Released : Released before 0 nothing
nothing-Released adapter = refl
nothing-Released (client a) = refl
nothing-Released (platform p) = refl

probe_ends_example :
    Post (λ _. Holds yellow expander before 0) (Ended before) Never (probe whole nothing)
probe_ends_example =
    probe_ends before whole nothing nothing-Released
      ((refl, (refl, (refl, (refl, (refl, (refl, (refl, (refl, tt)))))))), (refl, tt))
