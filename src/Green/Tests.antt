-- ===== src/Green/Tests.antt =====
-- Tests of linux_kernel_modules/mangoh/mangoh_green.c on a board whose accelerometer is missing or
-- not.
use mang_oh.Prelude.{ℕ, ◌≡◌, refl, true, Option, none, some, [], ◌∷◌}
use mang_oh.Prelude.Monad.{halt, bug, after, ◌>>◌}
use mang_oh.Prelude.Outcome.{Post}
use mang_oh.Green.{
  Info, Kernel, State, unregister, remove, cleanup, found, set_switch, set_accelerometer,
  map_switch, map_accelerometer, probe,
}
use mang_oh.Green.Ledger.{registered, adapters, Released}
use mang_oh.Green.Probing.{Complete, Refused, Stops, probe_lem, probe-remove}

abbrev client : Info → Option ℕ
client Info.pca954x = some 1
client Info.lsm6ds3 = some 2

abbrev whole : Kernel
whole = record { get_adapter = λ log. true; new_device = λ info log. client info }

abbrev only_switch : Info → Option ℕ
only_switch Info.pca954x = some 1
only_switch Info.lsm6ds3 = none

abbrev without : Kernel
without = record { get_adapter = λ log. true; new_device = λ info log. only_switch info }

abbrev nothing : State
nothing = record { i2c_switch = none; accelerometer = none; log = [] }

probe-whole : registered (after (probe whole nothing) nothing).log ≡ 2 ∷ 1 ∷ []
unfolding probe cleanup map_switch map_accelerometer set_switch set_accelerometer found registered
probe-whole = refl

-- Without the accelerometer the cleanup unregisters NULL.
probe-without : probe without nothing ≡ halt bug
unfolding probe cleanup map_switch map_accelerometer set_switch set_accelerometer found remove
    unregister
probe-without = refl

probe_lem_example :
    Post (λ _. Complete [] 0) (Refused whole nothing) (Stops whole) (probe whole nothing)
unfolding registered adapters
probe_lem_example = probe_lem whole nothing refl

probe-remove_example :
    Post
      (λ _. Released [] 0)
      (Refused whole nothing)
      (Stops whole)
      ((probe whole >> remove) nothing)
unfolding registered adapters
probe-remove_example = probe-remove whole nothing refl
