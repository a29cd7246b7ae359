-- ===== src/Green.antt =====
-- The devices of the mangOH Green board, linux_kernel_modules/mangoh/mangoh_green.c. The calls of the
-- kernel are kept in a log, the last one first; what it answers is a parameter, which may depend on
-- the calls before.
pub mod Ledger
pub mod Probing
mod Tests
use mang_oh.Prelude.{ℕ, Bool, true, false, Option, none, some, List, ◌∷◌, if◌then◌else◌}
use mang_oh.Prelude.Monad.{M, ok, err, halt, bug, pure, ◌>>◌, enodev}

-- The boards of mangoh_green_pca954x_device_info and mangoh_green_lsm6ds3_devinfo.
pub data Info : Type 0 where
  pca954x lsm6ds3 : Info

pub data Call : Type 0 where
  msleep : (ms : ℕ) → Call
  i2c_get_adapter : (found : Bool) → Call
  i2c_put_adapter : Call
  i2c_new_device : (info : Info) → (client : Option ℕ) → Call
  i2c_unregister_device : (client : Option ℕ) → Call

-- Whether there is the primary adapter, and the client for a board, or NULL.
pub record Kernel : Type 0 where
  pub get_adapter : List Call → Bool
  pub new_device : Info → List Call → Option ℕ

-- struct mangoh_green_driver_data, and the calls.
pub record State : Type 0 where
  pub i2c_switch : Option ℕ
  pub accelerometer : Option ℕ
  pub log : List Call

abbrev pub tell : Call → State → State
tell c s = record s { log = c ∷ s.log }

-- i2c_unregister_device of the kernels that the driver is for does not test for NULL: it takes the
-- device of the client.
unfoldable pub unregister : Option ℕ → M State (Unit {0})
unregister none s = halt bug
unregister (some client) s = ok tt (tell (Call.i2c_unregister_device (some client)) s)

unfoldable pub remove : M State (Unit {0})
unfolding unregister
remove s = (unregister s.accelerometer >> unregister s.i2c_switch) s

-- `cleanup:`, behind `m`.
unfoldable pub cleanup : M State (Unit {0}) → M State (Unit {0})
unfolding remove
cleanup m s = elim (m s) [
  | ok a t ↦ ok a (tell Call.i2c_put_adapter t)
  | err e t ↦ elim (remove (tell Call.i2c_put_adapter t)) [
    | ok a u ↦ err e u
    | err f u ↦ err e u
    | halt f ↦ halt f
  ]
  | halt f ↦ halt f
]

-- What the code does with the client that it was given, if it was.
unfoldable pub found : Option ℕ → M State (Unit {0})
found none s = err enodev s
found (some client) s = ok tt s

unfoldable pub set_switch : Option ℕ → M State (Unit {0})
unfolding found
set_switch client s =
    found client (tell (Call.i2c_new_device Info.pca954x client) (record s { i2c_switch = client }))

unfoldable pub set_accelerometer : Option ℕ → M State (Unit {0})
unfolding found
set_accelerometer client s =
    found client
      (tell (Call.i2c_new_device Info.lsm6ds3 client) (record s { accelerometer = client }))

module _ (k : Kernel) where
  unfoldable pub map_switch : M State (Unit {0})
  unfolding set_switch
  map_switch s = set_switch (k.new_device Info.pca954x s.log) s

  unfoldable pub map_accelerometer : M State (Unit {0})
  unfolding set_accelerometer
  map_accelerometer s = set_accelerometer (k.new_device Info.lsm6ds3 s.log) s

  unfoldable pub probe : M State (Unit {0})
  unfolding cleanup map_switch map_accelerometer
  probe s =
      let t = tell (Call.msleep 5000) s in
      let present = k.get_adapter t.log in
      let u = tell (Call.i2c_get_adapter present) t in
      if present then cleanup (map_switch >> map_accelerometer) u else err enodev u
