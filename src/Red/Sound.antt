-- ===== src/Red/Sound.antt =====
-- The probe of linux_kernel_modules/mangoh/mangoh_red_board.c on a board on which everything is there.
use mang_oh.Prelude.{
  ℕ, ◌≢◌, arith, ◌≡◌, refl, ◌==◌, ==_iff, Bool, true, false, Option, none, some, List,
  if◌then◌else◌,
}
use mang_oh.Prelude.Monad.{Out, M, ok, err, halt, fail, enodev, ◌>>◌}
use mang_oh.Prelude.Outcome.{Post, Post-then, Post-weaken}
use mang_oh.Board.{
  Bus, primary, port1, port2, Info, at24, pca954x, sx1509q, bmi160, bmp280, bq24296, Device, eeprom,
  i2c_switch, gpio_expander, accelerometer, pressure, battery_gauge, battery_charger, Platform, led,
  Rev, unknown, dv2, dv3, dv5, dv6, rev_1_0, Call, Kernel, State, tell, check_client, check_code,
  set_client, get_adapter, map_device, register,
}
use mang_oh.Board.Ledger.{Never}
use mang_oh.Red.{
  or_cleanup, put_all, check_rev, check_board, msleep, led_pin, gauge_info, run_setup, map_eeprom,
  find_expander, attach_led, map_gauge, attach_battery, attach_sensors, attach, downstream,
  map_devices, probe,
}

-- All adapters and devices are there, the expander's driver is bound, and the LED can be registered.
pub record IsSound (k : Kernel) : Type 0 where
  pub adapter_lem : (bus : Bus) (log : List Call) → k.get_adapter bus log ≡ true
  pub device_lem : (info : Info) (log : List Call) → k.new_device info log ≢ none
  pub driver_lem : (log : List Call) → k.get_clientdata log ≢ none
  pub register_lem : (p : Platform) (log : List Call) → k.register p log ≡ 0

-- A step that does not fail, and one that does not stop.
abbrev Works : M State (Unit {0}) → Type 0
Works m = (s : State) → Post (λ _ _. Unit {0}) (λ _ _. ⊥) Never (m s)

abbrev pub Runs : M State (Unit {0}) → Type 0
Runs m = (s : State) → Post (λ _ _. Unit {0}) (λ _ _. Unit {0}) Never (m s)

Works-then : (m n : M State (Unit {0})) → Works m → Works n → Works (m >> n)
Works-then m n h g s =
    Post-then (λ _ _. ⊥) Never m n s (λ _ _. Unit {0}) (λ _ _. Unit {0}) (h s) (λ _ t _. g t)

Works-Runs : (m : M State (Unit {0})) → Works m → Runs m
Works-Runs m h s =
    Post-weaken (m s) (λ _ _. Unit {0}) (λ _ _. Unit {0}) (λ _ _. ⊥) Never (λ _ _ x. x)
      (λ _ _ x. absurd x) (λ _ x. x) (h s)

Runs-then : (m n : M State (Unit {0})) → Runs m → Runs n → Runs (m >> n)
Runs-then m n h g s =
    Post-then (λ _ _. Unit {0}) Never m n s (λ _ _. Unit {0}) (λ _ _. Unit {0}) (h s) (λ _ t _. g t)

client_works :
    (c : Option ℕ) (s : State)
    → c ≢ none
    → Post (λ _ _. Unit {0}) (λ _ _. ⊥) Never (check_client c s)
client_works none s h = absurd (h refl)
client_works (some c) s h = tt

pin_works :
    (base : Option ℕ) (s : State)
    → base ≢ none
    → Post (λ _ _. Unit {0}) (λ _ _. ⊥) Never (led_pin base s)
pin_works none s h = absurd (h refl)
pin_works (some base) s h = tt

code_works :
    (p : Platform) (code : ℕ) (s : State)
    → (code == 0) ≡ true
    → Post (λ _ _. Unit {0}) (λ _ _. ⊥) Never (check_code p code s)
code_works p code s e = rw e tt

kept_works :
    (e c : Bool) (out : Out State (Unit {0})) (s : State)
    → Post (λ _ _. Unit {0}) (λ _ _. ⊥) Never out
    → Post (λ _ _. Unit {0}) (λ _ _. ⊥) Never (or_cleanup e c (λ _. out) s)
unfolding or_cleanup
kept_works e c (ok a t) s h = tt
kept_works e c (err x t) s h = absurd h
kept_works e c (halt f) s h = h

or_cleanup-Works : (e c : Bool) (m : M State (Unit {0})) → Works m → Works (or_cleanup e c m)
unfolding or_cleanup
or_cleanup-Works e c m h s = kept_works e c (m s) s (h s)

rev_runs :
    (rev : Rev) (s : State) → Post (λ _ _. Unit {0}) (λ _ _. Unit {0}) Never (check_rev rev s)
rev_runs unknown s = tt
rev_runs dv2 s = tt
rev_runs dv3 s = tt
rev_runs dv5 s = tt
rev_runs dv6 s = tt
rev_runs rev_1_0 s = tt

module _ (k : Kernel) (sound : IsSound k) where
  map-Works : (bus : Bus) (info : Info) (d : Device) → Works (map_device k bus info d)
  unfolding map_device
  map-Works bus info d s =
      let c = k.new_device info s.log in
      client_works c (set_client d c (tell (Call.i2c_new_device bus info c) s))
        (sound.device_lem info s.log)

  led-Works : Works (attach_led k)
  unfolding attach_led find_expander register
  led-Works =
      Works-then (map_device k port2 sx1509q gpio_expander) (find_expander k >> register k led)
        (map-Works port2 sx1509q gpio_expander)
        (Works-then (find_expander k) (register k led)
          (λ s.
            pin_works (k.get_clientdata s.log) (tell Call.i2c_get_clientdata s)
              (sound.driver_lem s.log))
          (λ s.
            let code = k.register led s.log in
            code_works led code (tell (Call.platform_device_register led code) s)
              ((==_iff code 0).1 (sound.register_lem led s.log))))

  battery-Works : Works (attach_battery k)
  unfolding attach_battery
  battery-Works =
      Works-then (map_device k port1 bq24296 battery_charger) (map_gauge k)
        (map-Works port1 bq24296 battery_charger)
        (λ s. map-Works port1 (gauge_info s.board_rev) battery_gauge s)

  sensors-Works : (e c : Bool) → Works (attach_sensors k e c)
  unfolding attach_sensors
  sensors-Works e c =
      let m3 = or_cleanup e c (attach_battery k) >> put_all e c in
      let m2 = map_device k primary bmp280 pressure >> m3 in
      Works-then (map_device k primary bmi160 accelerometer) m2
        (map-Works primary bmi160 accelerometer)
        (Works-then (map_device k primary bmp280 pressure) m3 (map-Works primary bmp280 pressure) (
          Works-then (or_cleanup e c (attach_battery k)) (put_all e c)
            (or_cleanup-Works e c (attach_battery k) battery-Works) (λ s. tt)))

  attach-Works : (e c : Bool) → e ≡ true → c ≡ true → Works (attach k e c)
  unfolding attach
  attach-Works true true h g =
      Works-then (or_cleanup true true (attach_led k)) (attach_sensors k true true)
        (or_cleanup-Works true true (attach_led k) led-Works) (sensors-Works true true)
  attach-Works true false h g = absurd (ground (arith, g))
  attach-Works false c h g = absurd (ground (arith, h))

  downstream-Works : Works (downstream k)
  unfolding downstream get_adapter
  downstream-Works s =
      let e = k.get_adapter port2 s.log in
      let t = tell (Call.i2c_get_adapter port2 e) s in
      let c = k.get_adapter port1 t.log in
      attach-Works e c (sound.adapter_lem port2 s.log) (sound.adapter_lem port1 t.log)
        (tell (Call.i2c_get_adapter port1 c) t)

  eeprom-Works : Works (map_eeprom k)
  unfolding map_eeprom
  eeprom-Works =
      Works-then (map_device k primary at24 eeprom) (run_setup k) (map-Works primary at24 eeprom)
        (λ s. tt)

  devices-Runs : Runs (map_devices k)
  unfolding map_devices
  devices-Runs =
      let switch = or_cleanup false false (map_device k primary pca954x i2c_switch) in
      let m3 = switch >> downstream k in
      let m2 = check_board >> m3 in
      Runs-then msleep (or_cleanup false false (map_eeprom k) >> m2) (λ s. tt)
        (Runs-then (or_cleanup false false (map_eeprom k)) m2
          (Works-Runs _ (or_cleanup-Works false false (map_eeprom k) eeprom-Works))
          (Runs-then check_board m3 (λ s. rev_runs s.board_rev s)
            (Works-Runs m3 (
              Works-then switch (downstream k)
                (or_cleanup-Works false false (map_device k primary pca954x i2c_switch)
                  (map-Works primary pca954x i2c_switch))
                downstream-Works))))

  found-Runs : (found : Bool) → Runs (if found then map_devices k else fail enodev)
  found-Runs true = devices-Runs
  found-Runs false = λ s. tt

  pub probe-Runs : Runs (probe k)
  unfolding probe get_adapter
  probe-Runs s =
      found-Runs (k.get_adapter primary s.log)
        (tell (Call.i2c_get_adapter primary (k.get_adapter primary s.log)) s)
