-- ===== src/Yellow/Attaching.antt =====
-- What the devices behind the switch of linux_kernel_modules/mangoh/mangoh_yellow.c leave held, with the cleanup.
use mang_oh.Prelude.{
  ℕ, ◌≡◌, refl, Bool, true, false, ◌&&◌, Option, none, some, List, [], ◌∷◌, ◌++◌, ◌==◌,
  if◌then◌else◌, arith,
}
use mang_oh.Prelude.Monad.{Out, M, ok, err, halt, fail, enodev, ◌>>◌}
use mang_oh.Prelude.Outcome.{Post, Post-then, Post-if}
use mang_oh.Board.{
  Bus, primary, port1, port2, port3, Info, sx1509q, bmi160, pcf85063, opt3002, bq25601, bq27426,
  Device, gpio_expander, imu, rtc, light, battery_gauge, battery_charger, Platform, expander, Call,
  Kernel, State, tell, get_adapter, map_device, register,
}
use mang_oh.Board.Ledger.{Resource, more, Holds, Released, Never, occurs}
use mang_oh.Board.Steps.{Stage, Failed, map_device-Stage, register-Stage, got, put_Holds}
use mang_oh.Board.Removal.{remove-Released, safe_unregister_device-Unregisters}
use mang_oh.Board.{safe_unregister_device}
use mang_oh.Yellow.{
  sensors, base_devices, put_adapters, cleanup, check_pin, bind, find_expander, request_pin,
  attach_sensors, attach, downstream,
}

-- The devices of the board, in the order in which they are removed.
abbrev pub yellow : List Device
yellow = sensors ++ base_devices

-- Those behind the switch, in the order in which they are registered.
abbrev pub behind : List Device
behind = gpio_expander ∷ imu ∷ rtc ∷ battery_charger ∷ battery_gauge ∷ light ∷ []

module _ (n : Resource → ℕ) where
  abbrev pub At : ℕ → List Device → List Platform → State → Type 0
  At a es ps = Stage yellow expander n a es ps

  abbrev Lost : ℕ → ℕ → State → Type 0
  Lost a = Failed yellow expander n a

  bind_lem :
      (base : Option ℕ) (a : ℕ) (es : List Device) (ps : List Platform) (s : State)
      → At a es ps s
      → Post (λ _. At a es ps) (Lost a) Never (bind base (tell Call.i2c_get_clientdata s))
  bind_lem none a es ps s (l, h) = λ r. omega (arith, l r)
  bind_lem (some base) a es ps s (l, h) = ((λ r. omega (arith, l r)), h)

  pin_lem :
      (code : ℕ) (a : ℕ) (es : List Device) (ps : List Platform) (s : State)
      → At a es ps s
      → Post (λ _. At a es ps) (Lost a) Never (check_pin code (tell (Call.gpio_request_one code) s))
  pin_lem code a es ps s (l, h) =
      let t = tell (Call.gpio_request_one code) s in
      let m : At a es ps t = ((λ r. omega (arith, l r)), h) in
      Post-if (λ _. At a es ps) (Lost a) Never (code == 0) (ok tt t)
        (if code == 517 then ok tt t else err enodev t) (λ _. m)
        (λ _.
          Post-if (λ _. At a es ps) (Lost a) Never (code == 517) (ok tt t) (err enodev t) (λ _. m)
            (λ _. m.0))

  module _ (k : Kernel) where
    -- One step of several.
    then_step :
        (a : ℕ) (es fs : List Device) (ps qs : List Platform) (m rest : M State (Unit {0}))
        (s : State)
        → Post (λ _. At a es ps) (Lost a) Never (m s)
        → ((t : State) → At a es ps t → Post (λ _. At a fs qs) (Lost a) Never (rest t))
        → Post (λ _. At a fs qs) (Lost a) Never ((m >> rest) s)
    then_step a es fs ps qs m rest s h g =
        Post-then (Lost a) Never m rest s (λ _. At a es ps) (λ _. At a fs qs) h (λ _ t. g t)

    map_step :
        (bus : Bus) (info : Info) (d : Device) (a : ℕ) (es : List Device) (ps : List Platform)
        (rest : M State (Unit {0})) (s : State)
        → occurs d yellow ≡ 1
        → occurs d es ≡ 0
        → ((t : State) → At a es ps t → Post (λ _. At a [] []) (Lost a) Never (rest t))
        → At a (d ∷ es) ps s
        → Post (λ _. At a [] []) (Lost a) Never ((map_device k bus info d >> rest) s)
    map_step bus info d a es ps rest s e f g h =
        then_step a es [] ps [] (map_device k bus info d) rest s
          (map_device-Stage yellow expander n k bus info d a es ps s e f h) g

    sensors_lem :
        (a : ℕ) (s : State)
        → At a (imu ∷ rtc ∷ battery_charger ∷ battery_gauge ∷ light ∷ []) [] s
        → Post (λ _. At a [] []) (Lost a) Never (attach_sensors k s)
    unfolding attach_sensors request_pin
    sensors_lem a s =
        map_step port1 bmi160 imu a (rtc ∷ battery_charger ∷ battery_gauge ∷ light ∷ []) [] _ s refl
          refl
          (λ t.
            map_step port3 pcf85063 rtc a (battery_charger ∷ battery_gauge ∷ light ∷ []) [] _ t refl
              refl
              (λ u.
                map_step port2 bq25601 battery_charger a (battery_gauge ∷ light ∷ []) [] _ u refl
                  refl
                  (λ v. map_step port2 bq27426 battery_gauge a (light ∷ []) [] _ v refl refl (λ w g.
                    then_step a (light ∷ []) [] [] [] (request_pin k)
                      (map_device k port2 opt3002 light) w
                      (pin_lem (k.request_one w.log) a (light ∷ []) [] w g)
                      (λ x j.
                        map_device-Stage yellow expander n k port2 opt3002 light a [] [] x refl refl
                          j)))))

    attach_lem :
        (a : ℕ) (s : State)
        → At a behind (expander ∷ []) s
        → Post (λ _. At a [] []) (Lost a) Never (attach k s)
    unfolding attach find_expander
    attach_lem a s =
        let es = imu ∷ rtc ∷ battery_charger ∷ battery_gauge ∷ light ∷ [] in
        map_step port3 sx1509q gpio_expander a es (expander ∷ []) _ s refl refl (λ t g.
          then_step a es [] (expander ∷ []) [] (find_expander k)
            (register k expander >> attach_sensors k) t
            (bind_lem (k.get_clientdata t.log) a es (expander ∷ []) t g)
            (λ u h.
              then_step a es [] [] [] (register k expander) (attach_sensors k) u
                (register-Stage yellow expander n k a es u h) (λ v j. sensors_lem a v j)))

    put_lem :
        (found1 found2 found3 : Bool) (s : State)
        → Holds yellow expander n (more found3 (more found2 (more found1 1))) s
        → Holds yellow expander n 0 (put_adapters found1 found2 found3 s)
    put_lem found1 found2 found3 s l =
        let t = tell (Call.i2c_put_adapter port3 found3) s in
        let u = tell (Call.i2c_put_adapter port2 found2) t in
        let v = tell (Call.i2c_put_adapter port1 found1) u in
        put_Holds yellow expander n primary true 0 v (
          put_Holds yellow expander n port1 found1 1 u (
            put_Holds yellow expander n port2 found2 (more found1 1) t
              (put_Holds yellow expander n port3 found3 (more found2 (more found1 1)) s l)))

    cleanup_lem :
        (found1 found2 found3 : Bool) (out : Out State (Unit {0})) (s : State)
        → Post
            (λ _. At (more found3 (more found2 (more found1 1))) [] [])
            (Lost (more found3 (more found2 (more found1 1))))
            Never
            out
        → Post
            (λ _. Holds yellow expander n 0)
            (λ _. Released n 0)
            Never
            (cleanup found1 found2 found3 (λ _. out) s)
    unfolding cleanup
    cleanup_lem found1 found2 found3 (ok a t) s (l, h) = put_lem found1 found2 found3 t l
    cleanup_lem found1 found2 found3 (err e t) s l =
        remove-Released safe_unregister_device safe_unregister_device-Unregisters sensors expander
          base_devices n 0 (put_adapters found1 found2 found3 t) (put_lem found1 found2 found3 t l)
    cleanup_lem found1 found2 found3 (halt f) s l = l

    attached :
        (found : Bool) (a : ℕ) (s : State)
        → At a behind (expander ∷ []) s
        → Post (λ _. At a [] []) (Lost a) Never ((if found then attach k else fail enodev) s)
    attached true a s h = attach_lem a s h
    attached false a s h = h.0

    pub downstream_lem :
        (s : State)
        → At 1 behind (expander ∷ []) s
        → Post (λ _. Holds yellow expander n 0) (λ _. Released n 0) Never (downstream k s)
    unfolding downstream get_adapter
    downstream_lem s h =
        let found1 = k.get_adapter port1 s.log in
        let t = tell (Call.i2c_get_adapter port1 found1) s in
        let found2 = k.get_adapter port2 t.log in
        let u = tell (Call.i2c_get_adapter port2 found2) t in
        let found3 = k.get_adapter port3 u.log in
        let v = tell (Call.i2c_get_adapter port3 found3) u in
        let a = more found3 (more found2 (more found1 1)) in
        let at =
          got yellow expander n port3 found3 (more found2 (more found1 1)) behind (expander ∷ []) u
            (got yellow expander n port2 found2 (more found1 1) behind (expander ∷ []) t
              (got yellow expander n port1 found1 1 behind (expander ∷ []) s h)) in
        cleanup_lem found1 found2 found3
          ((if found1 && found2 && found3 then attach k else fail enodev) v) v
          (attached (found1 && found2 && found3) a v at)
