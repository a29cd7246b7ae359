-- ===== src/Red/Cleaning.antt =====
-- The steps of the probe of linux_kernel_modules/mangoh/mangoh_red_board.c, with their cleanup.
use mang_oh.Prelude.{
  ap, ◌∙◌, ℕ, ◌≡◌, refl, Bool, true, false, Option, none, some, List, [], ◌∷◌, ◌++◌, if◌then◌else◌,
  ==_iff, arith,
}
use mathlib.Core.Path.{subst}
use mang_oh.Prelude.Monad.{Fault, Out, M, ok, err, halt, bug, fail, enodev, ◌>>◌}
use mang_oh.Prelude.Outcome.{Post, Post-then, Post-weaken}
use mang_oh.Board.{
  Bus, primary, port1, port2, Info, at24, sx1509q, bq24296, Device, eeprom, gpio_expander,
  battery_gauge, battery_charger, Platform, led, Call, Kernel, State, tell, number, check_client,
  set_client, map_device, register, unregister_device, unregister_all, unregister_each,
  unregister_platform, remove_devices,
}
use mang_oh.Board.Ledger.{Resource, more, Holds, Released, Never, occurs}
use mang_oh.Board.Steps.{Stage, mapped, map_device-Unset, register-Stage, put_Holds}
use mang_oh.Board.Removal.{remove-Released, unregister_device-Unregisters}
use mang_oh.Board.Neutral.{
  Neutral, Neutral-refl, Neutral-trans, Neutral-tell, Neutral-if, Neutral-Stage,
}
use mang_oh.Red.{
  sensors, base_devices, put_adapters, or_cleanup, remove, remove_led, detected_rev, choose_rev,
  led_pin, gauge_info, eeprom_setup, run_setup, map_eeprom, find_expander, attach_led, map_gauge,
  attach_battery,
}

-- The devices of the board, in the order in which they are removed.
abbrev pub red : List Device
red = sensors ++ base_devices

-- The probe stops at a null pointer.
abbrev pub Stops : Fault → Type 0
Stops f = f ≡ bug

one_lem :
    (d : Device) (ds : List Device) (c : Option ℕ) (s : State)
    → s.client d ≡ c
    → ((t : State)
        → Post
            (λ _ u. unregister_all unregister_device ds t ≡ u)
            (λ _ _. ⊥)
            Stops
            (unregister_each ds t))
    → Post
        (λ _ u. unregister_all unregister_device ds (unregister_device c s) ≡ u)
        (λ _ _. ⊥)
        Stops
        (elim c [
          | none ↦ halt bug
          | some x ↦ unregister_each ds (tell (Call.i2c_unregister_device (some x)) s)
        ])
one_lem d ds none s e h = refl
one_lem d ds (some x) s e h = h (tell (Call.i2c_unregister_device (some x)) s)

each_lem :
    (ds : List Device) (s : State)
    → Post
        (λ _ u. unregister_all unregister_device ds s ≡ u)
        (λ _ _. ⊥)
        Stops
        (unregister_each ds s)
unfolding unregister_each unregister_all
each_lem [] s = refl
each_lem (d ∷ ds) s = one_lem d ds (s.client d) s refl (λ t. each_lem ds t)

-- The removal stops at NULL, or unregisters all that the data name.
removal :
    (s : State)
    → Post
        (λ _ u. remove_devices unregister_device sensors led base_devices s ≡ u)
        (λ _ _. ⊥)
        Stops
        (remove s)
unfolding remove remove_devices
removal s =
    let all = unregister_all unregister_device in
    Post-then (λ _ _. ⊥) Stops (unregister_each sensors)
      (remove_led >> unregister_each base_devices) s (λ _ t. all sensors s ≡ t)
      (λ _ u. remove_devices unregister_device sensors led base_devices s ≡ u) (each_lem sensors s)
      (λ _ t h.
        let v = unregister_platform led t in
        Post-weaken (unregister_each base_devices v) (λ _ u. all base_devices v ≡ u)
          (λ _ u. remove_devices unregister_device sensors led base_devices s ≡ u) (λ _ _. ⊥) Stops
          (λ _ u g. ap (λ x. all base_devices (unregister_platform led x)) h ∙ g)
          (λ _ _ x. absurd x) (λ _ x. x) (each_lem base_devices v))

module _ (n : Resource → ℕ) where
  abbrev pub At : ℕ → List Device → List Platform → State → Type 0
  At a es ps = Stage red led n a es ps

  -- What the data name, and some references to adapters.
  abbrev pub Kept : ℕ → State → Type 0
  Kept a = Holds red led n a

  -- The references to adapters once those behind the switch are asked for.
  abbrev pub held : Bool → Bool → ℕ
  held expander_found charger_found = more charger_found (more expander_found 1)

  held-more : (e c : Bool) → held e c ≡ more true (more e (more c 0))
  held-more true true = refl
  held-more true false = refl
  held-more false true = refl
  held-more false false = refl

  pub put_lem : (e c : Bool) (s : State) → Kept (held e c) s → Kept 0 (put_adapters e c s)
  put_lem e c s l =
      let t = tell (Call.i2c_put_adapter primary true) s in
      let u = tell (Call.i2c_put_adapter port2 e) t in
      put_Holds red led n port1 c 0 u (
        put_Holds red led n port2 e (more c 0) t (
          put_Holds red led n primary true (more e (more c 0)) s
            (subst (λ (a : ℕ). Kept a s) (held-more e c) l)))

  pub remove_lem :
      (a : ℕ) (s : State) → Kept a s → Post (λ _. Released n a) (λ _ _. ⊥) Stops (remove s)
  remove_lem a s h =
      Post-weaken (remove s)
        (λ _ u. remove_devices unregister_device sensors led base_devices s ≡ u) (λ _. Released n a)
        (λ _ _. ⊥) Stops
        (λ _ u e.
          subst (λ x. Released n a x) e
            (remove-Released unregister_device unregister_device-Unregisters sensors led
              base_devices n a s h))
        (λ _ _ x. absurd x) (λ _ x. x) (removal s)

  pub dropped :
      (Q : Unit {0} → State → Type 0) (e : ℕ) (out : Out State (Unit {0}))
      → Post (λ _. Released n 0) (λ _ _. ⊥) Stops out
      → Post Q
          (λ _. Released n 0)
          Stops
          (elim out [ ok a u ↦ err e u | err f u ↦ err e u | halt f ↦ halt f ])
  dropped Q e (ok a u) h = h
  dropped Q e (err f u) h = absurd h
  dropped Q e (halt f) h = h

  cleaned :
      (e c : Bool) (es : List Device) (ps : List Platform) (out : Out State (Unit {0})) (s : State)
      → Post (λ _. At (held e c) es ps) (λ _. Kept (held e c)) Stops out
      → Post (λ _. At (held e c) es ps) (λ _. Released n 0) Stops (or_cleanup e c (λ _. out) s)
  unfolding or_cleanup
  cleaned e c es ps (ok a t) s h = h
  cleaned e c es ps (err x t) s l =
      dropped (λ _. At (held e c) es ps) x (remove (put_adapters e c t))
        (remove_lem 0 (put_adapters e c t) (put_lem e c t l))
  cleaned e c es ps (halt f) s h = h

  pub or_cleanup_lem :
      (e c : Bool) (es : List Device) (ps : List Platform) (m : M State (Unit {0})) (s : State)
      → Post (λ _. At (held e c) es ps) (λ _. Kept (held e c)) Stops (m s)
      → Post (λ _. At (held e c) es ps) (λ _. Released n 0) Stops (or_cleanup e c m s)
  unfolding or_cleanup
  or_cleanup_lem e c es ps m s h = cleaned e c es ps (m s) s h

  module _ (k : Kernel) where
    -- A device, on a board that stops at NULL.
    pub map_Kept :
        (bus : Bus) (info : Info) (d : Device) (a : ℕ) (es : List Device) (ps : List Platform)
        (s : State)
        → occurs d red ≡ 1
        → occurs d es ≡ 0
        → At a (d ∷ es) ps s
        → Post (λ _. At a es ps) (λ _. Kept a) Stops (map_device k bus info d s)
    map_Kept bus info d a es ps s e f h =
        Post-weaken (map_device k bus info d s) (λ _. At a es ps) (λ _. At a es ps)
          (λ _. At a es ps) Never (λ _ _ x. x) (λ _ _ x. x.0) (λ _ x. absurd x)
          (map_device-Unset red led n k bus info d a es ps s e f h)

    pin_lem :
        (base : Option ℕ) (a : ℕ) (es : List Device) (ps : List Platform) (s : State)
        → At a es ps s
        → Post (λ _. At a es ps) (λ _. Kept a) Stops (led_pin base (tell Call.i2c_get_clientdata s))
    pin_lem none a es ps s h = refl
    pin_lem (some base) a es ps s (l, h) = ((λ r. omega (arith, l r)), h)

    step :
        (a : ℕ) (es fs : List Device) (ps qs : List Platform) (m rest : M State (Unit {0}))
        (s : State)
        → Post (λ _. At a es ps) (λ _. Kept a) Stops (m s)
        → ((t : State) → At a es ps t → Post (λ _. At a fs qs) (λ _. Kept a) Stops (rest t))
        → Post (λ _. At a fs qs) (λ _. Kept a) Stops ((m >> rest) s)
    step a es fs ps qs m rest s h g =
        Post-then (λ _. Kept a) Stops m rest s (λ _. At a es ps) (λ _. At a fs qs) h (λ _ t. g t)

    led_lem :
        (a : ℕ) (es : List Device) (s : State)
        → occurs gpio_expander es ≡ 0
        → At a (gpio_expander ∷ es) (led ∷ []) s
        → Post (λ _. At a es []) (λ _. Kept a) Stops (attach_led k s)
    unfolding attach_led find_expander
    led_lem a es s f h =
        step a es es (led ∷ []) [] (map_device k port2 sx1509q gpio_expander) _ s
          (map_Kept port2 sx1509q gpio_expander a es (led ∷ []) s refl f h)
          (λ t g.
            step a es es (led ∷ []) [] (find_expander k) (register k led) t
              (pin_lem (k.get_clientdata t.log) a es (led ∷ []) t g)
              (λ u j.
                Post-weaken (register k led u) (λ _. At a es []) (λ _. At a es []) (λ _. Kept a)
                  Never (λ _ _ x. x) (λ _ _ x. x) (λ _ x. absurd x)
                  (register-Stage red led n k a es u j)))

    pub found_led_lem :
        (found : Bool) (a : ℕ) (es : List Device) (s : State)
        → occurs gpio_expander es ≡ 0
        → At a (gpio_expander ∷ es) (led ∷ []) s
        → Post
            (λ _. At a es [])
            (λ _. Kept a)
            Stops
            ((if found then attach_led k else fail enodev) s)
    found_led_lem true a es s f h = led_lem a es s f h
    found_led_lem false a es s f h = h.0

    pub battery_lem :
        (a : ℕ) (s : State)
        → At a (battery_charger ∷ battery_gauge ∷ []) [] s
        → Post (λ _. At a [] []) (λ _. Kept a) Stops (attach_battery k s)
    unfolding attach_battery
    battery_lem a s h =
        step a (battery_gauge ∷ []) [] [] [] (map_device k port1 bq24296 battery_charger)
          (map_gauge k) s
          (map_Kept port1 bq24296 battery_charger a (battery_gauge ∷ []) [] s refl refl h)
          (λ t g. map_Kept port1 (gauge_info t.board_rev) battery_gauge a [] [] t refl refl g)

    read-Neutral :
        (read : Option (List ℕ)) (s : State)
        → Neutral s (elim read [
          | none ↦ s
          | some bytes ↦ record s { board_rev = choose_rev s.board_rev (detected_rev bytes) }
        ])
    read-Neutral none s = Neutral-refl s
    read-Neutral (some bytes) s = record {
      client_lem = refl;
      registered_lem = refl;
      acquired_lem = λ r. refl;
      released_lem = λ r. refl;
    }

    setup-Neutral : (s : State) → Neutral s (if k.calls_setup s.log then eeprom_setup k s else s)
    unfolding eeprom_setup
    setup-Neutral s =
        let t = tell Call.mem_read s in
        Neutral-if (k.calls_setup s.log) s (eeprom_setup k s) s
          (Neutral-trans s t (eeprom_setup k s)
            (Neutral-tell Call.mem_read s s refl refl (Neutral-refl s))
            (read-Neutral (k.mem_read s.log) t))
          (Neutral-refl s)

    pub eeprom_lem :
        (es : List Device) (ps : List Platform) (s : State)
        → occurs eeprom es ≡ 0
        → At 1 (eeprom ∷ es) ps s
        → Post (λ _. At 1 es ps) (λ _. Kept 1) Stops (map_eeprom k s)
    unfolding map_eeprom
    eeprom_lem es ps s f h =
        step 1 es es ps ps (map_device k primary at24 eeprom) (run_setup k) s
          (map_Kept primary at24 eeprom 1 es ps s refl f h)
          (λ t g.
            Neutral-Stage red led n 1 es ps t (if k.calls_setup t.log then eeprom_setup k t else t)
              (setup-Neutral t) g)

    missing :
        (c : Option ℕ) (a : ℕ) (d : Device) (es : List Device) (ps : List Platform) (s : State)
        → s.client d ≡ c
        → At a es ps s
        → Post (λ _. At a es ps) (λ _ t. Kept a t × (t.client d ≡ none)) Stops (check_client c s)
    missing none a d es ps s e h = (h.0, e)
    missing (some c) a d es ps s e h = h

    -- A device without which the probe returns at once.
    pub map_missing :
        (bus : Bus) (info : Info) (d : Device) (a : ℕ) (es : List Device) (ps : List Platform)
        (s : State)
        → occurs d red ≡ 1
        → occurs d es ≡ 0
        → At a (d ∷ es) ps s
        → Post
            (λ _. At a es ps)
            (λ _ t. Kept a t × (t.client d ≡ none))
            Stops
            (map_device k bus info d s)
    unfolding map_device
    map_missing bus info d a es ps s e f h =
        let c = k.new_device info s.log in
        missing c a d es ps (set_client d c (tell (Call.i2c_new_device bus info c) s))
          (rw ((==_iff (number d) (number d)).1 refl) refl)
          (mapped red led n bus info d c a es ps s e f h)
