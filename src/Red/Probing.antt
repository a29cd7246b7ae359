-- ===== src/Red/Probing.antt =====
-- What the probe of linux_kernel_modules/mangoh/mangoh_red_board.c leaves held.
use mang_oh.Prelude.{
  ℕ, ◌≡◌, ◌⊎◌, refl, inl, inr, Bool, true, false, none, List, [], ◌∷◌, if◌then◌else◌, arith,
}
use mang_oh.Prelude.Monad.{Fault, bug, Out, M, ok, err, halt, fail, enodev, ◌>>◌}
use mang_oh.Prelude.Outcome.{Post, Post-then, Post-weaken}
use mang_oh.Board.{
  primary, port1, port2, pca954x, bmi160, bmp280, Device, eeprom, i2c_switch, gpio_expander,
  accelerometer, pressure, battery_gauge, battery_charger, Platform, led, Rev, unknown, dv2, dv3,
  dv5, dv6, rev_1_0, Call, Kernel, State, tell, get_adapter, map_device,
}
use mang_oh.Board.Ledger.{Never, Resource, more, Released, Unset}
use mang_oh.Board.Steps.{got, clients-unset, flag-unset}
use mang_oh.Red.{
  remove, put_adapters, or_cleanup, put_all, check_rev, check_board, msleep, map_eeprom, attach_led,
  attach_battery, attach_sensors, attach, downstream, map_devices, probe,
}
use mang_oh.Red.Sound.{IsSound, probe-Runs}
use mang_oh.Red.Cleaning.{
  red, Stops, At, Kept, held, put_lem, remove_lem, dropped, or_cleanup_lem, map_Kept, found_led_lem,
  battery_lem, eeprom_lem, map_missing,
}

-- Those behind the switch, in the order in which they are registered.
abbrev behind : List Device
behind = gpio_expander ∷ accelerometer ∷ pressure ∷ battery_charger ∷ battery_gauge ∷ []

module _ (n : Resource → ℕ) where
  -- A failure: nothing is held; or the revision is unknown; or the accelerometer or the pressure sensor
  -- is missing. In the two latter cases what is left is what the data name, and the references to the
  -- adapters.
  abbrev pub Ended : ℕ → State → Type 0
  Ended e s =
      Released n 0 s
      ⊎ (((s.board_rev ≡ unknown) × Kept n 1 s)
          ⊎ (((s.client accelerometer ≡ none) ⊎ (s.client pressure ≡ none)) × Kept n 3 s))

  rev_lem :
      (rev : Rev) (es : List Device) (s : State)
      → s.board_rev ≡ rev
      → At n 1 es (led ∷ []) s
      → Post (λ _. At n 1 es (led ∷ [])) Ended Stops (check_rev rev s)
  rev_lem unknown es s e h = inr (inl (e, h.0))
  rev_lem dv2 es s e h = h
  rev_lem dv3 es s e h = h
  rev_lem dv5 es s e h = h
  rev_lem dv6 es s e h = h
  rev_lem rev_1_0 es s e h = h

  module _ (k : Kernel) where
    -- A step with its cleanup, and what follows.
    then_step :
        (a : ℕ) (es : List Device) (ps : List Platform) (E : ℕ → State → Type 0)
        (m rest : M State (Unit {0})) (s : State)
        → ((e : ℕ) (t : State) → E e t → Ended e t)
        → Post (λ _. At n a es ps) E Stops (m s)
        → ((t : State) → At n a es ps t → Post (λ _. Kept n 0) Ended Stops (rest t))
        → Post (λ _. Kept n 0) Ended Stops ((m >> rest) s)
    then_step a es ps E m rest s f h g =
        Post-then Ended Stops m rest s (λ _. At n a es ps) (λ _. Kept n 0)
          (Post-weaken (m s) (λ _. At n a es ps) (λ _. At n a es ps) E Stops (λ _ _ x. x) f
            (λ _ x. x) h)
          (λ _ t. g t)

    attach_lem :
        (s : State)
        → At n 3 behind (led ∷ []) s
        → Post (λ _. Kept n 0) Ended Stops (attach k true true s)
    unfolding attach attach_sensors
    attach_lem s h =
        let es = accelerometer ∷ pressure ∷ battery_charger ∷ battery_gauge ∷ [] in
        then_step 3 es [] (λ _. Released n 0) (or_cleanup true true (attach_led k)) _ s
          (λ _ _ x. inl x)
          (or_cleanup_lem n true true es [] (attach_led k) s (found_led_lem n k true 3 es s refl h))
          (λ t g.
            then_step 3 (pressure ∷ battery_charger ∷ battery_gauge ∷ []) []
              (λ _ u. Kept n 3 u × (u.client accelerometer ≡ none))
              (map_device k primary bmi160 accelerometer) _ t (λ _ _ x. inr (inr (inl x.1, x.0)))
              (map_missing n k primary bmi160 accelerometer 3
                (pressure ∷ battery_charger ∷ battery_gauge ∷ []) [] t refl refl g)
              (λ u f.
                then_step 3 (battery_charger ∷ battery_gauge ∷ []) []
                  (λ _ v. Kept n 3 v × (v.client pressure ≡ none))
                  (map_device k primary bmp280 pressure) _ u (λ _ _ x. inr (inr (inr x.1, x.0)))
                  (map_missing n k primary bmp280 pressure 3 (battery_charger ∷ battery_gauge ∷ [])
                    [] u refl refl f)
                  (λ v j.
                    then_step 3 [] [] (λ _. Released n 0) (or_cleanup true true (attach_battery k))
                      (put_all true true) v (λ _ _ x. inl x)
                      (or_cleanup_lem n true true [] [] (attach_battery k) v
                        (battery_lem n k 3 v j))
                      (λ w l. put_lem n true true w l.0))))

    -- Without one of the adapters behind the switch.
    without :
        (e c : Bool) (rest : M State (Unit {0})) (s : State)
        → Kept n (held n e c) s
        → Post (λ _. Kept n 0) Ended Stops ((or_cleanup e c (fail enodev) >> rest) s)
    unfolding or_cleanup
    without e c rest s h =
        Post-then Ended Stops (or_cleanup e c (fail enodev)) rest s (λ _ _. ⊥) (λ _. Kept n 0)
          (Post-weaken (or_cleanup e c (fail enodev) s) (λ _ _. ⊥) (λ _ _. ⊥) (λ _. Released n 0)
            Stops (λ _ _ x. x) (λ _ _ x. inl x) (λ _ x. x)
            (dropped n (λ _ _. ⊥) enodev (remove (put_adapters e c s))
              (remove_lem n 0 (put_adapters e c s) (put_lem n e c s h))))
          (λ _ t g. absurd g)

    found_lem :
        (e c : Bool) (s : State)
        → At n (held n e c) behind (led ∷ []) s
        → Post (λ _. Kept n 0) Ended Stops (attach k e c s)
    unfolding attach
    found_lem true true s h = attach_lem s h
    found_lem true false s h = without true false (attach_sensors k true false) s h.0
    found_lem false true s h = without false true (attach_sensors k false true) s h.0
    found_lem false false s h = without false false (attach_sensors k false false) s h.0

    downstream_lem :
        (s : State) → At n 1 behind (led ∷ []) s → Post (λ _. Kept n 0) Ended Stops (downstream k s)
    unfolding downstream get_adapter
    downstream_lem s h =
        let e = k.get_adapter port2 s.log in
        let t = tell (Call.i2c_get_adapter port2 e) s in
        let c = k.get_adapter port1 t.log in
        found_lem e c (tell (Call.i2c_get_adapter port1 c) t) (
          got red led n port1 c (more e 1) behind (led ∷ []) t
            (got red led n port2 e 1 behind (led ∷ []) s h))

    map_devices_lem :
        (s : State)
        → At n 1 (eeprom ∷ i2c_switch ∷ behind) (led ∷ []) s
        → Post (λ _. Kept n 0) Ended Stops (map_devices k s)
    unfolding map_devices
    map_devices_lem s h =
        let es = i2c_switch ∷ behind in
        then_step 1 (eeprom ∷ es) (led ∷ []) Ended msleep _ s (λ _ _ x. x)
          ((λ r. omega (arith, h.0 r)), h.1)
          (λ t g.
            then_step 1 es (led ∷ []) (λ _. Released n 0) (or_cleanup false false (map_eeprom k)) _
              t (λ _ _ x. inl x)
              (or_cleanup_lem n false false es (led ∷ []) (map_eeprom k) t
                (eeprom_lem n k es (led ∷ []) t refl g))
              (λ u f.
                then_step 1 es (led ∷ []) Ended check_board _ u (λ _ _ x. x)
                  (rev_lem u.board_rev es u refl f)
                  (λ v j.
                    then_step 1 behind (led ∷ []) (λ _. Released n 0)
                      (or_cleanup false false (map_device k primary pca954x i2c_switch))
                      (downstream k) v (λ _ _ x. inl x)
                      (or_cleanup_lem n false false behind (led ∷ [])
                        (map_device k primary pca954x i2c_switch) v
                        (map_Kept n k primary pca954x i2c_switch 1 behind (led ∷ []) v refl refl j))
                      (λ w l. downstream_lem w l))))

    probed :
        (found : Bool) (s : State)
        → Released n 0 s
        → Unset red (led ∷ []) s
        → Post
            (λ _. Kept n 0)
            Ended
            Stops
            ((if found then map_devices k else fail enodev)
              (tell (Call.i2c_get_adapter primary found) s))
    probed true s l (u, (v, w)) =
        let (g, (c, (p, (a, (e, (i, (b, j))))))) = u in
        let h : Kept n 0 s = λ r. omega (
          arith,
          l r,
          clients-unset s.client red r u,
          flag-unset red led n (s.registered led) r v,
        ) in
        map_devices_lem (tell (Call.i2c_get_adapter primary true) s) (
          got red led n primary true 0 (eeprom ∷ i2c_switch ∷ behind) (led ∷ []) s
            (h, ((b, (i, (e, (a, (p, (c, (g, tt))))))), (v, w))))
    probed false s l h = inl (λ r. omega (arith, l r))

    probe_Ended :
        (s : State)
        → Released n 0 s
        → Unset red (led ∷ []) s
        → Post (λ _. Kept n 0) Ended Stops (probe k s)
    unfolding probe get_adapter
    probe_Ended s l u = probed (k.get_adapter primary s.log) s l u

    -- A null pointer is met, and something is not there.
    abbrev pub NullPointer : Fault → Type 0
    NullPointer f = (f ≡ bug) × ¬ IsSound k

    missing :
        (out : Out State (Unit {0}))
        → Post (λ _. Kept n 0) Ended Stops out
        → (IsSound k → Post (λ _ _. Unit {0}) (λ _ _. Unit {0}) Never out)
        → Post (λ _. Kept n 0) Ended NullPointer out
    missing (ok a t) h g = h
    missing (err e t) h g = h
    missing (halt f) h g = (h, g)

    -- A probe whose data name nothing ends, whatever the kernel answers, or it stops at a null pointer,
    -- which needs an adapter, a device or the driver of the expander that is not there, or an LED that
    -- cannot be registered. If it succeeds, what its data name is what it holds. If it fails, it holds
    -- nothing, or the revision is unknown, or the accelerometer or the pressure sensor is missing; in
    -- these cases it is left with what its data name, and one or three references to adapters.
    pub red-probe_ends :
        (s : State)
        → Released n 0 s
        → Unset red (led ∷ []) s
        → Post (λ _. Kept n 0) Ended NullPointer (probe k s)
    red-probe_ends s l u = missing (probe k s) (probe_Ended s l u) (λ sound. probe-Runs k sound s)

    -- The removal after it.
    pub red-probe-remove_ends :
        (s : State)
        → Released n 0 s
        → Unset red (led ∷ []) s
        → Post (λ _. Released n 0) Ended Stops ((probe k >> remove) s)
    unfolding remove
    red-probe-remove_ends s l u =
        Post-then Ended Stops (probe k) remove s (λ _. Kept n 0) (λ _. Released n 0)
          (probe_Ended s l u)
          (λ _ t h.
            Post-weaken (remove t) (λ _. Released n 0) (λ _. Released n 0) (λ _ _. ⊥) Stops
              (λ _ _ x. x) (λ _ _ x. absurd x) (λ _ x. x) (remove_lem n 0 t h))
