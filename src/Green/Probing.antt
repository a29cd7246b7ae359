-- ===== src/Green/Probing.antt =====
-- The probe of linux_kernel_modules/mangoh/mangoh_green.c and the removal after it.
use mang_oh.Prelude.{
  ℕ, suc, ◌≡◌, refl, ap, Bool, true, false, Option, none, some, List, ◌∷◌, if◌then◌else◌,
}
use mang_oh.Prelude.Monad.{Fault, bug, Out, ok, err, halt, ◌>>◌, enodev}
use mang_oh.Prelude.Outcome.{Post, Post-then, Post-weaken}
use mang_oh.Green.{
  Call, Info, Kernel, State, unregister, remove, cleanup, found, set_switch, set_accelerometer,
  map_switch, map_accelerometer, probe,
}
use mang_oh.Green.Ledger.{registered, adapters, Released, Never, remove_lem, less_one}

-- Both devices are there.
abbrev pub Complete : List ℕ → ℕ → State → Type 0
Complete old n s =
    (a b : ℕ) × (s.accelerometer ≡ some a)
    × (s.i2c_switch ≡ some b)
    × (registered s.log ≡ a ∷ b ∷ old)
    × (adapters s.log ≡ n)

-- The switch alone.
abbrev Switched : List ℕ → ℕ → State → Type 0
Switched old n s =
    (b : ℕ) × (s.accelerometer ≡ none)
    × (s.i2c_switch ≡ some b)
    × (registered s.log ≡ b ∷ old)
    × (adapters s.log ≡ n)

module _ (k : Kernel) where
  -- One of the devices is not there.
  abbrev pub Missing : Type 0
  Missing = (info : Info) × (log : List Call) × (k.new_device info log ≡ none)

  -- There is no adapter: nothing is registered.
  abbrev pub Refused : State → ℕ → State → Type 0
  Refused s e t =
      (e ≡ enodev)
      × (k.get_adapter (Call.msleep 5000 ∷ s.log) ≡ false)
      × Released (registered s.log) (adapters s.log) t

  -- The probe stops at NULL.
  abbrev pub Stops : Fault → Type 0
  Stops f = (f ≡ bug) × Missing

  -- The registrations without one of the devices leave the accelerometer NULL.
  abbrev Unmapped : ℕ → State → Type 0
  Unmapped e t = (t.accelerometer ≡ none) × Missing

  set_switch_lem :
      (d : Option ℕ) (s : State)
      → k.new_device Info.pca954x s.log ≡ d
      → s.accelerometer ≡ none
      → Post (λ _. Switched (registered s.log) (adapters s.log)) Unmapped Never (set_switch d s)
  unfolding set_switch found registered adapters
  set_switch_lem none s m e = (e, (Info.pca954x, s.log, m))
  set_switch_lem (some d) s m e = (d, e, refl, refl, refl)

  set_accelerometer_lem :
      (old : List ℕ) (n : ℕ) (d : Option ℕ) (s : State)
      → k.new_device Info.lsm6ds3 s.log ≡ d
      → Switched old n s
      → Post (λ _. Complete old n) Unmapped Never (set_accelerometer d s)
  unfolding set_accelerometer found registered adapters
  set_accelerometer_lem old n none s m h = (refl, (Info.lsm6ds3, s.log, m))
  set_accelerometer_lem old n (some d) s m (b, ea, eb, r, c) =
      (d, b, refl, eb, ap (λ ds. d ∷ ds) r, c)

  map_lem :
      (s : State)
      → s.accelerometer ≡ none
      → Post
          (λ _. Complete (registered s.log) (adapters s.log))
          Unmapped
          Never
          ((map_switch k >> map_accelerometer k) s)
  unfolding map_switch map_accelerometer
  map_lem s e =
      Post-then Unmapped Never (map_switch k) (map_accelerometer k) s
        (λ _. Switched (registered s.log) (adapters s.log))
        (λ _. Complete (registered s.log) (adapters s.log))
        (set_switch_lem (k.new_device Info.pca954x s.log) s refl e)
        (λ _ t m.
          set_accelerometer_lem (registered s.log) (adapters s.log)
            (k.new_device Info.lsm6ds3 t.log) t refl m)

  cleanup_lem :
      (old : List ℕ) (n : ℕ) (E : ℕ → State → Type 0) (out : Out State (Unit {0})) (s : State)
      → Post (λ _. Complete old (suc n)) Unmapped Never out
      → Post (λ _. Complete old n) E Stops (cleanup (λ _. out) s)
  unfolding cleanup remove unregister registered adapters
  cleanup_lem old n E (ok a t) s (x, y, ex, ey, r, c) = (x, y, ex, ey, r, less_one c)
  cleanup_lem old n E (err e t) s (none_there, m) = rw (none_there) (refl, m)
  cleanup_lem old n E (halt f) s r = absurd r

  probed :
      (present : Bool) (s : State)
      → k.get_adapter (Call.msleep 5000 ∷ s.log) ≡ present
      → s.accelerometer ≡ none
      → Post
          (λ _. Complete (registered s.log) (adapters s.log))
          (Refused s)
          Stops
          (if present
            then cleanup
                (map_switch k >> map_accelerometer k)
                (record s { log = Call.i2c_get_adapter present ∷ Call.msleep 5000 ∷ s.log })
            else err enodev
                (record s { log = Call.i2c_get_adapter present ∷ Call.msleep 5000 ∷ s.log }))
  unfolding registered adapters cleanup
  probed true s g e =
      let t = record s { log = Call.i2c_get_adapter true ∷ Call.msleep 5000 ∷ s.log } in
      cleanup_lem (registered s.log) (adapters s.log) (Refused s)
        ((map_switch k >> map_accelerometer k) t) t (map_lem t e)
  probed false s g e = (refl, g, (refl, refl))

  -- A probe that finds no accelerometer in the driver's data registers the switch and the
  -- accelerometer, and the data name them; or there is no adapter, and it fails with ENODEV, and
  -- registers nothing; or one of the devices is not there, and it stops at the NULL that it unregisters.
  -- If it returns, it holds no more references to the adapter than before.
  pub probe_lem :
      (s : State)
      → s.accelerometer ≡ none
      → Post (λ _. Complete (registered s.log) (adapters s.log)) (Refused s) Stops (probe k s)
  unfolding probe registered adapters
  probe_lem s e = probed (k.get_adapter (Call.msleep 5000 ∷ s.log)) s refl e

  -- A probe that finds no accelerometer in the driver's data, followed by the removal if it succeeds,
  -- leaves the clients registered, and the references to the adapter held, that there were before; or
  -- there is no adapter, and the probe fails with ENODEV and registers nothing; or one of the devices
  -- is not there, and the probe stops at the NULL that it unregisters.
  pub probe-remove :
      (s : State)
      → s.accelerometer ≡ none
      → Post
          (λ _. Released (registered s.log) (adapters s.log))
          (Refused s)
          Stops
          ((probe k >> remove) s)
  probe-remove s e =
      Post-then (Refused s) Stops (probe k) remove s
        (λ _. Complete (registered s.log) (adapters s.log))
        (λ _. Released (registered s.log) (adapters s.log)) (probe_lem s e)
        (λ _ t (a, b, ea, eb, r, c).
          Post-weaken (remove t) (λ _. Released (registered s.log) (adapters s.log))
            (λ _. Released (registered s.log) (adapters s.log)) (λ _ _. ⊥) Never (λ _ _ x. x)
            (λ _ _ x. absurd x) (λ _ x. absurd x)
            (remove_lem (registered s.log) (adapters s.log) a b t ea eb r c))
