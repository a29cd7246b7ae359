-- ===== src/IotSlot/Neutral.antt =====
-- The functions of linux_kernel_modules/iot_slot/iot-slot-core.c that take no resource and give none
-- back, as long as they end as a function on a slot may.
use mang_oh.Prelude.{ℕ, ◌≡◌, refl, none, ◌∷◌, Bool, if◌then◌else◌, ◌==◌, ltb}
use mang_oh.Prelude.Monad.{M, corrupt, pure, stop, ◌>>=◌, ◌>>◌}
use mang_oh.Prelude.Outcome.{Post, Post-bind, Post-then, Post-if, Post-if_run}
use mang_oh.Eeprom.{load, unload}
use mang_oh.IotSlot.{PlatformData, Slot, Work, reading, gpio_at}
use mang_oh.IotSlot.Interfaces.{ask, tell, configure, irq}
use mang_oh.IotSlot.Calls.{Call, Log, Env, kernel}
use mang_oh.IotSlot.Driver.{load_eeprom}
use mang_oh.IotSlot.Release.{free_gpios}
use mang_oh.IotSlot.Holdings.{Stops, taken, given}
use mang_oh.IotSlot.Loading.{load_keeps, unload_keeps}
use mang_oh.IotSlot.Readings.{lifted}

-- A predicate of the slot and the log, which calls that take and give nothing keep.
module _ (env : Env) (I : Slot → Log → Type 0)
    (closed : (slot : Slot) (c : Call) (a : ℕ) (w : Log)
      → taken c a ≡ none
      → given c ≡ none
      → I slot w
      → I slot ((c, a) ∷ w))
    (E : ℕ → Work → Type 0) where
  abbrev J : {A : Type 0} → A → Work → Type 0
  J a s = I s.slot s.eeprom.hw

  abbrev Keeps : {A : Type 0} → M Work A → Type 0
  Keeps m = (s : Work) → I s.slot s.eeprom.hw → Post J E Stops (m s)

  abbrev IsNeutral : Call → Type 0
  IsNeutral c = ((a : ℕ) → taken c a ≡ none) × (given c ≡ none)

  pub ask-Keeps : (c : Call) → IsNeutral c → Keeps (ask env c)
  unfolding ask
  ask-Keeps c n s h =
      closed s.slot c (env.answer s.eeprom.hw c) s.eeprom.hw (n.0 (env.answer s.eeprom.hw c)) n.1 h

  pub tell-Keeps : (c : Call) → IsNeutral c → Keeps (tell env c)
  unfolding tell ask
  tell-Keeps c n s h = ask-Keeps c n s h

  pub then-Keeps : {A B : Type 0} (m : M Work A) (n : M Work B) → Keeps m → Keeps n → Keeps (m >> n)
  then-Keeps m n h k s j = Post-then E Stops m n s J J (h s j) (λ a t. k t)

  pub bind-Keeps :
      {A B : Type 0} (m : M Work A) (f : A → M Work B)
      → Keeps m
      → ((a : A) → Keeps (f a))
      → Keeps (m >>= f)
  bind-Keeps m f h k s j = Post-bind E Stops m f s J J (h s j) (λ a t. k a t)

  pub if_Keeps :
      {A : Type 0} (b : Bool) (m n : M Work A) → Keeps m → Keeps n → Keeps (if b then m else n)
  if_Keeps b m n h k s j = Post-if_run J E Stops b m n s (λ _. h s j) (λ _. k s j)

  pub configure-Keeps : (cfg gpio : ℕ) → Keeps (configure env cfg gpio)
  unfolding configure
  configure-Keeps cfg gpio = if_Keeps (cfg == 4) _ _ (tell-Keeps _ (λ a. refl, refl)) (
      if_Keeps (cfg == 5) _ _ (tell-Keeps _ (λ a. refl, refl)) (
        if_Keeps (cfg == 1) _ _ (input_then (Call.gpio_pull_up gpio) (λ a. refl, refl)) (
          if_Keeps (cfg == 2) _ _ (input_then (Call.gpio_pull_down gpio) (λ a. refl, refl))
            (if_Keeps (cfg == 3) _ _ (tell-Keeps _ (λ a. refl, refl)) (λ s h. h)))))
    where
      input_then :
          (c : Call) → IsNeutral c → Keeps (tell env (Call.gpio_direction_input gpio) >> tell env c)
      input_then c n =
          then-Keeps (tell env (Call.gpio_direction_input gpio)) (tell env c)
            (tell-Keeps _ (λ a. refl, refl)) (tell-Keeps c n)

  pub irq-Keeps : (p : PlatformData) (irq_gpio : ℕ) → Keeps (irq env p irq_gpio)
  unfolding irq gpio_at
  irq-Keeps p irq_gpio =
      if_Keeps (irq_gpio == 0xFF) (pure 0)
        (gpio_at p irq_gpio >>= (λ gpio. ask env (Call.gpio_to_irq gpio))) (λ s h. h)
        (bind-Keeps (gpio_at p irq_gpio) _
          (if_Keeps (ltb irq_gpio 4) (pure (p.gpio irq_gpio)) (stop corrupt) (λ s h. h) (λ s h. tt))
          (λ gpio. ask-Keeps _ (λ a. refl, refl)))

  abbrev free_pin : PlatformData → ℕ → M Work (Unit {0})
  free_pin p i = tell env (Call.gpio_free (p.gpio i))

  pub free_gpios-Keeps : (p : PlatformData) → Keeps (free_gpios env p)
  unfolding free_gpios
  free_gpios-Keeps p s h =
      Post-then E Stops (free_pin p 0 >> free_pin p 1 >> free_pin p 2) (free_pin p 3) s J J
        (Post-then E Stops (free_pin p 0 >> free_pin p 1) (free_pin p 2) s J J
          (Post-then E Stops (free_pin p 0) (free_pin p 1) s J J (free 0 s h) (λ a. free 1))
          (λ a. free 2))
        (λ a. free 3)
    where
      free : (i : ℕ) → Keeps (tell env (Call.gpio_free (p.gpio i)))
      free i = tell-Keeps _ (λ a. refl, refl)

  pub load_eeprom-Keeps : Keeps (load_eeprom env)
  unfolding load_eeprom reading
  load_eeprom-Keeps s h =
      Post-if J E Stops (s.slot.i2c_adapter == 0) _ _ (λ _. h)
        (λ _.
          lifted (λ t. I t.slot t.eeprom.hw) E s (load (kernel env) 63 s.eeprom)
            (load_keeps env (I s.slot) (closed s.slot) (λ e t. E e (record s { eeprom = t }))
              s.eeprom h))

  pub unload-Keeps_work : Keeps (reading (unload (kernel env)))
  unfolding reading
  unload-Keeps_work s h =
      lifted (λ t. I t.slot t.eeprom.hw) E s (unload (kernel env) s.eeprom)
        (unload_keeps env (I s.slot) (closed s.slot) (λ e t. E e (record s { eeprom = t })) s.eeprom
          h)
