-- ===== src/IotSlot/Releasing.antt =====
-- iot_slot_release_resources of linux_kernel_modules/iot_slot/iot-slot-core.c gives back all that a
-- slot stands for, and iot_slot_request_essential_resources takes the adapter or nothing.
use mang_oh.Prelude.{
  ℕ, ◌+◌, ◌≡◌, refl, sym, ap, ◌∙◌, none, some, List, [], ◌∷◌, Bool, true, false, if◌then◌else◌,
  ◌==◌, arith,
}
use mang_oh.Prelude.Monad.{M, pure, ◌>>=◌}
use mang_oh.Prelude.Outcome.{Post, Post-bind, Post-then, Post-if, Post-if_run}
use mang_oh.IotSlot.{
  PlatformData, Interface, interface_gpio, interface_i2c, interface_spi, interface_usb,
  interface_sdio, interface_adc, interface_pcm, interface_clk, interface_uart, interface_platform,
  Slot, Work,
}
use mang_oh.IotSlot.Interfaces.{ask, tell, callback, optional}
use mang_oh.IotSlot.Calls.{Call, Log, Env}
use mang_oh.IotSlot.Release.{
  release_interface, release_interfaces, release_adapter, release_with, forget_card,
}
use mang_oh.IotSlot.Holdings.{
  Context, Resource, i2c_bus, spi_bus, sdio_port, adc_port, pcm_port, uart_port, i2c_client,
  spi_device, Stops, one, taken, given, uses, uses_of, adapter_use, Owes, Held, nothing, IsSound,
  behind,
}
use mang_oh.IotSlot.Neutral.{free_gpios-Keeps}
use mang_oh.IotSlot.Adding.{Owes-closed, gave}

module _ (env : Env) (p : PlatformData) (ctx : Context) (E : ℕ → Work → Type 0) where
  -- A slot with its adapter, and what is still to be given back.
  abbrev Left : ℕ → (Resource → ℕ) → Slot → Log → Type 0
  Left a h slot w = (slot.i2c_adapter ≡ a) × Owes env p ctx h w

  abbrev LeftOf : ℕ → (Resource → ℕ) → Work → Type 0
  LeftOf a h s = Left a h s.slot s.eeprom.hw

  Left-closed :
      (a : ℕ) (h : Resource → ℕ) (slot : Slot) (c : Call) (b : ℕ) (w : Log)
      → taken c b ≡ none
      → given c ≡ none
      → Left a h slot w
      → Left a h slot ((c, b) ∷ w)
  Left-closed a h slot c b w t g k = (k.0, Owes-closed env p ctx h c b w t g k.1)

  abbrev Gives : ℕ → (Resource → ℕ) → (Resource → ℕ) → M Work (Unit {0}) → Type 0
  Gives a x h m = (s : Work) → LeftOf a (λ r. x r + h r) s → Post (λ _. LeftOf a h) E Stops (m s)

  tell-Gives :
      (a : ℕ) (h : Resource → ℕ) (c : Call) (x : Resource)
      → ((b : ℕ) → taken c b ≡ none)
      → given c ≡ some x
      → Gives a (one (some x)) h (tell env c)
  unfolding tell ask
  tell-Gives a h c x t g s k =
      let b = env.answer s.eeprom.hw c in (k.0, gave env p ctx h c b x s.eeprom.hw (t b) g k.1)

  -- A callback that gives back what one that is there as well had taken.
  callback-Gives :
      (a : ℕ) (h y : Resource → ℕ) (c : Call) (x : Resource)
      → ((b : ℕ) → taken c b ≡ none)
      → given c ≡ some x
      → (IsSound env p → p.has c ≡ true → (r : Resource) → y r ≡ one (some x) r)
      → Gives a y h (callback env p c >>= (λ ret. pure tt))
  unfolding callback ask
  callback-Gives a h y c x t g u s k =
      Post-bind E Stops (callback env p c) (λ _. pure tt) s (λ _. LeftOf a h) (λ _. LeftOf a h)
        (Post-if_run (λ _. LeftOf a h) E Stops (p.has c) _ _ s
          (λ e.
            let b = env.answer s.eeprom.hw c in
            (
              k.0,
              gave env p ctx h c b x s.eeprom.hw (t b) g
                  (λ snd r. omega (arith, k.1 snd r, u snd e r)),
            ))
          (λ _. tt))
        (λ _ v l. l)

  paired-Gives :
      (a : ℕ) (h : Resource → ℕ) (c d : Call) (x : Resource)
      → ((b : ℕ) → taken c b ≡ none)
      → given c ≡ some x
      → (IsSound env p → p.has c ≡ p.has d)
      → Gives a (behind (p.has d) x) h (callback env p c >>= (λ ret. pure tt))
  paired-Gives a h c d x t g paired =
      callback-Gives a h (behind (p.has d) x) c x t g
        (λ snd e r. ap (λ i. behind i x r) (sym (paired snd) ∙ e))

  optional-Gives :
      (a : ℕ) (h : Resource → ℕ) (c d : Call) (x : Resource)
      → ((b : ℕ) → taken c b ≡ none)
      → given c ≡ some x
      → (IsSound env p → p.has c ≡ p.has d)
      → Gives a (behind (p.has d) x) h (optional env p c >>= (λ ret. pure tt))
  unfolding optional ask
  optional-Gives a h c d x t g paired s k =
      Post-bind E Stops (optional env p c) (λ _. pure tt) s (λ _. LeftOf a h) (λ _. LeftOf a h)
        (Post-if_run (λ _. LeftOf a h) E Stops (p.has c) _ _ s
          (λ e.
            let b = env.answer s.eeprom.hw c in
            (
              k.0,
              gave env p ctx h c b x s.eeprom.hw (t b) g (λ snd r. omega (
                arith,
                k.1 snd r,
                ap (λ i. behind i x r) e,
                ap (λ i. behind i x r) (paired snd),
              )),
            ))
          (λ e. (
            k.0,
            λ snd r.
                omega
                  (arith, k.1 snd r, ap (λ i. behind i x r) e, ap (λ i. behind i x r) (paired snd)),
          )))
        (λ _ v l. l)

  release_interface-Gives :
      (a : ℕ) (h : Resource → ℕ) (x : Interface) → Gives a (uses p x) h (release_interface env p x)
  unfolding release_interface
  release_interface-Gives a h interface_gpio s k =
      free_gpios-Keeps env (Left a h) (Left-closed a h) E p s
        (k.0, λ snd r. omega (arith, k.1 snd r))
  release_interface-Gives a h (interface_i2c client) s k =
      tell-Gives a h (Call.i2c_unregister_device client) (i2c_client client) (λ b. refl) refl s k
  release_interface-Gives a h (interface_spi device) s k =
      Post-then E Stops (tell env (Call.spi_unregister_device device))
        (callback env p Call.release_spi >>= (λ ret. pure tt)) s
        (λ _. LeftOf a (λ r. one (some spi_bus) r + h r)) (λ _. LeftOf a h)
        (tell-Gives a (λ r. one (some spi_bus) r + h r) (Call.spi_unregister_device device)
          (spi_device device) (λ b. refl) refl s (k.0, λ snd r. omega (arith, k.1 snd r)))
        (λ _ t l.
          callback-Gives a h (one (some spi_bus)) Call.release_spi spi_bus (λ b. refl) refl
            (λ _ _ r. refl) t l)
  release_interface-Gives a h interface_usb s k = (k.0, λ snd r. omega (arith, k.1 snd r))
  release_interface-Gives a h interface_sdio s k =
      paired-Gives a h Call.release_sdio Call.request_sdio sdio_port (λ b. refl) refl
        (λ snd. snd.sdio) s k
  release_interface-Gives a h interface_adc s k =
      paired-Gives a h Call.release_adc Call.request_adc adc_port (λ b. refl) refl (λ snd. snd.adc)
        s k
  release_interface-Gives a h interface_pcm s k =
      paired-Gives a h Call.release_pcm Call.request_pcm pcm_port (λ b. refl) refl (λ snd. snd.pcm)
        s k
  release_interface-Gives a h interface_clk s k = (k.0, λ snd r. omega (arith, k.1 snd r))
  release_interface-Gives a h interface_uart s k =
      optional-Gives a h Call.release_uart Call.request_uart uart_port (λ b. refl) refl
        (λ snd. snd.uart) s k
  release_interface-Gives a h interface_platform s k = (k.0, λ snd r. omega (arith, k.1 snd r))

  release_interfaces-Gives :
      (a : ℕ) (h : Resource → ℕ) (xs : List Interface)
      → Gives a (uses_of p xs) h (release_interfaces env p xs)
  unfolding release_interfaces
  release_interfaces-Gives a h [] s k = (k.0, λ snd r. omega (arith, k.1 snd r))
  release_interfaces-Gives a h (x ∷ xs) s k =
      Post-then E Stops (release_interface env p x) (release_interfaces env p xs) s
        (λ _. LeftOf a (λ r. uses_of p xs r + h r)) (λ _. LeftOf a h)
        (release_interface-Gives a (λ r. uses_of p xs r + h r) x s
          (k.0, λ snd r. omega (arith, k.1 snd r)))
        (λ _ t l. release_interfaces-Gives a h xs t l)

  abbrev ClearedLog : {A : Type 0} → A → Work → Type 0
  ClearedLog _ s = Owes env p ctx (nothing env p ctx) s.eeprom.hw

  release_adapter_gives :
      (a : ℕ) (s : Work)
      → LeftOf a (adapter_use a) s
      → Post ClearedLog E Stops (release_adapter env p s)
  unfolding release_adapter callback ask
  release_adapter_gives a s k =
      Post-if ClearedLog E Stops (s.slot.i2c_adapter == 0) _ _
        (λ e snd r. omega (arith, k.1 snd r, adapter_by true e r))
        (λ e.
          Post-bind E Stops (callback env p Call.release_i2c) _ s ClearedLog ClearedLog
            (Post-if_run ClearedLog E Stops (p.has Call.release_i2c) _ _ s
              (λ _.
                gave env p ctx (nothing env p ctx) Call.release_i2c
                  (env.answer s.eeprom.hw Call.release_i2c) i2c_bus s.eeprom.hw refl refl
                  (λ snd r. omega (arith, k.1 snd r, adapter_by false e r)))
              (λ _. tt))
            (λ _ t l. l))
    where
      adapter_by :
          (b : Bool)
          → (s.slot.i2c_adapter == 0) ≡ b
          → (r : Resource) → adapter_use a r ≡ one (if b then none else some i2c_bus) r
      adapter_by b e r =
          ap (λ n. adapter_use n r) (sym k.0) ∙ ap (λ i. one (if i then none else some i2c_bus) r) e

  pub release_with_gives :
      (s : Work)
      → Held env p ctx 10 (nothing env p ctx) s
      → Post ClearedLog E Stops (release_with env p s)
  unfolding release_with forget_card tell ask
  release_with_gives s k =
      Post-then E Stops (release_interfaces env p s.slot.interfaces) _ s
        (λ _. LeftOf s.slot.i2c_adapter (adapter_use s.slot.i2c_adapter)) ClearedLog
        (release_interfaces-Gives s.slot.i2c_adapter (adapter_use s.slot.i2c_adapter)
          s.slot.interfaces s (refl, λ snd r. omega (arith, k.1 snd r)))
        (λ _ t l.
          Post-then E Stops (release_adapter env p) _ t ClearedLog ClearedLog
            (release_adapter_gives s.slot.i2c_adapter t l) (λ _ u m snd r. omega (arith, m snd r)))
