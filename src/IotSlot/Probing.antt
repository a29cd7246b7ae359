-- ===== src/IotSlot/Probing.antt =====
-- iot_slot_probe fills a slot, in linux_kernel_modules/iot_slot/iot-slot-core.c: the requests of what
-- every slot needs, and the walk over the card.
use mang_oh.Prelude.{
  ℕ, ◌≡◌, ◌≢◌, refl, sym, ap, ◌∙◌, none, some, ◌∷◌, Bool, true, false, if◌then◌else◌, ◌==◌, arith,
  not,
}
use mathlib.Core.Path.{subst}
use mang_oh.Prelude.Monad.{M, pure, fail, ◌>>=◌}
use mang_oh.Prelude.Outcome.{Post, Post-bind, Post-then, Post-if_run}
use mang_oh.IotSlot.{PlatformData, Work}
use mang_oh.IotSlot.Interfaces.{ask, callback}
use mang_oh.IotSlot.Calls.{Call, Flags, Env}
use mang_oh.IotSlot.Release.{release_resources, request_i2c, cleanup, request_essential_resources}
use mang_oh.IotSlot.Driver.{enumerate, fill_slot}
use mang_oh.IotSlot.Holdings.{
  Context, Resource, Stops, i2c_bus, one, taken, adapter_use, Owes, Held, nothing, Cleared,
}
use mang_oh.IotSlot.Neutral.{ask-Keeps}
use mang_oh.IotSlot.Adding.{HeldBy}
use mang_oh.IotSlot.Enumerating.{full_closed, on_device, release_full, enumerate-Full}

module _ (env : Env) (p : PlatformData) (ctx : Context) where
  abbrev no : Resource → ℕ
  no = nothing env p ctx

  abbrev Full : {A : Type 0} → A → Work → Type 0
  Full _ s = Held env p ctx 10 no s

  abbrev Empty : {A : Type 0} → A → Work → Type 0
  Empty _ s = Owes env p ctx no s.eeprom.hw

  -- A slot that has no adapter yet.
  abbrev Fresh : {A : Type 0} → A → Work → Type 0
  Fresh _ s = (s.slot.i2c_adapter ≡ 0) × Held env p ctx 10 no s

  cleanup-Full :
      (ret : ℕ) (s : Work)
      → ret ≢ 0
      → Held env p ctx 10 no s
      → Post Full (Cleared env p ctx) Stops (cleanup env ret s)
  unfolding cleanup
  cleanup-Full ret s n k =
      Post-then (Cleared env p ctx) Stops (release_resources env) (fail ret) s Empty Full
        (release_full env p ctx (Cleared env p ctx) s k) (λ _ t l. (n, l))

  -- A test of the code of a request.
  or_cleanup :
      {P : Work → Type 0} (ret : ℕ) (m : M Work (Unit {0})) (s : Work)
      → (P s → Held env p ctx 10 no s)
      → ((t : Work) → P t → Post Full (Cleared env p ctx) Stops (m t))
      → P s
      → Post Full (Cleared env p ctx) Stops ((if ret == 0 then m else cleanup env ret) s)
  or_cleanup ret m s f h k =
      Post-if_run Full (Cleared env p ctx) Stops (ret == 0) m (cleanup env ret) s (λ _. h s k)
        (λ e. cleanup-Full ret s (ground (arith, e)) (f k))

  taken_adapter :
      (a b : ℕ) (r : Resource)
      → (b == 0) ≡ not (a == 0)
      → adapter_use b r ≡ one (taken Call.request_i2c a) r
  taken_adapter a b r e = ap (λ i. one (if i then none else some i2c_bus) r) e ∙ flipped (a == 0)
    where
      flipped :
          (i : Bool)
          → one (if not i then none else some i2c_bus) r ≡ one (if i then some i2c_bus else none) r
      flipped true = refl
      flipped false = refl

  abbrev with_adapter : Work → Work
  with_adapter t = record t { slot = record t.slot { i2c_adapter = env.adapter t.eeprom.hw } }

  request_i2c-Full :
      (s : Work) → Fresh tt s → Post Full (Cleared env p ctx) Stops (request_i2c env p s)
  unfolding request_i2c callback ask
  request_i2c-Full s k =
      let a = env.answer s.eeprom.hw Call.request_i2c in
      let w = (Call.request_i2c, a) ∷ s.eeprom.hw in
      Post-bind (Cleared env p ctx) Stops (callback env p Call.request_i2c) _ s
        (λ a t. Held env p ctx 10 no (with_adapter t)) Full
        (Post-if_run (λ a t. Held env p ctx 10 no (with_adapter t)) (Cleared env p ctx) Stops
          (p.has Call.request_i2c) _ _ s
          (λ _. (
            k.1.0,
            λ snd r. omega (
              arith,
              k.1.1 snd r,
              ap (λ b. adapter_use b r) k.0,
              taken_adapter a (env.adapter w) r (snd.adapter_lem s.eeprom.hw a),
            ),
            k.1.2,
          ))
          (λ _. tt))
        (λ a t l. l)

  abbrev request_pin : ℕ → Flags → M Work ℕ
  request_pin gpio flags = ask env (Call.gpio_request_one gpio flags)

  requested :
      (gpio : ℕ) (flags : Flags) (s : Work)
      → Fresh tt s
      → Post Fresh (Cleared env p ctx) Stops (request_pin gpio flags s)
  requested gpio flags s k =
      ask-Keeps env (λ slot w. (slot.i2c_adapter ≡ 0) × HeldBy env p ctx 10 no slot w)
        (λ slot c a w t g l. (l.0, full_closed env p ctx slot c a w t g l.1)) (Cleared env p ctx)
        (Call.gpio_request_one gpio flags) (λ a. refl, refl) s k

  -- The requests, by the data of the device.
  abbrev requests : PlatformData → M Work (Unit {0})
  requests q = request_pin q.reset_gpio Flags.out_high_active_low >>= (λ ret.
      if ret == 0
      then request_pin q.card_detect_gpio Flags.gpiof_in >>= (λ ret.
        if ret == 0
        then request_i2c env q >>= (λ ret. if ret == 0 then pure tt else cleanup env ret)
        else cleanup env ret)
      else cleanup env ret)

  request-Full :
      (s : Work)
      → Fresh tt s
      → Post Full (Cleared env p ctx) Stops (request_essential_resources env s)
  unfolding request_essential_resources
  request-Full s k = on_device env p ctx Full (Cleared env p ctx) _ s k.1.2 (
      subst (λ q. Post Full (Cleared env p ctx) Stops (requests q s)) (sym k.1.2.1)
        (Post-bind (Cleared env p ctx) Stops (request_pin p.reset_gpio Flags.out_high_active_low) _
          s Fresh Full (requested p.reset_gpio Flags.out_high_active_low s k)
          (λ ret t.
            or_cleanup ret _ t (λ l. l.1)
              (λ u l.
                Post-bind (Cleared env p ctx) Stops (request_pin p.card_detect_gpio Flags.gpiof_in)
                  _ u Fresh Full (requested p.card_detect_gpio Flags.gpiof_in u l)
                  (λ ret v.
                    or_cleanup ret _ v (λ m. m.1)
                      (λ w m.
                        Post-bind (Cleared env p ctx) Stops (request_i2c env p) _ w Full Full
                          (request_i2c-Full w m)
                          (λ ret x. or_cleanup ret (pure tt) x (λ n. n) (λ _ n. n))))))))

  pub fill_slot-Full :
      (s : Work) → Fresh tt s → Post Full (Cleared env p ctx) Stops (fill_slot env s)
  unfolding fill_slot
  fill_slot-Full s k =
      Post-then (Cleared env p ctx) Stops (request_essential_resources env) (enumerate env) s Full
        Full (request-Full s k) (λ _ t l. enumerate-Full env p ctx t l)
