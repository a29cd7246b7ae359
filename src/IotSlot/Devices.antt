-- ===== src/IotSlot/Devices.antt =====
-- The interfaces for the pins and the devices of a card in
-- linux_kernel_modules/iot_slot/iot-slot-core.c: what is taken for one is given back, or held by it.
use mang_oh.Prelude.{
  ℕ, ◌+◌, ◌≡◌, refl, ap, ◌∙◌, none, some, Bool, true, false, if◌then◌else◌, ◌==◌, arith,
}
use mang_oh.Prelude.Monad.{M, fail, enodev, einval, ◌>>=◌, ◌>>◌}
use mang_oh.Prelude.Outcome.{Post, Post-bind, Post-then, Post-if_run}
use mang_oh.Eeprom.{
  field, pointer, if_i2c_modalias, if_i2c_irq_gpio, if_i2c_address, if_spi_modalias,
  if_spi_irq_gpio,
}
use mang_oh.IotSlot.{
  PlatformData, Interface, interface_gpio, interface_i2c, interface_spi, Work, Board, append,
  reading, strncpy, room, succeeded,
}
use mang_oh.IotSlot.Interfaces.{
  ask, callback, irq, add_pin, add_gpio, add_i2c, add_spi, i2c_new_device, spi_connection,
}
use mang_oh.IotSlot.Calls.{Call, Env}
use mang_oh.IotSlot.Holdings.{
  Context, Resource, Stops, spi_bus, i2c_client, spi_device, one, taken, given, uses, total, Held,
  nothing,
}
use mang_oh.IotSlot.Readings.{reading-field, reading-name}
use mang_oh.IotSlot.Neutral.{irq-Keeps}
use mang_oh.IotSlot.Adding.{
  Failed, HeldBy, held_closed, loosen, retotal, append-Held, room-Held, ask_takes, gave,
}
use mang_oh.IotSlot.Pins.{Holds, add_pin_holds}

module _ (env : Env) (p : PlatformData) (ctx : Context) where
  abbrev no : Resource → ℕ
  no = nothing env p ctx

  -- A function that ends with one interface more, or fails.
  abbrev pub Adds : {A : Type 0} → M Work A → Type 0
  Adds m =
      (s : Work)
      → Held env p ctx 9 no s
      → Post (λ _. Held env p ctx 10 no) (Failed env p ctx) Stops (m s)

  abbrev Added : {A : Type 0} → (Resource → ℕ) → M Work A → Type 0
  Added h m =
      (s : Work)
      → Held env p ctx 9 h s
      → Post (λ _. Held env p ctx 10 no) (Failed env p ctx) Stops (m s)

  bind-Added :
      {A B : Type 0} (h : Resource → ℕ) (m : M Work A) (f : A → M Work B)
      → Holds env p ctx m h
      → ((a : A) → Added h (f a))
      → Added h (m >>= f)
  bind-Added h m f k l s j =
      Post-bind (Failed env p ctx) Stops m f s (λ _. Held env p ctx 9 h) (λ _. Held env p ctx 10 no)
        (k s j) (λ a t. l a t)

  then-Added :
      {A B : Type 0} (h : Resource → ℕ) (m : M Work A) (n : M Work B)
      → Holds env p ctx m h
      → Added h n
      → Added h (m >> n)
  then-Added h m n k l s j =
      Post-then (Failed env p ctx) Stops m n s (λ _. Held env p ctx 9 h) (λ _. Held env p ctx 10 no)
        (k s j) (λ a t. l t)

  pub add_gpio-Adds : (item : ℕ) → Adds (add_gpio env p item)
  unfolding add_gpio
  add_gpio-Adds item = then-Added no (add_pin env p item 0) _ (add_pin_holds env p ctx item 0) (
      then-Added no (add_pin env p item 1) _ (add_pin_holds env p ctx item 1) (
        then-Added no (add_pin env p item 2) _ (add_pin_holds env p ctx item 2) (
          then-Added no (add_pin env p item 3) _ (add_pin_holds env p ctx item 3) (λ s k.
            append-Held env p ctx (Failed env p ctx) interface_gpio s
              (retotal env p ctx 9 no _ s (λ r. refl) k)))))

  -- What follows the registration of a device.
  registered :
      (c : Call) (x : ℕ → Interface) (y : ℕ → Resource) (h : Resource → ℕ)
      (refused : M Work (Unit {0})) (s : Work)
      → given c ≡ none
      → ((a : ℕ) → taken c a ≡ (if a == 0 then none else some (y a)))
      → ((a : ℕ) (r : Resource) → uses p (x a) r ≡ one (some (y a)) r + h r)
      → Added h refused
      → Held env p ctx 9 h s
      → Post
          (λ _. Held env p ctx 10 no)
          (Failed env p ctx)
          Stops
          ((ask env c >>= (λ a. if a == 0 then refused else append (x a))) s)
  registered c x y h refused s g t u f k =
      Post-bind (Failed env p ctx) Stops (ask env c) _ s
        (λ a. Held env p ctx 9 (λ r. one (taken c a) r + h r)) _
        (ask_takes env p ctx (Failed env p ctx) 9 h c s g k)
        (λ a v l.
          Post-if_run (λ _. Held env p ctx 10 no) (Failed env p ctx) Stops (a == 0) _ _ v
            (λ e. f v (retotal env p ctx 9 _ h v (λ r. omega (arith, by a true r e)) l))
            (λ e. append-Held env p ctx (Failed env p ctx) (x a) v (
              retotal env p ctx 9 _ (uses p (x a)) v (λ r. omega (arith, by a false r e, u a r))
                l)))
    where
      by :
          (a : ℕ) (b : Bool) (r : Resource)
          → (a == 0) ≡ b
          → one (taken c a) r ≡ one (if b then none else some (y a)) r
      by a b r e = ap (λ o. one o r) (t a) ∙ ap (λ b'. one (if b' then none else some (y a)) r) e

  -- What the boards of both kinds of devices have.
  irq_holds : (irq_gpio : ℕ) (h : Resource → ℕ) → Holds env p ctx (irq env p irq_gpio) h
  irq_holds irq_gpio h =
      irq-Keeps env (HeldBy env p ctx 9 h) (held_closed env p ctx 9 h) (Failed env p ctx) p irq_gpio

  field_holds :
      (kind at item : ℕ) (h : Resource → ℕ) → Holds env p ctx (reading (field kind at item)) h
  field_holds kind at item h = reading-field (Held env p ctx 9 h) (Failed env p ctx) kind at item

  name_holds :
      (kind at item n : ℕ) (h : Resource → ℕ)
      → Holds env p ctx (reading (pointer kind at item >>= strncpy n)) h
  name_holds kind at item n h = reading-name (Held env p ctx 9 h) (Failed env p ctx) kind at item n

  new_client-Adds :
      (board : Board)
      → Adds (
          i2c_new_device env board
          >>= (λ client. if client == 0 then fail einval else append (interface_i2c client)))
  unfolding i2c_new_device
  new_client-Adds board s k =
      registered (Call.i2c_new_device s.slot.i2c_adapter board) interface_i2c i2c_client no
        (fail einval) s refl (λ a. refl) (λ a r. omega arith)
        (λ t l. (omega arith, loosen env p ctx no t l)) k

  pub add_i2c-Adds : (item : ℕ) → Adds (add_i2c env p item)
  unfolding add_i2c if_i2c_modalias if_i2c_irq_gpio if_i2c_address
  add_i2c-Adds item =
      bind-Added no (reading (pointer 1 3 item >>= strncpy 20)) _ (name_holds 1 3 item 20 no)
        (λ name. bind-Added no (reading (field 1 2 item)) _ (field_holds 1 2 item no) (λ irq_gpio.
          bind-Added no (irq env p irq_gpio) _ (irq_holds irq_gpio no) (λ line.
            bind-Added no (reading (field 1 1 item)) _ (field_holds 1 1 item no) (λ addr.
              then-Added no room _ (room-Held env p ctx (Failed env p ctx) no)
                (new_client-Adds (record { modalias = name; line = line; select = addr }))))))

  abbrev spi_held : Resource → ℕ
  spi_held r = one (some spi_bus) r

  -- The part of iot_slot_add_spi after the bus was given.
  abbrev with_bus : ℕ → ℕ × ℕ → M Work (Unit {0})
  with_bus item bus = do
    irq_gpio ← reading (field 2 1 item)
    line ← irq env p irq_gpio
    name ← reading (pointer 2 2 item >>= strncpy 32)
    device ←
        ask env
          (Call.spi_new_device bus.0 (record { modalias = name; line = line; select = bus.1 }))
    if device == 0
        then (do ret ← callback env p Call.release_spi; fail enodev)
        else append (interface_spi device)

  release_spi_adds :
      Added spi_held (callback env p Call.release_spi >>= (λ ret. fail {A = Unit {0}} enodev))
  unfolding callback ask
  release_spi_adds s k =
      Post-bind (Failed env p ctx) Stops (callback env p Call.release_spi) _ s
        (λ _. Held env p ctx 9 no) _
        (Post-if_run (λ _. Held env p ctx 9 no) (Failed env p ctx) Stops (p.has Call.release_spi) _
          _ s
          (λ _. (
            k.0,
            gave env p ctx (total env p ctx s.slot no) Call.release_spi
                (env.answer s.eeprom.hw Call.release_spi) spi_bus s.eeprom.hw refl refl
                (λ snd r. omega (arith, k.1 snd r)),
            k.2,
          ))
          (λ _. tt))
        (λ a t l. (omega arith, loosen env p ctx no t l))

  with_bus_adds : (item : ℕ) (bus : ℕ × ℕ) → Added spi_held (with_bus item bus)
  with_bus_adds item bus =
      bind-Added spi_held (reading (field 2 1 item)) _ (field_holds 2 1 item spi_held) (λ irq_gpio.
        bind-Added spi_held (irq env p irq_gpio) _ (irq_holds irq_gpio spi_held) (λ line.
          bind-Added spi_held (reading (pointer 2 2 item >>= strncpy 32)) _
            (name_holds 2 2 item 32 spi_held)
            (λ name s k.
              registered
                (Call.spi_new_device bus.0
                  (record { modalias = name; line = line; select = bus.1 }))
                interface_spi spi_device spi_held
                (callback env p Call.release_spi >>= (λ ret. fail enodev)) s refl (λ a. refl)
                (λ a r. refl) release_spi_adds k)))

  pub add_spi-Adds : (item : ℕ) → Adds (add_spi env p item)
  unfolding add_spi if_spi_modalias if_spi_irq_gpio callback spi_connection succeeded
  add_spi-Adds item s k =
      Post-bind (Failed env p ctx) Stops (callback env p Call.request_spi) _ s
        (λ a. Held env p ctx 9 (λ r. one (taken Call.request_spi a) r + 0))
        (λ _. Held env p ctx 10 no)
        (Post-if_run (λ a. Held env p ctx 9 (λ r. one (taken Call.request_spi a) r + 0))
          (Failed env p ctx) Stops (p.has Call.request_spi) _ _ s
          (λ _. ask_takes env p ctx (Failed env p ctx) 9 no Call.request_spi s refl k) (λ _. tt))
        (λ a t l.
          Post-then (Failed env p ctx) Stops (succeeded a enodev)
            (spi_connection env >>= with_bus item) t (λ _. Held env p ctx 9 spi_held)
            (λ _. Held env p ctx 10 no)
            (Post-if_run (λ _. Held env p ctx 9 spi_held) (Failed env p ctx) Stops (a == 0) _ _ t
              (λ e.
                retotal env p ctx 9 _ spi_held t
                  (λ r. omega (arith, ap (λ b. one (if b then some spi_bus else none) r) e)) l)
              (λ e. (
                omega arith,
                loosen env p ctx no t (
                    retotal env p ctx 9 _ no t
                      (λ r. omega (arith, ap (λ b. one (if b then some spi_bus else none) r) e)) l),
              )))
            (λ _ v m.
              with_bus_adds item (env.spi_master v.eeprom.hw, env.chip_select v.eeprom.hw) v m))
