-- ===== src/IotSlot/Enumerating.antt =====
-- iot_slot_enumerate of linux_kernel_modules/iot_slot/iot-slot-core.c: after the walk over a card the
-- slot stands for all that is held, or nothing is.
use mang_oh.Prelude.{
  ℕ, ◌≡◌, ◌≢◌, refl, sym, none, ◌∷◌, Bool, true, false, if◌then◌else◌, ◌==◌, arith,
}
use mathlib.Core.Path.{subst}
use mang_oh.Prelude.Monad.{Out, M, ok, err, halt, pure, fail, ◌>>=◌, ◌>>◌, >>=-run}
use mang_oh.Prelude.Outcome.{Post, Post-bind, Post-then, Post-if_run}
use mang_oh.Eeprom.{unload}
use mang_oh.IotSlot.{PlatformData, PlatformDevice, Slot, Work, reading}
use mang_oh.IotSlot.Interfaces.{ask, tell}
use mang_oh.IotSlot.Calls.{Call, Log, Env, kernel}
use mang_oh.IotSlot.Release.{platform_device, release_with, release_resources}
use mang_oh.IotSlot.Driver.{
  add_items, restore_card_detect, unload_eeprom, add_interfaces, load_eeprom, read_card, enumerate,
  set_card_present,
}
use mang_oh.IotSlot.Holdings.{
  Context, Resource, Stops, taken, given, Owes, Held, nothing, IsOn, Cleared,
}
use mang_oh.IotSlot.Neutral.{tell-Keeps, load_eeprom-Keeps, unload-Keeps_work}
use mang_oh.IotSlot.Adding.{Failed, HeldBy, held_closed, Owes-closed}
use mang_oh.IotSlot.Items.{Quiet, add_items_scans}
use mang_oh.IotSlot.Releasing.{release_with_gives}

module _ (env : Env) (p : PlatformData) (ctx : Context) where
  abbrev no : Resource → ℕ
  no = nothing env p ctx

  abbrev Full : {A : Type 0} → A → Work → Type 0
  Full _ s = Held env p ctx 10 no s

  abbrev Empty : {A : Type 0} → A → Work → Type 0
  Empty _ s = Owes env p ctx no s.eeprom.hw

  pub full_closed :
      (slot : Slot) (c : Call) (a : ℕ) (w : Log)
      → taken c a ≡ none
      → given c ≡ none
      → HeldBy env p ctx 10 no slot w
      → HeldBy env p ctx 10 no slot ((c, a) ∷ w)
  full_closed = held_closed env p ctx 10 no

  empty_closed :
      (slot : Slot) (c : Call) (a : ℕ) (w : Log)
      → taken c a ≡ none
      → given c ≡ none
      → Owes env p ctx no w
      → Owes env p ctx no ((c, a) ∷ w)
  empty_closed slot c a w = Owes-closed env p ctx no c a w

  -- What follows the walk, if it has not failed.
  restore-Full :
      (ret : ℕ) (s : Work)
      → Quiet env p ctx ret
      → Held env p ctx 10 no s
      → Post Full (Cleared env p ctx) Stops (restore_card_detect env p ret s)
  unfolding restore_card_detect
  restore-Full ret s q k =
      Post-then (Cleared env p ctx) Stops (tell env (Call.gpio_direction_input p.card_detect_gpio))
        _ s Full Full
        (tell-Keeps env (HeldBy env p ctx 10 no) full_closed (Cleared env p ctx)
          (Call.gpio_direction_input p.card_detect_gpio) (λ a. refl, refl) s k)
        (λ _ t l.
          Post-if_run Full (Cleared env p ctx) Stops (ret == 0) (pure tt) (fail ret) t (λ _. l)
            (λ e. (ground (arith, e), λ snd. absurd (ground (arith, q snd, e)))))

  -- And if it has.
  restore_empty :
      (ret : ℕ) (s : Work)
      → ret ≢ 0
      → Owes env p ctx no s.eeprom.hw
      → Post Full (Cleared env p ctx) Stops (restore_card_detect env p ret s)
  unfolding restore_card_detect
  restore_empty ret s n k =
      Post-then (Cleared env p ctx) Stops (tell env (Call.gpio_direction_input p.card_detect_gpio))
        _ s Empty Full
        (tell-Keeps env (λ slot. Owes env p ctx no) empty_closed (Cleared env p ctx)
          (Call.gpio_direction_input p.card_detect_gpio) (λ a. refl, refl) s k)
        (λ _ t l.
          Post-if_run Full (Cleared env p ctx) Stops (ret == 0) (pure tt) (fail ret) t
            (λ e. absurd (ground (arith, n, e))) (λ _. (n, l)))

  unload-Full :
      (ret : ℕ) (s : Work)
      → Quiet env p ctx ret
      → Held env p ctx 10 no s
      → Post Full (Cleared env p ctx) Stops (unload_eeprom env p ret s)
  unfolding unload_eeprom
  unload-Full ret s q k =
      Post-then (Cleared env p ctx) Stops (reading (unload (kernel env)))
        (restore_card_detect env p ret) s Full Full
        (unload-Keeps_work env (HeldBy env p ctx 10 no) full_closed (Cleared env p ctx) s k)
        (λ _ t l. restore-Full ret t q l)

  unload_empty :
      (ret : ℕ) (s : Work)
      → ret ≢ 0
      → Owes env p ctx no s.eeprom.hw
      → Post Full (Cleared env p ctx) Stops (unload_eeprom env p ret s)
  unfolding unload_eeprom
  unload_empty ret s n k =
      Post-then (Cleared env p ctx) Stops (reading (unload (kernel env)))
        (restore_card_detect env p ret) s Empty Full
        (unload-Keeps_work env (λ slot. Owes env p ctx no) empty_closed (Cleared env p ctx) s k)
        (λ _ t l. restore_empty ret t n l)

  -- A function on a slot that begins with its device.
  pub on_device :
      {A : Type 0} (Q : A → Work → Type 0) (E : ℕ → Work → Type 0) (f : PlatformDevice → M Work A)
      (s : Work)
      → IsOn p ctx s.slot.pdev s.slot.address
      → Post Q E Stops (f ctx.pdev s)
      → Post Q E Stops ((platform_device >>= f) s)
  unfolding platform_device
  on_device Q E f s k h = rw (>>=-run platform_device f {s = s} found) h
    where
      found : platform_device s ≡ ok ctx.pdev s
      found = rw k.0 refl

  pub release_full :
      (E : ℕ → Work → Type 0) (s : Work)
      → Held env p ctx 10 no s
      → Post Empty E Stops (release_resources env s)
  unfolding release_resources
  release_full E s k =
      on_device Empty E (λ pdev. release_with env pdev.platdata) s k.2
        (rw k.2.1 (release_with_gives env p ctx E s k))

  scanned :
      (out : Out Work ℕ)
      → Post (λ ret s. Quiet env p ctx ret × Held env p ctx 10 no s) (Failed env p ctx) Stops out
      → Post Full (Cleared env p ctx) Stops (elim out [
        | ok r t ↦ unload_eeprom env p r t
        | err e t ↦ (release_resources env >> unload_eeprom env p e) t
        | halt f ↦ halt f
      ])
  scanned (ok r t) h = unload-Full r t h.0 h.1
  scanned (err e t) h =
      Post-then (Cleared env p ctx) Stops (release_resources env) (unload_eeprom env p e) t Empty
        Full (release_full (Cleared env p ctx) t h.1) (λ _ u l. unload_empty e u h.0 l)
  scanned (halt f) h = h

  add_interfaces-Full :
      (ret : ℕ) (s : Work)
      → Quiet env p ctx ret
      → Held env p ctx 10 no s
      → Post Full (Cleared env p ctx) Stops (add_interfaces env p ret s)
  unfolding add_interfaces
  add_interfaces-Full ret s q k =
      scanned (add_items env p s.eeprom.interfaces ret s)
        (add_items_scans env p ctx s.eeprom.interfaces ret s q k)

  tell-Full :
      (c : Call) (s : Work)
      → ((a : ℕ) → taken c a ≡ none) × (given c ≡ none)
      → Held env p ctx 10 no s
      → Post Full (Cleared env p ctx) Stops (tell env c s)
  tell-Full c s n k =
      tell-Keeps env (HeldBy env p ctx 10 no) full_closed (Cleared env p ctx) c n s k

  then-Full :
      (m n : M Work (Unit {0})) (s : Work)
      → Post Full (Cleared env p ctx) Stops (m s)
      → ((t : Work) → Held env p ctx 10 no t → Post Full (Cleared env p ctx) Stops (n t))
      → Post Full (Cleared env p ctx) Stops ((m >> n) s)
  then-Full m n s h k = Post-then (Cleared env p ctx) Stops m n s Full Full h (λ _ t l. k t l)

  found-Full :
      (found : Bool) (ret : ℕ) (s : Work)
      → Quiet env p ctx ret
      → Held env p ctx 10 no s
      → Post Full (Cleared env p ctx) Stops (
          (if found
              then (tell env (Call.gpio_set_value p.reset_gpio 1)
                  >> (tell env (Call.msleep 10) >> add_interfaces env p ret))
              else restore_card_detect env p ret)
            s)
  found-Full true ret s q k =
      then-Full (tell env (Call.gpio_set_value p.reset_gpio 1)) _ s
        (tell-Full _ s (λ a. refl, refl) k)
        (λ t l.
          then-Full (tell env (Call.msleep 10)) _ t (tell-Full _ t (λ a. refl, refl) l)
            (λ u m. add_interfaces-Full ret u q m))
  found-Full false ret s q k = restore-Full ret s q k

  read_card-Full :
      (s : Work) → Held env p ctx 10 no s → Post Full (Cleared env p ctx) Stops (read_card env p s)
  unfolding read_card ask
  read_card-Full s k =
      let c = Call.gpio_direction_output p.card_detect_gpio 1 in
      let ret = env.answer s.eeprom.hw c in
      Post-bind (Cleared env p ctx) Stops (ask env c) _ s
        (λ a t. Quiet env p ctx a × Held env p ctx 10 no t) Full
        ((λ snd. snd.output_lem s.eeprom.hw), full_closed s.slot c ret s.eeprom.hw refl refl k)
        (λ a t l.
          Post-bind (Cleared env p ctx) Stops (load_eeprom env) _ t Full Full
            (load_eeprom-Keeps env (HeldBy env p ctx 10 no) full_closed (Cleared env p ctx) t l.1)
            (λ found u m. found-Full found a u l.0 m))

  pub enumerate-Full :
      (s : Work) → Held env p ctx 10 no s → Post Full (Cleared env p ctx) Stops (enumerate env s)
  unfolding enumerate set_card_present ask
  enumerate-Full s k = on_device Full (Cleared env p ctx) _ s k.2 (
      Post-bind (Cleared env p ctx) Stops
        (ask env (Call.gpio_get_value ctx.pdev.platdata.card_detect_gpio)) _ s Full Full
        (full_closed s.slot (Call.gpio_get_value ctx.pdev.platdata.card_detect_gpio)
          (env.answer s.eeprom.hw (Call.gpio_get_value ctx.pdev.platdata.card_detect_gpio))
          s.eeprom.hw refl refl k)
        (λ level t l. then-Full (set_card_present (level == 0)) _ t l (λ u m.
          Post-if_run Full (Cleared env p ctx) Stops (level == 0) (read_card env ctx.pdev.platdata)
            (pure tt) u
            (λ _.
              subst (λ q. Post Full (Cleared env p ctx) Stops (read_card env q u)) (sym k.2.1)
                (read_card-Full u m))
            (λ _. m))))
