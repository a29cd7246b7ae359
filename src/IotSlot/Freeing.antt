-- ===== src/IotSlot/Freeing.antt =====
-- The pins that iot_slot_release_resources of linux_kernel_modules/iot_slot/iot-slot-core.c frees for
-- every slot.
use mang_oh.Prelude.{ℕ, ◌≡◌, refl, sym, ap, none, some, ◌∷◌}
use mathlib.Core.Path.{subst}
use mang_oh.Prelude.Monad.{Out, ok, err, halt, bug, >>=-run}
use mang_oh.Prelude.Outcome.{Post, Post-then}
use mang_oh.IotSlot.{PlatformData, PlatformDevice, Work}
use mang_oh.IotSlot.Interfaces.{tell}
use mang_oh.IotSlot.Calls.{Call, Log, Env}
use mang_oh.IotSlot.Release.{
  platform_device, release_interfaces, release_adapter, release_with, release_resources,
  forget_card,
}

-- The last calls have freed the pin that detects a card and the one that resets it.
abbrev pub FreesPins : PlatformData → Log → Type 0
FreesPins p log =
    (a b : ℕ) × (w : Log) × (log
      ≡ (Call.gpio_free p.reset_gpio, b) ∷ (Call.gpio_free p.card_detect_gpio, a) ∷ w)

abbrev pub Frees : {A : Type 0} → PlatformData → Out Work A → Type 0
Frees p = Post (λ _ s. FreesPins p s.eeprom.hw) (λ _ _. Unit {0}) (λ _. Unit {0})

whatever :
    {A : Type 0} (out : Out Work A) → Post (λ _ _. Unit {0}) (λ _ _. Unit {0}) (λ _. Unit {0}) out
whatever (ok a s) = tt
whatever (err e s) = tt
whatever (halt f) = tt

module _ (env : Env) where
  release_with-Frees : (p : PlatformData) (s : Work) → Frees p (release_with env p s)
  unfolding release_with forget_card tell
  release_with-Frees p s =
      Post-then (λ _ _. Unit {0}) (λ _. Unit {0}) (release_interfaces env p s.slot.interfaces) _ s
        (λ _ _. Unit {0}) (λ _ u. FreesPins p u.eeprom.hw)
        (whatever (release_interfaces env p s.slot.interfaces s))
        (λ _ t _.
          Post-then (λ _ _. Unit {0}) (λ _. Unit {0}) (release_adapter env p) _ t (λ _ _. Unit {0})
            (λ _ u. FreesPins p u.eeprom.hw) (whatever (release_adapter env p t))
            (λ _ u _. (_, _, _, refl)))

  pub release_resources-Frees :
      (pdev : PlatformDevice) (s : Work)
      → s.slot.pdev ≡ some pdev
      → Frees pdev.platdata (release_resources env s)
  unfolding release_resources platform_device
  release_resources-Frees pdev s e =
      let found : platform_device s ≡ ok pdev s =
        ap (λ o. elim o [ none ↦ halt bug | some d ↦ ok d s ]) e in
      subst (Frees pdev.platdata)
        (sym (>>=-run platform_device (λ d. release_with env d.platdata) {s = s} found))
        (release_with-Frees pdev.platdata s)
