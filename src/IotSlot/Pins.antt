-- ===== src/IotSlot/Pins.antt =====
-- The pins of a card in linux_kernel_modules/iot_slot/iot-slot-core.c take no resource.
use mang_oh.Prelude.{ℕ, zero, suc, ◌≡◌, refl, none, if◌then◌else◌, ◌==◌, arith}
use mang_oh.Prelude.Monad.{M, pure, fail, ◌>>=◌, ◌>>◌}
use mang_oh.Prelude.Outcome.{Post, Post-bind, Post-then, Post-if_run}
use mang_oh.Eeprom.{if_gpio_cfg}
use mang_oh.IotSlot.{PlatformData, Work, reading, room}
use mang_oh.IotSlot.Interfaces.{ask, tell, refuse, configure, add_pin}
use mang_oh.IotSlot.Calls.{Call, Flags, Env}
use mang_oh.IotSlot.Holdings.{Context, Resource, Stops, taken, given, Held, nothing}
use mang_oh.IotSlot.Readings.{reading-if_gpio_cfg}
use mang_oh.IotSlot.Neutral.{tell-Keeps, ask-Keeps, configure-Keeps}
use mang_oh.IotSlot.Adding.{Failed, HeldBy, held_closed, loosen, room-Held}

module _ (env : Env) (p : PlatformData) (ctx : Context) where
  -- A function that keeps what is held besides the interfaces.
  abbrev pub Holds : {A : Type 0} → M Work A → (Resource → ℕ) → Type 0
  Holds m h =
      (s : Work)
      → Held env p ctx 9 h s
      → Post (λ _. Held env p ctx 9 h) (Failed env p ctx) Stops (m s)

  holds_then :
      {A B : Type 0} (m : M Work A) (n : M Work B) (h : Resource → ℕ)
      → Holds m h
      → Holds n h
      → Holds (m >> n) h
  holds_then m n h f g s k =
      Post-then (Failed env p ctx) Stops m n s (λ _. Held env p ctx 9 h) (λ _. Held env p ctx 9 h)
        (f s k) (λ a t. g t)

  holds_bind :
      {A B : Type 0} (m : M Work A) (f : A → M Work B) (h : Resource → ℕ)
      → Holds m h
      → ((a : A) → Holds (f a) h)
      → Holds (m >>= f) h
  holds_bind m f h k l s j =
      Post-bind (Failed env p ctx) Stops m f s (λ _. Held env p ctx 9 h) (λ _. Held env p ctx 9 h)
        (k s j) (λ a t. l a t)

  tell_holds :
      (c : Call) (h : Resource → ℕ)
      → ((a : ℕ) → taken c a ≡ none)
      → given c ≡ none
      → Holds (tell env c) h
  tell_holds c h t g =
      tell-Keeps env (HeldBy env p ctx 9 h) (held_closed env p ctx 9 h) (Failed env p ctx) c (t, g)

  refuse_holds : (i : ℕ) → Holds (refuse env p i) (nothing env p ctx)
  unfolding refuse
  refuse_holds zero = λ s k. k
  refuse_holds (suc i) =
      holds_then {B = Unit {0}} (tell env (Call.gpio_free (p.gpio 0))) (fail 13) (nothing env p ctx)
        (tell_holds (Call.gpio_free (p.gpio 0)) (nothing env p ctx) (λ a. refl) refl)
        (λ s k. (omega arith, loosen env p ctx (nothing env p ctx) s k))

  abbrev no : Resource → ℕ
  no = nothing env p ctx

  abbrev request_pin : ℕ → M Work ℕ
  request_pin i = ask env (Call.gpio_request_one (p.gpio i) Flags.gpiof_in)

  abbrev checked : ℕ → ℕ → M Work (Unit {0})
  checked i ret = if ret == 0 then pure tt else refuse env p i

  checked_holds : (i ret : ℕ) → Holds (checked i ret) no
  checked_holds i ret s k =
      Post-if_run (λ _. Held env p ctx 9 no) (Failed env p ctx) Stops (ret == 0) _ _ s (λ _. k)
        (λ _. refuse_holds i s k)

  abbrev set : ℕ → ℕ → ℕ → M Work (Unit {0})
  set i cfg ret = do checked i ret; configure env cfg (p.gpio i)

  pub add_pin_holds : (item i : ℕ) → Holds (add_pin env p item i) no
  unfolding add_pin
  add_pin_holds item i =
      holds_bind (reading (if_gpio_cfg item i)) _ no
        (reading-if_gpio_cfg (Held env p ctx 9 no) (Failed env p ctx) item i)
        (λ cfg.
          holds_then room (request_pin i >>= set i cfg) no
            (room-Held env p ctx (Failed env p ctx) no)
            (holds_bind (request_pin i) (set i cfg) no
              (ask-Keeps env (HeldBy env p ctx 9 no) (held_closed env p ctx 9 no) (Failed env p ctx)
                (Call.gpio_request_one (p.gpio i) Flags.gpiof_in) (λ a. refl, refl))
              (λ ret.
                holds_then (checked i ret) (configure env cfg (p.gpio i)) no (checked_holds i ret) (
                  configure-Keeps env (HeldBy env p ctx 9 no) (held_closed env p ctx 9 no)
                    (Failed env p ctx) cfg (p.gpio i)))))
