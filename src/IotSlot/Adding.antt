-- ===== src/IotSlot/Adding.antt =====
-- What a new interface of linux_kernel_modules/iot_slot/iot-slot-core.c takes is what it stands for,
-- and one that fails leaves nothing behind.
use mang_oh.Prelude.{
  ℕ, ◌+◌, ◌≤◌, ◌≡◌, ◌≢◌, ap, ◌∙◌, inl, inr, none, some, List, [], ◌∷◌, ◌++◌, length, length-append,
  Bool, true, false, Bool-cases, if◌then◌else◌, ltb, ◌==◌, arith,
}
use mang_oh.Prelude.Monad.{fail, enodev}
use mang_oh.Prelude.Outcome.{Post, Post-bind, Post-if, Post-if_run}
use mang_oh.IotSlot.{PlatformData, Interface, Slot, Work, append, room}
use mang_oh.IotSlot.Interfaces.{ask, optional, add_requested}
use mang_oh.IotSlot.Calls.{Call, Log, Env}
use mang_oh.IotSlot.Holdings.{
  Context, Resource, Stops, one, taken, given, uses, uses_of, behind, Owes, total, Held, nothing,
  IsOn,
}

module _ (env : Env) (p : PlatformData) (ctx : Context) where
  pub Owes-closed :
      (hold : Resource → ℕ) (c : Call) (a : ℕ) (w : Log)
      → taken c a ≡ none
      → given c ≡ none
      → Owes env p ctx hold w
      → Owes env p ctx hold ((c, a) ∷ w)
  Owes-closed hold c a w t g o snd r =
      omega (arith, o snd r, ap (λ x. one x r) t, ap (λ x. one x r) g)

  pub took :
      (hold : Resource → ℕ) (c : Call) (a : ℕ) (w : Log)
      → given c ≡ none
      → Owes env p ctx hold w
      → Owes env p ctx (λ r. one (taken c a) r + hold r) ((c, a) ∷ w)
  took hold c a w g o snd r = omega (arith, o snd r, ap (λ x. one x r) g)

  pub gave :
      (hold : Resource → ℕ) (c : Call) (a : ℕ) (x : Resource) (w : Log)
      → taken c a ≡ none
      → given c ≡ some x
      → Owes env p ctx (λ r. one (some x) r + hold r) w
      → Owes env p ctx hold ((c, a) ∷ w)
  gave hold c a x w t g o snd r = omega (arith, o snd r, ap (λ x. one x r) t, ap (λ x. one x r) g)

  uses_of-append :
      (xs : List Interface) (x : Interface) (r : Resource)
      → uses_of p (xs ++ x ∷ []) r ≡ uses_of p xs r + uses p x r
  uses_of-append [] x r = omega arith
  uses_of-append (y ∷ xs) x r = omega (arith, uses_of-append xs x r)

  -- An error, after which the slot stands for all that is held.
  abbrev pub Failed : ℕ → Work → Type 0
  Failed e s = (e ≢ 0) × Held env p ctx 10 (nothing env p ctx) s

  abbrev pub HeldBy : ℕ → (Resource → ℕ) → Slot → Log → Type 0
  HeldBy n h slot w =
      (length slot.interfaces ≤ n)
      × Owes env p ctx (total env p ctx slot h) w
      × IsOn p ctx slot.pdev slot.address

  pub held_closed :
      (n : ℕ) (h : Resource → ℕ) (slot : Slot) (c : Call) (a : ℕ) (w : Log)
      → taken c a ≡ none
      → given c ≡ none
      → HeldBy n h slot w
      → HeldBy n h slot ((c, a) ∷ w)
  held_closed n h slot c a w t g k = (k.0, Owes-closed (total env p ctx slot h) c a w t g k.1, k.2)

  pub loosen : (h : Resource → ℕ) (s : Work) → Held env p ctx 9 h s → Held env p ctx 10 h s
  loosen h s k = (omega (arith, k.0), k.1, k.2)

  pub retotal :
      (n : ℕ) (h h' : Resource → ℕ) (s : Work)
      → ((r : Resource) → h r ≡ h' r)
      → Held env p ctx n h s
      → Held env p ctx n h' s
  retotal n h h' s e k = (k.0, λ snd r. omega (arith, k.1 snd r, e r), k.2)

  module _ (E : ℕ → Work → Type 0) where
    pub append-Held :
        (x : Interface) (s : Work)
        → Held env p ctx 9 (uses p x) s
        → Post (λ _. Held env p ctx 10 (nothing env p ctx)) E Stops (append x s)
    unfolding append
    append-Held x s k =
        Post-if (λ _. Held env p ctx 10 (nothing env p ctx)) E Stops
          (ltb (length s.slot.interfaces) 10) _ _
          (λ _. (
            omega (arith, k.0, length-append s.slot.interfaces (x ∷ [])),
            λ snd r. omega (arith, k.1 snd r, uses_of-append s.slot.interfaces x r),
            k.2,
          ))
          (λ e. absurd (ground (arith, k.0, e)))

    pub room-Held :
        (h : Resource → ℕ) (s : Work)
        → Held env p ctx 9 h s
        → Post (λ _. Held env p ctx 9 h) E Stops (room s)
    unfolding room
    room-Held h s k =
        Post-if (λ _. Held env p ctx 9 h) E Stops (ltb (length s.slot.interfaces) 10) _ _ (λ _. k)
          (λ e. absurd (ground (arith, k.0, e)))

    -- A call that takes a resource.
    pub ask_takes :
        (n : ℕ) (h : Resource → ℕ) (c : Call) (s : Work)
        → given c ≡ none
        → Held env p ctx n h s
        → Post (λ a. Held env p ctx n (λ r. one (taken c a) r + h r)) E Stops (ask env c s)
    unfolding ask
    ask_takes n h c s g k =
        let a = env.answer s.eeprom.hw c in
        (
          k.0,
          λ snd r. omega (arith, took (total env p ctx s.slot h) c a s.eeprom.hw g k.1 snd r),
          k.2,
        )

  pub add_requested-Held :
      (c : Call) (x : Interface) (y : Resource) (s : Work)
      → given c ≡ none
      → ((a : ℕ) → taken c a ≡ (if a == 0 then some y else none))
      → ((r : Resource) → uses p x r ≡ behind (p.has c) y r)
      → Held env p ctx 9 (nothing env p ctx) s
      → Post (λ _. Held env p ctx 10 (nothing env p ctx)) Failed Stops (add_requested env c x p s)
  unfolding add_requested optional
  add_requested-Held c x y s g t u k = elim (Bool-cases (p.has c)) [
    | inl has ↦
        Post-bind Failed Stops (optional env p c) _ s
          (λ a. Held env p ctx 9 (λ r. one (taken c a) r + 0)) _
          (rw (optional, has) (ask_takes Failed 9 (nothing env p ctx) c s g k))
          (λ a v l. answered a v (λ r. omega (arith, u r, ap (λ b. behind b y r) has)) l)
    | inr hasnt ↦
        rw (add_requested, optional, hasnt)
          (append-Held Failed x s
            (retotal 9 _ (uses p x) s (λ r. omega (arith, u r, ap (λ b. behind b y r) hasnt)) k))
  ]
    where
      taken_by : (a : ℕ) (b : Bool) (r : Resource) → (a == 0) ≡ b → one (taken c a) r ≡ behind b y r
      taken_by a b r e = ap (λ o. one o r) (t a) ∙ ap (λ b'. one (if b' then some y else none) r) e

      answered :
          (a : ℕ) (v : Work)
          → ((r : Resource) → uses p x r ≡ one (some y) r)
          → Held env p ctx 9 (λ r. one (taken c a) r + 0) v
          → Post
              (λ _. Held env p ctx 10 (nothing env p ctx))
              Failed
              Stops
              ((if a == 0 then append x else fail enodev) v)
      answered a v has l =
          Post-if_run (λ _. Held env p ctx 10 (nothing env p ctx)) Failed Stops (a == 0) _ _ v
            (λ e.
              append-Held Failed x v
                (retotal 9 _ (uses p x) v (λ r. omega (arith, taken_by a true r e, has r)) l))
            (λ e. (
              omega arith,
              loosen (nothing env p ctx) v
                  (retotal 9 _ (nothing env p ctx) v (λ r. omega (arith, taken_by a false r e)) l),
            ))
