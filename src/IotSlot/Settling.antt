-- ===== src/IotSlot/Settling.antt =====
-- iot_slot_probe and iot_slot_remove of linux_kernel_modules/iot_slot/iot-slot-core.c: what a failed
-- probe, and a removal, leave behind.
use mang_oh.Prelude.{
  ℕ, ◌+◌, ◌≡◌, ◌≢◌, refl, sym, ◌⊎◌, inl, inr, Option, none, some, ◌∷◌, true, false, if◌then◌else◌,
  ◌==◌, arith,
}
use mathlib.Core.Path.{subst}
use mang_oh.Prelude.Monad.{Out, ok, err, halt, finally}
use mang_oh.Prelude.Outcome.{Post, Post-then, Post-if, Post-if_run, Post-weaken, Post-and}
use mang_oh.IotSlot.{PlatformDevice, Slot, Work}
use mang_oh.IotSlot.Calls.{Call, Log, Env}
use mang_oh.IotSlot.Release.{release_resources}
use mang_oh.IotSlot.Driver.{
  State, fill_slot, probe_locked, probe, remove, is_slot_of, is_index, set_slot, new_slot,
  mutex_lock, mutex_unlock,
}
use mang_oh.IotSlot.Holdings.{
  Context, Resource, Stops, acquired, released, Held, nothing, IsSound, Owes, Cleared,
}
use mang_oh.IotSlot.Probing.{fill_slot-Full}
use mang_oh.IotSlot.Freeing.{FreesPins, release_resources-Frees}
use mang_oh.IotSlot.Enumerating.{release_full}

module _ (env : Env) (pdev : PlatformDevice) (others : Resource → ℕ) where
  -- What is taken and not given back is what the other slots hold.
  abbrev pub Settled : Log → Type 0
  Settled w = IsSound env pdev.platdata → (r : Resource) → acquired r w ≡ released r w + others r

  abbrev pub context : ℕ → Context
  context address = record { others = others; pdev = pdev; address = address }

  abbrev pub HeldAt : ℕ → Work → Type 0
  HeldAt a w = Held env pdev.platdata (context a) 10 (nothing env pdev.platdata (context a)) w

  -- The device has a slot, with 10 interfaces at most, which with the other slots stands for all that
  -- is held.
  abbrev pub HasSlot : State → Type 0
  HasSlot s =
      (slot : Slot) × (s.slots pdev.id ≡ some slot)
      × HeldAt (s.drvdata pdev.address) (record { slot = slot; eeprom = s.eeprom })

  abbrev Placed : {A : Type 0} → A → State → Type 0
  Placed _ s = HasSlot s

  -- An error, after which only the other slots hold something.
  abbrev pub Undone : ℕ → State → Type 0
  Undone e s = (e ≢ 0) × Settled s.eeprom.hw

  same_index : (i : ℕ) → (i == i) ≡ true
  same_index i = ground arith

  settled :
      (a : ℕ) (w : Log)
      → Owes env pdev.platdata (context a) (nothing env pdev.platdata (context a)) w
      → Settled w
  settled a w o snd r = omega (arith, o snd r)

  -- The slot as the calls on it have left it.
  filled :
      (s : State) (a : ℕ) (out : Out Work (Unit {0}))
      → s.drvdata pdev.address ≡ a
      → Post (λ _ w. HeldAt a w) (Cleared env pdev.platdata (context a)) Stops out
      → Post Placed Undone Stops (elim out [
        | ok x w ↦ ok tt (set_slot pdev.id (some w.slot) (record s { eeprom = w.eeprom }))
        | err r w ↦ err r (set_slot pdev.id none (record s { eeprom = w.eeprom }))
        | halt f ↦ halt f
      ])
  unfolding set_slot
  filled s a (ok x w) e h =
      (w.slot, rw (same_index pdev.id) refl, subst (λ b. HeldAt b w) (sym e) h)
  filled s a (err r w) e h = (h.0, settled a w.eeprom.hw h.1)
  filled s a (halt f) e h = h

  abbrev fresh : State → ℕ → Work
  fresh s a = record {
    slot = new_slot a pdev;
    eeprom = record s.eeprom { hw = (Call.devm_kzalloc, a) ∷ s.eeprom.hw };
  }

  abbrev claimed : State → ℕ → State
  claimed s a = record s {
    drvdata = λ d. if d == pdev.address then a else s.drvdata d;
    eeprom = record s.eeprom { hw = (Call.devm_kzalloc, a) ∷ s.eeprom.hw };
  }

  -- What a slot of zeros and the calls so far hold.
  fresh_held :
      (s : State) (a : ℕ)
      → ((r : Resource) → acquired r s.eeprom.hw ≡ released r s.eeprom.hw + others r)
      → HeldAt a (fresh s a)
  fresh_held s a h = (omega arith, λ snd r. omega (arith, h r), (refl, refl, refl))

  slot_or_none : (o : Option Slot) → (o ≡ none) ⊎ ((slot : Slot) × (o ≡ some slot))
  slot_or_none none = inl refl
  slot_or_none (some slot) = inr (slot, refl)

  probe_locked_settles :
      (s : State)
      → ((r : Resource) → acquired r s.eeprom.hw ≡ released r s.eeprom.hw + others r)
      → Post Placed Undone Stops (probe_locked env pdev s)
  unfolding probe_locked
  probe_locked_settles s h = elim (slot_or_none (s.slots pdev.id)) [
    | inr (slot, e) ↦ rw (probe_locked, e) (omega arith, λ snd r. h r)
    | inl e ↦
        let a = env.answer s.eeprom.hw Call.devm_kzalloc in
        rw (probe_locked, e)
          (Post-if Placed Undone Stops (a == 0) _ _
            (λ _. (omega arith, λ snd r. omega (arith, h r)))
            (λ _.
              filled (claimed s a) a (fill_slot env (fresh s a)) (rw (same_index pdev.address) refl)
                (fill_slot-Full env pdev.platdata (context a) (fresh s a)
                  (refl, fresh_held s a h))))
  ]

  -- With the mutex free.
  abbrev pub Unlocked : {A : Type 0} → (State → Type 0) → A → State → Type 0
  Unlocked P _ t = (t.management_mutex ≡ false) × P t

  unlocked :
      (out : Out State (Unit {0})) (s : State)
      → Post Placed Undone Stops out
      → Post
          (Unlocked HasSlot)
          (λ e. Unlocked (Undone e) e)
          Stops
          (finally mutex_unlock (λ _. out) s)
  unlocked (ok x t) s h = (refl, h)
  unlocked (err e t) s h = (refl, h)
  unlocked (halt f) s h = h

  -- Of the busses of the board and the devices registered on them, and not of the pins, the device of
  -- the EEPROM and the memory: a probe, with the mutex free and all that is held held by other slots,
  -- ends with the mutex free again, whatever the kernel, the board and the EEPROM of the card answer. It
  -- succeeds with a slot of 10 interfaces at most, which with its adapter is what it holds in addition
  -- if the board is sound; or it fails with an error that is not 0 and, if the board is sound, holds
  -- none of them; or it stops in a BUG, at a null pointer or at memory that is not its own, but never
  -- locks the mutex twice, never loops without end and never writes past the interfaces of a slot.
  pub probe-Settled :
      (s : State)
      → s.management_mutex ≡ false
      → ((r : Resource) → acquired r s.eeprom.hw ≡ released r s.eeprom.hw + others r)
      → Post (Unlocked HasSlot) (λ e. Unlocked (Undone e) e) Stops (probe env pdev s)
  unfolding probe
  probe-Settled s m h =
      Post-if_run (Unlocked HasSlot) (λ e. Unlocked (Undone e) e) Stops (is_index pdev.id) _ _ s
        (λ _.
          Post-then (λ e. Unlocked (Undone e) e) Stops mutex_lock
            (finally mutex_unlock (probe_locked env pdev)) s
            (λ _ t. (r : Resource) → acquired r t.eeprom.hw ≡ released r t.eeprom.hw + others r)
            (Unlocked HasSlot)
            (Post-if
              (λ _ t. (r : Resource) → acquired r t.eeprom.hw ≡ released r t.eeprom.hw + others r)
              (λ e. Unlocked (Undone e) e) Stops s.management_mutex _ _
              (λ e. absurd (ground (arith, m, e))) (λ _. h))
            (λ _ t k. unlocked (probe_locked env pdev t) t (probe_locked_settles t k)))
        (λ _. (m, (omega arith, λ snd r. h r)))

  -- No error.
  abbrev pub Never : {S : Type 0} → ℕ → S → Type 0
  Never e s = ⊥

  -- The device has no slot, only the other slots hold something, and its two pins have been freed.
  abbrev pub Gone : {A : Type 0} → A → State → Type 0
  Gone _ t = (t.slots pdev.id ≡ none) × Settled t.eeprom.hw × FreesPins pdev.platdata t.eeprom.hw

  -- What a removal leaves, if the slot is the device's.
  removed :
      (s : State) (out : Out Work (Unit {0}))
      → Post (λ _ w. Settled w.eeprom.hw × FreesPins pdev.platdata w.eeprom.hw) Never Stops out
      → Post Gone Never Stops (elim out [
        | ok x w ↦ ok tt (set_slot pdev.id none (record s { eeprom = w.eeprom }))
        | err e w ↦ err e (record s { eeprom = w.eeprom })
        | halt f ↦ halt f
      ])
  unfolding set_slot
  removed s (ok x w) h = (rw (same_index pdev.id) refl, h.0, h.1)
  removed s (err e w) h = h
  removed s (halt f) h = h

  release_settles :
      (a : ℕ) (w : Work)
      → HeldAt a w
      → Post
          (λ _ v. Settled v.eeprom.hw × FreesPins pdev.platdata v.eeprom.hw)
          Never
          Stops
          (release_resources env w)
  release_settles a w h =
      Post-and (release_resources env w) (λ _ v. Settled v.eeprom.hw)
        (λ _ v. FreesPins pdev.platdata v.eeprom.hw) Never (λ _ _. Unit {0}) Stops (λ _. Unit {0})
        (Post-weaken (release_resources env w)
          (λ _ v.
            Owes env pdev.platdata (context a) (nothing env pdev.platdata (context a)) v.eeprom.hw)
          (λ _ v. Settled v.eeprom.hw) Never Stops (λ _ v o. settled a v.eeprom.hw o) (λ _ _ x. x)
          (λ _ x. x) (release_full env pdev.platdata (context a) Never w h))
        (release_resources-Frees env pdev w h.2.0)

  -- A removal of a device that has a slot, with an index below 3, succeeds or stops: it fails with no
  -- error, gives back every bus that the slot held and unregisters every device that it had registered
  -- if the board is sound, frees the pin that detects a card and the one that resets it, and frees the
  -- index.
  pub remove-Settled :
      (s : State) → is_index pdev.id ≡ true → HasSlot s → Post Gone Never Stops (remove env pdev s)
  unfolding remove is_slot_of
  remove-Settled s i (slot, e, h) =
      let at : slot.address ≡ s.drvdata pdev.address = h.2.2 in
      rw (remove, i, e, h.2.0, at, same_index pdev.address, same_index (s.drvdata pdev.address))
        (removed s (release_resources env (record { slot = slot; eeprom = s.eeprom }))
          (release_settles (s.drvdata pdev.address) (record { slot = slot; eeprom = s.eeprom }) h))
