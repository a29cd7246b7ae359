-- ===== src/IotSlot/Loading.antt =====
-- Loading and unloading the EEPROM, with linux_kernel_modules/iot_slot/iot-slot-eeprom.c, makes only
-- calls that take no resource of a slot, and comes to an end.
use mang_oh.Prelude.{
  ℕ, zero, suc, ◌+◌, ◌≡◌, ◌≢◌, inl, inr, Bool-cases, refl, Option, none, some, List, [], ◌∷◌, false,
  ltb, ◌==◌,
}
use mang_oh.Prelude.Monad.{Fault, Out, ok, err, halt, deadlock, spin, corrupt, overflow, bug}
use mang_oh.Prelude.Outcome.{Post, Post-bind, Post-if, Post-weaken}
use mang_oh.Eeprom.{
  Map, has_header, if_first, if_next, free_all, free_interfaces, load_loop, load_interfaces, setup,
  load, unload,
}
use mang_oh.Eeprom.Walk.{noted}
use mang_oh.Eeprom.End.{load_interfaces_no_spin}
use mang_oh.IotSlot.Calls.{Call, Log, Env, kernel}
use mang_oh.IotSlot.Holdings.{Stops, taken, given}
use mang_oh.IotSlot.Readings.{if_first-Reads, if_next-Reads}

-- A fault of a walk with fuel.
abbrev Turns : Fault → Type 0
Turns spin = Unit
Turns f = Stops f

unspun :
    {S A : Type 0} (Q : A → S → Type 0) (E : ℕ → S → Type 0) (out : Out S A)
    → out ≢ halt spin
    → Post Q E Turns out
    → Post Q E Stops out
unspun Q E (ok a s) h k = k
unspun Q E (err e s) h k = k
unspun Q E (halt spin) h k = absurd (h refl)
unspun Q E (halt deadlock) h k = k
unspun Q E (halt corrupt) h k = k
unspun Q E (halt overflow) h k = k
unspun Q E (halt bug) h k = k

stops→turns : (f : Fault) → Stops f → Turns f
stops→turns deadlock h = h
stops→turns spin h = tt
stops→turns corrupt h = h
stops→turns overflow h = h
stops→turns bug h = h

turning :
    {S A : Type 0} (Q : A → S → Type 0) (E : ℕ → S → Type 0) (out : Out S A)
    → Post Q E Stops out
    → Post Q E Turns out
turning Q E out h = Post-weaken out Q Q E Stops (λ a t q. q) (λ e t q. q) stops→turns h

module _ (env : Env) (I : Log → Type 0)
    (closed : (c : Call) (a : ℕ) (w : Log)
      → taken c a ≡ none
      → given c ≡ none
      → I w
      → I ((c, a) ∷ w)) where
  abbrev In : {A : Type 0} → A → Map Log → Type 0
  In a t = I t.hw

  free_all_keeps : (is : List ℕ) (w : Log) → I w → I (free_all (kernel env) is w)
  unfolding free_all
  free_all_keeps [] w h = h
  free_all_keeps (i ∷ is) w h = free_all_keeps is _ (closed Call.kfree 0 w refl refl h)

  load_loop_keeps :
      (n : ℕ) (o : Option ℕ) (count : ℕ) (s : Map Log)
      → I s.hw
      → Post In In Turns (load_loop (kernel env) n o count s)
  unfolding load_loop free_interfaces
  load_loop_keeps zero none count s h = h
  load_loop_keeps (suc n) none count s h = h
  load_loop_keeps zero (some off) count s h = tt
  load_loop_keeps (suc n) (some off) count s h =
      let g = closed Call.kzalloc (env.answer s.hw Call.kzalloc) s.hw refl refl h in
      let t = noted (kernel env) off s in
      elim (Bool-cases ((kernel env).kzalloc s.hw).0) [
        | inl y ↦
            rw (load_loop, y)
              (Post-bind In Turns (if_next off) (λ o. load_loop (kernel env) n o (count + 1)) t In
                In (turning In In (if_next off t) (if_next-Reads (λ t. I t.hw) In off t g))
                (λ o u. load_loop_keeps n o (count + 1) u))
        | inr y ↦ rw (load_loop, y) (free_all_keeps s.interfaces _ g)
      ]

  load_interfaces_keeps :
      (s : Map Log) → I s.hw → Post In In Stops (load_interfaces (kernel env) 63 s)
  unfolding load_interfaces
  load_interfaces_keeps s h =
      unspun In In (load_interfaces (kernel env) 63 s) (load_interfaces_no_spin (kernel env) s) (
        Post-bind In Turns if_first (λ o. load_loop (kernel env) 63 o 0) s In In
          (turning In In (if_first s) (if_first-Reads (λ t. I t.hw) In s h))
          (λ o t. load_loop_keeps 63 o 0 t))

  loaded :
      (E : ℕ → Map Log → Type 0) (out : Out (Map Log) ℕ)
      → Post In In Stops out
      → Post In E Stops
          (elim out [ ok count u ↦ ok (ltb 0 count) u | err e u ↦ ok false u | halt f ↦ halt f ])
  loaded E (ok count u) h = h
  loaded E (err e u) h = h
  loaded E (halt f) h = h

  set_up : (image : Option (ℕ → ℕ)) (s : Map Log) → I s.hw → I (setup (kernel env) image s).hw
  unfolding setup
  set_up none s h = h
  set_up (some image) s h = h

  pub load_keeps :
      (E : ℕ → Map Log → Type 0) (s : Map Log) → I s.hw → Post In E Stops (load (kernel env) 63 s)
  unfolding load
  load_keeps E s h =
      let a = env.answer s.hw Call.new_eeprom in
      let g = closed Call.new_eeprom a s.hw refl refl h in
      let t =
        setup (kernel env) (env.contents s.hw) (record s { hw = (Call.new_eeprom, a) ∷ s.hw }) in
      let j = set_up (env.contents s.hw) (record s { hw = (Call.new_eeprom, a) ∷ s.hw }) g in
      elim (Bool-cases (a == 0)) [
        | inl y ↦ rw (load, y) g
        | inr y ↦
            rw (load, y)
              (Post-if In E Stops (has_header t) _ _
                (λ _. loaded E (load_interfaces (kernel env) 63 t) (load_interfaces_keeps t j))
                (λ _. closed Call.unregister_eeprom 0 t.hw refl refl j))
      ]

  pub unload_keeps :
      (E : ℕ → Map Log → Type 0) (s : Map Log) → I s.hw → Post In E Stops (unload (kernel env) s)
  unfolding unload free_interfaces
  unload_keeps E s h =
      Post-if In E Stops (has_header s) _ _
        (λ _. closed Call.unregister_eeprom 0 _ refl refl (free_all_keeps s.interfaces s.hw h))
        (λ _. tt)
