-- ===== src/Eeprom/End.antt =====
-- The walk over the descriptions in linux_kernel_modules/iot_slot/iot-slot-eeprom.c stays in the
-- buffer for 63 rounds at most.
use mang_oh.Prelude.{
  ℕ, zero, suc, ◌+◌, ◌*◌, ◌%◌, ◌≤◌, ◌<◌, ◌≡◌, ◌≢◌, refl, inl, inr, true, false, Option, none, some,
  Bool, arith, if◌then◌else◌, ◌==◌, Bool-cases,
}
use mang_oh.Prelude.Monad.{Out, M, ok, err, halt, spin, bug, stop, pure, ◌>>=◌}
use mang_oh.Eeprom.{
  Kernel, Map, byte_at, version, in_1v0, if_first, if_next, load_loop, load_interfaces,
}
use mang_oh.Eeprom.Walk.{noted}

module _ {S A B : Type 0} where
  -- A sequence ends if its parts do.
  bind_ends :
      (out : Out S A) (f : A → M S B) (s : S)
      → out ≢ halt spin
      → ((a : A) (t : S) → out ≡ ok a t → f a t ≢ halt spin)
      → ((λ _. out) >>= f) s ≢ halt spin
  bind_ends (ok a t) f s h k = k a t refl
  bind_ends (err e t) f s h k = ground arith
  bind_ends (halt x) f s h k = ground (arith, h)

  -- What succeeds has parts that do.
  bind_ok :
      (out : Out S A) (f : A → M S B) (s : S) {b : B} {t : S}
      → ((λ _. out) >>= f) s ≡ ok b t
      → (a : A) × (u : S) × (out ≡ ok a u) × (f a u ≡ ok b t)
  bind_ok (ok a u) f s e = (a, u, refl, e)
  bind_ok (err x u) f s e = absurd (ground (arith, e))
  bind_ok (halt x) f s e = absurd (ground (arith, e))

module _ {W : Type 0} where
  byte_at_ends : (off : ℕ) (s : Map W) → byte_at off s ≢ halt spin
  unfolding byte_at
  byte_at_ends off s = ground arith

  byte_at_ok : (off x : ℕ) (s t : Map W) → byte_at off s ≡ ok x t → off < 4096
  unfolding byte_at
  byte_at_ok off x s t e = ground (arith, e)

  version_ends : (s : Map W) → version s ≢ halt spin
  unfolding version
  version_ends s = ground arith

  abbrev next_of : ℕ → ℕ → M (Map W) (Option ℕ)
  next_of off type = pure (if type == 0xFF then none else some (off + 64))

  abbrev first_of : ℕ → M (Map W) (Option ℕ)
  first_of type = pure (if type == 0xFF then none else some 192)

  in_1v0_ends :
      {A : Type 0} (m : M (Map W) A) (s : Map W)
      → ((t : Map W) → m t ≢ halt spin)
      → in_1v0 m s ≢ halt spin
  in_1v0_ends m s h =
      bind_ends (version s) (λ v. if v == 256 then m else stop bug) s (version_ends s)
        (λ v t e. elim (Bool-cases (v == 256)) [ inl y ↦ rw y (h t) | inr n ↦ rw n (ground arith) ])

  unless_bug :
      {A : Type 0} (b : Bool) (m : M (Map W) A) (s : Map W) {a : A} {t : Map W}
      → (if b then m else stop bug) s ≡ ok a t
      → m s ≡ ok a t
  unless_bug true m s e = e
  unless_bug false m s e = absurd (ground (arith, e))

  in_1v0_ok :
      {A : Type 0} (m : M (Map W) A) (s : Map W) {a : A} {t : Map W}
      → in_1v0 m s ≡ ok a t
      → (u : Map W) × (m u ≡ ok a t)
  in_1v0_ok m s e =
      let (v, u, g, h) = bind_ok (version s) (λ v. if v == 256 then m else stop bug) s e in
      (u, unless_bug (v == 256) m u h)

  if_next_ends : (off : ℕ) (s : Map W) → if_next off s ≢ halt spin
  unfolding if_next
  if_next_ends off s =
      in_1v0_ends (byte_at off >>= next_of off) s (λ t.
        bind_ends (byte_at off t) (next_of off) t (byte_at_ends off t) (λ a u e. ground arith))

  -- The next description lies where the buffer ends at most.
  if_next_ok :
      (off x : ℕ) (s t : Map W) → if_next off s ≡ ok (some x) t → (off < 4096) × (x ≡ off + 64)
  unfolding if_next
  if_next_ok off x s t e =
      let (u, f) = in_1v0_ok (byte_at off >>= next_of off) s e in
      let (a, v, g, h) = bind_ok (byte_at off u) (next_of off) u f in
      (byte_at_ok off a u v g, ground (arith, h))

  if_first_ends : (s : Map W) → if_first s ≢ halt spin
  unfolding if_first
  if_first_ends s =
      in_1v0_ends (byte_at 192 >>= first_of) s
        (λ t. bind_ends (byte_at 192 t) first_of t (byte_at_ends 192 t) (λ a u e. ground arith))

  if_first_ok : (x : ℕ) (s t : Map W) → if_first s ≡ ok (some x) t → x ≡ 192
  unfolding if_first
  if_first_ok x s t e =
      let (u, f) = in_1v0_ok (byte_at 192 >>= first_of) s e in
      let (a, v, g, h) = bind_ok (byte_at 192 u) first_of u f in ground (arith, h)

module _ (k : Kernel) where
  -- A loop that has so much fuel for each description that may be next.
  Enough : ℕ → Type 0
  Enough n =
      (off count : ℕ) (s : Map k.W)
      → off % 64 ≡ 0
      → off ≤ 4096
      → 4160 ≤ off + 64 * n
      → load_loop k n (some off) count s ≢ halt spin

  -- A round moves on by 64 bytes, and none starts past the end of the buffer.
  after_next :
      (n off count : ℕ) (s t : Map k.W) (o : Option ℕ)
      → Enough n
      → off % 64 ≡ 0
      → 4160 ≤ off + 64 * suc n
      → if_next off s ≡ ok o t
      → load_loop k n o count t ≢ halt spin
  unfolding Enough load_loop
  after_next n off count s t none again a f e = ground arith
  after_next n off count s t (some x) again a f e =
      let (p, q) = if_next_ok off x s t e in
      again x count t (omega arith) (omega arith) (omega arith)

  loop_ends : (n : ℕ) → Enough n
  unfolding Enough load_loop
  loop_ends zero off count s a l f = absurd (omega arith)
  loop_ends (suc n) off count s a l f = elim (Bool-cases (k.kzalloc s.hw).0) [
    | inl y ↦
        rw (load_loop, y)
          (bind_ends (if_next off (noted k off s)) (λ o. load_loop k n o (count + 1))
            (noted k off s) (if_next_ends off (noted k off s))
            (λ o t e. after_next n off (count + 1) (noted k off s) t o (loop_ends n) a f e))
    | inr y ↦ rw (load_loop, y) (ground arith)
  ]

  after_first :
      (s t : Map k.W) (o : Option ℕ) → if_first s ≡ ok o t → load_loop k 63 o 0 t ≢ halt spin
  unfolding load_loop Enough
  after_first s t none e = ground arith
  after_first s t (some x) e =
      let q = if_first_ok x s t e in loop_ends 63 x 0 t (omega arith) (omega arith) (omega arith)

  -- On every EEPROM, and whatever memory there is, 63 rounds are enough: the walk succeeds, fails, or is
  -- stopped by the version, or where it would read past the end of the buffer.
  pub load_interfaces_no_spin : (s : Map k.W) → load_interfaces k 63 s ≢ halt spin
  unfolding load_interfaces
  load_interfaces_no_spin s =
      bind_ends (if_first s) (λ o. load_loop k 63 o 0) s (if_first_ends s)
        (λ o t e. after_first s t o e)
