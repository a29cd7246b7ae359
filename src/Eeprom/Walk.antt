-- ===== src/Eeprom/Walk.antt =====
-- The walk over the descriptions in linux_kernel_modules/iot_slot/iot-slot-eeprom.c.
use mang_oh.Prelude.{
  ℕ, zero, suc, ◌+◌, ◌<◌, ◌≡◌, refl, ap, ◌∙◌, Option, none, some, [], ◌∷◌, ◌++◌, append_assoc,
  arith, if◌then◌else◌, ◌==◌, lt→ltb,
}
use mang_oh.Prelude.Monad.{ok, M, Does, pure, stop, bug, >>=-run}
use mang_oh.Eeprom.{
  Kernel, Map, has_header, byte_at, version, in_1v0, if_first, if_next, load_loop, load_interfaces,
}
use mang_oh.Eeprom.Image.{Ends, IsCard, HasMemory, slots, listed}

-- What follows a description of a type, at the offset if it is not the last.
abbrev pub further : ℕ → ℕ → Option ℕ
further type off = if type == 0xFF then none else some off

module _ {W : Type 0} where
  version_lem : (s : Map W) → IsCard s.buffer → version s ≡ ok 256 s
  unfolding version has_header
  version_lem s c = rw (c.first, c.second, c.major, c.minor) refl

  byte_at_lem : (off : ℕ) (s : Map W) → off < 4096 → byte_at off s ≡ ok (s.buffer off) s
  unfolding byte_at
  byte_at_lem off s l = rw (lt→ltb off 4096 l) refl

  in_1v0_lem : {A : Type 0} (m : M (Map W) A) (s : Map W) → IsCard s.buffer → in_1v0 m s ≡ m s
  in_1v0_lem m s c =
      >>=-run version (λ v. if v == 256 then m else stop bug) {s = s} (version_lem s c)

  pub if_next_lem :
      (off : ℕ) (s : Map W)
      → IsCard s.buffer
      → off < 4096
      → if_next off s ≡ ok (further (s.buffer off) (off + 64)) s
  unfolding if_next
  if_next_lem off s c l =
      in_1v0_lem _ s c
      ∙ >>=-run (byte_at off) (λ type. pure (further type (off + 64))) {s = s} (byte_at_lem off s l)

  if_first_lem : (s : Map W) → IsCard s.buffer → if_first s ≡ ok (further (s.buffer 192) 192) s
  unfolding if_first
  if_first_lem s c =
      in_1v0_lem _ s c
      ∙ >>=-run (byte_at 192) (λ type. pure (further type 192)) {s = s}
          (byte_at_lem 192 s (omega arith))

module _ (k : Kernel) where
  abbrev pub noted : ℕ → Map k.W → Map k.W
  noted off s = record s { interfaces = s.interfaces ++ off ∷ []; hw = (k.kzalloc s.hw).1 }

  -- One round of the loop.
  round :
      (n off count : ℕ) (s : Map k.W)
      → HasMemory k
      → IsCard s.buffer
      → off < 4096
      → load_loop k (suc n) (some off) count s
        ≡ load_loop k n (further (s.buffer off) (off + 64)) (count + 1) (noted off s)
  unfolding load_loop
  round n off count s h c l =
      rw (load_loop, h.kzalloc_lem s.hw)
        (>>=-run (if_next off) (λ next. load_loop k n next (count + 1)) {s = noted off s}
          (if_next_lem off (noted off s) c l))

  loop_lem :
      (n j off count : ℕ) (s : Map k.W)
      → HasMemory k
      → IsCard s.buffer
      → Ends s.buffer off j
      → j < n
      → Does
          (load_loop k n (some off) count s)
          (count + suc j)
          (λ t. (t.interfaces ≡ s.interfaces ++ slots off (suc j)) × (t.buffer ≡ s.buffer))
  unfolding load_loop
  loop_lem zero j off count s h c e l = absurd (omega arith)
  loop_lem (suc n) zero off count s h c e l = record {
    next = noted off s;
    returned =
        round n off count s h c e.0 ∙ ap (λ o. load_loop k n o (count + 1) (noted off s)) last;
    result = (refl, refl);
  }
    where
      last : further (s.buffer off) (off + 64) ≡ none
      last = ground (arith, e.1)
  loop_lem (suc n) (suc j) off count s h c e l =
      let d = loop_lem n j (off + 64) (count + 1) (noted off s) h c e.2 (omega arith) in
      record {
        next = d.next;
        returned =
            round n off count s h c e.0
            ∙ ap (λ o. load_loop k n o (count + 1) (noted off s)) more
            ∙ d.returned
            ∙ ap (λ (x : ℕ). ok x d.next) (omega arith);
        result = (
          d.result.0 ∙ append_assoc s.interfaces (off ∷ []) (slots (off + 64) (suc j)),
          d.result.1,
        );
      }
    where
      more : further (s.buffer off) (off + 64) ≡ some (off + 64)
      more = ground (arith, e.1)

  pub load_interfaces_first :
      (fuel : ℕ) (s : Map k.W)
      → IsCard s.buffer
      → load_interfaces k fuel s ≡ load_loop k fuel (further (s.buffer 192) 192) 0 s
  unfolding load_interfaces
  load_interfaces_first fuel s c =
      >>=-run if_first (λ first. load_loop k fuel first 0) {s = s} (if_first_lem s c)

  -- With memory enough, and fuel for a round for each description and one more, the walk over a card
  -- of version 1.0 with `suc n` descriptions succeeds, but lists the mark of their end as one more
  -- description; a card with none gives an empty list.
  pub load_interfaces_lem :
      (fuel n : ℕ) (s : Map k.W)
      → HasMemory k
      → IsCard s.buffer
      → Ends s.buffer 192 n
      → s.interfaces ≡ []
      → n < fuel
      → Does
          (load_interfaces k fuel s)
          (listed n)
          (λ t. (t.interfaces ≡ slots 192 (listed n)) × (t.buffer ≡ s.buffer))
  unfolding load_loop
  load_interfaces_lem fuel zero s h c e i l = record {
    next = s;
    returned = load_interfaces_first fuel s c ∙ ap (λ o. load_loop k fuel o 0 s) none_left;
    result = (i, refl);
  }
    where
      none_left : further (s.buffer 192) 192 ≡ none
      none_left = ground (arith, e.1)
  load_interfaces_lem fuel (suc n) s h c e i l =
      let d = loop_lem fuel (suc n) 192 0 s h c e l in
      record {
        next = d.next;
        returned =
            load_interfaces_first fuel s c
            ∙ ap (λ o. load_loop k fuel o 0 s) some_left
            ∙ d.returned
            ∙ ap (λ (x : ℕ). ok x d.next) (omega arith);
        result = (d.result.0 ∙ ap (λ l. l ++ slots 192 (suc (suc n))) i, d.result.1);
      }
    where
      some_left : further (s.buffer 192) 192 ≡ some 192
      some_left = ground (arith, e.1)
