-- ===== src/Eeprom/Memory.antt =====
-- The memory that the walk over the descriptions in linux_kernel_modules/iot_slot/iot-slot-eeprom.c
-- reads and takes.
use mang_oh.Prelude.{
  ℕ, zero, suc, ◌+◌, ◌-◌, ◌<◌, ◌≡◌, refl, sym, ap, ◌∙◌, inl, inr, true, false, none, some, List, [],
  ◌∷◌, length, length-append, arith, Bool-cases, if◌then◌else◌,
}
use mathlib.Core.Path.{subst}
use mang_oh.Prelude.Monad.{Out, >>=-run}
use mang_oh.Prelude.Outcome.{Post}
use mang_oh.Board.Ledger.{Never}
use mang_oh.Eeprom.{Kernel, Map, free_all, free_interfaces, if_next, load_loop, load_interfaces}
use mang_oh.Eeprom.Image.{Ends, IsCard, listed}
use mang_oh.Eeprom.Walk.{noted, further, if_next_lem, load_interfaces_first}

-- The maps that are allocated: kzalloc may fail, and kfree gives one back.
pub record IsHeap (k : Kernel) : Type 0 where
  pub maps : k.W → ℕ
  pub kzalloc_lem : (w : k.W) → maps (k.kzalloc w).1 ≡ maps w + (if (k.kzalloc w).0 then 1 else 0)
  pub kfree_lem : (w : k.W) → maps (k.kfree w) ≡ maps w - 1

module _ (k : Kernel) (heap : IsHeap k) where
  open heap use {maps}

  free_all_lem : (is : List ℕ) (w : k.W) → maps (free_all k is w) ≡ maps w - length is
  unfolding free_all
  free_all_lem [] w = omega arith
  free_all_lem (i ∷ is) w = omega (arith, free_all_lem is (k.kfree w), heap.kfree_lem w)

  -- So many descriptions are listed, each with its map.
  abbrev pub Listed : ℕ → ℕ → ℕ → Map k.W → Type 0
  Listed count held c t = (c ≡ count) × (maps t.hw ≡ held + count)

  -- There was no memory for a map, and those that were allocated are freed.
  abbrev pub Freed : ℕ → ℕ → Map k.W → Type 0
  Freed held e t = (e ≡ 1) × (t.interfaces ≡ []) × (maps t.hw ≡ held)

  -- The maps of the list are among those that are allocated.
  abbrev Mapped : ℕ → ℕ → Map k.W → Type 0
  Mapped held count s = (maps s.hw ≡ held + count) × (length s.interfaces ≡ count)

  failed :
      (held count : ℕ) (s : Map k.W)
      → Mapped held count s
      → (k.kzalloc s.hw).0 ≡ false
      → Freed held 1 (free_interfaces k (record s { hw = (k.kzalloc s.hw).1 }))
  unfolding free_interfaces
  failed held count s (m, l) e =
      let z : maps (k.kzalloc s.hw).1 ≡ maps s.hw = ground (arith, heap.kzalloc_lem s.hw, e) in
      (refl, refl, omega (arith, free_all_lem s.interfaces (k.kzalloc s.hw).1, z, m, l))

  taken_one :
      (held count off : ℕ) (s : Map k.W)
      → Mapped held count s
      → (k.kzalloc s.hw).0 ≡ true
      → Mapped held (count + 1) (noted k off s)
  taken_one held count off s (m, l) e = (
    ground (arith, heap.kzalloc_lem s.hw, e, m),
    omega (arith, length-append s.interfaces (off ∷ []), l),
  )

  -- One round of the loop that has memory.
  round :
      (n off count : ℕ) (s : Map k.W)
      → IsCard s.buffer
      → off < 4096
      → (k.kzalloc s.hw).0 ≡ true
      → load_loop k (suc n) (some off) count s
        ≡ load_loop k n (further (s.buffer off) (off + 64)) (count + 1) (noted k off s)
  unfolding load_loop
  round n off count s c l z =
      rw (load_loop, z)
        (>>=-run (if_next off) (λ next. load_loop k n next (count + 1)) {s = noted k off s}
          (if_next_lem off (noted k off s) c l))

  Loops : ℕ → ℕ → Out (Map k.W) ℕ → Type 0
  Loops count held = Post (Listed count held) (Freed held) Never

  loop_lem :
      (n j off count held : ℕ) (s : Map k.W)
      → IsCard s.buffer
      → Ends s.buffer off j
      → j < n
      → Mapped held count s
      → Loops (count + suc j) held (load_loop k n (some off) count s)
  unfolding load_loop Loops
  loop_lem zero j off count held s c e l m = absurd (omega arith)
  loop_lem (suc n) zero off count held s c e l m = elim (Bool-cases (k.kzalloc s.hw).0) [
    | inr z ↦ rw (load_loop, z) (failed held count s m z)
    | inl z ↦
        let last : further (s.buffer off) (off + 64) ≡ none = ground (arith, e.1) in
        subst (Loops (count + 1) held)
          (sym (
            round n off count s c e.0 z
            ∙ ap (λ o. load_loop k n o (count + 1) (noted k off s)) last))
          (refl, (taken_one held count off s m z).0)
  ]
  loop_lem (suc n) (suc j) off count held s c e l m = elim (Bool-cases (k.kzalloc s.hw).0) [
    | inr z ↦ rw (load_loop, z) (failed held count s m z)
    | inl z ↦
        let more : further (s.buffer off) (off + 64) ≡ some (off + 64) = ground (arith, e.1) in
        let total : count + 1 + suc j ≡ count + suc (suc j) = omega arith in
        subst (Loops (count + suc (suc j)) held)
          (sym (
            round n off count s c e.0 z
            ∙ ap (λ o. load_loop k n o (count + 1) (noted k off s)) more))
          (subst
            (λ (x : ℕ). Loops x held (load_loop k n (some (off + 64)) (count + 1) (noted k off s)))
            total
            (loop_lem n j (off + 64) (count + 1) held (noted k off s) c e.2 (omega (arith, l))
              (taken_one held count off s m z)))
  ]

  -- On a card of version 1.0 with the mark of the end behind `n` descriptions, all in the EEPROM, the
  -- walk from an empty list ends within a round for each description and one more, and reads nothing
  -- outside of the EEPROM, however much memory there is: it succeeds with as many maps allocated as it
  -- lists descriptions, or there is no memory for one, and the maps that it had are freed.
  pub load_interfaces_ends :
      (fuel n : ℕ) (s : Map k.W)
      → IsCard s.buffer
      → Ends s.buffer 192 n
      → s.interfaces ≡ []
      → n < fuel
      → Post (Listed (listed n) (maps s.hw)) (Freed (maps s.hw)) Never (load_interfaces k fuel s)
  unfolding load_loop Loops
  load_interfaces_ends fuel zero s c e i l =
      let last : further (s.buffer 192) 192 ≡ none = ground (arith, e.1) in
      subst (Loops 0 (maps s.hw))
        (sym (load_interfaces_first k fuel s c ∙ ap (λ o. load_loop k fuel o 0 s) last))
        (refl, omega arith)
  load_interfaces_ends fuel (suc n) s c e i l =
      let more : further (s.buffer 192) 192 ≡ some 192 = ground (arith, e.1) in
      subst (Loops (suc (suc n)) (maps s.hw))
        (sym (load_interfaces_first k fuel s c ∙ ap (λ o. load_loop k fuel o 0 s) more))
        (subst (λ (x : ℕ). Loops x (maps s.hw) (load_loop k fuel (some 192) 0 s)) (omega arith)
          (loop_lem fuel (suc n) 192 0 (maps s.hw) s c e l (omega arith, ap (λ x. length x) i)))
