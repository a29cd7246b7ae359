-- ===== src/RedMux/Holds.antt =====
-- What the switches of linux_kernel_modules/mangoh/mangoh_red_mux.c promise their clients, apart from
-- how they keep it: how many holds there are on each side.
use mang_oh.Prelude.{ℕ, ◌+◌, ◌-◌, ◌≡◌, Bool, true, false, List, [], ◌∷◌, if◌then◌else◌, ◌==◌}
use mang_oh.Prelude.Monad.{Out, ok, err, halt, Does}
use mang_oh.RedMux.{
  Flags, gpiof_in, gpiof_out_init_low, gpiof_out_init_high, Gpio, Selection, board, iot_slot, same,
  Mux, select, release,
}

-- The level that a request with a flag gives a pin.
abbrev pub requested : Flags → ℕ → ℕ
requested gpiof_in level = level
requested gpiof_out_init_low level = 0
requested gpiof_out_init_high level = 1

-- Pins that can be had and driven.
pub record IsGpio (g : Gpio) : Type 0 where
  pub level : g.W → ℕ → ℕ
  pub request_one_lem :
      (pin : ℕ) (flags : Flags) (w : g.W)
      → Does (g.request_one pin flags w) tt (λ w'.
        (p : ℕ) → level w' p ≡ (if p == pin then requested flags (level w p) else level w p))
  pub direction_output_lem :
      (pin v : ℕ) (w : g.W)
      → Does
          (g.direction_output pin v w)
          tt
          (λ w'. (p : ℕ) → level w' p ≡ (if p == pin then v else level w p))

-- What a client asks of a switch.
pub data Call : Type 0 where
  selects releases : Selection → Call

abbrev pub Holds : Type 0
Holds = Selection → ℕ

abbrev pub other : Selection → Selection
other board = iot_slot
other iot_slot = board

abbrev pub none_held : Holds
none_held s = 0

-- A side is granted unless the other one is held, and is given back if it is held.
abbrev pub grants : Holds → Call → Bool
grants h (selects s) = h (other s) == 0
grants h (releases s) = if h s == 0 then false else true

abbrev pub change : Holds → Call → Holds
change h (selects s) t = if same t s then h t + 1 else h t
change h (releases s) t = if same t s then h t - 1 else h t

abbrev pub after_call : Holds → Call → Holds
after_call h c = if grants h c then change h c else h

unfoldable pub serve : List Call → Holds → List Bool × Holds
serve [] h = ([], h)
serve (c ∷ cs) h = let (rest, h') = serve cs (after_call h c) in (grants h c ∷ rest, h')

-- The code: whether the call succeeded, and the switch after it.
abbrev pub answer : {W : Type 0} → Out (Mux W) (Unit {0}) → Mux W → Bool × Mux W
answer (ok a m') m = (true, m')
answer (err e m') m = (false, m')
answer (halt f) m = (false, m)

module _ (g : Gpio) where
  abbrev pub call : Call → Mux g.W → Bool × Mux g.W
  call (selects s) m = answer (select g s m) m
  call (releases s) m = answer (release s m) m

  unfoldable pub calls : List Call → Mux g.W → List Bool × Mux g.W
  calls [] m = ([], m)
  calls (c ∷ cs) m = let (a, m') = call c m in let (rest, m'') = calls cs m' in (a ∷ rest, m'')
