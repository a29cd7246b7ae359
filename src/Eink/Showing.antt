-- ===== src/Eink/Showing.antt =====
-- The parts of an update of the display, of experimental/waveshare_eink/linux_kernel_modules/fb_waveshare_eink.c:
-- what it puts on the wire for the bytes of the frame buffer, and which of the two tables it sets.
use mang_oh.Prelude.{
  ℕ, zero, suc, ◌+◌, ◌%◌, ◌<◌, ◌≡◌, refl, ap, ◌∙◌, List, [], ◌∷◌, ◌++◌, map, append-nil, length,
  take, drop, take-all, drop-all, ◌==◌, if◌then◌else◌, arith,
}
use mang_oh.Prelude.Monad.{Out, M, ok, err, halt}
use mang_oh.Prelude.Outcome.{Post}
use mang_oh.Board.Ledger.{Never}
use mang_oh.Eink.{
  Event, Kernel, Properties, Wire, State, lut_full_update, lut_partial_update, reverse_bits,
  on_wire,
}
use mang_oh.Eink.Sending.{wire, Sends, AllSent, Cut, setting}
use mang_oh.Eink.Rows.{picture}

-- The commands that show what is in the panel's memory, and put it to sleep.
abbrev pub refresh : List (ℕ × List ℕ)
refresh = (34, 196 ∷ []) ∷ (32, []) ∷ (255, []) ∷ (16, []) ∷ []

abbrev pub showing : Properties → List ℕ → List Event
showing p bytes = wire (picture p bytes) ++ wire refresh

-- The events of an update with the bytes of a frame.
abbrev pub updating : Properties → List ℕ → List ℕ → List Event
updating p lut bytes = setting p lut ++ showing p bytes

-- The table that the update with this count sets: the full one at every tenth.
abbrev pub table : ℕ → List ℕ
table count = if (count + 1) % 10 == 0 then lut_full_update else lut_partial_update

-- `es` has gone onto the wire, or the start of it; the frame buffer is as it was, and the count of
-- updates is `count`.
abbrev pub Shown : State → List Event → ℕ → Unit {0} → State → Type 0
Shown s es count a t =
    (t.wire.log ≡ s.wire.log ++ es) × (t.screen_base ≡ s.screen_base) × (t.update_count ≡ count)

abbrev pub Stopped : Kernel → State → List Event → ℕ → ℕ → State → Type 0
Stopped k s es count e t =
    Cut k s.wire.log es e t.wire × (t.screen_base ≡ s.screen_base) × (t.update_count ≡ count)

out_lem :
    (k : Kernel) (es : List Event) (s : State) (out : Out Wire (Unit {0}))
    → Post (AllSent s.wire.log es) (Cut k s.wire.log es) Never out
    → Post
        (λ a t. Shown s es s.update_count a t × (t.ssbuf ≡ s.ssbuf))
        (Stopped k s es s.update_count)
        Never
        (on_wire (λ _. out) s)
unfolding on_wire
out_lem k es s (ok a w) h = ((h, refl, refl), refl)
out_lem k es s (err c w) h = (h, refl, refl)
out_lem k es s (halt f) h = h

pub on_wire_lem :
    (k : Kernel) (es : List Event) (s : State) (m : M Wire (Unit {0}))
    → Sends k es m
    → Post
        (λ a t. Shown s es s.update_count a t × (t.ssbuf ≡ s.ssbuf))
        (Stopped k s es s.update_count)
        Never
        (on_wire m s)
unfolding on_wire
on_wire_lem k es s m h = out_lem k es s (m s.wire) (h s.wire)

pub turn_test : (n : ℕ) → n < 10 → (n + 1 == 10) ≡ ((n + 1) % 10 == 0)
turn_test n h = ground arith

pub turn_count : (n : ℕ) → n < 10 → (if n + 1 == 10 then 0 else n + 1) ≡ (n + 1) % 10
turn_count n h = ground arith

pub length-map : {A B : Type 0} (f : A → B) (xs : List A) → length (map f xs) ≡ length xs
length-map f [] = refl
length-map f (x ∷ xs) = ap (λ n. suc n) (length-map f xs)

module _ (k : Kernel) where
  reverse_bits_lem : (m : ℕ) (xs : List ℕ) → length xs ≡ m → reverse_bits k m xs ≡ map k.bitrev8 xs
  unfolding reverse_bits
  reverse_bits_lem zero [] h = refl
  reverse_bits_lem zero (x ∷ xs) h = absurd (omega (arith, h))
  reverse_bits_lem (suc m) [] h = refl
  reverse_bits_lem (suc m) (x ∷ xs) h =
      ap (λ r. k.bitrev8 x ∷ r) (reverse_bits_lem m xs (omega (arith, h)))

  pub copied :
      (m : ℕ) (xs ys : List ℕ)
      → length xs ≡ m
      → length ys ≡ m
      → reverse_bits k m (take m xs ++ drop m ys) ≡ map k.bitrev8 xs
  copied m xs ys h g =
      ap (λ b. reverse_bits k m (b ++ drop m ys)) (take-all m xs (omega (arith, h)))
      ∙ ap (λ b. reverse_bits k m (xs ++ b)) (drop-all m ys (omega (arith, g)))
      ∙ ap (λ b. reverse_bits k m b) (append-nil xs)
      ∙ reverse_bits_lem m xs h
