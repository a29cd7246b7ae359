-- ===== src/Rtc/Chip.antt =====
-- What rtc-pcf85063.c relies on of the kernel and of the chip: SMBus transfers to a file of byte
-- registers, and the two BCD conversions.
use mang_oh.Prelude.{
  ℕ, ◌+◌, ◌*◌, ◌/◌, ◌%◌, ◌^◌, ◌<◌, ◌≡◌, List, [], ◌∷◌, ◌==◌, if◌then◌else◌, length,
}
use mang_oh.Prelude.Monad.{Does}
use mang_oh.Rtc.{Kernel}

abbrev pub Registers : Type 0
Registers = ℕ → ℕ

abbrev pub set_reg : Registers → ℕ → ℕ → Registers
set_reg r a v p = if p == a then v else r p

-- Bytes written to one register after another, and read from them.
abbrev pub set_regs : Registers → ℕ → List ℕ → Registers
set_regs r a [] = r
set_regs r a (v ∷ vs) = set_regs (set_reg r a v) (a + 1) vs

abbrev pub seven : Registers → ℕ → List ℕ
seven r a = r a ∷ r (a + 1) ∷ r (a + 2) ∷ r (a + 3) ∷ r (a + 4) ∷ r (a + 5) ∷ r (a + 6) ∷ []

-- A chip on a bus that works.
pub record IsChip (k : Kernel) : Type 0 where
  pub regs : k.W → Registers
  pub bin2bcd_lem : (n : ℕ) → n < 100 → k.bin2bcd n ≡ n / 10 * 16 + n % 10
  pub bcd2bin_lem : (t u : ℕ) → t < 10 → u < 10 → k.bcd2bin (t * 16 + u) ≡ t * 10 + u
  pub read_lem : (a : ℕ) (w : k.W) → Does (k.read_byte a w) (regs w a) (λ w'. regs w' ≡ regs w)
  pub write_lem :
      (a v : ℕ) (w : k.W)
      → v < 2 ^ 8
      → Does (k.write_byte a v w) 0 (λ w'. regs w' ≡ set_reg (regs w) a v)
  pub read_block_lem :
      (a : ℕ) (w : k.W) → Does (k.read_block a 7 w) (7, seven (regs w) a) (λ w'. regs w' ≡ regs w)
  pub write_block_lem :
      (a : ℕ) (vs : List ℕ) (w : k.W)
      → length vs ≡ 7
      → Does (k.write_block a vs w) 0 (λ w'. regs w' ≡ set_regs (regs w) a vs)
