-- ===== src/Mt7697/Fields.antt =====
-- The bit fields of linux_kernel_modules/mt7697q/bits.h. `genmask` is the kernel's GENMASK: the
-- bits from the second argument up to the first, both included.
use mang_oh.Prelude.{ℕ, suc, ◌-◌, ◌*◌, ◌/◌, ◌%◌, ◌^◌, ◌<◌, ◌≡◌, bit_and, arith}
use mang_oh.Prelude.Bits.{bit_and-ones}

-- What the kernel documents of GENMASK(h, 0) on its 32-bit long.
abbrev pub IsGenmask : (ℕ → ℕ → ℕ) → Type 0
IsGenmask g = (h : ℕ) → h < 32 → g h 0 ≡ 2 ^ suc h - 1

module _ (genmask : ℕ → ℕ → ℕ) where
  -- BF_GET(v, o, w)
  unfoldable pub bf_get : ℕ → ℕ → ℕ → ℕ
  bf_get v o w = bit_and (v / 2 ^ o) (genmask w 0)

  -- BF_DEFINE(v, o, w), on a 32-bit long
  unfoldable pub bf_define : ℕ → ℕ → ℕ → ℕ
  bf_define v o w = bit_and v (genmask w 0) * 2 ^ o % 2 ^ 32

  -- BF_GET keeps one bit more than the width that it is given.
  pub bf_get_lem : IsGenmask genmask → (v o w : ℕ) → w < 32 → bf_get v o w ≡ v / 2 ^ o % 2 ^ suc w
  unfolding bf_get
  bf_get_lem g v o w h = rw (g w h, bit_and-ones)

  pub bf_define_lem :
      IsGenmask genmask → (v o w : ℕ) → w < 32 → bf_define v o w ≡ v % 2 ^ suc w * 2 ^ o % 2 ^ 32
  unfolding bf_define
  bf_define_lem g v o w h = rw (g w h, bit_and-ones)

-- A GENMASK over the native numbers.
abbrev pub low_ones : ℕ → ℕ → ℕ
low_ones h l = 2 ^ suc h - 2 ^ l

pub low_ones-IsGenmask : IsGenmask low_ones
low_ones-IsGenmask h p = omega arith
