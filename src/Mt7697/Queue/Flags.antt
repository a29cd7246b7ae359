-- ===== src/Mt7697/Queue/Flags.antt =====
-- The flags of a queue in linux_kernel_modules/mt7697q/queue.c: bit 0 is meant to say whether it is in
-- use, bit 1 its direction, the upper half its size.
use mang_oh.Prelude.{ℕ, ◌+◌, ◌-◌, ◌*◌, ◌/◌, ◌%◌, ◌^◌, ◌<◌, ◌≡◌, ap, arith, bit_and}
use mang_oh.Prelude.Bits.{bit_and-halves, bit_and-ones}
use mang_oh.Mt7697.Fields.{IsGenmask, bf_get, bf_get_lem}
use mang_oh.Mt7697.Queue.State.{flags_get_in_use, flags_get_dir}
use mang_oh.Mt7697.Queue.Control.{clear_in_use}

module _ (genmask : ℕ → ℕ → ℕ) (masks : IsGenmask genmask) where
  -- With the kernel's GENMASK, the accessors of the use and of the direction return two bits each: the
  -- use together with the direction, and the direction together with bit 2.
  pub flags_get_in_use_lem :
      (flags : ℕ)
      → (flags_get_in_use genmask flags ≡ flags % 2 + 2 * (flags / 2 % 2))
        × (flags_get_dir genmask flags ≡ flags / 2 % 2 + 2 * (flags / 4 % 2))
  unfolding flags_get_in_use flags_get_dir
  flags_get_in_use_lem flags = (
    omega (arith, bf_get_lem genmask masks flags 0 1 (omega arith)),
    omega (arith, bf_get_lem genmask masks flags 1 1 (omega arith)),
  )

  -- Clearing the use of a queue clears the direction too, and keeps the other bits.
  pub clear_in_use_lem : (flags : ℕ) → flags < 2 ^ 32 → clear_in_use genmask flags ≡ flags / 4 * 4
  unfolding clear_in_use
  clear_in_use_lem flags h = rw (two_bits) (
      omega (
        arith,
        bit_and-halves flags (2 ^ 32 - 1 - flags % 4),
        bit_and-halves (flags / 2) ((2 ^ 32 - 1 - flags % 4) / 2),
        bit_and-ones 30 (flags / 2 / 2),
        ap (bit_and (flags / 2 / 2)) upper,
      ))
    where
      two_bits : bf_get genmask flags 0 1 ≡ flags % 4
      two_bits = omega (arith, bf_get_lem genmask masks flags 0 1 (omega arith))

      upper : (2 ^ 32 - 1 - flags % 4) / 2 / 2 ≡ 2 ^ 30 - 1
      upper = omega arith
