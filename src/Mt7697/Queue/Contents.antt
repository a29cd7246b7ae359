-- ===== src/Mt7697/Queue/Contents.antt =====
-- A queue that is well formed, and the words that it holds, oldest first.
use mang_oh.Prelude.{
  ℕ, ◌+◌, ◌-◌, ◌*◌, ◌/◌, ◌^◌, ◌≤◌, ◌<◌, ◌≡◌, ◌⊎◌, inl, inr, List, ◌++◌, leb, if◌then◌else◌, length,
  arith, length-append, le→leb, lt→leb, le-or-lt,
}
use mang_oh.Mt7697.Fields.{IsGenmask, bf_get_lem}
use mang_oh.Mt7697.Memory.{Memory, words, length-words}
use mang_oh.Mt7697.Queue.State.{Data, buff_words, get_num_words, get_free_words}
use mang_oh.Mt7697.Queue.Pointers.{slave_buffer_address}

-- The number of words of the ring, read off the flags.
abbrev pub size_of : Data → ℕ
size_of d = d.flags / 2 ^ 16

-- The descriptor of a ring: both offsets in range, the ring below 4 GB and clear of the table of
-- descriptors, which is 6 times 16 bytes long.
pub record IsRing (d : Data) : Type 0 where
  pub flags_word : d.flags < 2 ^ 32
  pub rd_in : d.rd_offset < size_of d
  pub wr_in : d.wr_offset < size_of d
  pub fits : d.base_addr + 4 * size_of d ≤ 2 ^ 32
  pub apart :
      (d.base_addr + 4 * size_of d ≤ slave_buffer_address)
      ⊎ (slave_buffer_address + 96 ≤ d.base_addr)

-- The words between two offsets, going round at `size`.
abbrev pub between : Memory → ℕ → ℕ → ℕ → ℕ → List ℕ
between m base size from to =
    if leb from to
    then words m (base + 4 * from) (to - from)
    else words m (base + 4 * from) (size - from) ++ words m base to

abbrev pub contents : Memory → Data → List ℕ
contents m d = between m d.base_addr (size_of d) d.rd_offset d.wr_offset

module _ (genmask : ℕ → ℕ → ℕ) (masks : IsGenmask genmask) where
  pub buff_words_lem : (d : Data) → d.flags < 2 ^ 32 → buff_words genmask d ≡ size_of d
  buff_words_lem d h = omega (arith, bf_get_lem genmask masks d.flags 16 16 (omega arith))

  pub get_num_words_lem :
      {d : Data}
      → IsRing d
      → get_num_words genmask d ≡ (
          if leb d.rd_offset d.wr_offset
          then d.wr_offset - d.rd_offset
          else size_of d - d.rd_offset + d.wr_offset)
  unfolding get_num_words
  get_num_words_lem {d} r = rw (buff_words_lem d r.flags_word) (ground (arith, r))

  -- Of the `size` words of a ring one stays free.
  pub free-add-num :
      {d : Data} → IsRing d → get_free_words genmask d + get_num_words genmask d + 1 ≡ size_of d
  unfolding get_free_words
  free-add-num {d} r = rw (buff_words_lem d r.flags_word) (ground (arith, r))

  pub length-contents :
      (m : Memory) {d : Data} → IsRing d → length (contents m d) ≡ get_num_words genmask d
  length-contents m {d} r = elim (le-or-lt d.rd_offset d.wr_offset) [
    | inl h ↦
        rw (get_num_words_lem r, le→leb _ _ h)
          (length-words m (d.base_addr + 4 * d.rd_offset) (d.wr_offset - d.rd_offset))
    | inr h ↦
        rw (get_num_words_lem r, lt→leb _ _ h)
          (omega (
            arith,
            length-append (words m (d.base_addr + 4 * d.rd_offset) (size_of d - d.rd_offset))
                (words m d.base_addr d.wr_offset),
            length-words m (d.base_addr + 4 * d.rd_offset) (size_of d - d.rd_offset),
            length-words m d.base_addr d.wr_offset,
          ))
  ]
