-- ===== src/Mt7697/Queue/Chunks.antt =====
-- The parts of mt7697q_read of linux_kernel_modules/mt7697q/queue.c: up to the end of the ring, and
-- up to the write offset.
use mang_oh.Prelude.{
  ℕ, ◌+◌, ◌-◌, ◌*◌, ◌%◌, ◌^◌, ◌≤◌, ◌<◌, ◌≡◌, refl, sym, ◌∙◌, ap, inl, inr, none, List, ◌++◌, ltb,
  min, arith, lt→ltb, lt→leb, append-nil, Bool-cases,
}
use mathlib.Core.Path.{ap₂}
use mang_oh.Prelude.Monad.{ok, >>=-run}
use mang_oh.Mt7697.Memory.{words, words_cong}
use mang_oh.Mt7697.Bus.{Bus, IsBus}
use mang_oh.Mt7697.Queue.State.{Port, buff_words, sub32, set_data, bus}
use mang_oh.Mt7697.Queue.Transfer.{
  count, Chunk, min_size, read_to_end, read_rest, read_finish, wrap_at,
}
use mang_oh.Mt7697.Queue.Contents.{IsRing, size_of, buff_words_lem}
use mang_oh.Mt7697.Queue.Run.{read_at, min_size-eq-min, sub32_lem, addr_lem}

abbrev pub chunk : List ℕ → ℕ → ℕ → Chunk
chunk ws n off = record { error = none; got = ws; rd_words = n; read_offset = off }

pub chunk_cong :
    {ws vs : List ℕ} {n k off pos : ℕ}
    → ws ≡ vs
    → n ≡ k
    → off ≡ pos
    → chunk ws n off ≡ chunk vs k pos
chunk_cong e f g = λ i. record { error = none; got = e i; rd_words = f i; read_offset = g i }

module _ (b : Bus) (ib : IsBus b) (p : Port b.W) (ring : IsRing p.spec.q_data) where
  open ib use {masks, mem}
  open p.spec.q_data use {base_addr, rd_offset, wr_offset}

  to_end_count :
      (num : ℕ)
      → min_size num (sub32 (buff_words b.genmask p.spec.q_data) rd_offset)
        ≡ min num (size_of p.spec.q_data - rd_offset)
  to_end_count num =
      rw
        (
          buff_words_lem b.genmask masks p.spec.q_data ring.flags_word,
          sub32_lem (size_of p.spec.q_data) rd_offset (omega (arith, ring)) (omega (arith, ring)),
        )
        (min_size-eq-min num (size_of p.spec.q_data - rd_offset))

  -- The part up to the end of the ring.
  pub to_end_lem :
      (num : ℕ)
      → wr_offset < rd_offset
      → let k = min num (size_of p.spec.q_data - rd_offset) in
        (w : b.W) × (read_to_end b num p
          ≡ ok
              (chunk
                (words (mem p.hw) (base_addr + 4 * rd_offset) k)
                k
                (wrap_at (size_of p.spec.q_data) (rd_offset + k)))
              (record p { hw = w }))
        × (mem w ≡ mem p.hw)
  unfolding read_to_end
  to_end_lem num h =
      let (w, e, f) =
        read_at b ib p {a = base_addr + 4 * rd_offset}
          (addr_lem base_addr rd_offset _ ring.rd_in ring.fits) (to_end_count num)
          (omega (arith, ring)) (omega (arith, ring)) in
      (
        w,
        rw (lt→ltb wr_offset rd_offset h) (
            >>=-run (bus (b.rd _ _)) _ e
            ∙ ap (λ c. ok c (record p { hw = w })) (chunk_cong refl (to_end_count num) moved)),
        f,
      )
    where
      moved :
          wrap_at (buff_words b.genmask p.spec.q_data) (
            (rd_offset + min_size num (sub32 (buff_words b.genmask p.spec.q_data) rd_offset))
            % 2 ^ 16)
          ≡ wrap_at
              (size_of p.spec.q_data)
              (rd_offset + min num (size_of p.spec.q_data - rd_offset))
      moved =
          ap₂ wrap_at (buff_words_lem b.genmask masks p.spec.q_data ring.flags_word)
            (rw (to_end_count num) (omega (arith, ring)))

  -- The part from the local offset `off` up to the write offset.
  pub rest_lem :
      (num off n : ℕ) (ws : List ℕ)
      → off ≤ wr_offset
      → n ≤ num
      → let j = min (num - n) (wr_offset - off) in
        (w : b.W) × (read_rest b num (chunk ws n off) p
          ≡ ok
              (chunk (ws ++ words (mem p.hw) (base_addr + 4 * off) j) (n + j) (off + j))
              (record p { hw = w }))
        × (mem w ≡ mem p.hw)
  unfolding read_rest words
  rest_lem num off n ws h k = elim (Bool-cases (ltb n num)) [
    | inl more ↦
        let (w, e, f) =
          read_at b ib p {a = base_addr + 4 * off} (addr_lem base_addr off _ within ring.fits)
            count_eq (omega (arith, ring)) (omega (arith, ring)) in
        (
          w,
          rw more (
              >>=-run (bus (b.rd _ _)) _ e
              ∙ ap (λ c. ok c (record p { hw = w }))
                  (chunk_cong refl (ap (λ (t : ℕ). n + t) count_eq)
                    (rw count_eq (omega (arith, ring))))),
          f,
        )
    | inr none_left ↦
        let nothing : ws
            ≡ ws ++ words (mem p.hw) (base_addr + 4 * off) (min (num - n) (wr_offset - off)) =
          sym (append-nil ws)
          ∙ ap (λ r. ws ++ r) (words_cong (mem p.hw) {n = 0} refl (ground arith)) in
        (
          p.hw,
          rw none_left (ap (λ c. ok c p) (chunk_cong nothing (ground arith) (ground arith))),
          refl,
        )
  ]
    where
      within : off < size_of p.spec.q_data
      within = omega (arith, ring)

      count_eq : min_size (num - n) (sub32 wr_offset off) ≡ min (num - n) (wr_offset - off)
      count_eq =
          rw (sub32_lem wr_offset off h (omega (arith, ring)))
            (min_size-eq-min (num - n) (wr_offset - off))

  pub finish_lem :
      (ws : List ℕ) (n off : ℕ)
      → off < size_of p.spec.q_data
      → read_finish b (chunk ws n off) p
        ≡ ok (count n, ws) (set_data (record (p.spec.q_data) { rd_offset = off }) p)
  unfolding read_finish
  finish_lem ws n off h =
      rw (buff_words_lem b.genmask masks p.spec.q_data ring.flags_word, lt→leb _ _ h) refl
