-- ===== src/Mt7697/Queue/Writing.antt =====
-- The parts of mt7697q_write: up to the end of the ring, from its beginning, and the new offset.
use mathlib.Core.Path.{ap₂}
use mang_oh.Prelude.{
  ℕ, ◌+◌, ◌-◌, ◌*◌, ◌%◌, ◌^◌, ◌≤◌, ◌<◌, ◌≡◌, refl, ◌∙◌, ap, List, [], ◌∷◌, ◌==◌, if◌then◌else◌,
  length, take, drop, min, arith, All, lt→ltb, le→leb, length-take, take-all, drop-all, All-take,
}
use mang_oh.Prelude.Monad.{ok, >>-run}
use mang_oh.Mt7697.Memory.{store_words}
use mang_oh.Mt7697.Bus.{Bus, IsBus}
use mang_oh.Mt7697.Queue.State.{Port, buff_words, sub32, bus}
use mang_oh.Mt7697.Queue.Pointers.{push_wr_ptr, wr_offset_addr}
use mang_oh.Mt7697.Queue.Transfer.{min_size, wrap_at, write_to_end, write_rest}
use mang_oh.Mt7697.Queue.Contents.{IsRing, size_of, buff_words_lem}
use mang_oh.Mt7697.Queue.Run.{bus_run, write_at, addr_lem}

abbrev pub IsWords : List ℕ → Type 0
IsWords ds = All (λ d. d < 2 ^ 32) ds

module _ (b : Bus) (ib : IsBus b) (p : Port b.W) where
  open ib use {masks, mem}
  open p.spec.q_data use {base_addr, rd_offset, wr_offset}

  -- The new offset goes to the descriptor in the co-processor's memory, which is then told.
  pub push_wr_ptr_lem :
      p.spec.ch < 6
      → wr_offset < 2 ^ 16
      → (w : b.W) × (push_wr_ptr b p ≡ ok tt (record p { hw = w }))
        × (mem w ≡ store_words (mem p.hw) (wr_offset_addr p.spec.ch) (wr_offset ∷ []))
  unfolding push_wr_ptr
  push_wr_ptr_lem h k =
      let (w, e, f) =
        write_at b ib p (wr_offset ∷ []) refl (omega arith) (omega arith) (omega arith, tt) in
      let m = ib.wr_m2s_mbx_lem (2 ^ p.spec.ch % 2 ^ 8) w in
      let t = ib.trigger_intr_lem m.next in
      (
        t.next,
        >>-run (bus (b.wr _ _)) _ e
            ∙ >>-run (bus (b.wr_m2s_mbx _)) _
                (bus_run (b.wr_m2s_mbx _) (record p { hw = w }) m.returned)
            ∙ bus_run b.trigger_intr (record p { hw = m.next }) t.returned,
        t.result ∙ m.result ∙ f,
      )

  module _ (ring : IsRing p.spec.q_data) where
    -- How many words fit up to the end of the ring.
    abbrev pub room : ℕ
    room =
        if rd_offset == 0
        then size_of p.spec.q_data - wr_offset - 1
        else size_of p.spec.q_data - wr_offset

    -- The same, as the code computes it.
    abbrev code_room : ℕ
    code_room =
        let to_end = sub32 (buff_words b.genmask p.spec.q_data) wr_offset in
        if rd_offset == 0 then sub32 to_end 1 else to_end

    to_end_count : (num : ℕ) → min_size num code_room ≡ min num room
    to_end_count num =
        rw (buff_words_lem b.genmask masks p.spec.q_data ring.flags_word) (ground (arith, ring))

    pub to_end_lem :
        (buff : List ℕ)
        → IsWords buff
        → rd_offset ≤ wr_offset
        → let n = min (length buff) room in
          (w : b.W) × (write_to_end b buff p
            ≡ ok
                (drop n buff, wrap_at (size_of p.spec.q_data) (wr_offset + n))
                (record p { hw = w }))
          × (mem w ≡ store_words (mem p.hw) (base_addr + 4 * wr_offset) (take n buff))
    unfolding write_to_end
    to_end_lem buff g h =
        let (w, e, f) =
          write_at b ib p (take (min_size (length buff) code_room) buff)
            (addr_lem base_addr wr_offset _ ring.wr_in ring.fits) (omega (arith, ring))
            (rw (to_end_count (length buff))
              (ground (arith, ring, length-take (min (length buff) room) buff)))
            (All-take _ (min_size (length buff) code_room) buff g) in
        (
          w,
          rw (le→leb rd_offset wr_offset h) (
              >>-run (bus (b.wr _ _)) _ e
              ∙ ap (λ r. ok r (record p { hw = w }))
                  (λ i. (drop (to_end_count (length buff) i) buff, moved (length buff) i))),
          f
              ∙ ap (λ (k : ℕ). store_words (mem p.hw) (base_addr + 4 * wr_offset) (take k buff))
                  (to_end_count (length buff)),
        )
      where
        moved :
            (num : ℕ)
            → wrap_at
                (buff_words b.genmask p.spec.q_data)
                ((wr_offset + min_size num code_room) % 2 ^ 16)
              ≡ wrap_at (size_of p.spec.q_data) (wr_offset + min num room)
        moved num =
            ap₂ wrap_at (buff_words_lem b.genmask masks p.spec.q_data ring.flags_word)
              (rw (to_end_count num) (ground (arith, ring)))

    -- Nothing is left to write.
    pub rest_none : (off : ℕ) → write_rest b ([], off) p ≡ ok ([], off) p
    unfolding write_rest
    rest_none off = ground arith

    -- The words behind the local write offset, which has gone round.
    rest_some :
        (buff : List ℕ) (off : ℕ)
        → IsWords buff
        → 0 < length buff
        → off + length buff < rd_offset
        → (w : b.W) × (write_rest b (buff, off) p
            ≡ ok ([], off + length buff) (record p { hw = w }))
          × (mem w ≡ store_words (mem p.hw) (base_addr + 4 * off) buff)
    unfolding write_rest
    rest_some buff off g more h =
        let (w, e, f) =
          write_at b ib p (take (min_size (length buff) (sub32 (sub32 rd_offset off) 1)) buff)
            (addr_lem base_addr off _ within ring.fits) (omega (arith, ring))
            (rw all_words (omega (arith, ring))) (rw all_words g) in
        (
          w,
          rw (lt→ltb off rd_offset (omega arith), lt→ltb 0 (length buff) more)
              (>>-run (bus (b.wr _ _)) _ e
                ∙ ap (λ r. ok r (record p { hw = w })) (λ i. (none_left i, moved i))),
          f ∙ ap (store_words (mem p.hw) (base_addr + 4 * off)) all_words,
        )
      where
        within : off < size_of p.spec.q_data
        within = omega (arith, ring)

        count_eq : min_size (length buff) (sub32 (sub32 rd_offset off) 1) ≡ length buff
        count_eq = ground (arith, ring)

        all_words : take (min_size (length buff) (sub32 (sub32 rd_offset off) 1)) buff ≡ buff
        all_words = rw count_eq (take-all (length buff) buff (omega arith))

        none_left : drop (min_size (length buff) (sub32 (sub32 rd_offset off) 1)) buff ≡ []
        none_left = rw count_eq (drop-all (length buff) buff (omega arith))

        moved :
            (off + min_size (length buff) (sub32 (sub32 rd_offset off) 1)) % 2 ^ 16
            ≡ off + length buff
        moved = rw count_eq (omega (arith, ring))

    pub rest_lem :
        (buff : List ℕ) (off : ℕ)
        → IsWords buff
        → off + length buff < rd_offset
        → (w : b.W) × (write_rest b (buff, off) p
            ≡ ok ([], off + length buff) (record p { hw = w }))
          × (mem w ≡ store_words (mem p.hw) (base_addr + 4 * off) buff)
    unfolding store_words
    rest_lem [] off g h = (p.hw, rest_none off ∙ ap (λ (k : ℕ). ok ([], k) p) (omega arith), refl)
    rest_lem (d ∷ ds) off g h = rest_some (d ∷ ds) off g (omega arith) h
