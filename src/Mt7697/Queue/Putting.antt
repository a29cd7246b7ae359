-- ===== src/Mt7697/Queue/Putting.antt =====
-- The writes of mt7697q_write of linux_kernel_modules/mt7697q/queue.c, and the queue after them.
use mang_oh.Prelude.{
  ℕ, ◌+◌, ◌-◌, ◌*◌, ◌≤◌, ◌<◌, ◌≡◌, ◌∙◌, ap, List, [], ◌∷◌, ◌++◌, length, take, drop, min, arith,
  lt→leb, append_assoc, length-take, length-drop, take-all, drop-all, take-append-drop, All-drop,
}
use mang_oh.Prelude.Monad.{Out, ok, >>=-run, >>-run}
use mang_oh.Mt7697.Memory.{store_words}
use mang_oh.Mt7697.Bus.{Bus, IsBus}
use mang_oh.Mt7697.Queue.State.{Port, set_data}
use mang_oh.Mt7697.Queue.Pointers.{push_wr_ptr, wr_offset_addr}
use mang_oh.Mt7697.Queue.Transfer.{wrap_at, write_to_end, write_rest, write_finish, write_words}
use mang_oh.Mt7697.Queue.Contents.{IsRing, size_of, contents, between, buff_words_lem}
use mang_oh.Mt7697.Queue.Writing.{IsWords, room, to_end_lem, rest_none, rest_lem, push_wr_ptr_lem}
use mang_oh.Mt7697.Queue.Between.{write_end, write_before, between-apart}

-- What a write leaves: the words behind those of the queue, in the ring and in the descriptor.
pub record Put (b : Bus) (ib : IsBus b) (buff : List ℕ) (p : Port b.W) (out : Out (Port b.W) ℕ)
    : Type 0 where
  pub w : b.W
  pub off : ℕ
  pub returned :
      out
      ≡ ok
          (length buff)
          (set_data (record (p.spec.q_data) { wr_offset = off }) (record p { hw = w }))
  pub off_in : off < size_of p.spec.q_data
  pub holds :
      between (ib.mem w) p.spec.q_data.base_addr (size_of p.spec.q_data) p.spec.q_data.rd_offset off
      ≡ contents (ib.mem p.hw) p.spec.q_data ++ buff
  pub shown : ib.mem w (wr_offset_addr p.spec.ch) ≡ off

module _ (b : Bus) (ib : IsBus b) where
  open ib use {masks, mem}

  pub put :
      (buff : List ℕ) (p : Port b.W) (w : b.W) (off : ℕ) (out : Out (Port b.W) ℕ)
      → IsRing p.spec.q_data
      → p.spec.ch < 6
      → out ≡ write_finish b (length buff) ([], off) (record p { hw = w })
      → off < size_of p.spec.q_data
      → between (mem w) p.spec.q_data.base_addr (size_of p.spec.q_data) p.spec.q_data.rd_offset off
        ≡ contents (mem p.hw) p.spec.q_data ++ buff
      → Put b ib buff p out
  unfolding write_finish store_words
  put buff p w off out r c e h k =
      let (w', e', f) =
        push_wr_ptr_lem b ib
          (set_data (record (p.spec.q_data) { wr_offset = off }) (record p { hw = w })) c
          (omega (arith, r)) in
      record {
        w = w';
        off = off;
        returned =
            e
            ∙ rw (buff_words_lem b.genmask masks p.spec.q_data r.flags_word, lt→leb _ _ h)
                (>>-run (push_wr_ptr b) _ e'
                  ∙ ap
                      (λ (n : ℕ). ok n (
                        set_data (record (p.spec.q_data) { wr_offset = off })
                          (record p { hw = w' })))
                      (omega arith));
        off_in = h;
        holds =
            ap
              (λ m.
                between m p.spec.q_data.base_addr (size_of p.spec.q_data) p.spec.q_data.rd_offset
                  off)
              f
            ∙ between-apart (mem w) p.spec.q_data.base_addr (size_of p.spec.q_data)
                p.spec.q_data.rd_offset off (wr_offset_addr p.spec.ch) (off ∷ []) (omega (arith, r))
                (omega arith) (ground (arith, r))
            ∙ k;
        shown = ap (λ m. m (wr_offset_addr p.spec.ch)) f ∙ ground arith;
      }

  -- A write that fits before the end of the ring.
  pub words_end :
      (buff : List ℕ) (p : Port b.W) (r : IsRing p.spec.q_data)
      → p.spec.ch < 6
      → IsWords buff
      → p.spec.q_data.rd_offset ≤ p.spec.q_data.wr_offset
      → length buff ≤ room b ib p r
      → Put b ib buff p (write_words b buff p)
  unfolding write_words
  words_end buff p r c g h k =
      let (w, e, f) = to_end_lem b ib p r buff g h in
      put buff p w (wrap_at size (wr_offset + length buff)) _ r c
        (>>=-run (write_to_end b buff) _ (e ∙ ap (λ x. ok x (record p { hw = w })) all_gone)
          ∙ >>=-run (write_rest b _) _ (rest_none b ib (record p { hw = w }) r _))
        (ground (arith, r))
        (ap (λ m. between m base_addr size rd_offset (wrap_at size (wr_offset + length buff)))
            (f
              ∙ ap (store_words (mem p.hw) (base_addr + 4 * wr_offset))
                  (ap (λ (x : ℕ). take x buff) fits ∙ take-all (length buff) buff (omega arith)))
          ∙ write_end (mem p.hw) base_addr size rd_offset wr_offset buff h r.wr_in k)
    where
      open p.spec.q_data use {base_addr, rd_offset, wr_offset}

      size : ℕ
      size = size_of p.spec.q_data

      fits : min (length buff) (room b ib p r) ≡ length buff
      fits = omega arith

      all_gone :
          ◌≡◌ {A = List ℕ × ℕ}
            (
              drop (min (length buff) (room b ib p r)) buff,
              wrap_at size (wr_offset + min (length buff) (room b ib p r)),
            )
            ([], wrap_at size (wr_offset + length buff))
      all_gone = rw fits (λ i.
          (drop-all (length buff) buff (omega arith) i, wrap_at size (wr_offset + length buff)))

  -- A write that goes round the end of the ring.
  pub words_round :
      (buff : List ℕ) (p : Port b.W) (r : IsRing p.spec.q_data)
      → p.spec.ch < 6
      → IsWords buff
      → p.spec.q_data.rd_offset ≤ p.spec.q_data.wr_offset
      → size_of p.spec.q_data - p.spec.q_data.wr_offset < length buff
      → length buff + p.spec.q_data.wr_offset < size_of p.spec.q_data + p.spec.q_data.rd_offset
      → Put b ib buff p (write_words b buff p)
  unfolding write_words
  words_round buff p r c g h k l =
      let (w, e, f) = to_end_lem b ib p r buff g h in
      let (w', e', f') =
        rest_lem b ib (record p { hw = w }) r (drop n buff) 0 (All-drop _ n buff g)
          (omega (arith, length-drop n buff)) in
      put buff p w' (0 + length (drop n buff)) _ r c
        (>>=-run (write_to_end b buff) _ (e ∙ ap (λ x. ok x (record p { hw = w })) reached)
          ∙ >>=-run (write_rest b _) _ e')
        (omega (arith, r, length-drop n buff))
        (ap (λ m. between m base_addr size rd_offset (0 + length (drop n buff))) f'
          ∙ write_before (mem w) base_addr size rd_offset 0 (drop n buff)
              (omega (arith, length-drop n buff)) r.rd_in
          ∙ ap (λ x. x ++ drop n buff)
              (ap (λ m. between m base_addr size rd_offset 0)
                  (f
                    ∙ ap
                        (λ (x : ℕ).
                          store_words (mem p.hw) (base_addr + 4 * wr_offset) (take x buff))
                        filled)
                ∙ up_to_end)
          ∙ append_assoc (contents (mem p.hw) p.spec.q_data) (take n buff) (drop n buff)
          ∙ ap (λ x. contents (mem p.hw) p.spec.q_data ++ x) (take-append-drop n buff))
    where
      open p.spec.q_data use {base_addr, rd_offset, wr_offset}

      size : ℕ
      size = size_of p.spec.q_data

      n : ℕ
      n = size - wr_offset

      filled : min (length buff) (room b ib p r) ≡ n
      filled = ground (arith, r)

      at_end : wr_offset + length (take n buff) ≡ size
      at_end = omega (arith, r, length-take n buff)

      reached :
          ◌≡◌ {A = List ℕ × ℕ}
            (
              drop (min (length buff) (room b ib p r)) buff,
              wrap_at size (wr_offset + min (length buff) (room b ib p r)),
            )
            (drop n buff, 0)
      reached = rw filled (λ i. (drop n buff, gone i))
        where
          gone : wrap_at size (wr_offset + n) ≡ 0
          gone = ground (arith, r)

      up_to_end :
          between
            (store_words (mem p.hw) (base_addr + 4 * wr_offset) (take n buff))
            base_addr
            size
            rd_offset
            0
          ≡ contents (mem p.hw) p.spec.q_data ++ take n buff
      up_to_end =
          ap
            (between (store_words (mem p.hw) (base_addr + 4 * wr_offset) (take n buff)) base_addr
              size rd_offset)
            turned
          ∙ write_end (mem p.hw) base_addr size rd_offset wr_offset (take n buff) h r.wr_in
              (ground (arith, r, length-take n buff))
        where
          turned : 0 ≡ wrap_at size (wr_offset + length (take n buff))
          turned = rw at_end (ground arith)
