-- ===== src/Mt7697/Queue/Reading.antt =====
-- mt7697q_read takes the oldest words of the queue, in order.
use mang_oh.Prelude.{
  ℕ, ◌+◌, ◌-◌, ◌*◌, ◌≤◌, ◌<◌, ◌≡◌, refl, sym, ◌∙◌, ap, inl, inr, true, false, List, [], ◌++◌,
  length, take, drop, min, arith, le→ltb, le-or-lt,
}
use mang_oh.Prelude.Monad.{Out, ok, Does, >>=-run}
use mang_oh.Mt7697.Memory.{words, words_cong}
use mang_oh.Mt7697.Bus.{Bus, IsBus}
use mang_oh.Mt7697.Queue.State.{Port, set_data}
use mang_oh.Mt7697.Queue.Transfer.{
  Ret, count, Chunk, read_to_end, read_rest, read_finish, read_body, read, wrap_at,
}
use mang_oh.Mt7697.Queue.Contents.{IsRing, size_of, contents, between}
use mang_oh.Mt7697.Queue.Run.{locked_run}
use mang_oh.Mt7697.Queue.Between.{
  read_up, read_end, read_round, length-between_up, length-between_round,
}
use mang_oh.Mt7697.Queue.Chunks.{chunk, chunk_cong, to_end_lem, rest_lem, finish_lem}

-- What a read leaves: `num` words, or as many as there are, taken off the front; the memory and the
-- write offset as they were.
pub record Taken (b : Bus) (ib : IsBus b) (num : ℕ) (p : Port b.W)
    (out : Out (Port b.W) (Ret × List ℕ)) : Type 0 where
  pub w : b.W
  pub off : ℕ
  pub returned :
      let all = contents (ib.mem p.hw) p.spec.q_data in
      out
      ≡ ok
          (count (min num (length all)), take num all)
          (set_data (record (p.spec.q_data) { rd_offset = off }) (record p { hw = w }))
  pub off_in : off < size_of p.spec.q_data
  pub mem_same : ib.mem w ≡ ib.mem p.hw
  pub rest :
      between
        (ib.mem p.hw)
        p.spec.q_data.base_addr
        (size_of p.spec.q_data)
        off
        p.spec.q_data.wr_offset
      ≡ drop num (contents (ib.mem p.hw) p.spec.q_data)

module _ (b : Bus) (ib : IsBus b) where
  open ib use {masks, mem}

  taken :
      (num : ℕ) (p : Port b.W) (w : b.W) (ws : List ℕ) (n off : ℕ)
      (out : Out (Port b.W) (Ret × List ℕ))
      → IsRing p.spec.q_data
      → out ≡ read_finish b (chunk ws n off) (record p { hw = w })
      → off < size_of p.spec.q_data
      → mem w ≡ mem p.hw
      → let all = contents (mem p.hw) p.spec.q_data in
        ws ≡ take num all
        → n ≡ min num (length all)
        → between
            (mem p.hw)
            p.spec.q_data.base_addr
            (size_of p.spec.q_data)
            off
            p.spec.q_data.wr_offset
          ≡ drop num all
        → Taken b ib num p out
  taken num p w ws n off out r e h f g k l = record {
    w = w;
    off = off;
    returned = e ∙ finish_lem b ib (record p { hw = w }) r ws n off h ∙ (λ i.
        ok (count (k i), g i)
          (set_data (record (p.spec.q_data) { rd_offset = off }) (record p { hw = w })));
    off_in = h;
    mem_same = f;
    rest = l;
  }

  -- A read of a queue that does not go round.
  body_up :
      (num : ℕ) (p : Port b.W)
      → IsRing p.spec.q_data
      → p.spec.q_data.rd_offset ≤ p.spec.q_data.wr_offset
      → Taken b ib num p (read_body b num p)
  unfolding read_body
  body_up num p r h =
      let (w, e, f) = rest_lem b ib p r num rd_offset 0 [] h (omega arith) in
      let (t, l) = read_up (mem p.hw) base_addr size rd_offset wr_offset num h in
      taken num p w _ _ (rd_offset + min (num - 0) (wr_offset - rd_offset)) _ r
        (>>=-run (read_to_end b num) _ first ∙ >>=-run (read_rest b num _) _ e) (omega (arith, r)) f
        (words_cong (mem p.hw) refl (omega arith) ∙ sym t)
        (omega (arith, length-between_up (mem p.hw) base_addr size rd_offset wr_offset h))
        (ap (λ (x : ℕ). between (mem p.hw) base_addr size x wr_offset) (omega arith) ∙ sym l)
    where
      open p.spec.q_data use {base_addr, rd_offset, wr_offset}

      size : ℕ
      size = size_of p.spec.q_data

      first : read_to_end b num p ≡ ok (chunk [] 0 rd_offset) p
      first = unfold read_to_end in rw (le→ltb _ _ h) refl

  -- A read of a queue that goes round, up to the end of the ring at most.
  body_end :
      (num : ℕ) (p : Port b.W)
      → IsRing p.spec.q_data
      → p.spec.q_data.wr_offset < p.spec.q_data.rd_offset
      → num ≤ size_of p.spec.q_data - p.spec.q_data.rd_offset
      → Taken b ib num p (read_body b num p)
  unfolding read_body
  body_end num p r h k =
      let (w, e, f) = to_end_lem b ib p r num h in
      let (t, l) = read_end (mem p.hw) base_addr size rd_offset wr_offset num h r.rd_in k in
      taken num p w _ _ (wrap_at size (rd_offset + min num (size - rd_offset))) _ r
        (>>=-run (read_to_end b num) _ e ∙ >>=-run (read_rest b num _) _ (whole w))
        (ground (arith, r)) f (words_cong (mem p.hw) refl (omega arith) ∙ sym t)
        (omega (arith, length-between_round (mem p.hw) base_addr size rd_offset wr_offset h))
        (ap (λ (x : ℕ). between (mem p.hw) base_addr size (wrap_at size (rd_offset + x)) wr_offset)
            (omega arith)
          ∙ sym l)
    where
      open p.spec.q_data use {base_addr, rd_offset, wr_offset}

      size : ℕ
      size = size_of p.spec.q_data

      c : Chunk
      c =
          chunk (words (mem p.hw) (base_addr + 4 * rd_offset) (min num (size - rd_offset)))
            (min num (size - rd_offset)) (wrap_at size (rd_offset + min num (size - rd_offset)))

      whole : (w : b.W) → read_rest b num c (record p { hw = w }) ≡ ok c (record p { hw = w })
      whole w = unfold read_rest in rw (le→ltb (min num (size - rd_offset)) num (omega arith)) refl

  -- A read that goes round the end of the ring.
  body_round :
      (num : ℕ) (p : Port b.W)
      → IsRing p.spec.q_data
      → p.spec.q_data.wr_offset < p.spec.q_data.rd_offset
      → size_of p.spec.q_data - p.spec.q_data.rd_offset < num
      → Taken b ib num p (read_body b num p)
  unfolding read_body
  body_round num p r h k =
      let (w, e, f) = to_end_lem b ib p r num h in
      let (w', e', f') =
        rest_lem b ib (record p { hw = w }) r num 0 (size - rd_offset)
          (words (mem p.hw) (base_addr + 4 * rd_offset) (size - rd_offset)) (omega arith)
          (omega arith) in
      let (t, l) =
        read_round (mem p.hw) base_addr size rd_offset wr_offset num (num - (size - rd_offset)) h
          (omega arith) in
      taken num p w' _ _ _ _ r
        (>>=-run (read_to_end b num) _ (e ∙ ap (λ x. ok x (record p { hw = w })) reached)
          ∙ >>=-run (read_rest b num _) _ e')
        (omega (arith, r)) (f' ∙ f)
        (ap (λ (x : List ℕ). head ++ x)
            (ap (λ m. words m (base_addr + 4 * 0) (min (num - (size - rd_offset)) (wr_offset - 0)))
                f
              ∙ words_cong (mem p.hw) (omega arith) (omega arith))
          ∙ sym t)
        (omega (arith, length-between_round (mem p.hw) base_addr size rd_offset wr_offset h))
        (ap (λ (x : ℕ). between (mem p.hw) base_addr size x wr_offset) (omega arith) ∙ sym l)
    where
      open p.spec.q_data use {base_addr, rd_offset, wr_offset}

      size : ℕ
      size = size_of p.spec.q_data

      head : List ℕ
      head = words (mem p.hw) (base_addr + 4 * rd_offset) (size - rd_offset)

      reached :
          chunk
            (words (mem p.hw) (base_addr + 4 * rd_offset) (min num (size - rd_offset)))
            (min num (size - rd_offset))
            (wrap_at size (rd_offset + min num (size - rd_offset)))
          ≡ chunk head (size - rd_offset) 0
      reached =
          chunk_cong (words_cong (mem p.hw) refl (omega arith)) (omega arith) (ground (arith, r))

  body_lem : (num : ℕ) (p : Port b.W) → IsRing p.spec.q_data → Taken b ib num p (read_body b num p)
  body_lem num p r = elim (le-or-lt p.spec.q_data.rd_offset p.spec.q_data.wr_offset) [
    | inl h ↦ body_up num p r h
    | inr h ↦ elim (le-or-lt num (size_of p.spec.q_data - p.spec.q_data.rd_offset)) [
      | inl k ↦ body_end num p r h k
      | inr k ↦ body_round num p r h k
    ]
  ]

  -- On a well-formed queue whose mutex is free, `read` returns its oldest words, `num` of them or as
  -- many as it holds, and their number; the queue then holds the others, is well formed, and the
  -- mutex is free again. The memory and the write offset stay as they were.
  pub read_lem :
      (num : ℕ) (p : Port b.W)
      → IsRing p.spec.q_data
      → p.held ≡ false
      → let all = contents (mem p.hw) p.spec.q_data in
        Does
          (read b num p)
          (count (min num (length all)), take num all)
          (λ q.
            (contents (mem q.hw) q.spec.q_data ≡ drop num all)
            × IsRing q.spec.q_data
            × (q.held ≡ false)
            × (mem q.hw ≡ mem p.hw)
            × (q.spec.q_data.wr_offset ≡ p.spec.q_data.wr_offset))
  unfolding read
  read_lem num p r free =
      let t = body_lem num (record p { held = true }) r in
      record {
        next = _;
        returned = locked_run (read_body b num) p free t.returned;
        result = (
          ap
                (λ m.
                  between m p.spec.q_data.base_addr (size_of p.spec.q_data) t.off
                    p.spec.q_data.wr_offset)
                t.mem_same
              ∙ t.rest,
          record {
            flags_word = r.flags_word;
            rd_in = t.off_in;
            wr_in = r.wr_in;
            fits = r.fits;
            apart = r.apart;
          },
          refl,
          t.mem_same,
          refl,
        );
      }
