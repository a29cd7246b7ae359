-- ===== src/Mt7697/Queue/Appending.antt =====
-- mt7697q_write: where its words go, by the place of the two offsets, and what it does when there is
-- no room.
use mang_oh.Prelude.{
  ℕ, ◌+◌, ◌-◌, ◌%◌, ◌^◌, ◌≤◌, ◌<◌, ◌≡◌, refl, ◌∙◌, ap, inl, inr, true, false, List, ◌++◌, leb,
  if◌then◌else◌, length, arith, lt→ltb, le→ltb, lt→leb, le-or-lt,
}
use mang_oh.Prelude.Monad.{ok, err, eagain, Does, >>=-run, >>-run}
use mang_oh.Mt7697.Memory.{words}
use mang_oh.Mt7697.Bus.{Bus, IsBus}
use mang_oh.Mt7697.Queue.State.{Port, set_data, bus, get_free_words, get_num_words}
use mang_oh.Mt7697.Queue.Pointers.{pull_rd_ptr, rd_offset_addr, wr_offset_addr}
use mang_oh.Mt7697.Queue.Transfer.{write_to_end, write_rest, write_words, write_body, write}
use mang_oh.Mt7697.Queue.Contents.{
  IsRing, size_of, contents, between, free-add-num, get_num_words_lem,
}
use mang_oh.Mt7697.Queue.Run.{locked_run, locked_err, read_at}
use mang_oh.Mt7697.Queue.Writing.{IsWords, room, rest_lem}
use mang_oh.Mt7697.Queue.Between.{write_before}
use mang_oh.Mt7697.Queue.Putting.{Put, put, words_end, words_round}

module _ (b : Bus) (ib : IsBus b) where
  open ib use {masks, mem}

  -- A write to a queue that goes round already.
  words_before :
      (buff : List ℕ) (p : Port b.W) (r : IsRing p.spec.q_data)
      → p.spec.ch < 6
      → IsWords buff
      → p.spec.q_data.wr_offset + length buff < p.spec.q_data.rd_offset
      → Put b ib buff p (write_words b buff p)
  unfolding write_words
  words_before buff p r c g h =
      let (w, e, f) = rest_lem b ib p r buff wr_offset g h in
      put b ib buff p w (wr_offset + length buff) _ r c
        (>>=-run (write_to_end b buff) _ first ∙ >>=-run (write_rest b _) _ e) (omega (arith, r))
        (ap (λ m. between m base_addr size rd_offset (wr_offset + length buff)) f
          ∙ write_before (mem p.hw) base_addr size rd_offset wr_offset buff h r.rd_in)
    where
      open p.spec.q_data use {base_addr, rd_offset, wr_offset}

      size : ℕ
      size = size_of p.spec.q_data

      first : write_to_end b buff p ≡ ok (buff, wr_offset) p
      first = unfold write_to_end in rw (lt→leb rd_offset wr_offset (omega arith)) refl

  words_lem :
      (buff : List ℕ) (p : Port b.W)
      → IsRing p.spec.q_data
      → p.spec.ch < 6
      → IsWords buff
      → length buff ≤ get_free_words b.genmask p.spec.q_data
      → Put b ib buff p (write_words b buff p)
  words_lem buff p r c g h = elim (le-or-lt p.spec.q_data.rd_offset p.spec.q_data.wr_offset) [
    | inl up ↦ elim (le-or-lt (length buff) (room b ib p r)) [
      | inl k ↦ words_end b ib buff p r c g up k
      | inr k ↦
          words_round b ib buff p r c g up (ground (arith, r, facts)) (ground (arith, r, facts))
    ]
    | inr round ↦ words_before buff p r c g (ground (arith, r, facts))
  ]
    where
      facts :
          (get_free_words b.genmask p.spec.q_data + get_num_words b.genmask p.spec.q_data + 1
            ≡ size_of p.spec.q_data)
          × (get_num_words b.genmask p.spec.q_data ≡ (
              if leb p.spec.q_data.rd_offset p.spec.q_data.wr_offset
              then p.spec.q_data.wr_offset - p.spec.q_data.rd_offset
              else size_of p.spec.q_data - p.spec.q_data.rd_offset + p.spec.q_data.wr_offset))
      facts = (free-add-num b.genmask masks r, get_num_words_lem b.genmask masks r)

  -- On a well-formed queue of the driver's six, whose mutex is free and which has room for the words
  -- of `buff`, `write` returns their number; the queue then holds them behind those it held, is well
  -- formed, and its descriptor in the co-processor's memory shows the new write offset; the mutex is
  -- free again, and the read offset stays as it was.
  pub write_lem :
      (buff : List ℕ) (p : Port b.W)
      → IsRing p.spec.q_data
      → p.spec.ch < 6
      → p.held ≡ false
      → IsWords buff
      → length buff ≤ get_free_words b.genmask p.spec.q_data
      → Does (write b buff p) (length buff) (λ q.
        (contents (mem q.hw) q.spec.q_data ≡ contents (mem p.hw) p.spec.q_data ++ buff)
        × IsRing q.spec.q_data
        × (mem q.hw (wr_offset_addr p.spec.ch) ≡ q.spec.q_data.wr_offset)
        × (q.held ≡ false)
        × (q.spec.q_data.rd_offset ≡ p.spec.q_data.rd_offset))
  unfolding write
  write_lem buff p r c free g h =
      let t = words_lem buff (record p { held = true }) r c g h in
      record {
        next = _;
        returned = locked_run (write_body b buff) p free (enough ∙ t.returned);
        result = (
          t.holds,
          record {
            flags_word = r.flags_word;
            rd_in = r.rd_in;
            wr_in = t.off_in;
            fits = r.fits;
            apart = r.apart;
          },
          t.shown,
          refl,
          refl,
        );
      }
    where
      enough :
          write_body b buff (record p { held = true })
          ≡ write_words b buff (record p { held = true })
      enough = rw (le→ltb (get_free_words b.genmask p.spec.q_data) (length buff) h) refl

  -- Without room for `buff` in what the driver knows of the queue, `write` fails with EAGAIN, and
  -- marks the writer as blocked, whatever read offset the co-processor shows by then: the offset is
  -- taken over, but not tested. Nothing is written, and the mutex is free again.
  pub write_blocked :
      (buff : List ℕ) (p : Port b.W)
      → p.spec.ch < 6
      → p.held ≡ false
      → get_free_words b.genmask p.spec.q_data < length buff
      → (q : Port b.W) × (write b buff p ≡ err eagain q)
        × (q.blocked_writer ≡ true)
        × (q.held ≡ false)
        × (mem q.hw ≡ mem p.hw)
        × (q.spec.q_data
            ≡ record (p.spec.q_data) { rd_offset = mem p.hw (rd_offset_addr p.spec.ch) % 2 ^ 16 })
  unfolding write words
  write_blocked buff p c free h =
      let (w, e, f) =
        read_at b ib (record p { held = true }) {a = rd_offset_addr p.spec.ch} {n = 1} {k = 1} refl
          refl (omega arith) (omega arith) in
      let d = record (p.spec.q_data) { rd_offset = mem p.hw (rd_offset_addr p.spec.ch) % 2 ^ 16 } in
      let q : Port b.W = record (set_data d (record p { held = true; hw = w })) {
        blocked_writer = true;
      } in
      let pulled : write_body b buff (record p { held = true }) ≡ err eagain q =
        rw (lt→ltb (get_free_words b.genmask p.spec.q_data) (length buff) h) (
          >>-run (pull_rd_ptr b) _ {t = set_data d (record p { held = true; hw = w })}
            (>>=-run (bus (b.rd (rd_offset_addr p.spec.ch) 1)) _ e)) in
      (record q { held = false }, locked_err (write_body b buff) p free pulled, refl, refl, f, refl)
