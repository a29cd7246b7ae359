-- ===== src/Mt7697/Queue/Transfer.antt =====
-- mt7697q_read and mt7697q_write of linux_kernel_modules/mt7697q/queue.c. A buffer is the list of
-- its words; the offsets are `u16`, the counts `size_t` of 32 bits.
use mang_oh.Prelude.{
  ℕ, ◌+◌, ◌-◌, ◌*◌, ◌%◌, ◌^◌, true, ◌&&◌, Option, none, some, List, [], ◌++◌, ltb, leb, ◌==◌,
  length, take, drop, if◌then◌else◌,
}
use mang_oh.Prelude.Monad.{M, ok, pure, fail, einval, eagain, ◌>>=◌, ◌>>◌}
use mang_oh.Mt7697.Bus.{Bus}
use mang_oh.Mt7697.Queue.State.{Port, sub32, buff_words, get_free_words, set_data, bus, locked}
use mang_oh.Mt7697.Queue.Pointers.{pull_rd_ptr, push_wr_ptr, modify}

-- A C `int` that is a count or the negative of an errno.
pub data Ret : Type 0 where
  count : ℕ → Ret
  code : ℕ → Ret

-- What a part of mt7697q_read leaves: the error that ends it, if any; the words that it has put
-- into the buffer; `rd_words`; and the local `read_offset`.
pub record Chunk : Type 0 where
  pub error : Option ℕ
  pub got : List ℕ
  pub rd_words : ℕ
  pub read_offset : ℕ

abbrev pub min_size : ℕ → ℕ → ℕ
min_size a b = if leb a b then a else b

-- An offset that has reached the end of the ring goes to its beginning.
abbrev pub wrap_at : ℕ → ℕ → ℕ
wrap_at size off = if off == size then 0 else off

module _ (b : Bus) where
  open b use {W, rd, wr, genmask}

  -- The part up to the end of the ring, where the words wrap round.
  unfoldable pub read_to_end : ℕ → M (Port W) Chunk
  read_to_end num p =
      let d = p.spec.q_data in
      let size = buff_words genmask d in
      let rd_num = min_size num (sub32 size d.rd_offset) in
      let moved = (d.rd_offset + rd_num) % 2 ^ 16 in
      if ltb d.wr_offset d.rd_offset
      then (do
        (e, ws) ← bus (rd ((d.base_addr + d.rd_offset * 4) % 2 ^ 32) rd_num)
        pure (record { error = e; got = ws; rd_words = rd_num; read_offset = wrap_at size moved }))
          p
      else pure (record { error = none; got = []; rd_words = 0; read_offset = d.rd_offset }) p

  -- The part from `read_offset` up to the write offset.
  unfoldable pub read_rest : ℕ → Chunk → M (Port W) Chunk
  read_rest num c p =
      let d = p.spec.q_data in
      let rd_num = min_size (num - c.rd_words) (sub32 d.wr_offset c.read_offset) in
      if ltb c.rd_words num
      then (do
        (e, ws) ← bus (rd ((d.base_addr + c.read_offset * 4) % 2 ^ 32) rd_num)
        pure (record {
          error = e;
          got = c.got ++ ws;
          rd_words = c.rd_words + rd_num;
          read_offset = (c.read_offset + rd_num) % 2 ^ 16;
        }))
          p
      else pure c p

  -- The check of the offset, and the update of the queue.
  unfoldable pub read_finish : Chunk → M (Port W) (Ret × List ℕ)
  read_finish c p =
      let d = p.spec.q_data in
      if leb (buff_words genmask d) c.read_offset
      then ok (code einval, c.got) p
      else ok (count c.rd_words, c.got) (set_data (record d { rd_offset = c.read_offset }) p)

  -- A part that failed ends the call with its error.
  abbrev pub unless_failed : Chunk → M (Port W) (Ret × List ℕ) → M (Port W) (Ret × List ℕ)
  unless_failed c k = elim c.error [ none ↦ k | some e ↦ pure (code e, c.got) ]

  -- The body between the lock and the unlock.
  unfoldable pub read_body : ℕ → M (Port W) (Ret × List ℕ)
  read_body num = do
    c ← read_to_end num
    unless_failed c (do c' ← read_rest num c; unless_failed c' (read_finish c'))

  unfoldable pub read : ℕ → M (Port W) (Ret × List ℕ)
  unfolding locked read_body read_to_end read_rest read_finish
  read num = locked (read_body num)

  -- The words from the write offset up to the end of the ring, or up to one before the read offset
  -- if that is 0. The result is what is left of the buffer, and the local `write_offset`.
  unfoldable pub write_to_end : List ℕ → M (Port W) (List ℕ × ℕ)
  write_to_end buff p =
      let d = p.spec.q_data in
      let size = buff_words genmask d in
      let to_end = sub32 size d.wr_offset in
      let avail = if d.rd_offset == 0 then sub32 to_end 1 else to_end in
      let num = min_size (length buff) avail in
      let moved = (d.wr_offset + num) % 2 ^ 16 in
      if leb d.rd_offset d.wr_offset
      then (do
        bus (wr ((d.base_addr + d.wr_offset * 4) % 2 ^ 32) (take num buff))
        pure (drop num buff, wrap_at size moved))
          p
      else pure (buff, d.wr_offset) p

  -- The words from the local `write_offset` up to one before the read offset.
  unfoldable pub write_rest : List ℕ × ℕ → M (Port W) (List ℕ × ℕ)
  write_rest (buff, write_offset) p =
      let d = p.spec.q_data in
      let num = min_size (length buff) (sub32 (sub32 d.rd_offset write_offset) 1) in
      if ltb write_offset d.rd_offset && ltb 0 (length buff)
      then (do
        bus (wr ((d.base_addr + write_offset * 4) % 2 ^ 32) (take num buff))
        pure (drop num buff, (write_offset + num) % 2 ^ 16))
          p
      else pure (buff, write_offset) p

  unfoldable pub write_finish : ℕ → List ℕ × ℕ → M (Port W) ℕ
  unfolding push_wr_ptr
  write_finish num (buff, write_offset) p =
      let d = p.spec.q_data in
      if leb (buff_words genmask d) write_offset
      then fail einval p
      else (do push_wr_ptr b; pure (num - length buff))
          (set_data (record d { wr_offset = write_offset }) p)

  -- The transfer itself, once there is room.
  unfoldable pub write_words : List ℕ → M (Port W) ℕ
  write_words buff = do r ← write_to_end buff; r' ← write_rest r; write_finish (length buff) r'

  -- The body between the lock and the unlock. `avail` is not computed again after the pull.
  unfoldable pub write_body : List ℕ → M (Port W) ℕ
  write_body buff p =
      let avail = get_free_words genmask p.spec.q_data in
      if ltb avail (length buff)
      then (do
        pull_rd_ptr b
        if ltb avail (length buff)
            then (do modify (λ q. record q { blocked_writer = true }); fail eagain)
            else write_words buff)
          p
      else write_words buff p

  unfoldable pub write : List ℕ → M (Port W) ℕ
  unfolding locked pull_rd_ptr write_body write_words write_to_end write_rest write_finish
      get_free_words
  write buff = locked (write_body buff)
