-- ===== src/Mt7697/Queue/Pointers.antt =====
-- The read and write offsets of a queue, and the co-processor's copy of them:
-- linux_kernel_modules/mt7697q/queue.c, mt7697q_pull_rd_ptr to mt7697q_read_state.
use mang_oh.Prelude.{
  ℕ, ◌+◌, ◌*◌, ◌/◌, ◌%◌, ◌^◌, ◌||◌, Option, none, some, List, [], ◌∷◌, map, ltb, ◌==◌, get_or,
  if◌then◌else◌,
}
use mang_oh.Prelude.Monad.{M, ok, pure, fail, einval, ◌>>=◌, ◌>>◌}
use mang_oh.Mt7697.Bus.{Bus}
use mang_oh.Mt7697.Queue.State.{Data, Port, get_capacity, set_data, bus, locked}

abbrev pub slave_buffer_address : ℕ
slave_buffer_address = 0x20000200

-- The address of a queue's `struct mt7697q_data`, 16 bytes each, and of the offsets in it.
abbrev pub data_addr : ℕ → ℕ
data_addr ch = slave_buffer_address + ch * 16

abbrev pub rd_offset_addr : ℕ → ℕ
rd_offset_addr ch = slave_buffer_address + ch * 16 + 8

abbrev pub wr_offset_addr : ℕ → ℕ
wr_offset_addr ch = slave_buffer_address + ch * 16 + 12

module _ {W : Type 0} where
  -- The outcome of a read: its words, or its error.
  abbrev pub check : Option ℕ × List ℕ → M W (List ℕ)
  check (none, ws) = pure ws
  check (some e, ws) = fail e

  abbrev pub modify : (W → W) → M W (Unit {0})
  modify f s = ok tt (f s)

-- Four words laid over `struct mt7697q_data`, or as many as a failed read has brought.
unfoldable pub load_words : List ℕ → Data → Data
load_words ws d =
    let low = map (λ (w : ℕ). w % 2 ^ 16) ws in
    let high = map (λ (w : ℕ). w / 2 ^ 16) ws in
    record {
      flags = get_or ws 0 d.flags;
      base_addr = get_or ws 1 d.base_addr;
      rd_offset = get_or low 2 d.rd_offset;
      reserved1 = get_or high 2 d.reserved1;
      wr_offset = get_or low 3 d.wr_offset;
      reserved2 = get_or high 3 d.reserved2;
    }

module _ (b : Bus) where
  open b use {W, rd, wr, wr_m2s_mbx, trigger_intr, genmask}

  unfoldable pub pull_rd_ptr : M (Port W) (Unit {0})
  pull_rd_ptr p =
      (do
        r ← bus (rd (rd_offset_addr p.spec.ch) 1)
        ws ← check r
        modify (λ q. set_data (record (q.spec.q_data) { rd_offset = get_or ws 0 0 % 2 ^ 16 }) q))
        p

  unfoldable pub push_rd_ptr : M (Port W) (Unit {0})
  unfolding locked
  push_rd_ptr = locked (λ p.
      (do
        bus (wr (rd_offset_addr p.spec.ch) (p.spec.q_data.rd_offset ∷ []))
        bus (wr_m2s_mbx (2 ^ p.spec.ch % 2 ^ 8))
        bus trigger_intr)
        p)

  unfoldable pub pull_wr_ptr : M (Port W) (Unit {0})
  unfolding locked
  pull_wr_ptr = locked (λ p.
      (do
        r ← bus (rd (wr_offset_addr p.spec.ch) 1)
        ws ← check r
        modify (λ q. set_data (record (q.spec.q_data) { wr_offset = get_or ws 0 0 % 2 ^ 16 }) q))
        p)

  unfoldable pub push_wr_ptr : M (Port W) (Unit {0})
  push_wr_ptr p =
      (do
        bus (wr (wr_offset_addr p.spec.ch) (p.spec.q_data.wr_offset ∷ []))
        bus (wr_m2s_mbx (2 ^ p.spec.ch % 2 ^ 8))
        bus trigger_intr)
        p

  -- What mt7697q_read_state makes of the state that it has read.
  unfoldable pub check_state : M (Port W) (Unit {0})
  unfolding get_capacity
  check_state p =
      let d = p.spec.q_data in
      if d.base_addr == 0
      then fail einval p
      else if d.flags == 0
      then fail einval p
      else if ltb (get_capacity genmask d) d.rd_offset || ltb (get_capacity genmask d) d.wr_offset
      then fail einval p
      else pure tt p

  unfoldable pub read_state : ℕ → M (Port W) (Unit {0})
  unfolding locked load_words check_state
  read_state ch = locked (do
    r ← bus (rd (data_addr ch) 4)
    modify (λ q. set_data (load_words r.1 q.spec.q_data) q)
    check r
    check_state)
