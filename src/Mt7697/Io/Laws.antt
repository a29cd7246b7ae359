-- ===== src/Mt7697/Io/Laws.antt =====
-- With a slave that works, the memory access of linux_kernel_modules/mt7697q/io.c succeeds, ends,
-- and reads and writes the words it is asked for.
use mang_oh.Prelude.{
  ℕ, zero, suc, ◌+◌, ◌*◌, ◌/◌, ◌%◌, ◌^◌, ◌≤◌, ◌<◌, ◌≡◌, refl, ap, ◌∙◌, none, List, [], ◌∷◌, bit_or,
  length, All, arith,
}
use mathlib.Core.Path.{ap₂}
use mang_oh.Prelude.Bits.{bit_or-fields}
use mang_oh.Prelude.Monad.{ok, Does, Does-bind, Does-then, Does-then-then, Does-pure, Does-weaken}
use mang_oh.Mt7697.Host.{Host}
use mang_oh.Mt7697.Memory.{store, store_words, words}
use mang_oh.Mt7697.Io.Slave.{Chip, write_reg, IsSlave}
use mang_oh.Mt7697.Io.{
  write16, write32, read16, read32, slave_wait, command, wr_loop, wr, rd_word, rd_loop, rd,
  wr_m2s_mbx, trigger_intr,
}
use mang_oh.Mt7697.Io.Registers.{
  write16_lem, read16_lem, write_data_lem, bus_addr_lem, command_write, command_read, access_lem,
}

module _ (h : Host) (sl : IsSlave h) where
  open h use {W, polls}
  open sl use {masks, chip, busy, mem_lem, write_lem, status_lem, low_lem, high_lem}

  wr_loop_lem :
      (ds : List ℕ) (a : ℕ) (w : W)
      → (chip w).bus_addr ≡ a % 2 ^ 32
      → a + 4 * length ds ≤ 2 ^ 32
      → All (λ d. d < 2 ^ 32) ds
      → Does (wr_loop h ds w) tt (λ w'. (chip w').mem ≡ store_words (chip w).mem a ds)
  unfolding wr_loop store_words
  wr_loop_lem [] a w e f g = Does-pure tt w refl
  wr_loop_lem (d ∷ ds) a w e f g =
      Does-then (write32 h 0x04 d) _ w (write_data_lem h sl d w g.0) (λ t1 r1.
        Does-then-then (write16 h 0x0C (command h 1)) (slave_wait h polls) (wr_loop h ds) t1
          (access_lem h sl 1 5 t1 (command_write h sl) (omega arith))
          (λ t2 r2.
            let c : chip t2 ≡ write_reg 0x0C 5 (record (chip w) { write_data = d }) =
              r2 ∙ ap (write_reg 0x0C 5) r1 in
            let at : (chip w).bus_addr ≡ a = omega arith in
            let moved : ((chip w).bus_addr + 4) % 2 ^ 32 ≡ (a + 4) % 2 ^ 32 =
              ap (λ (x : ℕ). (x + 4) % 2 ^ 32) at in
            Does-weaken
              (λ u q.
                q
                ∙ ap (λ m. store_words m (a + 4) ds)
                    (ap (λ (x : Chip). x.mem) c ∙ ap (λ (b : ℕ). store (chip w).mem b d) at))
              (wr_loop_lem ds (a + 4) t2 (ap (λ (x : Chip). x.bus_addr) c ∙ moved) (omega arith)
                g.1)))

  -- On a slave that works, `wr` succeeds with words of 32 bits that go below 4 GB, and writes each of
  -- them at its place in the memory, and nothing else there.
  pub wr_lem :
      (a : ℕ) (ds : List ℕ) (w : W)
      → a < 2 ^ 32
      → a + 4 * length ds ≤ 2 ^ 32
      → All (λ d. d < 2 ^ 32) ds
      → Does (wr h a ds w) tt (λ w'. (chip w').mem ≡ store_words (chip w).mem a ds)
  unfolding wr
  wr_lem a ds w p f g =
      Does-then (write32 h 0x08 a) (wr_loop h ds) w (bus_addr_lem h sl a w p) (λ t r.
        Does-weaken (λ u q. q ∙ ap (λ (c : Chip). store_words c.mem a ds) r)
          (wr_loop_lem ds a t (ap (λ (c : Chip). c.bus_addr) r ∙ omega arith) f g))

  read32_lem :
      (w : W)
      → (chip w).read_data < 2 ^ 32
      → Does (read32 h 0x00 w) (chip w).read_data (λ w'. chip w' ≡ chip w)
  unfolding read32
  read32_lem w p =
      Does-bind (read16 h 0x00) _ w
        (read16_lem h sl 0x00 ((chip w).read_data % 2 ^ 16) w (omega arith) (low_lem w))
        (λ t r.
          Does-bind (read16 h 0x02) _ t
            (read16_lem h sl 0x02 ((chip t).read_data / 2 ^ 16 % 2 ^ 16) t (omega arith)
              (high_lem t))
            (λ u s.
              let both : bit_or ((chip t).read_data / 2 ^ 16 % 2 ^ 16 * 2 ^ 16)
                    ((chip w).read_data % 2 ^ 16)
                  ≡ (chip w).read_data =
                ground (
                  arith,
                  bit_or-fields 16 ((chip t).read_data / 2 ^ 16 % 2 ^ 16)
                      ((chip w).read_data % 2 ^ 16),
                  ap (λ (c : Chip). c.read_data) r,
                ) in
              rw both (Does-pure _ u (s ∙ r))))

  -- One round of the loop in `rd`: the word at the bus address, which then moves on.
  rd_word_lem :
      (w : W)
      → Does (rd_word h w) ((chip w).mem (chip w).bus_addr) (λ w'.
        ((chip w').mem ≡ (chip w).mem) × ((chip w').bus_addr ≡ ((chip w).bus_addr + 4) % 2 ^ 32))
  unfolding rd_word
  rd_word_lem w =
      Does-then-then (write16 h 0x0C (command h 0)) (slave_wait h polls) (read32 h 0x00) w
        (access_lem h sl 0 4 w (command_read h sl) (omega arith))
        (λ u c.
          let v : (chip u).read_data ≡ (chip w).mem (chip w).bus_addr =
            ap (λ (x : Chip). x.read_data) c in
          rw (← v) (
            Does-weaken
              (λ x q. (ap (λ (y : Chip). y.mem) (q ∙ c), ap (λ (y : Chip). y.bus_addr) (q ∙ c)))
              (read32_lem u (rw v (mem_lem w (chip w).bus_addr)))))

  rd_loop_step :
      (n v : ℕ) (vs : List ℕ) (w t u : W)
      → rd_word h w ≡ ok v t
      → rd_loop h n t ≡ ok (none, vs) u
      → rd_loop h (suc n) w ≡ ok (none, v ∷ vs) u
  unfolding rd_loop
  rd_loop_step n v vs w t u p q = ground arith

  rd_loop_lem :
      (n a : ℕ) (w : W)
      → (chip w).bus_addr ≡ a % 2 ^ 32
      → a + 4 * n ≤ 2 ^ 32
      → Does (rd_loop h n w) (none, words (chip w).mem a n) (λ w'. (chip w').mem ≡ (chip w).mem)
  unfolding words
  rd_loop_lem zero a w e f = record { next = w; returned = unfold rd_loop in refl; result = refl }
  rd_loop_lem (suc n) a w e f =
      let d = rd_word_lem w in
      let at : (chip w).bus_addr ≡ a = omega arith in
      let rest =
        rd_loop_lem n (a + 4) d.next (d.result.1 ∙ ap (λ (x : ℕ). (x + 4) % 2 ^ 32) at)
          (omega arith) in
      let values : (chip w).mem (chip w).bus_addr ∷ words (chip d.next).mem (a + 4) n
          ≡ (chip w).mem a ∷ words (chip w).mem (a + 4) n =
        ap₂ ◌∷◌ (ap (chip w).mem at) (ap (λ m. words m (a + 4) n) d.result.0) in
      record {
        next = rest.next;
        returned =
            rd_loop_step n _ _ w d.next rest.next d.returned rest.returned
            ∙ ap (λ (vs : List ℕ). ok (none, vs) rest.next) values;
        result = rest.result ∙ d.result.0;
      }

  rd_step : (a n : ℕ) (w t : W) → write32 h 0x08 a w ≡ ok tt t → rd h a n w ≡ rd_loop h n t
  unfolding rd
  rd_step a n w t p = ground arith

  -- On a slave that works, `rd` succeeds with `n` words below 4 GB, gives those that stand in the
  -- memory from the address on, and leaves the memory as it is.
  pub rd_lem :
      (a n : ℕ) (w : W)
      → a < 2 ^ 32
      → a + 4 * n ≤ 2 ^ 32
      → Does (rd h a n w) (none, words (chip w).mem a n) (λ w'. (chip w').mem ≡ (chip w).mem)
  rd_lem a n w p f =
      let d = bus_addr_lem h sl a w p in
      let at : a ≡ a % 2 ^ 32 = omega arith in
      let rest = rd_loop_lem n a d.next (ap (λ (c : Chip). c.bus_addr) d.result ∙ at) f in
      let same : (chip d.next).mem ≡ (chip w).mem = ap (λ (c : Chip). c.mem) d.result in
      record {
        next = rest.next;
        returned =
            rd_step a n w d.next d.returned
            ∙ rest.returned
            ∙ ap (λ m. ok (none, words m a n) rest.next) same;
        result = rest.result ∙ same;
      }

  -- The mailbox and interrupt registers leave the memory as it is.
  signal :
      (reg v : ℕ) (w : W)
      → reg < 2 ^ 8
      → v < 2 ^ 16
      → 0x10 < reg
      → Does (write16 h reg v w) tt (λ w'. (chip w').mem ≡ (chip w).mem)
  signal reg v w p q r =
      Does-weaken (λ t s. ap (λ (c : Chip). c.mem) s.0 ∙ ground arith)
        (write16_lem h sl reg v w p q)

  pub wr_m2s_mbx_lem :
      (bits : ℕ) (w : W) → Does (wr_m2s_mbx h bits w) tt (λ w'. (chip w').mem ≡ (chip w).mem)
  unfolding wr_m2s_mbx
  wr_m2s_mbx_lem bits w = signal 0x1C _ w (omega arith) (omega arith) (omega arith)

  pub trigger_intr_lem : (w : W) → Does (trigger_intr h w) tt (λ w'. (chip w').mem ≡ (chip w).mem)
  unfolding trigger_intr
  trigger_intr_lem w = signal 0x14 _ w (omega arith) (omega arith) (omega arith)
