-- ===== src/Mt7697/Io/Registers.antt =====
-- With a slave that works, the register accesses of linux_kernel_modules/mt7697q/io.c, the wait for
-- the slave, and the command that accesses one word.
use mang_oh.Prelude.{
  ℕ, zero, suc, ◌+◌, ◌-◌, ◌*◌, ◌/◌, ◌%◌, ◌^◌, ◌<◌, ◌≡◌, refl, ap, ◌∙◌, true, false, [], ◌∷◌, bit_or,
  ◌==◌, if◌then◌else◌, arith, Bool-cases, inl, inr,
}
use mang_oh.Prelude.Bits.{bit_or-fields}
use mang_oh.Prelude.Monad.{ok, Does, Does-bind, Does-then, Does-pure, Does-weaken, ◌>>=◌, ◌>>◌}
use mang_oh.Mt7697.Fields.{bf_get, bf_get_lem, bf_define_lem}
use mang_oh.Mt7697.Host.{Host}
use mang_oh.Mt7697.Io.Slave.{write_reg, IsSlave, Answers}
use mang_oh.Mt7697.Io.{io_busy, write16, write32, read16, chk_slave_busy, slave_wait, command}

module _ (h : Host) (sl : IsSlave h) where
  open h use {W, polls}
  open sl use {masks, chip, busy, mem_lem, write_lem, status_lem, low_lem, high_lem}

  pub write16_lem :
      (reg v : ℕ) (w : W)
      → reg < 2 ^ 8
      → v < 2 ^ 16
      → Does (write16 h reg v w) tt (λ w'. (chip w' ≡ write_reg reg v (chip w)) × (busy w' < polls))
  unfolding write16
  write16_lem reg v w p q =
      let (w', e, c, b) = write_lem reg v w p q in
      record { next = w'; returned = e; result = (c, b) }

  -- A read register access puts the two bytes together again.
  pub read16_lem :
      (reg v : ℕ) (w : W) {Q : W → Type 0}
      → v < 2 ^ 16
      → Answers (h.write_then_read (0x00 ∷ reg ∷ 0 ∷ 0 ∷ []) w) v Q
      → Does (read16 h reg w) v Q
  unfolding read16
  read16_lem reg v w p a = record {
    next = a.next;
    returned = rw (a.answer, ◌>>=◌) (ap (λ (x : ℕ). ok x a.next) both);
    result = a.result;
  }
    where
      both : bit_or (v / 2 ^ 8 % 2 ^ 8 * 2 ^ 8) (v % 2 ^ 8) ≡ v
      both = omega (arith, bit_or-fields 8 (v / 2 ^ 8 % 2 ^ 8) (v % 2 ^ 8) (omega arith))

  busy_bit : (n : ℕ) → io_busy h (if n == 0 then 0 else 1) ≡ (if n == 0 then false else true)
  unfolding io_busy
  busy_bit n = elim (Bool-cases (n == 0)) [
    | inl e ↦ rw (e, bf_get_lem h.genmask masks 0 0 1 (omega arith)) refl
    | inr e ↦ rw (e, bf_get_lem h.genmask masks 1 0 1 (omega arith)) refl
  ]

  chk_slave_busy_lem :
      (w : W)
      → Does
          (chk_slave_busy h w)
          (if busy w == 0 then false else true)
          (λ w'. (chip w' ≡ chip w) × (busy w' ≡ busy w - 1))
  unfolding chk_slave_busy
  chk_slave_busy_lem w =
      Does-bind (read16 h 0x10) (λ v. ok (io_busy h v)) w
        (read16_lem 0x10 (if busy w == 0 then 0 else 1) w small (status_lem w))
        (λ t r. rw (busy_bit (busy w)) (Does-pure _ t r))
    where
      small : (if busy w == 0 then 0 else 1) < 2 ^ 16
      small = ground arith

  -- On a slave that works, the wait succeeds, and leaves the chip as it is, if the slave is busy for
  -- fewer polls than it may make.
  pub slave_wait_lem :
      (n : ℕ) (w : W) → busy w < n → Does (slave_wait h n w) tt (λ w'. chip w' ≡ chip w)
  unfolding slave_wait
  slave_wait_lem zero w p = absurd (omega arith)
  slave_wait_lem (suc n) w p = Does-bind (chk_slave_busy h) _ w (chk_slave_busy_lem w) (λ t r.
      elim (Bool-cases (busy w == 0)) [
        | inl e ↦ rw e (Does-pure tt t r.0)
        | inr e ↦ rw e (
            let d = slave_wait_lem n t (ground arith) in
            record { next = d.next; returned = d.returned; result = d.result ∙ r.0 })
      ])

  low_half : (v : ℕ) → bf_get h.genmask v 0 16 % 2 ^ 16 ≡ v % 2 ^ 16
  low_half v = omega (arith, bf_get_lem h.genmask masks v 0 16 (omega arith))

  high_half : (v : ℕ) → v < 2 ^ 32 → bf_get h.genmask v 16 16 % 2 ^ 16 ≡ v / 2 ^ 16
  high_half v p = omega (arith, bf_get_lem h.genmask masks v 16 16 (omega arith))

  -- Two half writes set a 32-bit register.
  write32_lem :
      (reg v : ℕ) (w : W) {Q : W → Type 0}
      → reg < 2 ^ 7
      → v < 2 ^ 32
      → ((t : W)
          → chip t ≡ write_reg (reg + 2) (v / 2 ^ 16) (write_reg reg (v % 2 ^ 16) (chip w))
          → busy t < polls
          → Q t)
      → Does (write32 h reg v w) tt Q
  unfolding write32
  write32_lem reg v w p q k =
      rw (low_half v, high_half v q, next_reg)
        (Does-then (write16 h reg (v % 2 ^ 16)) (write16 h (reg + 2) (v / 2 ^ 16)) w
          (write16_lem reg (v % 2 ^ 16) w (omega arith) (omega arith))
          (λ t r.
            Does-weaken (λ u s. k u (s.0 ∙ ap (write_reg (reg + 2) (v / 2 ^ 16)) r.0) s.1)
              (write16_lem (reg + 2) (v / 2 ^ 16) t (omega arith) (omega arith))))
    where
      next_reg : (reg + 2) % 2 ^ 8 ≡ reg + 2
      next_reg = omega arith

  pub write_data_lem :
      (v : ℕ) (w : W)
      → v < 2 ^ 32
      → Does (write32 h 0x04 v w) tt (λ w'. chip w' ≡ record (chip w) { write_data = v })
  write_data_lem v w p =
      write32_lem 0x04 v w (omega arith) p
        (λ t e b. e ∙ ap (λ (x : ℕ). record (chip w) { write_data = x }) (omega arith))

  pub bus_addr_lem :
      (v : ℕ) (w : W)
      → v < 2 ^ 32
      → Does (write32 h 0x08 v w) tt (λ w'. chip w' ≡ record (chip w) { bus_addr = v })
  bus_addr_lem v w p =
      write32_lem 0x08 v w (omega arith) p
        (λ t e b. e ∙ ap (λ (x : ℕ). record (chip w) { bus_addr = x }) (omega arith))

  pub command_write : command h 1 ≡ 5
  unfolding command
  command_write =
      rw
        (
          bf_define_lem h.genmask masks 2 1 2 (omega arith),
          bf_define_lem h.genmask masks 1 0 1 (omega arith),
        )
        refl

  pub command_read : command h 0 ≡ 4
  unfolding command
  command_read =
      rw
        (
          bf_define_lem h.genmask masks 2 1 2 (omega arith),
          bf_define_lem h.genmask masks 0 0 1 (omega arith),
        )
        refl

  -- The command that starts an access of a word, and the wait until it is done.
  pub access_lem :
      (rw_val v : ℕ) (w : W)
      → command h rw_val ≡ v
      → v < 2 ^ 16
      → Does
          ((write16 h 0x0C (command h rw_val) >> slave_wait h polls) w)
          tt
          (λ w'. chip w' ≡ write_reg 0x0C v (chip w))
  access_lem rw_val v w e p =
      Does-then (write16 h 0x0C (command h rw_val)) (slave_wait h polls) w started
        (λ t r. Does-weaken (λ u s. s ∙ r.0) (slave_wait_lem polls t r.1))
    where
      started :
          Does
            (write16 h 0x0C (command h rw_val) w)
            tt
            (λ w'. (chip w' ≡ write_reg 0x0C v (chip w)) × (busy w' < polls))
      started = rw e (write16_lem 0x0C v w (omega arith) p)
