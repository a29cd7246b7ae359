-- ===== src/Mt7697/Io/Endings.antt =====
-- Over an SPI driver whose transfers end, no access of linux_kernel_modules/mt7697q/io.c ends in a
-- deadlock.
use mang_oh.Prelude.{
  ℕ, zero, suc, ◌^◌, ◌%◌, ◌+◌, List, [], ◌∷◌, Option, some, Bool, true, false, ◌≢◌, arith,
}
use mang_oh.Prelude.Monad.{
  Out, M, ok, err, halt, deadlock, spin, corrupt, overflow, bug, pure, ◌>>=◌, ◌>>◌,
}
use mang_oh.Prelude.Outcome.{Post, Post-bind, Post-then}
use mang_oh.Mt7697.Host.{Host}
use mang_oh.Mt7697.Io.{
  write16, write32, read16, read32, chk_slave_busy, slave_wait, wr_m2s_mbx, rd_s2m_mbx, clr_s2m_mbx,
  wr_loop, wr, rd_word, rd_loop, rd, trigger_intr, reg_write_data, reg_command, reg_bus_addr,
  command,
}
use mang_oh.Mt7697.Bus.{io}
use mang_oh.Mt7697.Queue.Mutex.{Undead, IsUndead}

module _ {W : Type 0} where
  abbrev Any : {A : Type 0} → A → W → Type 0
  Any _ _ = Unit

  -- A function that does not end in a deadlock.
  abbrev pub Ends : {A : Type 0} → M W A → Type 0
  Ends m = (w : W) → Post Any Any Undead (m w)

  bind-Ends :
      {A B : Type 0} (m : M W A) (f : A → M W B) → Ends m → ((a : A) → Ends (f a)) → Ends (m >>= f)
  bind-Ends m f h k w = Post-bind Any Undead m f w Any Any (h w) (λ a t _. k a t)

  then-Ends : {A B : Type 0} (m : M W A) (n : M W B) → Ends m → Ends n → Ends (m >> n)
  then-Ends m n h k w = Post-then Any Undead m n w Any Any (h w) (λ _ t _. k t)

  undead : {A : Type 0} (out : Out W A) → Post Any Any Undead out → out ≢ halt deadlock
  undead (ok a w) h e = absurd (ground (arith, e))
  undead (err x w) h e = absurd (ground (arith, e))
  undead (halt deadlock) h e = h
  undead (halt spin) h e = absurd (ground (arith, e))
  undead (halt corrupt) h e = absurd (ground (arith, e))
  undead (halt overflow) h e = absurd (ground (arith, e))
  undead (halt bug) h e = absurd (ground (arith, e))

module _ (h : Host) (write_ends : (bytes : List ℕ) → Ends (h.write bytes))
    (read_ends : (bytes : List ℕ) → Ends (h.write_then_read bytes)) where
  write16-Ends : (reg value : ℕ) → Ends (write16 h reg value)
  unfolding write16
  write16-Ends reg value = write_ends _

  write32-Ends : (reg value : ℕ) → Ends (write32 h reg value)
  unfolding write32
  write32-Ends reg value =
      then-Ends (write16 h reg _) (write16 h ((reg + 2) % 2 ^ 8) _) (write16-Ends reg _)
        (write16-Ends ((reg + 2) % 2 ^ 8) _)

  read16-Ends : (reg : ℕ) → Ends (read16 h reg)
  unfolding read16
  read16-Ends reg = bind-Ends (h.write_then_read _) _ (read_ends _) (λ rx w. tt)

  read32-Ends : (reg : ℕ) → Ends (read32 h reg)
  unfolding read32
  read32-Ends reg = bind-Ends (read16 h reg) _ (read16-Ends reg) (λ low.
      bind-Ends (read16 h ((reg + 2) % 2 ^ 8)) _ (read16-Ends ((reg + 2) % 2 ^ 8)) (λ high w. tt))

  slave_wait-Ends : (n : ℕ) → Ends (slave_wait h n)
  unfolding slave_wait chk_slave_busy
  slave_wait-Ends zero = λ w. tt
  slave_wait-Ends (suc n) =
      bind-Ends (chk_slave_busy h) _
        (bind-Ends (read16 h 0x10) _ (read16-Ends 0x10) (λ value w. tt))
        (λ busy. polled busy (slave_wait-Ends n))
    where
      polled :
          (busy : Bool)
          → Ends (slave_wait h n)
          → Ends {W = h.W} {A = Unit {0}}
              (elim busy [ true ↦ slave_wait h n | false ↦ pure (tt {0}) ])
      polled true k = k
      polled false k = λ w. tt

  wr_loop-Ends : (ds : List ℕ) → Ends (wr_loop h ds)
  unfolding wr_loop
  wr_loop-Ends [] = λ w. tt
  wr_loop-Ends (d ∷ ds) = then-Ends (write32 h reg_write_data d) _ (write32-Ends reg_write_data d) (
      then-Ends (write16 h reg_command (command h 1)) _ (write16-Ends reg_command (command h 1)) (
        then-Ends (slave_wait h h.polls) (wr_loop h ds) (slave_wait-Ends h.polls)
          (wr_loop-Ends ds)))

  wr-Ends : (addr : ℕ) (ds : List ℕ) → Ends (wr h addr ds)
  unfolding wr
  wr-Ends addr ds =
      then-Ends (write32 h reg_bus_addr addr) (wr_loop h ds) (write32-Ends reg_bus_addr addr)
        (wr_loop-Ends ds)

  rd_word-Ends : Ends (rd_word h)
  unfolding rd_word
  rd_word-Ends =
      then-Ends (write16 h reg_command (command h 0)) _ (write16-Ends reg_command (command h 0))
        (then-Ends (slave_wait h h.polls) (read32 h 0) (slave_wait-Ends h.polls) (read32-Ends 0))

  abbrev Read : Type 0
  Read = Option ℕ × List ℕ

  rd_loop-Ends : (n : ℕ) → Ends (rd_loop h n)
  unfolding rd_loop
  rd_loop-Ends zero w = tt
  rd_loop-Ends (suc n) w =
      word (rd_word h w) (rd_word-Ends w) (λ f g. bind-Ends (rd_loop h n) f (rd_loop-Ends n) g)
    where
      word :
          (out : Out h.W ℕ)
          → Post Any Any Undead out
          → ((f : Read → M h.W Read) → ((a : Read) → Ends (f a)) → Ends (rd_loop h n >>= f))
          → Post {A = Read} Any Any Undead (elim out [
            | ok v w' ↦ (rd_loop h n >>= (λ r. pure (r.0, v ∷ r.1))) w'
            | err e w' ↦ ok (some e, []) w'
            | halt f ↦ halt f
          ])
      word (ok v w') k g = g (λ r. pure (r.0, v ∷ r.1)) (λ r t. tt) w'
      word (err e w') k g = tt
      word (halt f) k g = k

  rd-Ends : (addr num : ℕ) → Ends (rd h addr num)
  unfolding rd
  rd-Ends addr num w = started (write32 h reg_bus_addr addr w) (write32-Ends reg_bus_addr addr w)
    where
      started :
          (out : Out h.W (Unit {0}))
          → Post Any Any Undead out
          → Post {A = Read} Any Any Undead (elim out [
            | ok _ w' ↦ rd_loop h num w'
            | err e w' ↦ ok (some e, []) w'
            | halt f ↦ halt f
          ])
      started (ok x w') k = rd_loop-Ends num w'
      started (err e w') k = tt
      started (halt f) k = k

  rd_s2m_mbx-Ends : Ends (rd_s2m_mbx h)
  unfolding rd_s2m_mbx
  rd_s2m_mbx-Ends = bind-Ends (read16 h 0x18) _ (read16-Ends 0x18) (λ value w. tt)

  pub io-IsUndead : IsUndead (io h)
  unfolding wr_m2s_mbx clr_s2m_mbx trigger_intr
  io-IsUndead = record {
    rd_lem = λ a n w. undead (rd h a n w) (rd-Ends a n w);
    wr_lem = λ a ds w. undead (wr h a ds w) (wr-Ends a ds w);
    wr_m2s_mbx_lem = λ bits w. undead (wr_m2s_mbx h bits w) (write16-Ends _ _ w);
    rd_s2m_mbx_lem = λ w. undead (rd_s2m_mbx h w) (rd_s2m_mbx-Ends w);
    clr_s2m_mbx_lem = λ bits w. undead (clr_s2m_mbx h bits w) (write16-Ends _ _ w);
    trigger_intr_lem = λ w. undead (trigger_intr h w) (write16-Ends _ _ w);
  }
