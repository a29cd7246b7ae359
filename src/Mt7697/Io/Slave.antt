-- ===== src/Mt7697/Io/Slave.antt =====
-- What linux_kernel_modules/mt7697q/io.c relies on of the SPI slave: the registers of io.h as one
-- sees them through 16-bit accesses, and a bus address that moves on by a word with each access.
use mang_oh.Prelude.{ℕ, ◌+◌, ◌-◌, ◌*◌, ◌/◌, ◌%◌, ◌^◌, ◌<◌, ◌≡◌, List, [], ◌∷◌, ◌==◌, if◌then◌else◌}
use mang_oh.Prelude.Monad.{ok, Out}
use mang_oh.Mt7697.Fields.{IsGenmask}
use mang_oh.Mt7697.Host.{Host}
use mang_oh.Mt7697.Memory.{Memory, store}

pub record Chip : Type 0 where
  pub read_data : ℕ
  pub write_data : ℕ
  pub bus_addr : ℕ
  pub irq : ℕ
  pub s2m : ℕ
  pub m2s : ℕ
  pub mem : Memory

-- A 32-bit register with its low or its high half replaced.
abbrev pub with_low : ℕ → ℕ → ℕ
with_low r v = r / 2 ^ 16 * 2 ^ 16 + v

abbrev pub with_high : ℕ → ℕ → ℕ
with_high r v = v * 2 ^ 16 + r % 2 ^ 16

-- The word access that a write to the command register starts: 5 writes, 4 reads.
abbrev pub access : ℕ → Chip → Chip
access v c =
    if v == 5
    then record c {
      mem = store c.mem c.bus_addr c.write_data;
      bus_addr = (c.bus_addr + 4) % 2 ^ 32;
    }
    else if v == 4
    then record c { read_data = c.mem c.bus_addr; bus_addr = (c.bus_addr + 4) % 2 ^ 32 }
    else c

-- A 16-bit write to a register. A mailbox write raises bits, or lowers them; only the memory
-- matters to the laws, so the mailbox is left to the device (`mailbox`).
abbrev pub write_reg : ℕ → ℕ → Chip → Chip
write_reg reg v c =
    if reg == 0x04
    then record c { write_data = with_low c.write_data v }
    else if reg == 0x06
    then record c { write_data = with_high c.write_data v }
    else if reg == 0x08
    then record c { bus_addr = with_low c.bus_addr v }
    else if reg == 0x0A
    then record c { bus_addr = with_high c.bus_addr v }
    else if reg == 0x0C
    then access v c
    else if reg == 0x14
    then record c { irq = v }
    else if reg == 0x18
    then record c { s2m = c.s2m - v }
    else record c { m2s = v }

-- The frame of a 16-bit register write, and of a read.
abbrev pub write_frame : ℕ → ℕ → List ℕ
write_frame reg v = 0x80 ∷ reg ∷ (v / 2 ^ 8 % 2 ^ 8) ∷ (v % 2 ^ 8) ∷ []

abbrev pub read_frame : ℕ → List ℕ
read_frame reg = 0x00 ∷ reg ∷ 0 ∷ 0 ∷ []

-- A bus transfer that succeeds and answers with a 16-bit value behind two bytes of no meaning.
pub record Answers {W : Type 0} (out : Out W (List ℕ)) (v : ℕ) (Q : W → Type 0) : Type 0 where
  pub first : ℕ
  pub second : ℕ
  pub next : W
  pub answer : out ≡ ok (first ∷ second ∷ (v / 2 ^ 8 % 2 ^ 8) ∷ (v % 2 ^ 8) ∷ []) next
  pub result : Q next

-- A slave that works: every transfer succeeds; a register write does what `write_reg` says, and
-- keeps the slave busy for fewer polls than the model makes; the status register is 1 while it is
-- busy and 0 after; the data register gives the word that was read, low half first.
pub record IsSlave (h : Host) : Type 0 where
  pub masks : IsGenmask h.genmask
  pub chip : h.W → Chip
  pub busy : h.W → ℕ
  pub mem_lem : (w : h.W) (p : ℕ) → (chip w).mem p < 2 ^ 32
  pub write_lem :
      (reg v : ℕ) (w : h.W)
      → reg < 2 ^ 8
      → v < 2 ^ 16
      → (w' : h.W) × (h.write (write_frame reg v) w ≡ ok tt w')
        × (chip w' ≡ write_reg reg v (chip w))
        × (busy w' < h.polls)
  pub status_lem :
      (w : h.W)
      → Answers
          (h.write_then_read (read_frame 0x10) w)
          (if busy w == 0 then 0 else 1)
          (λ w'. (chip w' ≡ chip w) × (busy w' ≡ busy w - 1))
  pub low_lem :
      (w : h.W)
      → Answers
          (h.write_then_read (read_frame 0x00) w)
          ((chip w).read_data % 2 ^ 16)
          (λ w'. chip w' ≡ chip w)
  pub high_lem :
      (w : h.W)
      → Answers
          (h.write_then_read (read_frame 0x02) w)
          ((chip w).read_data / 2 ^ 16 % 2 ^ 16)
          (λ w'. chip w' ≡ chip w)
