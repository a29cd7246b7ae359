-- ===== src/Mt7697/Tests/Reference.antt =====
-- A slave to run linux_kernel_modules/mt7697q on: it keeps the register protocol, and is busy for
-- three polls after each write.
use native.Mathlib.Nat.{mod-eq_of_lt}
use mang_oh.Prelude.{
  ℕ, ◌+◌, ◌-◌, ◌*◌, ◌/◌, ◌%◌, ◌^◌, ◌<◌, ◌≡◌, ap, fun_ext, List, [], ◌∷◌, arith, ◌==◌, if◌then◌else◌,
}
use mang_oh.Prelude.Monad.{M, ok, err, eio}
use mang_oh.Mt7697.Fields.{low_ones}
use mang_oh.Mt7697.Host.{Host}
use mang_oh.Mt7697.Memory.{Memory}
use mang_oh.Mt7697.Io.Slave.{Chip, write_reg, write_frame}

pub record RefSlave : Type 0 where
  pub raw : Chip
  pub polls_left : ℕ

-- Registers and memory are 32 bits wide.
abbrev pub narrow : Chip → Chip
narrow c = record c { write_data = c.write_data % 2 ^ 32; mem = λ p. c.mem p % 2 ^ 32 }

abbrev pub chip : RefSlave → Chip
chip r = narrow r.raw

-- The value of a register that the driver reads.
abbrev pub value : ℕ → RefSlave → ℕ
value reg r =
    if reg == 0x10
    then (if r.polls_left == 0 then 0 else 1)
    else if reg == 0x00
    then r.raw.read_data % 2 ^ 16
    else r.raw.read_data / 2 ^ 16 % 2 ^ 16

abbrev pub poll : ℕ → RefSlave → RefSlave
poll reg r = if reg == 0x10 then record r { polls_left = r.polls_left - 1 } else r

abbrev pub write : List ℕ → M RefSlave (Unit {0})
write (op ∷ reg ∷ high ∷ low ∷ []) r =
    ok tt (record { raw = write_reg reg (high * 2 ^ 8 + low) (chip r); polls_left = 3 })
write other r = err eio r

abbrev pub write_then_read : List ℕ → M RefSlave (List ℕ)
write_then_read (op ∷ reg ∷ other) r =
    ok (0 ∷ 0 ∷ (value reg r / 2 ^ 8 % 2 ^ 8) ∷ (value reg r % 2 ^ 8) ∷ []) (poll reg r)
write_then_read other r = err eio r

abbrev pub host : Host
host = record {
  W = RefSlave;
  write = write;
  write_then_read = write_then_read;
  genmask = low_ones;
  polls = 4;
}

-- The empty memory, and a slave that is idle.
abbrev pub idle : Memory → RefSlave
idle m = record {
  raw = record { read_data = 0; write_data = 0; bus_addr = 0; irq = 0; s2m = 0; m2s = 0; mem = m };
  polls_left = 0;
}

record IsNarrow (c : Chip) : Type 0 where
  pub data_in : c.write_data < 2 ^ 32
  pub mem_in : (p : ℕ) → c.mem p < 2 ^ 32

narrow_lem : (c : Chip) → IsNarrow c → narrow c ≡ c
narrow_lem c n =
    let d : c.write_data % 2 ^ 32 ≡ c.write_data = mod-eq_of_lt n.data_in in
    let m : (λ p. c.mem p % 2 ^ 32) ≡ c.mem = fun_ext (λ p. mod-eq_of_lt (n.mem_in p)) in
    λ i. record c { write_data = d i; mem = m i }

narrow-IsNarrow : (c : Chip) → IsNarrow (narrow c)
narrow-IsNarrow c = record { data_in = omega arith; mem_in = λ p. omega arith }

write_reg-IsNarrow : (reg v : ℕ) (c : Chip) → v < 2 ^ 16 → IsNarrow c → IsNarrow (write_reg reg v c)
write_reg-IsNarrow reg v c l n = record {
  data_in = ground (arith, n.data_in);
  mem_in = λ p. ground (arith, n.data_in, n.mem_in p);
}

pub write_lem :
    (reg v : ℕ) (r : RefSlave)
    → v < 2 ^ 16
    → (r' : RefSlave) × (write (write_frame reg v) r ≡ ok tt r')
      × (chip r' ≡ write_reg reg v (chip r))
      × (r'.polls_left < 4)
write_lem reg v r l =
    let bytes : v / 2 ^ 8 % 2 ^ 8 * 2 ^ 8 + v % 2 ^ 8 ≡ v = omega arith in
    (
      record { raw = write_reg reg v (chip r); polls_left = 3 },
      ap (λ (x : ℕ). ok tt (record { raw = write_reg reg x (chip r); polls_left = 3 })) bytes,
      narrow_lem (write_reg reg v (chip r))
          (write_reg-IsNarrow reg v (chip r) l (narrow-IsNarrow r.raw)),
      omega arith,
    )
