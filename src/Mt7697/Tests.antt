-- ===== src/Mt7697/Tests.antt =====
-- Runs of linux_kernel_modules/mt7697q on a reference slave.
mod Reference
mod Locks
use mathlib.Core.Logic.{◌↔◌, ◌⊎◌}
use mang_oh.Prelude.{
  ℕ, ◌+◌, ◌-◌, ◌/◌, ◌*◌, ◌%◌, ◌^◌, ◌≤◌, ◌<◌, ◌≡◌, refl, inl, true, false, none, List, [], ◌∷◌, ◌++◌,
  arith, length, All, take, drop, if◌then◌else◌, ◌==◌,
}
use mang_oh.Prelude.Monad.{ok, err, eagain, einval, Does}
use mang_oh.Mt7697.Fields.{low_ones, low_ones-IsGenmask}
use mang_oh.Mt7697.Memory.{Memory, store_words, words}
use mang_oh.Mt7697.Host.{Host}
use mang_oh.Mt7697.Io.{slave_wait, wr, rd}
use mang_oh.Mt7697.Io.Slave.{IsSlave}
use mang_oh.Mt7697.Io.Registers.{slave_wait_lem}
use mang_oh.Mt7697.Io.Laws.{wr_lem, rd_lem}
use mang_oh.Mt7697.Bus.{Bus, IsBus, io, io-IsBus}
use mang_oh.Mt7697.Queue.State.{Data, Spec, Port, get_free_words, flags_get_in_use, flags_get_dir}
use mang_oh.Mt7697.Queue.Pointers.{check_state, rd_offset_addr, wr_offset_addr}
use mang_oh.Mt7697.Queue.Contents.{IsRing, contents}
use mang_oh.Mt7697.Queue.Transfer.{count, read, write}
use mang_oh.Mt7697.Queue.Reading.{read_lem}
use mang_oh.Mt7697.Queue.Writing.{IsWords}
use mang_oh.Mt7697.Queue.Control.{clear_in_use}
use mang_oh.Mt7697.Queue.Descriptor.{IsAccepted, check_state_lem}
use mang_oh.Mt7697.Queue.Flags.{flags_get_in_use_lem, clear_in_use_lem}
use mang_oh.Mt7697.Queue.Roundtrip.{read-write}
use mang_oh.Mt7697.Queue.Appending.{write_lem, write_blocked}
use mang_oh.Mt7697.Tests.Reference.{RefSlave, chip, host, idle, poll}

-- Every word holds its address.
abbrev numbered : Memory
numbered p = p

host-IsSlave : IsSlave host
host-IsSlave = record {
  masks = low_ones-IsGenmask;
  chip = chip;
  busy = λ r. r.polls_left;
  mem_lem = λ r p. omega arith;
  write_lem = λ reg v r a l. Reference.write_lem reg v r l;
  status_lem = λ r. record {
    first = 0;
    second = 0;
    next = poll 0x10 r;
    answer = refl;
    result = (refl, refl);
  };
  low_lem = λ r. record { first = 0; second = 0; next = r; answer = refl; result = refl };
  high_lem = λ r. record { first = 0; second = 0; next = r; answer = refl; result = refl };
}

abbrev spi : Bus
spi = io host

abbrev spi-IsBus : IsBus spi
spi-IsBus = io-IsBus host host-IsSlave

wr_lem_example :
    Does
      (wr host 64 (7 ∷ 8 ∷ []) (idle numbered))
      tt
      (λ r. (chip r).mem ≡ store_words (chip (idle numbered)).mem 64 (7 ∷ 8 ∷ []))
unfolding host-IsSlave
wr_lem_example =
    wr_lem host host-IsSlave 64 (7 ∷ 8 ∷ []) (idle numbered) (omega arith) (omega arith)
      (omega arith, (omega arith, tt))

rd_lem_example :
    Does
      (rd host 64 2 (idle numbered))
      (none, 64 ∷ 68 ∷ [])
      (λ r. (chip r).mem ≡ (chip (idle numbered)).mem)
unfolding words host-IsSlave
rd_lem_example = rd_lem host host-IsSlave 64 2 (idle numbered) (omega arith) (omega arith)

-- A ring of four words at address 0, which holds three, round its end: those at 12, 0 and 4.
abbrev ring : Data
ring = record {
  flags = 4 * 65536;
  base_addr = 0;
  rd_offset = 3;
  reserved1 = 0;
  wr_offset = 2;
  reserved2 = 0;
}

abbrev port : Port RefSlave
port = record {
  spec = record { q_data = ring; priv = 0; notify_tx_fcn = 0; rx_fcn = 0; ch = 1 };
  rsp = record { len = 0; grp = 0; cmd_type = 0; result = 0 };
  blocked_writer = false;
  held = false;
  hw = idle numbered;
}

-- The same ring with one word, so that two more have room.
abbrev roomy : Port RefSlave
roomy =
    let s = port.spec in record port { spec = record s { q_data = record ring { wr_offset = 0 } } }

ring-IsRing : IsRing ring
ring-IsRing = record {
  flags_word = omega arith;
  rd_in = omega arith;
  wr_in = omega arith;
  fits = omega arith;
  apart = inl (omega arith);
}

roomy-IsRing : IsRing roomy.spec.q_data
roomy-IsRing = record {
  flags_word = omega arith;
  rd_in = omega arith;
  wr_in = omega arith;
  fits = omega arith;
  apart = inl (omega arith);
}

-- Two of the three words.
read_lem_example :
    Does
      (read spi 2 port)
      (count 2, 12 ∷ 0 ∷ [])
      (λ q.
        (contents (chip q.hw).mem q.spec.q_data ≡ 4 ∷ [])
        × IsRing q.spec.q_data
        × (q.held ≡ false)
        × ((chip q.hw).mem ≡ (chip port.hw).mem)
        × (q.spec.q_data.wr_offset ≡ 2))
unfolding words host-IsSlave io-IsBus
read_lem_example = read_lem spi spi-IsBus 2 port ring-IsRing refl

write_lem_example : Does (write spi (5 ∷ 6 ∷ []) roomy) 2 (λ q.
    (contents (chip q.hw).mem q.spec.q_data ≡ 12 ∷ 5 ∷ 6 ∷ [])
    × IsRing q.spec.q_data
    × ((chip q.hw).mem (wr_offset_addr 1) ≡ q.spec.q_data.wr_offset)
    × (q.held ≡ false)
    × (q.spec.q_data.rd_offset ≡ 3))
unfolding words host-IsSlave io-IsBus
write_lem_example =
    write_lem spi spi-IsBus (5 ∷ 6 ∷ []) roomy roomy-IsRing (omega arith) refl
      (omega arith, (omega arith, tt)) room
  where
    room : 2 ≤ get_free_words spi.genmask roomy.spec.q_data
    room = unfold get_free_words in omega arith

write_blocked_example :
    (q : Port RefSlave) × (write spi (5 ∷ 6 ∷ []) port ≡ err eagain q)
    × (q.blocked_writer ≡ true)
    × (q.held ≡ false)
    × ((chip q.hw).mem ≡ (chip port.hw).mem)
    × (q.spec.q_data ≡ record ring { rd_offset = (chip port.hw).mem (rd_offset_addr 1) % 2 ^ 16 })
unfolding host-IsSlave io-IsBus
write_blocked_example = write_blocked spi spi-IsBus (5 ∷ 6 ∷ []) port (omega arith) refl full
  where
    full : get_free_words spi.genmask ring < 2
    full = unfold get_free_words in omega arith

slave_wait_lem_example :
    Does
      (slave_wait host 3 (record (idle numbered) { polls_left = 2 }))
      tt
      (λ r. chip r ≡ chip (idle numbered))
unfolding host-IsSlave
slave_wait_lem_example =
    slave_wait_lem host host-IsSlave 3 (record (idle numbered) { polls_left = 2 }) (omega arith)

-- What was in the queue comes first.
read-write_example : Does (write spi (5 ∷ 6 ∷ []) roomy) 2 (λ q.
    Does
      (read spi 2 q)
      (count 2, 12 ∷ 5 ∷ [])
      (λ u. contents (chip u.hw).mem u.spec.q_data ≡ 6 ∷ []))
unfolding words host-IsSlave io-IsBus
read-write_example =
    read-write spi spi-IsBus (5 ∷ 6 ∷ []) 2 roomy roomy-IsRing (omega arith) refl
      (omega arith, (omega arith, tt)) (unfold get_free_words in omega arith)

-- A queue that is not in use, but has a direction.
flags_get_in_use_lem_example : (flags_get_in_use low_ones 2 ≡ 2) × (flags_get_dir low_ones 2 ≡ 1)
flags_get_in_use_lem_example = flags_get_in_use_lem low_ones low_ones-IsGenmask 2

clear_in_use_lem_example : clear_in_use low_ones (4 * 65536 + 3) ≡ 4 * 65536
clear_in_use_lem_example =
    clear_in_use_lem low_ones low_ones-IsGenmask (4 * 65536 + 3) (omega arith)

check_state_lem_example :
    ((check_state spi port ≡ ok tt port) ↔ IsAccepted ring)
    × ((check_state spi port ≡ ok tt port) ⊎ (check_state spi port ≡ err einval port))
check_state_lem_example =
    check_state_lem spi low_ones-IsGenmask port (omega arith) (omega arith) (omega arith)
