-- ===== src/Mt7697/Queue/Descriptor.antt =====
-- Which descriptors mt7697q_read_state of linux_kernel_modules/mt7697q/queue.c accepts.
use mang_oh.Prelude.{◌+◌, ◌-◌, ◌%◌, ◌^◌, ◌<◌, ◌≡◌, refl, ◌≢◌, ◌↔◌, ◌⊎◌, arith}
use mang_oh.Prelude.Monad.{ok, err, einval}
use mang_oh.Mt7697.Fields.{IsGenmask}
use mang_oh.Mt7697.Bus.{Bus}
use mang_oh.Mt7697.Queue.State.{Data, Port, get_capacity}
use mang_oh.Mt7697.Queue.Pointers.{check_state}
use mang_oh.Mt7697.Queue.Contents.{size_of, buff_words_lem}

-- What makes a descriptor good enough for the driver.
pub record IsAccepted (d : Data) : Type 0 where
  pub based : d.base_addr ≢ 0
  pub flagged : d.flags ≢ 0
  pub in_range : (size_of d ≡ 0) ⊎ ((d.rd_offset < size_of d) × (d.wr_offset < size_of d))

module _ (b : Bus) (masks : IsGenmask b.genmask) (p : Port b.W) where
  capacity_lem :
      p.spec.q_data.flags < 2 ^ 32
      → get_capacity b.genmask p.spec.q_data ≡ (size_of p.spec.q_data + 2 ^ 32 - 1) % 2 ^ 32
  unfolding get_capacity
  capacity_lem h = rw (buff_words_lem b.genmask masks p.spec.q_data h) refl

  accepts :
      p.spec.q_data.flags < 2 ^ 32
      → p.spec.q_data.rd_offset < 2 ^ 16
      → p.spec.q_data.wr_offset < 2 ^ 16
      → IsAccepted p.spec.q_data
      → check_state b p ≡ ok tt p
  unfolding check_state
  accepts h r w a = ground (arith, capacity_lem h, a)

  refuses : p.spec.q_data.flags < 2 ^ 32 → check_state b p ≡ ok tt p → IsAccepted p.spec.q_data
  unfolding check_state
  refuses h e = record {
    based = λ z. ground (arith, z, e);
    flagged = λ z. ground (arith, z, e);
    in_range = ground (arith, capacity_lem h, e);
  }

  -- A descriptor of the widths of its fields is accepted exactly if its base address and its flags are
  -- not 0 and both offsets lie in the ring, or the ring has no words at all: then any offsets are
  -- accepted. Any other one is refused with EINVAL. The queue stays as it was read.
  pub check_state_lem :
      p.spec.q_data.flags < 2 ^ 32
      → p.spec.q_data.rd_offset < 2 ^ 16
      → p.spec.q_data.wr_offset < 2 ^ 16
      → ((check_state b p ≡ ok tt p) ↔ IsAccepted p.spec.q_data)
        × ((check_state b p ≡ ok tt p) ⊎ (check_state b p ≡ err einval p))
  check_state_lem h r w = ((refuses h, accepts h r w), either)
    where
      either : (check_state b p ≡ ok tt p) ⊎ (check_state b p ≡ err einval p)
      either = unfold check_state in ground arith
