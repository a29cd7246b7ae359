-- ===== src/Mt7697/Bus.antt =====
-- What linux_kernel_modules/mt7697q/queue.c uses of io.c, as an interface, and io.c as its
-- implementation.
use mang_oh.Prelude.{ℕ, ◌+◌, ◌*◌, ◌^◌, ◌≤◌, ◌<◌, ◌≡◌, Option, none, List, length, All}
use mang_oh.Prelude.Monad.{M, Does}
use mang_oh.Mt7697.Fields.{IsGenmask}
use mang_oh.Mt7697.Memory.{Memory, store_words, words}
use mang_oh.Mt7697.Host.{Host}
use mang_oh.Mt7697.Io
use mang_oh.Mt7697.Io.Slave.{IsSlave}
use mang_oh.Mt7697.Io.Laws.{wr_lem, rd_lem, wr_m2s_mbx_lem, trigger_intr_lem}

pub record Bus : Type 1 where
  pub W : Type 0
  pub rd : ℕ → ℕ → M W (Option ℕ × List ℕ)
  pub wr : ℕ → List ℕ → M W (Unit {0})
  pub wr_m2s_mbx : ℕ → M W (Unit {0})
  pub rd_s2m_mbx : M W ℕ
  pub clr_s2m_mbx : ℕ → M W (Unit {0})
  pub trigger_intr : M W (Unit {0})
  pub genmask : ℕ → ℕ → ℕ

-- A bus whose accesses succeed, and read and write the co-processor's memory.
pub record IsBus (b : Bus) : Type 0 where
  pub masks : IsGenmask b.genmask
  pub mem : b.W → Memory
  pub wr_lem :
      (a : ℕ) (ds : List ℕ) (w : b.W)
      → a < 2 ^ 32
      → a + 4 * length ds ≤ 2 ^ 32
      → All (λ d. d < 2 ^ 32) ds
      → Does (b.wr a ds w) tt (λ w'. mem w' ≡ store_words (mem w) a ds)
  pub rd_lem :
      (a n : ℕ) (w : b.W)
      → a < 2 ^ 32
      → a + 4 * n ≤ 2 ^ 32
      → Does (b.rd a n w) (none, words (mem w) a n) (λ w'. mem w' ≡ mem w)
  pub wr_m2s_mbx_lem : (bits : ℕ) (w : b.W) → Does (b.wr_m2s_mbx bits w) tt (λ w'. mem w' ≡ mem w)
  pub trigger_intr_lem : (w : b.W) → Does (b.trigger_intr w) tt (λ w'. mem w' ≡ mem w)

abbrev pub io : Host → Bus
io h = record {
  W = h.W;
  rd = Io.rd h;
  wr = Io.wr h;
  wr_m2s_mbx = Io.wr_m2s_mbx h;
  rd_s2m_mbx = Io.rd_s2m_mbx h;
  clr_s2m_mbx = Io.clr_s2m_mbx h;
  trigger_intr = Io.trigger_intr h;
  genmask = h.genmask;
}

-- Over a slave that keeps the register protocol, io.c is such a bus.
unfoldable pub io-IsBus : (h : Host) → IsSlave h → IsBus (io h)
io-IsBus h s = record {
  masks = s.masks;
  mem = λ w. (s.chip w).mem;
  wr_lem = wr_lem h s;
  rd_lem = rd_lem h s;
  wr_m2s_mbx_lem = wr_m2s_mbx_lem h s;
  trigger_intr_lem = trigger_intr_lem h s;
}
