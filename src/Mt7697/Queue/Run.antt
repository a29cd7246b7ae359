-- ===== src/Mt7697/Queue/Run.antt =====
-- How the steps of a queue operation compute when the bus answers.
use mang_oh.Prelude.{
  ℕ, ◌+◌, ◌-◌, ◌*◌, ◌%◌, ◌^◌, ◌≤◌, ◌<◌, ◌≡◌, true, false, min, arith, none, List, length, All,
}
use mang_oh.Prelude.Monad.{M, ok, err}
use mang_oh.Mt7697.Memory.{words, store_words}
use mang_oh.Mt7697.Bus.{Bus, IsBus}
use mang_oh.Mt7697.Queue.State.{Port, sub32, bus, locked}
use mang_oh.Mt7697.Queue.Transfer.{min_size}

module _ {W A : Type 0} where
  pub bus_run :
      (m : M W A) (p : Port W) {a : A} {w : W}
      → m p.hw ≡ ok a w
      → bus m p ≡ ok a (record p { hw = w })
  bus_run m p e = ground arith

  pub locked_run :
      (m : M (Port W) A) (p : Port W) {a : A} {q : Port W}
      → p.held ≡ false
      → m (record p { held = true }) ≡ ok a q
      → locked m p ≡ ok a (record q { held = false })
  unfolding locked
  locked_run m p e f = ground arith

  pub locked_err :
      (m : M (Port W) A) (p : Port W) {n : ℕ} {q : Port W}
      → p.held ≡ false
      → m (record p { held = true }) ≡ err n q
      → locked m p ≡ err n (record q { held = false })
  unfolding locked
  locked_err m p e f = ground arith

pub min_size-eq-min : (a b : ℕ) → min_size a b ≡ min a b
min_size-eq-min a b = ground arith

pub sub32_lem : (a b : ℕ) → b ≤ a → a < 2 ^ 32 → sub32 a b ≡ a - b
sub32_lem a b h k = omega arith

pub addr_lem :
    (base off size : ℕ)
    → off < size
    → base + 4 * size ≤ 2 ^ 32
    → (base + off * 4) % 2 ^ 32 ≡ base + 4 * off
addr_lem base off size h k = omega arith

module _ (b : Bus) (ib : IsBus b) where
  open ib use {mem}

  -- A read of the bus from a queue operation.
  pub read_at :
      (p : Port b.W) {addr a n k : ℕ}
      → addr ≡ a
      → n ≡ k
      → a < 2 ^ 32
      → a + 4 * k ≤ 2 ^ 32
      → (w : b.W) × (bus (b.rd addr n) p ≡ ok (none, words (mem p.hw) a k) (record p { hw = w }))
        × (mem w ≡ mem p.hw)
  read_at p {a = a} {k = k} e f h r =
      let d = ib.rd_lem a k p.hw h r in
      (d.next, rw (e, f) (bus_run (b.rd a k) p d.returned), d.result)

  -- A write.
  pub write_at :
      (p : Port b.W) {addr a : ℕ} (ds : List ℕ)
      → addr ≡ a
      → a < 2 ^ 32
      → a + 4 * length ds ≤ 2 ^ 32
      → All (λ d. d < 2 ^ 32) ds
      → (w : b.W) × (bus (b.wr addr ds) p ≡ ok tt (record p { hw = w }))
        × (mem w ≡ store_words (mem p.hw) a ds)
  write_at p {a = a} ds e h r g =
      let d = ib.wr_lem a ds p.hw h r g in
      (d.next, rw e (bus_run (b.wr a ds) p d.returned), d.result)
