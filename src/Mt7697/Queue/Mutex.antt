-- ===== src/Mt7697/Queue/Mutex.antt =====
-- Rules for functions of linux_kernel_modules/mt7697q/queue.c that leave the mutex as it was, however
-- they end.
use mang_oh.Prelude.{ℕ, ◌≡◌, ◌≢◌, refl, Option, none, some, List, Bool, true, false, if◌then◌else◌}
use mang_oh.Prelude.Monad.{Fault, Out, M, ok, err, halt, deadlock, ◌>>=◌, ◌>>◌}
use mang_oh.Prelude.Outcome.{Post, Post-bind, Post-then, Post-if_run}
use mang_oh.Mt7697.Bus.{Bus}
use mang_oh.Mt7697.Queue.State.{Port, bus, locked}
use mang_oh.Mt7697.Queue.Pointers.{check}

-- Any fault but a mutex that is locked twice.
abbrev pub Undead : Fault → Type 0
Undead deadlock = ⊥
Undead f = Unit

-- A bus of which no access ends in a deadlock.
pub record IsUndead (b : Bus) : Type 0 where
  pub rd_lem : (a n : ℕ) (w : b.W) → b.rd a n w ≢ halt deadlock
  pub wr_lem : (a : ℕ) (ds : List ℕ) (w : b.W) → b.wr a ds w ≢ halt deadlock
  pub wr_m2s_mbx_lem : (bits : ℕ) (w : b.W) → b.wr_m2s_mbx bits w ≢ halt deadlock
  pub rd_s2m_mbx_lem : (w : b.W) → b.rd_s2m_mbx w ≢ halt deadlock
  pub clr_s2m_mbx_lem : (bits : ℕ) (w : b.W) → b.clr_s2m_mbx bits w ≢ halt deadlock
  pub trigger_intr_lem : (w : b.W) → b.trigger_intr w ≢ halt deadlock

module _ {W : Type 0} (v : Bool) where
  abbrev pub Mutex : {A : Type 0} → A → Port W → Type 0
  Mutex _ p = p.held ≡ v

  -- A function that leaves the mutex as it was, however it ends.
  abbrev pub Keeps : {A : Type 0} → M (Port W) A → Type 0
  Keeps m = (p : Port W) → p.held ≡ v → Post Mutex Mutex Undead (m p)

  pub bind-Keeps :
      {A B : Type 0} (m : M (Port W) A) (f : A → M (Port W) B)
      → Keeps m
      → ((a : A) → Keeps (f a))
      → Keeps (m >>= f)
  bind-Keeps m f h k p e = Post-bind Mutex Undead m f p Mutex Mutex (h p e) (λ a. k a)

  pub then-Keeps :
      {A B : Type 0} (m : M (Port W) A) (n : M (Port W) B) → Keeps m → Keeps n → Keeps (m >> n)
  then-Keeps m n h k p e = Post-then Mutex Undead m n p Mutex Mutex (h p e) (λ _. k)

  pub if_Keeps :
      {A : Type 0} (i : Bool) (m n : M (Port W) A) → Keeps m → Keeps n → Keeps (if i then m else n)
  if_Keeps i m n h k p e = Post-if_run Mutex Mutex Undead i m n p (λ _. h p e) (λ _. k p e)

  pub bus-Keeps : {A : Type 0} (m : M W A) → ((w : W) → m w ≢ halt deadlock) → Keeps (bus m)
  bus-Keeps m h p e = passed (m p.hw) (h p.hw)
    where
      passed :
          {A : Type 0} (out : Out W A)
          → out ≢ halt deadlock
          → Post Mutex Mutex Undead (elim out [
            | ok a w ↦ ok a (record p { hw = w })
            | err x w ↦ err x (record p { hw = w })
            | halt f ↦ halt f
          ])
      passed (ok a w) n = e
      passed (err x w) n = e
      passed (halt deadlock) n = absurd (n refl)
      passed (halt f) n = tt

  pub check-Keeps : (r : Option ℕ × List ℕ) → Keeps (check r)
  check-Keeps (none, ws) p e = e
  check-Keeps (some x, ws) p e = e

module _ {W : Type 0} where
  released :
      {A : Type 0} (out : Out (Port W) A)
      → Post (Mutex true) (Mutex true) Undead out
      → Post (Mutex false) (Mutex false) Undead (elim out [
        | ok a q ↦ ok a (record q { held = false })
        | err x q ↦ err x (record q { held = false })
        | halt f ↦ halt f
      ])
  released (ok a q) h = refl
  released (err x q) h = refl
  released (halt f) h = h

  -- A body that runs under the mutex leaves it free.
  pub locked-Keeps : {A : Type 0} (m : M (Port W) A) → Keeps true m → Keeps false (locked m)
  unfolding locked
  locked-Keeps m h p e =
      rw (locked, e) (released (m (record p { held = true })) (h (record p { held = true }) refl))
