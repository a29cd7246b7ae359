-- ===== src/Mt7697/Queue/Roundtrip.antt =====
-- What linux_kernel_modules/mt7697q/queue.c gives back of what it was given.
use mathlib.Core.Path.{subst}
use mang_oh.Prelude.{ℕ, ◌≤◌, ◌<◌, ◌≡◌, false, List, ◌++◌, length, take, drop, min}
use mang_oh.Prelude.Monad.{Does, Does-weaken}
use mang_oh.Mt7697.Bus.{Bus, IsBus}
use mang_oh.Mt7697.Queue.State.{Port, get_free_words}
use mang_oh.Mt7697.Queue.Transfer.{count, read, write}
use mang_oh.Mt7697.Queue.Contents.{IsRing, contents}
use mang_oh.Mt7697.Queue.Reading.{read_lem}
use mang_oh.Mt7697.Queue.Writing.{IsWords}
use mang_oh.Mt7697.Queue.Appending.{write_lem}

-- On a well-formed queue of the driver's six, whose mutex is free and which has room for the words
-- of `buff`, a `write` of them succeeds, and a `read` of `num` words after it returns the first `num`,
-- or all, of the words that the queue held and then `buff`, and leaves the others in the queue.
pub read-write :
    (b : Bus) (ib : IsBus b) (buff : List ℕ) (num : ℕ) (p : Port b.W)
    → IsRing p.spec.q_data
    → p.spec.ch < 6
    → p.held ≡ false
    → IsWords buff
    → length buff ≤ get_free_words b.genmask p.spec.q_data
    → let all = contents (ib.mem p.hw) p.spec.q_data ++ buff in
      Does (write b buff p) (length buff) (λ q.
        Does
          (read b num q)
          (count (min num (length all)), take num all)
          (λ u. contents (ib.mem u.hw) u.spec.q_data ≡ drop num all))
read-write b ib buff num p r c free g h =
    Does-weaken (λ q x. again q x.0 x.1 x.3) (write_lem b ib buff p r c free g h)
  where
    again :
        (q : Port b.W)
        → contents (ib.mem q.hw) q.spec.q_data ≡ contents (ib.mem p.hw) p.spec.q_data ++ buff
        → IsRing q.spec.q_data
        → q.held ≡ false
        → let all = contents (ib.mem p.hw) p.spec.q_data ++ buff in
          Does
            (read b num q)
            (count (min num (length all)), take num all)
            (λ u. contents (ib.mem u.hw) u.spec.q_data ≡ drop num all)
    again q e ring unlocked =
        subst
          (λ l.
            Does (read b num q) (count (min num (length l)), take num l)
              (λ u. contents (ib.mem u.hw) u.spec.q_data ≡ drop num l))
          e (Does-weaken (λ u x. x.0) (read_lem b ib num q ring unlocked))
