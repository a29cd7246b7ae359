-- ===== src/Mt7697/Queue/Info.antt =====
-- `struct mt7697q_info` with its six queues, and an operation of one queue run inside it:
-- linux_kernel_modules/mt7697q/queue.h. A handle is the number of its queue.
use mang_oh.Prelude.{ℕ, Bool, ◌==◌, if◌then◌else◌}
use mang_oh.Prelude.Monad.{M, ok, err, halt}
use mang_oh.Mt7697.Queue.State.{Spec, RspHdr, Port}

pub record Info (W : Type 0) : Type 0 where
  pub queues : ℕ → Spec
  pub rsp : RspHdr
  pub blocked_writer : Bool
  pub held : Bool
  pub hw : W

module _ {W : Type 0} where
  abbrev pub port : ℕ → Info W → Port W
  port q s = record {
    spec = s.queues q;
    rsp = s.rsp;
    blocked_writer = s.blocked_writer;
    held = s.held;
    hw = s.hw;
  }

  abbrev pub set_spec : ℕ → Spec → Info W → Info W
  set_spec q x s = record s { queues = λ j. if j == q then x else s.queues j }

  abbrev pub put_back : ℕ → Port W → Info W → Info W
  put_back q p s = record {
    queues = λ j. if j == q then p.spec else s.queues j;
    rsp = p.rsp;
    blocked_writer = p.blocked_writer;
    held = p.held;
    hw = p.hw;
  }

  unfoldable pub on : {A : Type 0} → ℕ → M (Port W) A → M (Info W) A
  on q m s = elim (m (port q s)) [
    | ok a p ↦ ok a (put_back q p s)
    | err e p ↦ err e (put_back q p s)
    | halt f ↦ halt f
  ]
