-- ===== src/Mt7697/Queue/Interrupts.antt =====
-- The mutex of the queues at an interrupt, and at the start and the end of the use of a pair of
-- queues: linux_kernel_modules/mt7697q/queue.c and interrupt.c.
use mang_oh.Prelude.{
  ℕ, zero, suc, ◌+◌, ◌-◌, ◌/◌, ◌%◌, ◌^◌, ◌&&◌, ◌||◌, not, ◌≡◌, Option, none, some, Bool, true,
  false, if◌then◌else◌, leb, ltb, ◌==◌,
}
use mang_oh.Prelude.Monad.{Out, M, ok, err, halt, pure, fail, einval, ◌>>=◌, ◌>>◌}
use mang_oh.Prelude.Outcome.{Post, Post-bind, Post-then, Post-if, Post-if_run}
use mang_oh.Mt7697.Bus.{Bus}
use mang_oh.Mt7697.Queue.State.{Port, RspHdr, get_free_words, flags_get_in_use, flags_get_dir}
use mang_oh.Mt7697.Queue.Pointers.{pull_wr_ptr, push_rd_ptr, modify}
use mang_oh.Mt7697.Queue.Transfer.{Ret, count, code, read}
use mang_oh.Mt7697.Queue.Info.{Info, on, port, put_back}
use mang_oh.Mt7697.Queue.Control.{get_s2m_mbx, proc_queue_rsp}
use mang_oh.Mt7697.Queue.Receive.{
  Clients, rsp_hdr_words, ignore_error, refill, read_header, dispatch, next_message, proc_loop,
  proc_data, irq_queue, irq_queues, irq_run, body_words, load_rsp,
}
use mang_oh.Mt7697.Queue.Mutex.{Undead, IsUndead, Mutex, Keeps, bind-Keeps, then-Keeps, if_Keeps}
use mang_oh.Mt7697.Queue.Locking.{
  read-Frees, push_rd_ptr-Frees, pull_wr_ptr-Frees, get_s2m_mbx-Frees,
}

module _ {W : Type 0} where
  -- The mutex of all queues is free.
  abbrev pub Free : {A : Type 0} → A → Info W → Type 0
  Free _ s = s.held ≡ false

  -- A function on all queues that leaves the mutex free, and never takes it twice.
  abbrev pub Freely : {A : Type 0} → M (Info W) A → Type 0
  Freely m = (s : Info W) → s.held ≡ false → Post Free Free Undead (m s)

  pub bind-Freely :
      {A B : Type 0} (m : M (Info W) A) (f : A → M (Info W) B)
      → Freely m
      → ((a : A) → Freely (f a))
      → Freely (m >>= f)
  bind-Freely m f h k s e = Post-bind Free Undead m f s Free Free (h s e) (λ a. k a)

  pub then-Freely :
      {A B : Type 0} (m : M (Info W) A) (n : M (Info W) B) → Freely m → Freely n → Freely (m >> n)
  then-Freely m n h k s e = Post-then Free Undead m n s Free Free (h s e) (λ _. k)

  -- An operation of one queue.
  pub on_Freely : {A : Type 0} (q : ℕ) (m : M (Port W) A) → Keeps false m → Freely (on q m)
  unfolding on
  on_Freely q m h s e = passed (m (port q s)) (h (port q s) e)
    where
      passed :
          {A : Type 0} (out : Out (Port W) A)
          → Post (Mutex false) (Mutex false) Undead out
          → Post Free Free Undead (elim out [
            | ok a p ↦ ok a (put_back q p s)
            | err x p ↦ err x (put_back q p s)
            | halt f ↦ halt f
          ])
      passed (ok a p) k = k
      passed (err x p) k = k
      passed (halt f) k = k

ignored :
    {A : Type 0} {S : Type 0} (P : S → Type 0) (out : Out S A)
    → Post (λ _ s. P s) (λ _ s. P s) Undead out
    → Post
        (λ _ s. P s)
        (λ (_ : ℕ) s. P s)
        Undead
        (elim out [ ok a t ↦ ok (tt {0}) t | err e t ↦ ok tt t | halt f ↦ halt f ])
ignored P (ok a t) h = h
ignored P (err e t) h = h
ignored P (halt f) h = h

-- Callbacks and a work queue that leave the mutex as they find it, free.
pub record IsPolite (b : Bus) (c : Clients b) : Type 0 where
  pub rx_lem : (f : ℕ) (r : RspHdr) (priv : ℕ) → Keeps false (c.rx f r priv)
  pub notify_tx_lem : (f priv n : ℕ) → Keeps false (c.notify_tx f priv n)
  pub queue_delayed_work_lem : Freely c.queue_delayed_work
  pub enable_irq_lem : Freely c.enable_irq

module _ (b : Bus) (c : Clients b) (u : IsUndead b) (i : IsPolite b c) where
  abbrev Frees : {A : Type 0} → M (Port b.W) A → Type 0
  Frees m = Keeps false m

  refill-Frees : (avail req : ℕ) → Frees (refill b c avail req)
  unfolding refill
  refill-Frees avail req =
      if_Keeps false (ltb avail req) _ (pure avail)
        (then-Keeps false (pull_wr_ptr b) _ (pull_wr_ptr-Frees b u) (λ p e. e)) (λ p e. e)

  read_header-Frees : (avail req : ℕ) → Frees (read_header b c avail req)
  unfolding read_header
  read_header-Frees avail req p e =
      Post-if (Mutex false) (Mutex false) Undead (p.rsp.len == 0) _ _
        (λ _.
          bind-Keeps false (read b req) _ (read-Frees b u req)
            (λ r.
              then-Keeps false (modify (λ q. record q { rsp = load_rsp r.1 q.rsp })) _ (λ q f. f)
                (answered r.0))
            p e)
        (λ _. e)
    where
      answered :
          (ret : Ret)
          → Frees {A = Option (ℕ × ℕ)} (elim ret [
            | code x ↦ fail x
            | count n ↦
                if n == req
                then (λ q. ok (some (avail - rsp_hdr_words, body_words q.rsp)) q)
                else pure none
          ])
      answered (code x) = λ q f. f
      answered (count n) = if_Keeps false (n == req) _ (pure none) (λ q f. f) (λ q f. f)

  dispatch-Frees : Frees (dispatch b c)
  unfolding dispatch proc_queue_rsp
  dispatch-Frees p e =
      Post-if (Mutex false) (Mutex false) Undead (p.rsp.grp == 0) _ _
        (λ _.
          if_Keeps false (p.rsp.cmd_type == 1 || p.rsp.cmd_type == 4) (pure tt) (fail einval)
            (λ q f. f) (λ q f. f) p e)
        (λ _.
          ignored (λ q. q.held ≡ false) (c.rx p.spec.rx_fcn p.rsp p.spec.priv p)
            (i.rx_lem p.spec.rx_fcn p.rsp p.spec.priv p e))

  next_message-Frees : (avail req : ℕ) → Frees (next_message b c avail req)
  unfolding next_message
  next_message-Frees avail req =
      then-Keeps false (modify (λ p. let r = p.rsp in record p { rsp = record r { len = 0 } })) _
        (λ p e. e)
        (bind-Keeps false (refill b c (avail - req) 2) _ (refill-Frees (avail - req) 2) (λ avail'.
          then-Keeps false (push_rd_ptr b) (pure avail') (push_rd_ptr-Frees b u) (λ p e. e)))

  -- A test, and what there may be, as the loop has them.
  split-Frees :
      {A : Type 0} (t : Bool) (m n : M (Port b.W) A)
      → Frees m
      → Frees n
      → Frees (elim t [ false ↦ m | true ↦ n ])
  split-Frees false m n h k = h
  split-Frees true m n h k = k

  perhaps-Frees :
      {A B : Type 0} (o : Option A) (m : M (Port b.W) B) (f : A → M (Port b.W) B)
      → Frees m
      → ((a : A) → Frees (f a))
      → Frees (elim o [ none ↦ m | some a ↦ f a ])
  perhaps-Frees none m f h k = h
  perhaps-Frees (some a) m f h k = k a

  proc_loop-Frees : (n avail req : ℕ) → Frees (proc_loop b c n avail req)
  unfolding proc_loop
  proc_loop-Frees zero avail req = λ p e. tt
  proc_loop-Frees (suc n) avail req =
      split-Frees (leb req avail) (pure tt) _ (λ p e. e)
        (bind-Keeps false (read_header b c avail req) _ (read_header-Frees avail req) (λ h.
          perhaps-Frees h (pure tt) _ (λ p e. e)
            (λ x. bind-Keeps false (refill b c x.0 x.1) _ (refill-Frees x.0 x.1) (λ avail2.
              split-Frees (ltb avail2 x.1) _ (pure tt)
                (then-Keeps false (dispatch b c) _ dispatch-Frees (
                  bind-Keeps false (next_message b c avail2 x.1) _ (next_message-Frees avail2 x.1)
                    (λ avail3. proc_loop-Frees n avail3 2)))
                (λ p e. e)))))

  pub proc_data-Frees : (fuel : ℕ) → Frees (proc_data b c fuel)
  unfolding proc_data
  proc_data-Frees fuel =
      then-Keeps false (pull_wr_ptr b) _ (pull_wr_ptr-Frees b u) (λ p. proc_loop-Frees fuel _ _ p)

  abbrev notify : M (Port b.W) ℕ
  notify p = c.notify_tx p.spec.notify_tx_fcn p.spec.priv (get_free_words b.genmask p.spec.q_data) p

  abbrev notified : ℕ → M (Info b.W) (Unit {0})
  notified ch = ignore_error (on ch notify)

  irq_queue_frees : (fuel s2m_mbox ch : ℕ) → Freely (irq_queue b c fuel s2m_mbox ch)
  unfolding irq_queue
  irq_queue_frees fuel s2m_mbox ch s e =
      let flags = (s.queues ch).q_data.flags in
      Post-if Free Free Undead
        (not (flags_get_in_use b.genmask flags == 0) && not (s2m_mbox / 2 ^ ch % 2 == 0)) _
        (pure tt s)
        (λ _.
          Post-if Free Free Undead (flags_get_dir b.genmask flags == 1) _
            (if s.blocked_writer then notified ch s else pure tt s)
            (λ _. on_Freely ch (proc_data b c fuel) (proc_data-Frees fuel) s e)
            (λ _.
              Post-if Free Free Undead s.blocked_writer (notified ch s) (pure tt s)
                (λ _.
                  ignored (λ t. t.held ≡ false) (on ch notify s)
                    (on_Freely ch notify
                      (λ p f.
                        i.notify_tx_lem p.spec.notify_tx_fcn p.spec.priv
                          (get_free_words b.genmask p.spec.q_data) p f)
                      s e))
                (λ _. e)))
        (λ _. e)

  irq_queues_frees : (fuel s2m_mbox n ch : ℕ) → Freely (irq_queues b c fuel s2m_mbox n ch)
  unfolding irq_queues
  irq_queues_frees fuel s2m_mbox zero ch = λ s e. e
  irq_queues_frees fuel s2m_mbox (suc n) ch =
      then-Freely (irq_queue b c fuel s2m_mbox ch) _ (irq_queue_frees fuel s2m_mbox ch)
        (irq_queues_frees fuel s2m_mbox n (ch + 1))

  -- The interrupt is enabled again, or the work is queued.
  abbrev turn : ℕ → M (Info b.W) (Unit {0})
  turn x = if x == 0 then c.enable_irq else (do c.queue_delayed_work; pure tt)

  -- An interrupt, over a bus of which no access ends in a deadlock and with callbacks that leave the
  -- mutex as they find it, never locks the mutex twice if it is free before, and leaves it free
  -- whether it succeeds or fails, however many messages there are.
  pub irq_run-Free :
      (fuel : ℕ) (s : Info b.W) → s.held ≡ false → Post Free Free Undead (irq_run b c fuel s)
  unfolding irq_run
  irq_run-Free fuel =
      bind-Freely (on 0 (get_s2m_mbx b)) _ (on_Freely 0 (get_s2m_mbx b) (get_s2m_mbx-Frees b u))
        (λ x.
          then-Freely (turn x) (irq_queues b c fuel x 6 0)
            (λ s e.
              Post-if_run Free Free Undead (x == 0) c.enable_irq _ s (λ _. i.enable_irq_lem s e)
                (λ _.
                  bind-Freely c.queue_delayed_work (λ _. pure tt) i.queue_delayed_work_lem
                    (λ _ t f. f) s e))
            (irq_queues_frees fuel x 6 0))
