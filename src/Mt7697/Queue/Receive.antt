-- ===== src/Mt7697/Queue/Receive.antt =====
-- What happens at an interrupt: linux_kernel_modules/mt7697q/queue.c, mt7697q_proc_data, and
-- interrupt.c, mt7697q_irq_run. The clients' callbacks and the work queue are parameters.
use mang_oh.Prelude.{
  ℕ, zero, suc, ◌+◌, ◌-◌, ◌/◌, ◌%◌, ◌^◌, Bool, true, false, not, ◌&&◌, Option, none, some, List, [],
  ◌∷◌, ltb, leb, ◌==◌, get_or, if◌then◌else◌,
}
use mang_oh.Prelude.Monad.{M, ok, err, halt, pure, fail, stop, spin, ◌>>=◌, ◌>>◌}
use mang_oh.Mt7697.Bus.{Bus}
use mang_oh.Mt7697.Queue.State.{
  RspHdr, Port, sub32, get_num_words, get_free_words, flags_get_in_use, flags_get_dir,
}
use mang_oh.Mt7697.Queue.Pointers.{modify, pull_wr_ptr, push_rd_ptr}
use mang_oh.Mt7697.Queue.Transfer.{count, code, read}
use mang_oh.Mt7697.Queue.Info.{Info, on}
use mang_oh.Mt7697.Queue.Control.{num_queues, get_s2m_mbx, proc_queue_rsp}

-- LEN_TO_WORD
unfoldable pub len_to_word : ℕ → ℕ
len_to_word x = x / 4 + (if x % 4 == 0 then 0 else 1)

-- sizeof(struct mt7697_rsp_hdr), and in words
abbrev pub rsp_hdr_size : ℕ
rsp_hdr_size = 8

abbrev pub rsp_hdr_words : ℕ
rsp_hdr_words = 2

abbrev pub grp_queue : ℕ
grp_queue = 0

abbrev pub dir_s2m : ℕ
dir_s2m = 1

-- Words laid over `struct mt7697_rsp_hdr`, or as many as have come.
unfoldable pub load_rsp : List ℕ → RspHdr → RspHdr
load_rsp [] r = r
load_rsp (w ∷ ws) r = record {
  len = w % 2 ^ 16;
  grp = w / 2 ^ 16 % 2 ^ 8;
  cmd_type = w / 2 ^ 24;
  result = get_or ws 0 r.result;
}

-- The words that the message announced by the header has behind it.
unfoldable pub body_words : RspHdr → ℕ
unfolding len_to_word
body_words r = len_to_word (sub32 r.len rsp_hdr_size)

-- What the clients of the queues give the driver, and the kernel's work queue.
pub record Clients (b : Bus) : Type 0 where
  -- qs->rx_fcn and qs->notify_tx_fcn, called with the queue's `priv`
  pub rx : ℕ → RspHdr → ℕ → M (Port b.W) ℕ
  pub notify_tx : ℕ → ℕ → ℕ → M (Port b.W) ℕ
  -- queue_delayed_work: whether the work was queued; enable_irq
  pub queue_delayed_work : M (Info b.W) Bool
  pub enable_irq : M (Info b.W) (Unit {0})

-- A callback whose failure is only logged.
abbrev pub ignore_error : {S A : Type 0} → M S A → M S (Unit {0})
ignore_error m s = elim (m s) [ ok a t ↦ ok tt t | err e t ↦ ok tt t | halt f ↦ halt f ]

module _ (b : Bus) (c : Clients b) where
  open b use {W, genmask}

  abbrev num_words : Port W → ℕ
  num_words p = get_num_words genmask p.spec.q_data

  -- `pull_wr_ptr` if there is less than `req`; the result is `avail`.
  unfoldable pub refill : ℕ → ℕ → M (Port W) ℕ
  unfolding pull_wr_ptr
  refill avail req =
      if ltb avail req then (do pull_wr_ptr b; (λ p. ok (num_words p) p)) else pure avail

  -- The header, read if none is there. `none` ends the call: the read was short.
  unfoldable pub read_header : ℕ → ℕ → M (Port W) (Option (ℕ × ℕ))
  unfolding read load_rsp body_words
  read_header avail req p =
      if p.rsp.len == 0
      then (do
        (ret, ws) ← read b req
        modify (λ q. record q { rsp = load_rsp ws q.rsp })
        elim ret [
          | code e ↦ fail e
          | count n ↦
              if n == req
              then (λ q. ok (some (avail - rsp_hdr_words, body_words q.rsp)) q)
              else pure none
        ])
          p
      else ok (some (avail, req)) p

  -- The handler of a message, by its group.
  unfoldable pub dispatch : M (Port W) (Unit {0})
  unfolding proc_queue_rsp
  dispatch p =
      if p.rsp.grp == grp_queue
      then proc_queue_rsp b p.rsp p
      else ignore_error (c.rx p.spec.rx_fcn p.rsp p.spec.priv) p

  -- What follows the handler: the next message's first `avail`.
  unfoldable pub next_message : ℕ → ℕ → M (Port W) ℕ
  unfolding refill push_rd_ptr
  next_message avail req = do
    modify (λ p. let r = p.rsp in record p { rsp = record r { len = 0 } })
    avail' ← refill (avail - req) rsp_hdr_words
    push_rd_ptr b
    pure avail'

  -- The loop `while (avail >= req)`; the fuel bounds the messages of one call.
  unfoldable pub proc_loop : ℕ → ℕ → ℕ → M (Port W) (Unit {0})
  unfolding read_header refill dispatch next_message
  proc_loop zero avail req = stop spin
  proc_loop (suc n) avail req = elim (leb req avail) [
    | false ↦ pure tt
    | true ↦ (do
      h ← read_header avail req
      elim h [
        | none ↦ pure tt
        | some (avail1, req1) ↦ (do
          avail2 ← refill avail1 req1
          elim (ltb avail2 req1) [
            | true ↦ pure tt
            | false ↦ (do
              dispatch
              avail3 ← next_message avail2 req1
              proc_loop n avail3 rsp_hdr_words)
          ])
      ])
  ]

  unfoldable pub proc_data : ℕ → M (Port W) (Unit {0})
  unfolding proc_loop body_words pull_wr_ptr
  proc_data fuel = do
    pull_wr_ptr b
    (λ p.
        proc_loop fuel (num_words p) (if ltb 0 p.rsp.len then body_words p.rsp else rsp_hdr_words)
          p)

  -- One queue's turn at an interrupt: data for the driver, or room for a writer that waits.
  unfoldable pub irq_queue : ℕ → ℕ → ℕ → M (Info W) (Unit {0})
  unfolding proc_data flags_get_in_use flags_get_dir get_free_words on
  irq_queue fuel s2m_mbox ch s =
      let flags = (s.queues ch).q_data.flags in
      if not (flags_get_in_use genmask flags == 0) && not (s2m_mbox / 2 ^ ch % 2 == 0)
      then if flags_get_dir genmask flags == dir_s2m
        then on ch (proc_data fuel) s
        else if s.blocked_writer
        then ignore_error
            (on ch (λ p.
              c.notify_tx p.spec.notify_tx_fcn p.spec.priv (get_free_words genmask p.spec.q_data)
                p))
            s
        else pure tt s
      else pure tt s

  unfoldable pub irq_queues : ℕ → ℕ → ℕ → ℕ → M (Info W) (Unit {0})
  unfolding irq_queue
  irq_queues fuel s2m_mbox zero ch = pure tt
  irq_queues fuel s2m_mbox (suc n) ch = do
    irq_queue fuel s2m_mbox ch
    irq_queues fuel s2m_mbox n (ch + 1)

  -- The return code of mt7697q_irq_run goes to the log of its callers alone: an error stands here
  -- for a failure that ends the call, and one that the code goes on after (a work item that is not
  -- queued, a writer's callback) is left out.
  unfoldable pub irq_run : ℕ → M (Info W) (Unit {0})
  unfolding get_s2m_mbx irq_queues on
  irq_run fuel = do
    s2m_mbox ← on 0 (get_s2m_mbx b)
    if s2m_mbox == 0 then c.enable_irq else (do c.queue_delayed_work; pure tt)
    irq_queues fuel s2m_mbox num_queues 0
