-- ===== src/Mt7697/Queue/Lifecycle.antt =====
-- The mutex of the queues at the start and the end of the use of a pair of queues:
-- linux_kernel_modules/mt7697q/queue.c, mt7697q_init and mt7697q_shutdown.
use mang_oh.Prelude.{ℕ, Bool, false, ◌||◌, ◌≡◌, none, List, leb, ◌==◌, if◌then◌else◌}
use mang_oh.Prelude.Monad.{M, pure, fail, einval, eio, ◌>>◌}
use mang_oh.Prelude.Outcome.{Post, Post-if_run}
use mang_oh.Mt7697.Bus.{Bus}
use mang_oh.Mt7697.Queue.Pointers.{modify, read_state}
use mang_oh.Mt7697.Queue.Transfer.{write}
use mang_oh.Mt7697.Queue.Info.{Info, on, set_spec}
use mang_oh.Mt7697.Queue.Control.{
  send, request, wr_init, wr_unused, init, shutdown, set_in_use, clear_in_use, with_flags,
}
use mang_oh.Mt7697.Queue.Mutex.{Undead, IsUndead, Keeps, bind-Keeps, if_Keeps}
use mang_oh.Mt7697.Queue.Locking.{write-Frees, read_state-Frees}
use mang_oh.Mt7697.Queue.Interrupts.{Free, Freely, then-Freely, on_Freely}

module _ (b : Bus) (u : IsUndead b) where
  send_frees : (req : List ℕ) → Keeps false (send b req)
  unfolding send
  send_frees req =
      bind-Keeps false (write b req) _ (write-Frees b u req)
        (λ n. if_Keeps false (n == 3) (pure 0) (fail eio) (λ p e. e) (λ p e. e))

  abbrev set_tx : ℕ → ℕ → ℕ → Info b.W → Info b.W
  set_tx tx_ch priv notify_tx_fcn s =
      set_spec tx_ch
        (record (s.queues tx_ch) { ch = tx_ch; priv = priv; notify_tx_fcn = notify_tx_fcn }) s

  abbrev set_rx : ℕ → ℕ → ℕ → Info b.W → Info b.W
  set_rx rx_ch priv rx_fcn s =
      set_spec rx_ch (record (s.queues rx_ch) { ch = rx_ch; rx_fcn = rx_fcn; priv = priv }) s

  abbrev use_queue : ℕ → Info b.W → Info b.W
  use_queue ch s = set_spec ch (with_flags (set_in_use b.genmask) (s.queues ch)) s

  -- The steps of mt7697q_init after its checks.
  abbrev steps : ℕ → ℕ → ℕ → ℕ → ℕ → M (Info b.W) (ℕ × ℕ)
  steps tx_ch rx_ch priv notify_tx_fcn rx_fcn = do
    modify (set_tx tx_ch priv notify_tx_fcn)
    modify (λ s. record s { blocked_writer = false })
    modify (set_rx rx_ch priv rx_fcn)
    on tx_ch (read_state b tx_ch)
    on rx_ch (read_state b rx_ch)
    modify (use_queue tx_ch)
    modify (use_queue rx_ch)
    on tx_ch (wr_init b tx_ch rx_ch)
    pure (tx_ch, rx_ch)

  steps-Freely :
      (tx_ch rx_ch priv notify_tx_fcn rx_fcn : ℕ)
      → Freely (steps tx_ch rx_ch priv notify_tx_fcn rx_fcn)
  unfolding wr_init
  steps-Freely tx_ch rx_ch priv notify_tx_fcn rx_fcn =
      then-Freely (modify (set_tx tx_ch priv notify_tx_fcn)) _ (λ s e. e)
        (then-Freely (modify (λ s. record s { blocked_writer = false })) _ (λ s e. e)
          (then-Freely (modify (set_rx rx_ch priv rx_fcn)) _ (λ s e. e)
            (then-Freely (on tx_ch (read_state b tx_ch)) _
              (on_Freely tx_ch (read_state b tx_ch) (read_state-Frees b u tx_ch))
              (then-Freely (on rx_ch (read_state b rx_ch)) _
                (on_Freely rx_ch (read_state b rx_ch) (read_state-Frees b u rx_ch))
                (then-Freely (modify (use_queue tx_ch)) _ (λ s e. e)
                  (then-Freely (modify (use_queue rx_ch)) _ (λ s e. e)
                    (then-Freely (on tx_ch (wr_init b tx_ch rx_ch)) (pure (tx_ch, rx_ch))
                      (on_Freely tx_ch (wr_init b tx_ch rx_ch) (send_frees (request 0 tx_ch rx_ch)))
                      (λ s e. e))))))))

  -- The start of the use of a pair of queues, over a bus of which no access ends in a deadlock and
  -- with the mutex free, never locks the mutex twice, and leaves it free whether it succeeds or fails.
  pub init-Free :
      (found : Bool) (tx_ch rx_ch priv notify_tx_fcn rx_fcn : ℕ) (s : Info b.W)
      → s.held ≡ false
      → Post Free Free Undead (init b found tx_ch rx_ch priv notify_tx_fcn rx_fcn s)
  unfolding init wr_init
  init-Free found tx_ch rx_ch priv notify_tx_fcn rx_fcn s e =
      let body =
        if leb 6 tx_ch || leb 6 rx_ch
        then fail einval
        else steps tx_ch rx_ch priv notify_tx_fcn rx_fcn in
      Post-if_run Free Free Undead found body (fail einval) s
        (λ _.
          Post-if_run Free Free Undead (leb 6 tx_ch || leb 6 rx_ch) (fail einval)
            (steps tx_ch rx_ch priv notify_tx_fcn rx_fcn) s (λ _. e)
            (λ _. steps-Freely tx_ch rx_ch priv notify_tx_fcn rx_fcn s e))
        (λ _. e)

  -- The end of the use of a pair of queues, over a bus of which no access ends in a deadlock and with
  -- the mutex free, never locks the mutex twice, and leaves it free whether it succeeds or fails.
  pub shutdown-Free :
      (tx_hndl rx_hndl : ℕ) (s : Info b.W)
      → s.held ≡ false
      → Post Free Free Undead (shutdown b tx_hndl rx_hndl s)
  unfolding shutdown wr_unused
  shutdown-Free tx_hndl rx_hndl =
      then-Freely (wr_unused b tx_hndl rx_hndl) (pure (none, none))
        (λ s.
          let req = request 2 (s.queues tx_hndl).ch (s.queues rx_hndl).ch in
          then-Freely
            (modify
              (λ t. set_spec tx_hndl (with_flags (clear_in_use b.genmask) (t.queues tx_hndl)) t))
            _ (λ t e. e)
            (then-Freely
              (modify
                (λ t. set_spec rx_hndl (with_flags (clear_in_use b.genmask) (t.queues rx_hndl)) t))
              _ (λ t e. e) (on_Freely tx_hndl (send b req) (send_frees req)))
            s)
        (λ s e. e)
