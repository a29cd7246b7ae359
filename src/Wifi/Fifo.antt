-- ===== src/Wifi/Fifo.antt =====
-- What the sender of linux_kernel_modules/mt7697wifi/txrx.c promises, apart from its pool and its
-- list: a queue of at most 256 packets, which are written in order.
use mang_oh.Prelude.{ℕ, List, [], ◌∷◌, ◌++◌, none, some, length, ltb, if◌then◌else◌}
use mang_oh.Prelude.Monad.{M, ok, after, pure, ◌>>=◌, ◌>>◌}
use mang_oh.Wifi.{Skb, Kernel, Cfg}
use mang_oh.Wifi.Transmit.{NetdevTx, tx_ok, tx_busy, wr_tx_raw_packet, purge, data_tx, tx_work}

-- The packets that wait, the addresses that were freed, and the kernel.
pub record Fifo (W : Type 0) : Type 0 where
  pub pending : List Skb
  pub freed : List ℕ
  pub hw : W

-- A packet of the network stack, or a turn of the work item.
pub data Op : Type 0 where
  submits : Skb → Op
  works : Op

module _ (k : Kernel) where
  open k use {W}

  -- The kernel after the packets are written one after the other; a packet whose write fails is lost.
  unfoldable pub send_all : List Skb → W → W
  send_all [] w = w
  send_all (p ∷ ps) w = send_all ps (after (wr_tx_raw_packet k p.bytes w) w)

  unfoldable pub offer : Skb → Fifo W → NetdevTx × Fifo W
  offer skb q =
      if ltb (length q.pending) 256
      then (
        tx_ok,
        record q { pending = q.pending ++ skb ∷ []; hw = after (k.queue_work q.hw) q.hw },
      )
      else (tx_busy, record q { freed = skb.address ∷ q.freed })

  -- A packet without the room that the interface needs is replaced by a copy, or dropped.
  unfoldable pub submit : Skb → Fifo W → NetdevTx × Fifo W
  unfolding offer
  submit skb q =
      if ltb skb.headroom k.needed_headroom
      then (let (new, w) = k.skb_realloc_headroom skb k.needed_headroom q.hw in
          let moved = record q { freed = skb.address ∷ q.freed; hw = w } in
          elim new [ none ↦ (tx_ok, moved) | some p ↦ offer p moved ])
      else offer skb q

  unfoldable pub work : Fifo W → Fifo W
  unfolding send_all
  work q = record { pending = []; freed = purge q.pending q.freed; hw = send_all q.pending q.hw }

  unfoldable pub serve : List Op → Fifo W → List NetdevTx × Fifo W
  unfolding submit work
  serve [] q = ([], q)
  serve (submits skb ∷ os) q =
      let (a, r) = submit skb q in let (rest, u) = serve os r in (a ∷ rest, u)
  serve (works ∷ os) q = serve os (work q)

  -- The code, with what it answers to the network stack.
  unfoldable pub run : List Op → M (Cfg W) (List NetdevTx)
  run [] s = ok [] s
  run (submits skb ∷ os) s = (do a ← data_tx k skb; rest ← run os; pure (a ∷ rest)) s
  run (works ∷ os) s = (do tx_work k; run os) s
