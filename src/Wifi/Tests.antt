-- ===== src/Wifi/Tests.antt =====
-- Runs of the packets of linux_kernel_modules/mt7697wifi on a kernel that keeps what is written, the
-- last packet first.
use mang_oh.Mt7697.Queue.State.{RspHdr}
use mang_oh.Prelude.{
  ℕ, ◌+◌, ◌*◌, ◌≡◌, refl, true, List, [], ◌∷◌, Option, none, some, replicate, arith,
}
use mathlib.Core.Path.{subst}
use mang_oh.Prelude.Monad.{ok, after, Does}
use mang_oh.Mt7697.Queue.Receive.{len_to_word}
use mang_oh.Wifi.{Skb, NetRx, Kernel, Stats, Cfg}
use mang_oh.Wifi.Transmit.{
  init_tx, wr_tx_raw_packet, make_headroom, enqueue, data_tx, send_packet, tx_packet, tx_loop,
  tx_work,
}
use mang_oh.Wifi.Fifo.{Fifo, Op, submits, works, serve, run}
use mang_oh.Wifi.Slots.{IsKernel, Refines, init_tx-Refines}
use mang_oh.Wifi.Refining.{run-serve}
use mang_oh.Wifi.Freeing.{occurs, run-occurs}

abbrev air : Kernel
air = record {
  W = List (List ℕ);
  needed_headroom = 4;
  skb_realloc_headroom =
      λ skb n w. (some (record { address = 99; headroom = n; bytes = skb.bytes }), w);
  queue_work = λ w. ok 1 w;
  write = λ req n w. ok n (req.payload ∷ w);
  unblock_writer = λ w. w;
  workq_len = λ w. 0;
  read = λ n w. ok (replicate (4 * n) 7, n) w;
  dev_alloc_skb = λ n w. (some 5, w);
  netif_rx_ni = λ skb w. (NetRx.success, skb.bytes ∷ w);
}

abbrev air_works : IsKernel air
air_works = record {
  queue_work_lem = λ w. (1, record { next = w; returned = refl; result = tt });
  write_lem = λ req n w. tt;
  realloc_lem = λ skb new n w e. subst (λ x. bytes_of x ≡ skb.bytes) e refl;
}
  where
    bytes_of : Option Skb → List ℕ
    bytes_of none = []
    bytes_of (some s) = s.bytes

abbrev zero_stats : Stats
zero_stats = record {
  tx_packets = 0;
  tx_bytes = 0;
  tx_errors = 0;
  tx_dropped = 0;
  tx_aborted_errors = 0;
  rx_packets = 0;
  rx_bytes = 0;
  rx_errors = 0;
  rx_dropped = 0;
  rx_length_errors = 0;
}

abbrev cfg : Cfg (List (List ℕ))
cfg = record {
  vif_list = record { fw_vif_idx = 0; up = true } ∷ [];
  vif_max = 1;
  tx_skb_pool_idx = 9;
  tx_skb_pool = λ i. none;
  tx_skb_list = [];
  tx_skb_queue = [];
  rx_data = replicate 64 0;
  net_stats = zero_stats;
  freed = [];
  hw = [];
}

abbrev first : Skb
first = record { address = 1; headroom = 4; bytes = replicate 40 1 }

abbrev second : Skb
second = record { address = 2; headroom = 6; bytes = replicate 30 2 }

abbrev empty_fifo : Fifo (List (List ℕ))
empty_fifo = record { pending = []; freed = []; hw = [] }

abbrev turns : List Op
turns = submits first ∷ works ∷ submits second ∷ submits first ∷ works ∷ []

-- Both packets are written, in order, and freed.
run-hw :
    (after (run air turns (init_tx cfg)) cfg).hw
    ≡ replicate 40 1 ∷ replicate 30 2 ∷ replicate 40 1 ∷ []
unfolding run init_tx data_tx make_headroom enqueue tx_work tx_loop tx_packet send_packet
    wr_tx_raw_packet len_to_word
run-hw = refl

run-serve_example :
    Does
      (run air turns (init_tx cfg))
      (serve air turns empty_fifo).0
      (Refines (serve air turns empty_fifo).1)
run-serve_example =
    run-serve air air_works turns empty_fifo (init_tx cfg) (init_tx-Refines cfg)
      (omega arith, (omega arith, (omega arith, tt)))

run-occurs_example :
    Does
      (run air turns (init_tx cfg))
      (serve air turns empty_fifo).0
      (λ u. occurs 1 u.freed ≡ 2 + (0 + 0))
unfolding init_tx
run-occurs_example =
    run-occurs air air_works (submits first ∷ works ∷ submits second ∷ submits first ∷ [])
      empty_fifo (init_tx cfg) (init_tx-Refines cfg) (omega arith, (omega arith, (omega arith, tt)))
      (omega arith, (omega arith, (omega arith, tt))) 1

abbrev message : RspHdr
message = record { len = 12; grp = 2; cmd_type = 0; result = 31 }
