-- ===== src/Wifi/Transmit.antt =====
-- The packets that are sent, linux_kernel_modules/mt7697wifi/txrx.c.
use mang_oh.Prelude.{
  ℕ, ◌+◌, ◌%◌, ◌^◌, ◌*◌, List, [], ◌∷◌, ◌++◌, Option, none, some, length, ltb, leb, ◌==◌,
  if◌then◌else◌,
}
use mang_oh.Prelude.Monad.{M, ok, err, halt, bug, overflow, eio, ◌>>◌}
use mang_oh.Mt7697.Queue.Receive.{len_to_word}
use mang_oh.Wifi.{
  pool_len, max_frame_len, hdr_len, Skb, Stats, TxRawPacket, Kernel, Cfg, add32, kfree_skb, count,
}

-- NETDEV_TX_OK and NETDEV_TX_BUSY
pub data NetdevTx : Type 0 where
  tx_ok tx_busy : NetdevTx

abbrev pub tx_error : Stats → Stats
tx_error n = record n { tx_errors = add32 n.tx_errors 1 }

abbrev pub tx_drop : Stats → Stats
tx_drop n = record n { tx_dropped = add32 n.tx_dropped 1 }

abbrev pub tx_abort : Stats → Stats
tx_abort n = record n {
  tx_dropped = add32 n.tx_dropped 1;
  tx_aborted_errors = add32 n.tx_aborted_errors 1;
}

abbrev pub tx_done : ℕ → Stats → Stats
tx_done len n = record n { tx_packets = add32 n.tx_packets 1; tx_bytes = add32 n.tx_bytes len }

abbrev pub set : {A : Type 0} → (ℕ → A) → ℕ → A → ℕ → A
set f i a j = if j == i then a else f j

-- list_del
abbrev pub list_del : ℕ → List ℕ → List ℕ
list_del i [] = []
list_del i (j ∷ js) = let rest = list_del i js in if i == j then js else j ∷ rest

-- The index after another one.
abbrev pub next_idx : ℕ → ℕ
next_idx i = if leb pool_len (i + 1) then 0 else i + 1

abbrev pub raw_packet : List ℕ → TxRawPacket
raw_packet bytes = record {
  cmd_len = (4 + 4 + length bytes) % 2 ^ 16;
  len = length bytes;
  payload = bytes;
}

-- LEN_TO_WORD(LEN32_ALIGNED(cmd.len))
abbrev pub packet_words : TxRawPacket → ℕ
packet_words req = len_to_word (len_to_word req.cmd_len * 4)

-- __skb_queue_purge
abbrev pub purge : List Skb → List ℕ → List ℕ
purge [] freed = freed
purge (skb ∷ skbs) freed = purge skbs (skb.address ∷ freed)

-- The sender as main.c sets it up.
unfoldable pub init_tx : {W : Type 0} → Cfg W → Cfg W
init_tx s = record s {
  tx_skb_list = [];
  tx_skb_pool_idx = 0;
  tx_skb_pool = λ i. none;
  tx_skb_queue = [];
}

module _ (k : Kernel) where
  open k use {
    W, needed_headroom, skb_realloc_headroom, queue_work, write, unblock_writer, workq_len,
  }

  unfoldable pub wr_tx_raw_packet : List ℕ → M W (Unit {0})
  wr_tx_raw_packet bytes w =
      let req = raw_packet bytes in
      if ltb max_frame_len (length bytes)
      then halt overflow
      else elim (write req (packet_words req) w) [
        | ok ret v ↦ if ret == packet_words req then ok tt v else err eio v
        | err e v ↦ err e v
        | halt f ↦ halt f
      ]

  abbrev pub schedule : M (Cfg W) ℕ
  schedule s = elim (queue_work s.hw) [
    | ok ret w ↦ ok ret (record s { hw = w })
    | err e w ↦ err e (record s { hw = w })
    | halt f ↦ halt f
  ]

  -- The head of the list is taken for a packet: its `skb` is the member behind the list.
  unfoldable pub notify_tx : ℕ → M (Cfg W) ℕ
  notify_tx free s = elim s.tx_skb_list [
    | [] ↦ ok 0 s
    | i ∷ is ↦
        if leb free (workq_len s.hw)
        then schedule (record s { hw = unblock_writer s.hw })
        else ok 0 s
  ]

  -- The packet with the room that the interface needs, or NULL.
  unfoldable pub make_headroom : Skb → Cfg W → Option Skb × Cfg W
  make_headroom skb s =
      if ltb skb.headroom needed_headroom
      then (let (new, w) = skb_realloc_headroom skb needed_headroom s.hw in
          (new, kfree_skb skb (record s { hw = w })))
      else (some skb, s)

  -- The packet in the pool and at the end of the list.
  abbrev pub put_packet : Skb → Cfg W → Cfg W
  put_packet skb s = record s {
    tx_skb_pool_idx = next_idx s.tx_skb_pool_idx;
    tx_skb_pool = set s.tx_skb_pool s.tx_skb_pool_idx (some skb);
    tx_skb_list = s.tx_skb_list ++ s.tx_skb_pool_idx ∷ [];
  }

  unfoldable pub enqueue : Skb → M (Cfg W) NetdevTx
  enqueue skb s =
      if ltb s.tx_skb_pool_idx pool_len
      then elim (s.tx_skb_pool s.tx_skb_pool_idx) [
        | some _ ↦ ok tx_busy (kfree_skb skb (count tx_abort s))
        | none ↦ elim (schedule (put_packet skb s)) [
          | ok ret t ↦ ok tx_ok t
          | err e t ↦ ok tx_busy (kfree_skb skb (count tx_abort t))
          | halt f ↦ halt f
        ]
      ]
      else halt overflow

  unfoldable pub data_tx : Skb → M (Cfg W) NetdevTx
  unfolding make_headroom enqueue
  data_tx skb s =
      let (found, t) = make_headroom skb s in
      elim found [ none ↦ ok tx_ok (count tx_abort t) | some new ↦ enqueue new t ]

  -- The length is checked, and the packet sent all the same.
  abbrev pub check_len : Skb → Cfg W → Cfg W
  check_len skb = count (λ n. if ltb (length skb.bytes) hdr_len then tx_error n else n)

  unfoldable pub send_packet : Skb → M (Cfg W) (Unit {0})
  unfolding wr_tx_raw_packet
  send_packet skb s = elim (wr_tx_raw_packet skb.bytes s.hw) [
    | ok a w ↦ ok tt (record s { hw = w })
    | err e w ↦ ok tt (count tx_error (record s { hw = w }))
    | halt f ↦ halt f
  ]

  abbrev pub finish_packet : ℕ → Skb → Cfg W → Cfg W
  finish_packet i skb s = record s {
    tx_skb_pool = set s.tx_skb_pool i none;
    tx_skb_list = list_del i s.tx_skb_list;
    tx_skb_queue = s.tx_skb_queue ++ skb ∷ [];
    net_stats = tx_done (length skb.bytes) s.net_stats;
  }

  unfoldable pub tx_packet : ℕ → M (Cfg W) (Unit {0})
  unfolding send_packet
  tx_packet i s = elim (s.tx_skb_pool i) [
    | none ↦ halt bug
    | some skb ↦ elim (send_packet skb (check_len skb s)) [
      | ok a t ↦ ok tt (finish_packet i skb t)
      | err e t ↦ err e t
      | halt f ↦ halt f
    ]
  ]

  unfoldable pub tx_loop : List ℕ → M (Cfg W) (Unit {0})
  unfolding tx_packet
  tx_loop [] s = ok tt s
  tx_loop (i ∷ is) s = (do tx_packet i; tx_loop is) s

  abbrev pub purge_queue : M (Cfg W) (Unit {0})
  purge_queue s = ok tt (record s { tx_skb_queue = []; freed = purge s.tx_skb_queue s.freed })

  unfoldable pub tx_work : M (Cfg W) (Unit {0})
  unfolding tx_loop
  tx_work s = (do tx_loop s.tx_skb_list; purge_queue) s

  unfoldable pub stop_loop : List ℕ → M (Cfg W) (Unit {0})
  stop_loop [] s = ok tt s
  stop_loop (i ∷ is) s = elim (s.tx_skb_pool i) [
    | none ↦ halt bug
    | some skb ↦ stop_loop is (count tx_drop (record s { tx_skb_list = list_del i s.tx_skb_list }))
  ]

  unfoldable pub tx_stop : M (Cfg W) (Unit {0})
  unfolding stop_loop
  tx_stop s = stop_loop s.tx_skb_list s
