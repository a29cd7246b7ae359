-- ===== src/Wifi/Receive.antt =====
-- The packets that are received, linux_kernel_modules/mt7697wifi/txrx.c, and the reading of one in
-- wmi.c, with the lookup of an interface in cfg80211.c.
use mang_oh.Prelude.{
  ℕ, ◌+◌, ◌-◌, ◌*◌, ◌%◌, ◌^◌, Bool, ◌||◌, List, [], ◌∷◌, ◌++◌, Option, none, some, length, take,
  drop, ltb, leb, ◌==◌, if◌then◌else◌,
}
use mang_oh.Prelude.Monad.{M, ok, err, halt, bug, einval, enomem, eio}
use mang_oh.Mt7697.Queue.State.{RspHdr}
use mang_oh.Mt7697.Queue.Receive.{len_to_word}
use mang_oh.Wifi.{
  max_frame_len, hdr_len, Skb, Stats, NetRx, Kernel, Vif, Cfg, add32, kfree_skb, count,
}

abbrev find_vif : ℕ → List Vif → Option Vif
find_vif i [] = none
find_vif i (v ∷ vs) = let rest = find_vif i vs in if v.fw_vif_idx == i then some v else rest

unfoldable pub get_vif_by_idx : {W : Type 0} → ℕ → Cfg W → Option Vif
get_vif_by_idx if_idx s =
    if ltb ((s.vif_max + (2 ^ 32 - 1)) % 2 ^ 32) if_idx then none else find_vif if_idx s.vif_list

abbrev pub rx_error : Stats → Stats
rx_error n = record n { rx_dropped = add32 n.rx_dropped 1; rx_errors = add32 n.rx_errors 1 }

abbrev pub rx_length_error : Stats → Stats
rx_length_error n = record n { rx_length_errors = add32 n.rx_length_errors 1 }

abbrev pub rx_drop : Stats → Stats
rx_drop n = record n { rx_dropped = add32 n.rx_dropped 1 }

abbrev pub rx_done : ℕ → Stats → Stats
rx_done len n = record n { rx_packets = add32 n.rx_packets 1; rx_bytes = add32 n.rx_bytes len }

abbrev pub is_invalid_len : ℕ → Bool
is_invalid_len len = ltb len hdr_len || ltb max_frame_len len

module _ (k : Kernel) where
  open k use {W, read, dev_alloc_skb, netif_rx_ni}

  -- A packet for the network stack.
  unfoldable pub deliver : Skb → M (Cfg W) ℕ
  deliver skb s =
      let (ret, w) = netif_rx_ni skb s.hw in
      let t = record s { hw = w; net_stats = rx_done (length skb.bytes) s.net_stats } in
      elim ret [
        | NetRx.success ↦ ok 0 t
        | NetRx.drop ↦ ok 0 (count rx_drop t)
        | NetRx.failed e ↦ err e (kfree_skb skb (count rx_error t))
      ]

  -- Without an interface, the cleanup counts the error in that of NULL.
  unfoldable pub rx_data : ℕ → ℕ → M (Cfg W) ℕ
  unfolding deliver
  rx_data len if_idx s = elim (get_vif_by_idx if_idx s) [
    | none ↦ halt bug
    | some vif ↦
        if vif.up
        then (if is_invalid_len len
            then err einval (count rx_error (count rx_length_error s))
            else (let (skb, w) = dev_alloc_skb len s.hw in
                elim skb [
                  | none ↦ err enomem (count rx_error (record s { hw = w }))
                  | some address ↦
                      deliver
                        (record { address = address; headroom = 0; bytes = take len s.rx_data })
                        (record s { hw = w })
                ]))
        else err einval (count rx_error s)
  ]

  -- The bytes that are read go to the start of `rx_data`.
  unfoldable pub read_data : ℕ → M (Cfg W) ℕ
  read_data words s = elim (read words s.hw) [
    | ok (bytes, ret) w ↦
        let t = record s { hw = w; rx_data = bytes ++ drop (length bytes) s.rx_data } in
        if ret == words then ok ret t else err eio t
    | err e w ↦ err e (record s { hw = w })
    | halt f ↦ halt f
  ]

  -- Without any interface the result is the number of words that were read.
  unfoldable pub rx_raw : RspHdr → M (Cfg W) ℕ
  unfolding read_data rx_data
  rx_raw rsp s =
      if leb rsp.len 8
      then err einval s
      else (if ltb max_frame_len rsp.result
          then err einval s
          else elim (read_data (len_to_word (len_to_word rsp.result * 4)) s) [
            | ok ret t ↦ elim t.vif_list [ [] ↦ ok ret t | v ∷ vs ↦ rx_data rsp.result 0 t ]
            | err e t ↦ err e t
            | halt f ↦ halt f
          ])
