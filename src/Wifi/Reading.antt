-- ===== src/Wifi/Reading.antt =====
-- The reading of a packet of linux_kernel_modules/mt7697wifi, up to its delivery.
use mang_oh.Prelude.{
  ℕ, ◌+◌, ◌-◌, ◌*◌, ◌%◌, ◌^◌, ◌≤◌, ◌<◌, ◌≡◌, refl, sym, true, List, [], ◌∷◌, ◌++◌, some, length,
  take, drop, le→ltb, lt→ltb, lt→leb, ==_iff, arith,
}
use mathlib.Core.Path.{subst}
use mang_oh.Prelude.Monad.{ok, err, einval}
use mang_oh.Mt7697.Queue.State.{RspHdr}
use mang_oh.Mt7697.Queue.Receive.{len_to_word}
use mang_oh.Wifi.{Kernel, count, Vif, Cfg}
use mang_oh.Wifi.Receive.{rx_error, rx_length_error, get_vif_by_idx, deliver, rx_data, rx_raw}

len_to_word_aligned : (n : ℕ) → len_to_word (len_to_word n * 4) ≡ len_to_word n
unfolding len_to_word
len_to_word_aligned n = ground arith

pub len_to_word_enough : (n : ℕ) → n ≤ 4 * len_to_word n
unfolding len_to_word
len_to_word_enough n = ground arith

module _ (k : Kernel) where
  found_vif :
      (vs : List Vif) (s : Cfg k.W)
      → s.vif_list ≡ record { fw_vif_idx = 0; up = true } ∷ vs
      → 0 < s.vif_max
      → s.vif_max < 2 ^ 32
      → get_vif_by_idx 0 s ≡ some (record { fw_vif_idx = 0; up = true })
  unfolding get_vif_by_idx
  found_vif vs s listed more few =
      rw (get_vif_by_idx, le→ltb ((s.vif_max + (2 ^ 32 - 1)) % 2 ^ 32) 0 (omega arith), listed) refl

  pub rx_data_lem :
      (len address : ℕ) (vs : List Vif) (s : Cfg k.W)
      → s.vif_list ≡ record { fw_vif_idx = 0; up = true } ∷ vs
      → 0 < s.vif_max
      → s.vif_max < 2 ^ 32
      → 30 ≤ len
      → len ≤ 2352
      → (k.dev_alloc_skb len s.hw).0 ≡ some address
      → rx_data k len 0 s
        ≡ deliver k
            (record { address = address; headroom = 0; bytes = take len s.rx_data })
            (record s { hw = (k.dev_alloc_skb len s.hw).1 })
  unfolding rx_data
  rx_data_lem len address vs s listed more few long short found =
      rw (rx_data, found_vif vs s listed more few, le→ltb len 30 long, le→ltb 2352 len short, found)
        refl

  pub rx_data_short :
      (len : ℕ) (vs : List Vif) (s : Cfg k.W)
      → s.vif_list ≡ record { fw_vif_idx = 0; up = true } ∷ vs
      → 0 < s.vif_max
      → s.vif_max < 2 ^ 32
      → len < 30
      → rx_data k len 0 s ≡ err einval (count rx_error (count rx_length_error s))
  unfolding rx_data
  rx_data_short len vs s listed more few short =
      rw (rx_data, found_vif vs s listed more few, lt→ltb len 30 short) refl

  -- The state behind the reading of a message.
  abbrev pub stored : List ℕ → k.W → Cfg k.W → Cfg k.W
  stored bytes v s = record s { hw = v; rx_data = bytes ++ drop (length bytes) s.rx_data }

  pub rx_raw-rx_data :
      (rsp : RspHdr) (bytes : List ℕ) (vs : List Vif) (v : k.W) (s : Cfg k.W)
      → s.vif_list ≡ record { fw_vif_idx = 0; up = true } ∷ vs
      → 8 < rsp.len
      → rsp.result ≤ 2352
      → k.read (len_to_word rsp.result) s.hw ≡ ok (bytes, len_to_word rsp.result) v
      → rx_raw k rsp s ≡ rx_data k rsp.result 0 (stored bytes v s)
  unfolding rx_raw
  rx_raw-rx_data rsp bytes vs v s listed head short got =
      let n = len_to_word rsp.result in
      let t = stored bytes v s in
      rw
        (
          rx_raw,
          lt→leb rsp.len 8 head,
          le→ltb 2352 rsp.result short,
          len_to_word_aligned rsp.result,
          got,
          len_to_word_aligned rsp.result,
          (==_iff n n).1 refl,
        )
        (subst
          (λ us.
            (elim us [ [] ↦ ok n t | u ∷ us ↦ rx_data k rsp.result 0 t ])
            ≡ rx_data k rsp.result 0 t)
          (sym listed) refl)
