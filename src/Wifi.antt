-- ===== src/Wifi.antt =====
-- The packets of the WiFi driver, linux_kernel_modules/mt7697wifi/txrx.c, with the writing of one in
-- wmi.c. There is one interface. The spinlock of the list is left out, and so is the log.
pub mod Transmit
pub mod Receive
pub mod Pool
pub mod Fifo
pub mod Slots
pub mod Turns
pub mod Refining
pub mod Freeing
pub mod Reading
pub mod Delivering
mod Tests
use mang_oh.Prelude.{ℕ, ◌+◌, ◌%◌, ◌^◌, List, [], ◌∷◌, Option, Bool}
use mang_oh.Prelude.Monad.{M}

-- MT7697_TX_PKT_POOL_LEN
abbrev pub pool_len : ℕ
pool_len = 256

-- IEEE80211_MAX_FRAME_LEN, which is also the size of mt7697_tx_raw_packet.data
abbrev pub max_frame_len : ℕ
max_frame_len = 2352

-- sizeof(struct ieee80211_hdr)
abbrev pub hdr_len : ℕ
hdr_len = 30

-- struct sk_buff: its address, the room before its bytes, and these.
pub record Skb : Type 0 where
  pub address : ℕ
  pub headroom : ℕ
  pub bytes : List ℕ

-- struct net_device_stats
pub record Stats : Type 0 where
  pub tx_packets : ℕ
  pub tx_bytes : ℕ
  pub tx_errors : ℕ
  pub tx_dropped : ℕ
  pub tx_aborted_errors : ℕ
  pub rx_packets : ℕ
  pub rx_bytes : ℕ
  pub rx_errors : ℕ
  pub rx_dropped : ℕ
  pub rx_length_errors : ℕ

-- struct mt7697_tx_raw_packet, with the length in its header; `payload` is its `data`.
pub record TxRawPacket : Type 0 where
  pub cmd_len : ℕ
  pub len : ℕ
  pub payload : List ℕ

pub data NetRx : Type 0 where
  success drop : NetRx
  failed : ℕ → NetRx

-- What the code calls of the kernel and of the queues of mt7697q, and the room that the interface
-- needs. A read gives the bytes that it stores and its return value. `workq_len` is what stands in the struct of the work queue at the place of `len` in a struct
-- sk_buff.
pub record Kernel : Type 1 where
  pub W : Type 0
  pub needed_headroom : ℕ
  pub skb_realloc_headroom : Skb → ℕ → W → Option Skb × W
  pub queue_work : M W ℕ
  pub write : TxRawPacket → ℕ → M W ℕ
  pub unblock_writer : W → W
  pub workq_len : W → ℕ
  pub read : ℕ → M W (List ℕ × ℕ)
  pub dev_alloc_skb : ℕ → W → Option ℕ × W
  pub netif_rx_ni : Skb → W → NetRx × W

-- struct mt7697_vif: its index, and whether IFF_UP is set.
pub record Vif : Type 0 where
  pub fw_vif_idx : ℕ
  pub up : Bool

-- struct mt7697_cfg80211_info, with the statistics of its one interface and the addresses of the struct
-- sk_buff that were freed, the last one first. A packet of the pool is its index.
pub record Cfg (W : Type 0) : Type 0 where
  pub vif_list : List Vif
  pub vif_max : ℕ
  pub tx_skb_pool_idx : ℕ
  pub tx_skb_pool : ℕ → Option Skb
  pub tx_skb_list : List ℕ
  pub tx_skb_queue : List Skb
  pub rx_data : List ℕ
  pub net_stats : Stats
  pub freed : List ℕ
  pub hw : W

-- A counter of 32 bits.
abbrev pub add32 : ℕ → ℕ → ℕ
add32 n k = (n + k) % 2 ^ 32

module _ {W : Type 0} where
  abbrev pub kfree_skb : Skb → Cfg W → Cfg W
  kfree_skb skb s = record s { freed = skb.address ∷ s.freed }

  abbrev pub count : (Stats → Stats) → Cfg W → Cfg W
  count f s = record s { net_stats = f s.net_stats }
