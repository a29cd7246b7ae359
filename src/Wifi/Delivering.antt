-- ===== src/Wifi/Delivering.antt =====
-- What linux_kernel_modules/mt7697wifi hands on of a packet that is received.
use mang_oh.Prelude.{ℕ, ◌+◌, ◌%◌, ◌^◌, ◌≤◌, ◌<◌, ◌≡◌, List, ◌∷◌, length, ◌⊎◌}
use mang_oh.Prelude.Monad.{Out, ok, einval}
use mang_oh.Prelude.Outcome.{Post}
use mang_oh.Board.Ledger.{Never}
use mang_oh.Mt7697.Queue.State.{RspHdr}
use mang_oh.Wifi.{Skb, Kernel, Cfg}

-- What the network stack has been handed, the last packet first.
pub record IsStack (k : Kernel) : Type 0 where
  pub handed : k.W → List (List ℕ)
  pub netif_rx_ni_lem :
      (skb : Skb) (w : k.W) → handed (k.netif_rx_ni skb w).1 ≡ skb.bytes ∷ handed w
  pub dev_alloc_skb_lem : (n : ℕ) (w : k.W) → handed (k.dev_alloc_skb n w).1 ≡ handed w
  pub read_lem : (n : ℕ) (w v : k.W) (r : List ℕ × ℕ) → k.read n w ≡ ok r v → handed v ≡ handed w

module _ (k : Kernel) (stack : IsStack k) where
  open stack use {handed}

  -- A packet that the stack has been handed, and that is counted.
  abbrev pub Handed : List ℕ → Cfg k.W → Cfg k.W → Type 0
  Handed bytes s t =
      (handed t.hw ≡ bytes ∷ handed s.hw)
      × (t.net_stats.rx_packets ≡ (s.net_stats.rx_packets + 1) % 2 ^ 32)
      × (t.net_stats.rx_bytes ≡ (s.net_stats.rx_bytes + length bytes) % 2 ^ 32)

  -- The stack takes a packet or drops it, and owns it; or it fails, and the packet is freed.
  abbrev pub Delivered : List ℕ → ℕ → Cfg k.W → Out (Cfg k.W) ℕ → Type 0
  Delivered bytes address s =
      Post (λ ret t. (ret ≡ 0) × Handed bytes s t × (t.freed ≡ s.freed))
        (λ e t. Handed bytes s t × (t.freed ≡ address ∷ s.freed)) Never

  -- A message that is refused: the stack is handed nothing.
  abbrev pub Refused : Cfg k.W → Out (Cfg k.W) ℕ → Type 0
  Refused s =
      Post (λ _ _. ⊥) (λ e t. (e ≡ einval) × (handed t.hw ≡ handed s.hw) × (t.freed ≡ s.freed))
        Never

  -- The lengths of a message that is handed on.
  abbrev pub Acceptable : RspHdr → Type 0
  Acceptable rsp = (8 < rsp.len) × (30 ≤ rsp.result) × (rsp.result ≤ 2352)

  abbrev pub Unacceptable : RspHdr → Type 0
  Unacceptable rsp = (rsp.len ≤ 8) ⊎ ((2352 < rsp.result) ⊎ (rsp.result < 30))
