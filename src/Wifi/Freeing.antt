-- ===== src/Wifi/Freeing.antt =====
-- Every packet that linux_kernel_modules/mt7697wifi/txrx.c takes is freed once.
use mang_oh.Prelude.{
  ℕ, ◌+◌, ◌≤◌, ◌≡◌, refl, ap, inl, inr, Bool-cases, List, [], ◌∷◌, ◌++◌, length, ltb, le→ltb, ◌==◌,
  if◌then◌else◌, arith,
}
use mang_oh.Prelude.Monad.{Does, Does-weaken}
use mang_oh.Wifi.{Skb, Kernel, Cfg}
use mang_oh.Wifi.Transmit.{purge}
use mang_oh.Wifi.Fifo.{Fifo, Op, submits, works, offer, submit, work, serve, run}
use mang_oh.Wifi.Slots.{IsKernel, Refines}
use mang_oh.Wifi.Refining.{AllFit, run-serve}

-- How often an address occurs.
abbrev pub occurs : ℕ → List ℕ → ℕ
occurs a [] = 0
occurs a (b ∷ bs) = (if a == b then 1 else 0) + occurs a bs

abbrev pub addresses : List Skb → List ℕ
addresses [] = []
addresses (p ∷ ps) = p.address ∷ addresses ps

abbrev pub submitted : List Op → List ℕ
submitted [] = []
submitted (submits skb ∷ os) = skb.address ∷ submitted os
submitted (works ∷ os) = submitted os

occurs-snoc :
    (a : ℕ) (ps : List Skb) (p : Skb)
    → occurs a (addresses (ps ++ p ∷ [])) ≡ occurs a (p.address ∷ addresses ps)
occurs-snoc a [] p = refl
occurs-snoc a (q ∷ ps) p = omega (arith, occurs-snoc a ps p)

occurs-purge :
    (a : ℕ) (ps : List Skb) (freed : List ℕ)
    → occurs a (purge ps freed) ≡ occurs a (addresses ps) + occurs a freed
occurs-purge a [] freed = omega arith
occurs-purge a (p ∷ ps) freed = omega (arith, occurs-purge a ps (p.address ∷ freed))

module _ (k : Kernel) where
  abbrev held : ℕ → Fifo k.W → ℕ
  held a q = occurs a (addresses q.pending) + occurs a q.freed

  -- A packet with the room that the interface needs.
  abbrev pub AllRoomy : List Op → Type 0
  AllRoomy [] = Unit
  AllRoomy (submits skb ∷ os) = (k.needed_headroom ≤ skb.headroom) × AllRoomy os
  AllRoomy (works ∷ os) = AllRoomy os

  submit-held :
      (a : ℕ) (skb : Skb) (q : Fifo k.W)
      → k.needed_headroom ≤ skb.headroom
      → held a (submit k skb q).1 ≡ occurs a (skb.address ∷ []) + held a q
  unfolding submit offer
  submit-held a skb q h = elim (Bool-cases (ltb (length q.pending) 256)) [
    | inl e ↦
        rw (submit, le→ltb skb.headroom k.needed_headroom h, offer, e)
          (omega (arith, occurs-snoc a q.pending skb))
    | inr e ↦ rw (submit, le→ltb skb.headroom k.needed_headroom h, offer, e) (omega arith)
  ]

  work-held : (a : ℕ) (q : Fifo k.W) → held a (work k q) ≡ held a q
  unfolding work
  work-held a q = omega (arith, occurs-purge a q.pending q.freed)

  serve-held :
      (a : ℕ) (os : List Op) (q : Fifo k.W)
      → AllRoomy os
      → held a (serve k os q).1 ≡ occurs a (submitted os) + held a q
  unfolding serve
  serve-held a [] q h = omega arith
  serve-held a (submits skb ∷ os) q (h, hs) =
      omega (arith, serve-held a os (submit k skb q).1 hs, submit-held a skb q h)
  serve-held a (works ∷ os) q h = omega (arith, serve-held a os (work k q) h, work-held a q)

  serve-works : (os : List Op) (q : Fifo k.W) → (serve k (os ++ works ∷ []) q).1.pending ≡ []
  unfolding serve work
  serve-works [] q = refl
  serve-works (submits skb ∷ os) q = serve-works os (submit k skb q).1
  serve-works (works ∷ os) q = serve-works os (work k q)

  -- Any sequence of packets, with the room that the interface needs and that fit into
  -- mt7697_tx_raw_packet, and of turns of the work item, with a last turn, ends, over a kernel as it is
  -- assumed to be, and each address is freed as often as it was submitted, waited or was freed before.
  pub run-occurs :
      (kw : IsKernel k) (os : List Op) (q : Fifo k.W) (t : Cfg k.W)
      → Refines q t
      → AllFit k kw (os ++ works ∷ [])
      → AllRoomy (os ++ works ∷ [])
      → (a : ℕ)
      → Does (run k (os ++ works ∷ []) t) (serve k (os ++ works ∷ []) q).0 (λ u.
        occurs a u.freed
        ≡ occurs a (submitted (os ++ works ∷ []))
          + (occurs a (addresses q.pending) + occurs a t.freed))
  run-occurs kw os q t r f h a =
      Does-weaken
        (λ u (c, s).
          let e = ap (λ ds. occurs a ds) s.gone in
          let g = ap (λ ps. occurs a (addresses ps)) (serve-works os q) in
          let o = ap (λ ds. occurs a ds) r.1.gone in
          omega (arith, e, g, o, serve-held a (os ++ works ∷ []) q h))
        (run-serve k kw (os ++ works ∷ []) q t r f)
