-- ===== src/Wifi/Turns.antt =====
-- A packet that is submitted, and a turn of the work item, of
-- linux_kernel_modules/mt7697wifi/txrx.c.
use mang_oh.Prelude.{
  ℕ, suc, ◌+◌, ◌%◌, ◌≤◌, ◌<◌, ◌≡◌, refl, sym, ap, ◌∙◌, true, false, inl, inr, Bool-cases, List, [],
  ◌∷◌, ◌++◌, map, Option, none, some, length, length-append, replicate, append_assoc, ltb, le→ltb,
  lt→ltb, ==_iff, arith,
}
use mathlib.Core.Path.{subst}
use mang_oh.Prelude.Monad.{M, ok, after, Does}
use mang_oh.Wifi.{Skb, Stats, Kernel, Cfg, count, kfree_skb}
use mang_oh.Wifi.Transmit.{
  NetdevTx, tx_ok, tx_abort, set, list_del, make_headroom, enqueue, data_tx, finish_packet,
  put_packet,
}
use mang_oh.Wifi.Pool.{Around, set_self, Around-set, Around-append}
use mang_oh.Wifi.Fifo.{Fifo, offer, submit}
use mang_oh.Wifi.Slots.{
  IsKernel, Fits, Backs, Refines, slots, empty, free_slot, full_slot, put_Backs, length-map-some,
  length-replicate, replicate-snoc,
}

module _ {W : Type 0} where
  -- The statistics, the freed packets and the kernel stand beside the pool.
  pub beside :
      {b : ℕ} {ps done : List Skb} {freed gone : List ℕ} {w v : W} {t : Cfg W} (ds : List ℕ) (x : W)
      (n : Stats)
      → ds ≡ gone
      → x ≡ v
      → Backs b ps done freed w t
      → Backs b ps done gone v (record t { freed = ds; hw = x; net_stats = n })
  beside ds x n e f r = record {
    free = r.free;
    room = r.room;
    start = r.start;
    around = r.around;
    idx = r.idx;
    listed = r.listed;
    written = r.written;
    gone = e;
    kernel = f;
    fit = r.fit;
  }

module _ (k : Kernel) (kw : IsKernel k) where
  abbrev submit_as : Option Skb → M (Cfg k.W) NetdevTx
  submit_as new s = elim new [ none ↦ ok tx_ok (count tx_abort s) | some p ↦ enqueue k p s ]

  abbrev take_as : Option Skb → Fifo k.W → NetdevTx × Fifo k.W
  take_as new q = elim new [ none ↦ (tx_ok, q) | some p ↦ offer k p q ]

  accepted :
      (b : ℕ) (p : Skb) (q : Fifo k.W) (t : Cfg k.W)
      → Backs b q.pending [] q.freed q.hw t
      → length q.pending < 256
      → Fits p
      → Does (enqueue k p t) (offer k p q).0 (Refines (offer k p q).1)
  unfolding enqueue offer
  accepted b p q t r l f =
      let (ret, d) = kw.queue_work_lem q.hw in
      let here : k.queue_work t.hw ≡ ok ret d.next = ap k.queue_work r.kernel ∙ d.returned in
      let later : after (k.queue_work q.hw) q.hw ≡ d.next = ap (λ o. after o q.hw) d.returned in
      rw (offer, lt→ltb (length q.pending) 256 l)
        (record {
          next = record (put_packet k p t) { hw = d.next };
          returned =
              rw
                (
                  enqueue,
                  lt→ltb t.tx_skb_pool_idx 256 (omega (arith, r.idx)),
                  free_slot b q.pending [] q.freed q.hw t r l,
                  here,
                )
                refl;
          result = (
            b,
            subst
                (λ (w : k.W).
                  Backs b (q.pending ++ p ∷ []) [] q.freed w
                    (record (put_packet k p t) { hw = d.next }))
                (sym later) (put_Backs k b p q.pending [] q.freed q.hw d.next t r l f),
          );
        })

  refused :
      (b : ℕ) (p : Skb) (q : Fifo k.W) (t : Cfg k.W)
      → Backs b q.pending [] q.freed q.hw t
      → 256 ≤ length q.pending
      → (o : Skb) × (t.tx_skb_pool t.tx_skb_pool_idx ≡ some o)
      → Does (enqueue k p t) (offer k p q).0 (Refines (offer k p q).1)
  unfolding enqueue offer
  refused b p q t r l (o, e) =
      rw (offer, le→ltb (length q.pending) 256 l)
        (record {
          next = kfree_skb p (count tx_abort t);
          returned = rw (enqueue, lt→ltb t.tx_skb_pool_idx 256 (omega (arith, r.idx)), e) refl;
          result = (
            b,
            beside (p.address ∷ t.freed) t.hw (tx_abort t.net_stats)
                (ap (λ ds. p.address ∷ ds) r.gone) r.kernel r,
          );
        })

  full :
      (b : ℕ) (ps done : List Skb) (freed : List ℕ) (w : k.W) (t : Cfg k.W)
      → Backs b ps done freed w t
      → 256 ≤ length ps
      → (o : Skb) × (t.tx_skb_pool t.tx_skb_pool_idx ≡ some o)
  full b [] done freed w t r l = absurd (omega (arith, l))
  full b (p ∷ ps) done freed w t r l =
      (p, full_slot b p ps done freed w t r (omega (arith, l, r.room)))

  enqueue_lem :
      (p : Skb) (q : Fifo k.W) (t : Cfg k.W)
      → Refines q t
      → Fits p
      → Does (enqueue k p t) (offer k p q).0 (Refines (offer k p q).1)
  enqueue_lem p q t (b, r) f = elim (Bool-cases (ltb (length q.pending) 256)) [
    | inl e ↦ accepted b p q t r (omega (arith, ltb_lt (length q.pending) 256 e)) f
    | inr e ↦
        let l = ltb_le (length q.pending) 256 e in
        refused b p q t r l (full b q.pending [] q.freed q.hw t r l)
  ]
    where
      ltb_lt : (a c : ℕ) → ltb a c ≡ true → a < c
      ltb_lt a c h = ground (arith, h)

      ltb_le : (a c : ℕ) → ltb a c ≡ false → c ≤ a
      ltb_le a c h = ground (arith, h)

  copied :
      (skb : Skb) (q : Fifo k.W) (t : Cfg k.W) (new : Option Skb) (w : k.W)
      → Refines q t
      → ((p : Skb) → new ≡ some p → Fits p)
      → Does
          (submit_as new (record t { freed = skb.address ∷ t.freed; hw = w }))
          (take_as new (record q { freed = skb.address ∷ q.freed; hw = w })).0
          (Refines (take_as new (record q { freed = skb.address ∷ q.freed; hw = w })).1)
  copied skb q t none w (b, r) f = record {
    next = record t { freed = skb.address ∷ t.freed; hw = w; net_stats = tx_abort t.net_stats };
    returned = refl;
    result = (
      b,
      beside (skb.address ∷ t.freed) w (tx_abort t.net_stats) (ap (λ ds. skb.address ∷ ds) r.gone)
          refl r,
    );
  }
  copied skb q t (some p) w (b, r) f =
      enqueue_lem p (record q { freed = skb.address ∷ q.freed; hw = w })
        (record t { freed = skb.address ∷ t.freed; hw = w })
        (
          b,
          beside (skb.address ∷ t.freed) w t.net_stats (ap (λ ds. skb.address ∷ ds) r.gone) refl r,
        )
        (f p refl)

  data_tx-copied :
      (skb : Skb) (q : Fifo k.W) (t : Cfg k.W)
      → t.hw ≡ q.hw
      → ltb skb.headroom k.needed_headroom ≡ true
      → let (new, w) = k.skb_realloc_headroom skb k.needed_headroom q.hw in
        (data_tx k skb t ≡ submit_as new (record t { freed = skb.address ∷ t.freed; hw = w }))
        × (submit k skb q ≡ take_as new (record q { freed = skb.address ∷ q.freed; hw = w }))
  unfolding data_tx submit make_headroom
  data_tx-copied skb q t h e =
      let (new, w) = k.skb_realloc_headroom skb k.needed_headroom q.hw in
      let made : make_headroom k skb t ≡ (new, record t { freed = skb.address ∷ t.freed; hw = w }) =
        rw (make_headroom, e, h) refl in
      (ap (λ m. submit_as m.0 m.1) made, rw (submit, e) refl)

  data_tx-enqueue :
      (skb : Skb) (q : Fifo k.W) (t : Cfg k.W)
      → ltb skb.headroom k.needed_headroom ≡ false
      → (data_tx k skb t ≡ enqueue k skb t) × (submit k skb q ≡ offer k skb q)
  unfolding data_tx submit make_headroom
  data_tx-enqueue skb q t e =
      let made : make_headroom k skb t ≡ (some skb, t) = rw (make_headroom, e) refl in
      (ap (λ m. submit_as m.0 m.1) made, rw (submit, e) refl)

  -- What the network stack is answered, and the packets after it.
  pub data_tx_lem :
      (skb : Skb) (q : Fifo k.W) (t : Cfg k.W)
      → Refines q t
      → Fits skb
      → Does (data_tx k skb t) (submit k skb q).0 (Refines (submit k skb q).1)
  data_tx_lem skb q t (b, r) f = elim (Bool-cases (ltb skb.headroom k.needed_headroom)) [
    | inl e ↦
        let copy = k.skb_realloc_headroom skb k.needed_headroom q.hw in
        let (ran, took) = data_tx-copied skb q t r.kernel e in
        rw (ran, took)
          (copied skb q t copy.0 copy.1 (b, r)
            (λ p h.
              subst (λ (n : ℕ). n ≤ 2352)
                (ap (λ bytes. length bytes) (sym (kw.realloc_lem skb p k.needed_headroom q.hw h)))
                f))
    | inr e ↦
        let (ran, took) = data_tx-enqueue skb q t e in rw (ran, took) (enqueue_lem skb q t (b, r) f)
  ]

  -- The oldest packet goes from the pool to the queue of those that are written.
  pub pop_Backs :
      (b : ℕ) (p : Skb) (ps done : List Skb) (freed : List ℕ) (w x : k.W) (n : Stats) (t : Cfg k.W)
      → Backs b (p ∷ ps) done freed w t
      → Backs
          ((b + 1) % 256)
          ps
          (done ++ p ∷ [])
          freed
          x
          (record (finish_packet k b p t) { hw = x; net_stats = n })
  pop_Backs b p ps done freed w x n t r =
      let a = (b + 1) % 256 in
      let len = length-map-some ps in
      let back : (a + 255) % 256 ≡ b = omega (arith, r.start) in
      let more : (a + length (slots ps r.free)) % 256 ≡ b = omega (
        arith,
        length-append (map some ps) (replicate r.free empty),
        len,
        length-replicate r.free,
        r.room,
        r.start,
      ) in
      let rest =
        subst (λ (i : ℕ). Around (set t.tx_skb_pool i empty) a (slots ps r.free)) back
          (Around-set t.tx_skb_pool empty (slots ps r.free) a 255 (omega arith)
            (omega (
              arith,
              length-append (map some ps) (replicate r.free empty),
              len,
              length-replicate r.free,
              r.room,
            ))
            (omega arith) r.around.1) in
      let last =
        subst (λ (i : ℕ). set t.tx_skb_pool b empty i ≡ empty) (sym more)
          (set_self t.tx_skb_pool b empty) in
      record {
        free = suc r.free;
        room = omega (arith, r.room);
        start = omega arith;
        around =
            subst (λ xs. Around (set t.tx_skb_pool b empty) a xs)
              (append_assoc (map some ps) (replicate r.free empty) (empty ∷ [])
                ∙ ap (λ xs. map some ps ++ xs) (replicate-snoc r.free))
              (Around-append (set t.tx_skb_pool b empty) (slots ps r.free) (empty ∷ []) a
                (omega arith) rest (last, tt));
        idx = r.idx ∙ omega arith;
        listed = ap (λ is. list_del b is) r.listed ∙ rw ((==_iff b b).1 refl) refl;
        written = ap (λ qs. qs ++ p ∷ []) r.written;
        gone = r.gone;
        kernel = refl;
        fit = r.fit.1;
      }
