-- ===== src/Wifi/Refining.antt =====
-- The sender of linux_kernel_modules/mt7697wifi/txrx.c is the queue that it promises.
use mang_oh.Prelude.{
  ℕ, ◌+◌, ◌%◌, ◌≡◌, refl, sym, ap, ◌∙◌, inl, inr, Bool-cases, List, [], ◌∷◌, ◌++◌, length,
  append-nil, append_assoc, le→ltb, ◌==◌, if◌then◌else◌,
}
use mathlib.Core.Path.{subst}
use mang_oh.Prelude.Monad.{
  Out, ok, err, halt, after, pure, ◌>>=◌, Does, Does-then, Does-bind, Does-pure, Does-weaken,
}
use mang_oh.Prelude.Outcome.{Post}
use mang_oh.Wifi.{Skb, Kernel, Cfg}
use mang_oh.Wifi.Transmit.{
  wr_tx_raw_packet, data_tx, send_packet, check_len, tx_error, tx_done, finish_packet, tx_packet,
  tx_loop, purge, purge_queue, tx_work, packet_words, raw_packet,
}
use mang_oh.Wifi.Pool.{indices}
use mang_oh.Wifi.Fifo.{Fifo, Op, submits, works, send_all, submit, work, serve, run}
use mang_oh.Wifi.Slots.{Any, IsKernel, Fits, Backs, Refines}
use mang_oh.Wifi.Turns.{data_tx_lem, pop_Backs}

module _ (k : Kernel) (kw : IsKernel k) where
  abbrev Ends : {A : Type 0} → Out k.W A → Type 0
  Ends out = Post Any Any (λ _. ⊥) out

  checked :
      (n : ℕ) (out : Out k.W ℕ)
      → Ends out
      → Ends (elim out [
        | ok ret v ↦ if ret == n then ok (tt {0}) v else err 5 v
        | err e v ↦ err e v
        | halt f ↦ halt f
      ])
  checked n (ok ret v) h = elim (Bool-cases (ret == n)) [ inl e ↦ rw e tt | inr e ↦ rw e tt ]
  checked n (err e v) h = tt
  checked n (halt f) h = h

  wr_lem : (p : Skb) (w : k.W) → Fits p → Ends (wr_tx_raw_packet k p.bytes w)
  unfolding wr_tx_raw_packet
  wr_lem p w f =
      let req = raw_packet p.bytes in
      rw (wr_tx_raw_packet, le→ltb 2352 (length p.bytes) f)
        (checked (packet_words req) (k.write req (packet_words req) w)
          (kw.write_lem req (packet_words req) w))

  -- A packet, by the outcome of its write.
  written :
      (b : ℕ) (p : Skb) (ps done : List Skb) (freed : List ℕ) (w : k.W) (t : Cfg k.W)
      (out : Out k.W (Unit {0}))
      → Backs b (p ∷ ps) done freed w t
      → wr_tx_raw_packet k p.bytes (check_len k p t).hw ≡ out
      → Ends out
      → Does (tx_packet k b t) tt (Backs ((b + 1) % 256) ps (done ++ p ∷ []) freed (after out w))
  unfolding tx_packet send_packet
  written b p ps done freed w t (ok a v) r e h = record {
    next = record (finish_packet k b p t) {
      hw = v;
      net_stats = tx_done (length p.bytes) (check_len k p t).net_stats;
    };
    returned = rw (tx_packet, r.around.0, send_packet, e) refl;
    result =
        pop_Backs k kw b p ps done freed w v (tx_done (length p.bytes) (check_len k p t).net_stats)
          t r;
  }
  written b p ps done freed w t (err x v) r e h = record {
    next = record (finish_packet k b p t) {
      hw = v;
      net_stats = tx_done (length p.bytes) (tx_error (check_len k p t).net_stats);
    };
    returned = rw (tx_packet, r.around.0, send_packet, e) refl;
    result =
        pop_Backs k kw b p ps done freed w v
          (tx_done (length p.bytes) (tx_error (check_len k p t).net_stats)) t r;
  }
  written b p ps done freed w t (halt f) r e h = absurd h

  loop_lem :
      (ps done : List Skb) (b : ℕ) (freed : List ℕ) (w : k.W) (t : Cfg k.W)
      → Backs b ps done freed w t
      → Does
          (tx_loop k (indices b (length ps)) t)
          tt
          (λ u. (c : ℕ) × Backs c [] (done ++ ps) freed (send_all k ps w) u)
  unfolding tx_loop send_all
  loop_lem [] done b freed w t r = record {
    next = t;
    returned = refl;
    result = (b, subst (λ qs. Backs b [] qs freed w t) (sym (append-nil done)) r);
  }
  loop_lem (p ∷ ps) done b freed w t r =
      let out = wr_tx_raw_packet k p.bytes w in
      Does-then (tx_packet k b) (tx_loop k (indices ((b + 1) % 256) (length ps))) t
        (written b p ps done freed w t out r (ap (wr_tx_raw_packet k p.bytes) r.kernel)
          (wr_lem p w r.fit.0))
        (λ u s.
          Does-weaken
            (λ v (c, d). (
              c,
              subst (λ qs. Backs c [] qs freed (send_all k ps (after out w)) v)
                  (append_assoc done (p ∷ []) ps) d,
            ))
            (loop_lem ps (done ++ p ∷ []) ((b + 1) % 256) freed (after out w) u s))

  purged :
      (c : ℕ) (qs : List Skb) (freed : List ℕ) (w : k.W) (t : Cfg k.W)
      → Backs c [] qs freed w t
      → Does (purge_queue k t) tt (Backs c [] [] (purge qs freed) w)
  purged c qs freed w t r = record {
    next = record t { tx_skb_queue = []; freed = purge t.tx_skb_queue t.freed };
    returned = refl;
    result = record {
      free = r.free;
      room = r.room;
      start = r.start;
      around = r.around;
      idx = r.idx;
      listed = r.listed;
      written = refl;
      gone = ap (λ xs. purge xs t.freed) r.written ∙ ap (purge qs) r.gone;
      kernel = r.kernel;
      fit = tt;
    };
  }

  tx_work_lem :
      (q : Fifo k.W) (t : Cfg k.W) → Refines q t → Does (tx_work k t) tt (Refines (work k q))
  unfolding tx_work work
  tx_work_lem q t (b, r) =
      Does-then (tx_loop k t.tx_skb_list) (purge_queue k) t
        (subst
          (λ is.
            Does (tx_loop k is t) tt
              (λ u. (c : ℕ) × Backs c [] q.pending q.freed (send_all k q.pending q.hw) u))
          (sym r.listed) (loop_lem q.pending [] b q.freed q.hw t r))
        (λ u (c, s).
          Does-weaken (λ v d. (c, d)) (purged c q.pending q.freed (send_all k q.pending q.hw) u s))

  -- The packets that the network stack submits.
  abbrev pub AllFit : List Op → Type 0
  AllFit [] = Unit
  AllFit (submits skb ∷ os) = Fits skb × AllFit os
  AllFit (works ∷ os) = AllFit os

  -- Over a kernel that queues its work items, whose writes return, and that copies a packet with its
  -- bytes, any sequence of packets that fit into mt7697_tx_raw_packet and of turns of the work item
  -- ends; the network stack is answered as by the queue that is promised, and the driver has freed the
  -- same packets as it, keeps the same ones in the same order, and leaves the kernel in the same state.
  pub run-serve :
      (os : List Op) (q : Fifo k.W) (t : Cfg k.W)
      → Refines q t
      → AllFit os
      → Does (run k os t) (serve k os q).0 (Refines (serve k os q).1)
  unfolding run serve
  run-serve [] q t r f = record { next = t; returned = refl; result = r }
  run-serve (submits skb ∷ os) q t r (f, fs) =
      let (a, p) = submit k skb q in
      Does-bind (data_tx k skb) (λ x. run k os >>= λ rest. pure (x ∷ rest)) t
        (data_tx_lem k kw skb q t r f)
        (λ u s.
          Does-bind (run k os) (λ rest. pure (a ∷ rest)) u (run-serve os p u s fs)
            (λ v d. Does-pure (a ∷ (serve k os p).0) v d))
  run-serve (works ∷ os) q t r f =
      Does-then (tx_work k) (run k os) t (tx_work_lem q t r) (λ u s. run-serve os (work k q) u s f)
