-- ===== src/Wifi/Slots.antt =====
-- How the pool and the list of linux_kernel_modules/mt7697wifi/txrx.c hold the packets that wait.
use mang_oh.Prelude.{
  ℕ, zero, suc, ◌+◌, ◌%◌, ◌≤◌, ◌<◌, ◌≡◌, refl, sym, ap, ◌∙◌, ◌⊎◌, inl, inr, List, [], ◌∷◌, ◌++◌,
  map, Option, none, some, length, length-append, replicate, All, append_assoc, arith,
}
use mathlib.Core.Path.{subst}
use mang_oh.Prelude.Monad.{Does}
use mang_oh.Prelude.Outcome.{Post}
use mang_oh.Wifi.{Skb, Kernel, Cfg, TxRawPacket}
use mang_oh.Wifi.Transmit.{set, init_tx, next_idx, put_packet}
use mang_oh.Wifi.Pool.{
  Around, indices, set_self, Around-set, Around-append, Around-split, indices-snoc,
}
use mang_oh.Wifi.Fifo.{Fifo}

abbrev pub Any : {S A : Type 0} → A → S → Type 0
Any _ _ = Unit

-- A kernel that queues its work items, whose writes return, and that copies a packet with its bytes.
pub record IsKernel (k : Kernel) : Type 0 where
  pub queue_work_lem : (w : k.W) → (ret : ℕ) × Does (k.queue_work w) ret (λ _. Unit {0})
  pub write_lem : (req : TxRawPacket) (n : ℕ) (w : k.W) → Post Any Any (λ _. ⊥) (k.write req n w)
  pub realloc_lem :
      (skb new : Skb) (n : ℕ) (w : k.W)
      → (k.skb_realloc_headroom skb n w).0 ≡ some new
      → new.bytes ≡ skb.bytes

-- A packet that fits into mt7697_tx_raw_packet.
abbrev pub Fits : Skb → Type 0
Fits skb = length skb.bytes ≤ 2352

abbrev pub empty : Option Skb
empty = none

-- The slots of the pool from the oldest packet on.
abbrev pub slots : List Skb → ℕ → List (Option Skb)
slots ps m = map some ps ++ replicate m empty

-- The pool and the list hold the packets, from the slot `b` on; `done` are written, but not freed.
pub record Backs {W : Type 0} (b : ℕ) (ps done : List Skb) (freed : List ℕ) (w : W) (t : Cfg W)
    : Type 0 where
  pub free : ℕ
  pub room : length ps + free ≡ 256
  pub start : b < 256
  pub around : Around t.tx_skb_pool b (slots ps free)
  pub idx : t.tx_skb_pool_idx ≡ (b + length ps) % 256
  pub listed : t.tx_skb_list ≡ indices b (length ps)
  pub written : t.tx_skb_queue ≡ done
  pub gone : t.freed ≡ freed
  pub kernel : t.hw ≡ w
  pub fit : All Fits ps

abbrev pub Refines : {W : Type 0} → Fifo W → Cfg W → Type 0
Refines q t = (b : ℕ) × Backs b q.pending [] q.freed q.hw t

pub length-map-some : (ps : List Skb) → length (map some ps) ≡ length ps
length-map-some [] = refl
length-map-some (p ∷ ps) = ap suc (length-map-some ps)

pub length-replicate : (n : ℕ) → length (replicate n empty) ≡ n
length-replicate zero = refl
length-replicate (suc n) = ap suc (length-replicate n)

map-snoc : (ps : List Skb) (p : Skb) → map some (ps ++ p ∷ []) ≡ map some ps ++ some p ∷ []
map-snoc [] p = refl
map-snoc (x ∷ ps) p = ap (λ xs. some x ∷ xs) (map-snoc ps p)

pub replicate-snoc : (n : ℕ) → replicate n empty ++ empty ∷ [] ≡ replicate (suc n) empty
replicate-snoc zero = refl
replicate-snoc (suc n) = ap (λ xs. empty ∷ xs) (replicate-snoc n)

All-snoc : (ps : List Skb) (p : Skb) → All Fits ps → Fits p → All Fits (ps ++ p ∷ [])
All-snoc [] p h f = (f, tt)
All-snoc (x ∷ ps) p (e, h) f = (e, All-snoc ps p h f)

next_idx_lem : (i : ℕ) → i < 256 → next_idx i ≡ (i + 1) % 256
next_idx_lem i l = ground (arith, l)

pub Zero-cases : (n : ℕ) → (n ≡ 0) ⊎ ((m : ℕ) × (n ≡ suc m))
Zero-cases zero = inl refl
Zero-cases (suc n) = inr (n, refl)

module _ {W : Type 0} where
  -- The first free slot.
  pub free_slot :
      (b : ℕ) (ps done : List Skb) (freed : List ℕ) (w : W) (t : Cfg W)
      → Backs b ps done freed w t
      → length ps < 256
      → t.tx_skb_pool t.tx_skb_pool_idx ≡ none
  free_slot b ps done freed w t r l = elim (Zero-cases r.free) [
    | inl e ↦ absurd (omega (arith, e, r.room, l))
    | inr (m, e) ↦
        let a = subst (λ (n : ℕ). Around t.tx_skb_pool b (slots ps n)) e r.around in
        let h =
          (Around-split t.tx_skb_pool (map some ps) (replicate (suc m) empty) b r.start a).1.0 in
        ap t.tx_skb_pool (r.idx ∙ ap (λ (n : ℕ). (b + n) % 256) (sym (length-map-some ps))) ∙ h
  ]

  -- In a full pool the next slot is that of the oldest packet.
  pub full_slot :
      (b : ℕ) (p : Skb) (ps done : List Skb) (freed : List ℕ) (w : W) (t : Cfg W)
      → Backs b (p ∷ ps) done freed w t
      → length ps ≡ 255
      → t.tx_skb_pool t.tx_skb_pool_idx ≡ some p
  full_slot b p ps done freed w t r l =
      ap t.tx_skb_pool (r.idx ∙ omega (arith, l, r.start)) ∙ r.around.0

pub put_Backs :
    (k : Kernel) (b : ℕ) (p : Skb) (ps done : List Skb) (freed : List ℕ) (w v : k.W) (t : Cfg k.W)
    → Backs b ps done freed w t
    → length ps < 256
    → Fits p
    → Backs b (ps ++ p ∷ []) done freed v (record (put_packet k p t) { hw = v })
put_Backs k b p ps done freed w v t r l f = elim (Zero-cases r.free) [
  | inl e ↦ absurd (omega (arith, e, r.room, l))
  | inr (m, e) ↦
      let a = subst (λ (n : ℕ). Around t.tx_skb_pool b (slots ps n)) e r.around in
      let (held, rest) =
        Around-split t.tx_skb_pool (map some ps) (replicate (suc m) empty) b r.start a in
      let len = length-map-some ps in
      let more : suc (length ps) ≡ length (ps ++ p ∷ []) =
        omega (arith, length-append ps (p ∷ [])) in
      let i = (b + length (map some ps)) % 256 in
      let same : t.tx_skb_pool_idx ≡ i = r.idx ∙ ap (λ (n : ℕ). (b + n) % 256) (sym len) in
      let old =
        Around-set t.tx_skb_pool (some p) (map some ps) b (length (map some ps)) r.start
          (omega arith) (omega (arith, len, l)) held in
      let back : ((i + 1) % 256 + 255) % 256 ≡ i = omega arith in
      let new =
        subst (λ (j : ℕ). Around (set t.tx_skb_pool j (some p)) ((i + 1) % 256) (replicate m empty))
          back
          (Around-set t.tx_skb_pool (some p) (replicate m empty) ((i + 1) % 256) 255 (omega arith)
            (omega (arith, length-replicate m, e, r.room)) (omega arith) rest.1) in
      let whole =
        Around-append (set t.tx_skb_pool i (some p)) (map some ps) (some p ∷ replicate m empty) b
          r.start old (set_self t.tx_skb_pool i (some p), new) in
      record {
        free = m;
        room = omega (arith, length-append ps (p ∷ []), e, r.room);
        start = r.start;
        around =
            subst (λ (j : ℕ). Around (set t.tx_skb_pool j (some p)) b (slots (ps ++ p ∷ []) m))
              (sym same)
              (subst (λ xs. Around (set t.tx_skb_pool i (some p)) b xs)
                (sym (append_assoc (map some ps) (some p ∷ []) (replicate m empty))
                  ∙ ap (λ xs. xs ++ replicate m empty) (sym (map-snoc ps p)))
                whole);
        idx =
            next_idx_lem t.tx_skb_pool_idx (omega (arith, r.idx))
            ∙ omega (arith, r.idx, length-append ps (p ∷ []));
        listed =
            ap (λ is. is ++ t.tx_skb_pool_idx ∷ []) r.listed
            ∙ ap (λ (j : ℕ). indices b (length ps) ++ j ∷ []) r.idx
            ∙ indices-snoc (length ps) b r.start
            ∙ ap (λ (n : ℕ). indices b n) more;
        written = r.written;
        gone = r.gone;
        kernel = refl;
        fit = All-snoc ps p r.fit f;
      }
]

Around-empty : (n b : ℕ) → Around (λ (i : ℕ). empty) b (replicate n empty)
Around-empty zero b = tt
Around-empty (suc n) b = (refl, Around-empty n ((b + 1) % 256))

-- The sender that is set up holds no packets.
pub init_tx-Refines :
    {W : Type 0} (s : Cfg W)
    → Refines (record { pending = []; freed = s.freed; hw = s.hw }) (init_tx s)
unfolding init_tx
init_tx-Refines s = (
  0,
  record {
    free = 256;
    room = refl;
    start = omega arith;
    around = Around-empty 256 0;
    idx = refl;
    listed = refl;
    written = refl;
    gone = refl;
    kernel = refl;
    fit = tt;
  },
)
