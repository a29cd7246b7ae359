-- ===== src/Eink/Sending.antt =====
-- What the functions of experimental/waveshare_eink/linux_kernel_modules/fb_waveshare_eink.c put on
-- the wire: the commands, the waits, and the sequences that do not depend on a picture.
use mang_oh.Prelude.{
  ℕ, zero, suc, ◌+◌, ◌<◌, ◌≡◌, refl, sym, ap, ◌∙◌, Bool, true, false, ◌||◌, not, List, [], ◌∷◌,
  ◌++◌, append_assoc, append-nil, ◌==◌, arith,
}
use mang_oh.Prelude.Monad.{M, ok, err, ◌>>◌}
use mang_oh.Prelude.Outcome.{Post, Post-then, Post-if, Post-weaken}
use mang_oh.Board.Ledger.{Never}
use mang_oh.Eink.{
  Event, set_rst, mdelay, transfer, Kernel, Properties, Wire, pred, low, high, column, tell, set_dc,
  reset, spi_write, send_cmd, wait_until_idle, sleep, set_memory_pointer, display_frame, set_lut,
  set_memory_area, int_lut,
}

-- The events of a list of commands with their bytes.
abbrev pub wire : List (ℕ × List ℕ) → List Event
wire [] = []
wire (c ∷ cs) = transfer false (c.0 ∷ []) ∷ transfer true c.1 ∷ wire cs

-- What has been put on the wire is `es`, or the start of it with the code of an error.
abbrev pub AllSent : List Event → List Event → Unit {0} → Wire → Type 0
AllSent before es a v = v.log ≡ before ++ es

pub record Cut (k : Kernel) (before es : List Event) (e : ℕ) (v : Wire) : Type 0 where
  pub left : List Event
  pub is_start : v.log ++ left ≡ before ++ es
  pub is_error : 0 < e
  pub is_code : k.spi_write v.log ≡ e

abbrev pub Sends : Kernel → List Event → M Wire (Unit {0}) → Type 0
Sends k es m = (w : Wire) → Post (AllSent w.log es) (Cut k w.log es) Never (m w)

-- The line is read as idle within `n` readings.
abbrev idle_within : Kernel → List Event → ℕ → ℕ → Bool
idle_within k log zero polls = false
idle_within k log (suc n) polls = not (k.busy log polls) || idle_within k log n (polls + 1)

abbrev pub Patient : Kernel → ℕ → Type 0
Patient k n = (log : List Event) (polls : ℕ) → idle_within k log n polls ≡ true

-- A cut of the start, and one of what follows.
pub Cut-more :
    (k : Kernel) (before es fs : List Event) (e : ℕ) (v : Wire)
    → Cut k before es e v
    → Cut k before (es ++ fs) e v
Cut-more k before es fs e v c = record {
  left = c.left ++ fs;
  is_start =
      sym (append_assoc v.log c.left fs) ∙ ap (λ l. l ++ fs) c.is_start ∙ append_assoc before es fs;
  is_error = c.is_error;
  is_code = c.is_code;
}

pub Cut-after :
    (k : Kernel) (before es fs log : List Event) (e : ℕ) (v : Wire)
    → log ≡ before ++ es
    → Cut k log fs e v
    → Cut k before (es ++ fs) e v
Cut-after k before es fs log e v q c = record {
  left = c.left;
  is_start = c.is_start ∙ ap (λ l. l ++ fs) q ∙ append_assoc before es fs;
  is_error = c.is_error;
  is_code = c.is_code;
}

pub Sends-then :
    (k : Kernel) (es fs : List Event) (m r : M Wire (Unit {0}))
    → Sends k es m
    → Sends k fs r
    → Sends k (es ++ fs) (m >> r)
Sends-then k es fs m r h g w =
    Post-then (Cut k w.log (es ++ fs)) Never m r w (AllSent w.log es) (AllSent w.log (es ++ fs))
      (Post-weaken (m w) (AllSent w.log es) (AllSent w.log es) (Cut k w.log es) Never (λ a t q. q)
        (λ e t c. Cut-more k w.log es fs e t c) (λ f z. z) (h w))
      (λ a t q.
        Post-weaken (r t) (AllSent t.log fs) (AllSent w.log (es ++ fs)) (Cut k t.log fs) Never
          (λ b u x. x ∙ ap (λ l. l ++ fs) q ∙ append_assoc w.log es fs)
          (λ e u c. Cut-after k w.log es fs t.log e u q c) (λ f z. z) (g t))

four_lem :
    (log : List Event) (a b c d : Event)
    → (((log ++ a ∷ []) ++ b ∷ []) ++ c ∷ []) ++ d ∷ [] ≡ log ++ a ∷ b ∷ c ∷ d ∷ []
four_lem [] a b c d = refl
four_lem (e ∷ log) a b c d = ap (λ l. e ∷ l) (four_lem log a b c d)

pub reset_lem :
    (k : Kernel) → Sends k (set_rst false ∷ mdelay 200 ∷ set_rst true ∷ mdelay 200 ∷ []) reset
unfolding reset
reset_lem k w = four_lem w.log (set_rst false) (mdelay 200) (set_rst true) (mdelay 200)

module _ (k : Kernel) where
  phase_lem :
      (d : Bool) (bytes : List ℕ) → Sends k (transfer d bytes ∷ []) (set_dc d >> spi_write k bytes)
  unfolding set_dc spi_write
  phase_lem d bytes w =
      let v = tell (transfer d bytes) (record w { dc = d }) in
      let code = k.spi_write v.log in
      Post-if (AllSent w.log (transfer d bytes ∷ [])) (Cut k w.log (transfer d bytes ∷ [])) Never
        (code == 0) (ok tt v) (err code v) (λ e. refl)
        (λ e. record {
          left = [];
          is_start = append-nil v.log;
          is_error = grind (arith, e);
          is_code = refl;
        })

  pub send_cmd_lem :
      (c : ℕ) (bytes : List ℕ) → Sends k (wire ((c, bytes) ∷ [])) (send_cmd k c bytes)
  unfolding send_cmd set_dc
  send_cmd_lem c bytes w =
      Sends-then k (transfer false (c ∷ []) ∷ []) (transfer true bytes ∷ [])
        (set_dc false >> spi_write k (c ∷ [])) (set_dc true >> spi_write k bytes)
        (phase_lem false (c ∷ [])) (phase_lem true bytes) w

  -- A command before the rest of a sequence.
  pub then_cmd :
      (c : ℕ) (bytes : List ℕ) (es : List Event) (r : M Wire (Unit {0}))
      → Sends k es r
      → Sends k (wire ((c, bytes) ∷ []) ++ es) (send_cmd k c bytes >> r)
  then_cmd c bytes es r h =
      Sends-then k (wire ((c, bytes) ∷ [])) es (send_cmd k c bytes) r (send_cmd_lem c bytes) h

  pub set_memory_area_lem :
      (x y u v : ℕ)
      → Sends k
          (wire ((68, column x ∷ column u ∷ []) ∷ (69, low y ∷ high y ∷ low v ∷ high v ∷ []) ∷ []))
          (set_memory_area k x y u v)
  unfolding set_memory_area
  set_memory_area_lem x y u v =
      then_cmd 68 (column x ∷ column u ∷ []) _
        (send_cmd k 69 (low y ∷ high y ∷ low v ∷ high v ∷ []))
        (send_cmd_lem 69 (low y ∷ high y ∷ low v ∷ high v ∷ []))

  module _ (n : ℕ) (patient : Patient k n) where
    wait_lem :
        (m : ℕ) (w : Wire)
        → idle_within k w.log m w.polls ≡ true
        → Post (AllSent w.log []) (Cut k w.log []) Never (wait_until_idle k m w)
    unfolding wait_until_idle
    wait_lem zero w h = absurd (grind (arith, h))
    wait_lem (suc m) w h =
        let v = record w { polls = w.polls + 1 } in
        Post-if (AllSent w.log []) (Cut k w.log []) Never (k.busy w.log w.polls)
          (wait_until_idle k m v) (ok tt v)
          (λ e. wait_lem m v (sym (ap (λ b. not b || idle_within k w.log m (w.polls + 1)) e) ∙ h))
          (λ e. sym (append-nil w.log))

    pub wait_until_idle_lem : Sends k [] (wait_until_idle k n)
    wait_until_idle_lem w = wait_lem n w (patient w.log w.polls)

    pub sleep_lem : Sends k (wire ((16, []) ∷ [])) (sleep k n)
    unfolding sleep
    sleep_lem = then_cmd 16 [] _ (wait_until_idle k n) wait_until_idle_lem

    pub set_memory_pointer_lem :
        (x y : ℕ)
        → Sends k
            (wire ((78, column x ∷ []) ∷ (79, low y ∷ high y ∷ []) ∷ []))
            (set_memory_pointer k n x y)
    unfolding set_memory_pointer
    set_memory_pointer_lem x y =
        then_cmd 78 (column x ∷ []) _ (send_cmd k 79 (low y ∷ high y ∷ []) >> wait_until_idle k n)
          (then_cmd 79 (low y ∷ high y ∷ []) _ (wait_until_idle k n) wait_until_idle_lem)

    pub display_frame_lem :
        Sends k (wire ((34, 196 ∷ []) ∷ (32, []) ∷ (255, []) ∷ [])) (display_frame k n)
    unfolding display_frame
    display_frame_lem =
        then_cmd 34 (196 ∷ []) _ (send_cmd k 32 [] >> (send_cmd k 255 [] >> wait_until_idle k n)) (
          then_cmd 32 [] _ (send_cmd k 255 [] >> wait_until_idle k n)
            (then_cmd 255 [] _ (wait_until_idle k n) wait_until_idle_lem))

-- What int_lut puts on the wire.
abbrev pub setting : Properties → List ℕ → List Event
setting p lut =
    set_rst false
    ∷ mdelay 200
    ∷ set_rst true
    ∷ mdelay 200
    ∷ wire (
        (1, low (pred p.height) ∷ high (pred p.height) ∷ 0 ∷ [])
        ∷ (12, 215 ∷ 214 ∷ 157 ∷ [])
        ∷ (44, 168 ∷ [])
        ∷ (58, 26 ∷ [])
        ∷ (59, 8 ∷ [])
        ∷ (17, 3 ∷ [])
        ∷ (50, lut)
        ∷ [])

pub int_lut_lem :
    (k : Kernel) (p : Properties) (lut : List ℕ) → Sends k (setting p lut) (int_lut k p lut)
unfolding int_lut set_lut
int_lut_lem k p lut =
    let size = low (pred p.height) ∷ high (pred p.height) ∷ 0 ∷ [] in
    let m7 = send_cmd k 50 lut in
    let m6 = send_cmd k 17 (3 ∷ []) >> m7 in
    let m5 = send_cmd k 59 (8 ∷ []) >> m6 in
    let m4 = send_cmd k 58 (26 ∷ []) >> m5 in
    let m3 = send_cmd k 44 (168 ∷ []) >> m4 in
    let m2 = send_cmd k 12 (215 ∷ 214 ∷ 157 ∷ []) >> m3 in
    Sends-then k _ _ reset (send_cmd k 1 size >> m2) (reset_lem k) (
      then_cmd k 1 size _ m2 (
        then_cmd k 12 (215 ∷ 214 ∷ 157 ∷ []) _ m3 (
          then_cmd k 44 (168 ∷ []) _ m4 (
            then_cmd k 58 (26 ∷ []) _ m5 (
              then_cmd k 59 (8 ∷ []) _ m6 (then_cmd k 17 (3 ∷ []) _ m7 (send_cmd_lem k 50 lut)))))))
