-- ===== src/Eink/Updating.antt =====
-- An update of the display, of experimental/waveshare_eink/linux_kernel_modules/fb_waveshare_eink.c:
-- what it puts on the wire for the bytes of the frame buffer, and which of the two tables it sets.
use mang_oh.Prelude.{
  ℕ, ◌+◌, ◌*◌, ◌/◌, ◌%◌, ◌^◌, ◌≤◌, ◌<◌, ◌≡◌, refl, sym, ap, ◌∙◌, Bool, false, List, [], ◌++◌, map,
  append_assoc, length, ◌==◌, if◌then◌else◌, le→ltb, arith,
}
use mathlib.Core.Path.{subst}
use mang_oh.Prelude.Monad.{Out, ok, err, halt, ◌>>◌, >>-run, Does}
use mang_oh.Prelude.Outcome.{Post, Post-then, Post-weaken}
use mang_oh.Board.Ledger.{Never}
use mang_oh.Eink.{
  Event, Kernel, Properties, State, lut_full_update, lut_partial_update, int_lut, set_frame_memory,
  display_frame, sleep, show_buffer, copy_frame, on_wire, frame_size, show_frame, update_display,
}
use mang_oh.Eink.Sending.{
  wire, Sends, Sends-then, Cut, Cut-more, Cut-after, Patient, setting, int_lut_lem,
  display_frame_lem, sleep_lem,
}
use mang_oh.Eink.Rows.{ram, ram_from, picture, rows_lem, set_frame_memory_lem}
use mang_oh.Eink.Showing.{
  refresh, showing, updating, table, Shown, Stopped, on_wire_lem, turn_test, turn_count, length-map,
  copied,
}

module _ (k : Kernel) where
  module _ (p : Properties) (n : ℕ) (patient : Patient k n) where
    show_buffer_lem :
        (buffer : List ℕ)
        → p.height * (p.width / 8) ≤ length buffer
        → length buffer < 2 ^ 32
        → Sends k (showing p buffer) (show_buffer k p n buffer)
    unfolding show_buffer
    show_buffer_lem buffer h l =
        Sends-then k (wire (picture p buffer)) _ (set_frame_memory k p n buffer)
          (display_frame k n >> sleep k n) (set_frame_memory_lem k p n patient buffer h l)
          (Sends-then k _ _ (display_frame k n) (sleep k n) (display_frame_lem k n patient)
            (sleep_lem k n patient))

    module _ (c : ℕ) (width_lem : p.width ≡ c * 8) (bpp_lem : p.bpp ≡ 1)
        (small : (p.height * c) * 8 < 2 ^ 32) where
      bytes_lem : p.width / 8 ≡ c
      bytes_lem = omega (arith, width_lem)

      bits_lem : p.height * p.width * p.bpp ≡ (p.height * c) * 8
      bits_lem = rw (width_lem, bpp_lem) (omega arith)

      frame_size_lem : frame_size p ≡ p.height * c
      frame_size_lem = omega (arith, bits_lem, small)

      -- The frame buffer and the buffer of the driver hold a frame.
      abbrev pub Sized : State → Type 0
      Sized s = (length s.screen_base ≡ p.height * c) × (length s.ssbuf ≡ p.height * c)

      copy_frame_lem :
          (s : State)
          → Sized s
          → copy_frame k (frame_size p) s ≡ ok tt (record s { ssbuf = map k.bitrev8 s.screen_base })
      unfolding copy_frame
      copy_frame_lem s (h, g) =
          let size = frame_size p in
          let a : length s.screen_base ≡ size = h ∙ sym frame_size_lem in
          let b : length s.ssbuf ≡ size = g ∙ sym frame_size_lem in
          rw
            (
              le→ltb (length s.screen_base) size (omega (arith, a)),
              le→ltb (length s.ssbuf) size (omega (arith, b)),
              copied k size s.screen_base s.ssbuf a b,
            )
            refl

      frame_fits :
          (s : State)
          → Sized s
          → (p.height * (p.width / 8) ≤ length (map k.bitrev8 s.screen_base))
            × (length (map k.bitrev8 s.screen_base) < 2 ^ 32)
      frame_fits s (h, g) =
          let l = length-map k.bitrev8 s.screen_base in
          let e : p.height * (p.width / 8) ≡ p.height * c =
            ap (λ (x : ℕ). p.height * x) bytes_lem in
          (omega (arith, l, h, e), omega (arith, l, h, small))

      shown_lem :
          (s : State)
          → Sized s
          → Post
              (Shown s (showing p (map k.bitrev8 s.screen_base)) s.update_count)
              (Stopped k s (showing p (map k.bitrev8 s.screen_base)) s.update_count)
              Never
              ((copy_frame k (frame_size p) >> show_frame k p n) s)
      unfolding show_frame
      shown_lem s h =
          let buffer = map k.bitrev8 s.screen_base in
          let t = record s { ssbuf = buffer } in
          let fits = frame_fits s h in
          let m = show_buffer k p n buffer in
          rw (>>-run (copy_frame k (frame_size p)) (show_frame k p n) (copy_frame_lem s h)) (
            Post-weaken (on_wire m t)
              (λ a u. Shown t (showing p buffer) s.update_count a u × (u.ssbuf ≡ buffer))
              (Shown s (showing p buffer) s.update_count)
              (Stopped k t (showing p buffer) s.update_count) Never (λ a u q. q.0) (λ e u q. q)
              (λ f z. z)
              (on_wire_lem k (showing p buffer) t m (show_buffer_lem buffer fits.0 fits.1)))

      -- An update puts the table, the picture of the frame buffer with its bits reversed, and the
      -- refresh on the wire, or stops at the first transfer that fails.
      -- What is left of an update, behind the part that has put `es` on the wire.
      show_after :
          (s t : State) (es : List Event) (count : ℕ)
          → Sized s
          → Shown s es count tt t × (t.ssbuf ≡ s.ssbuf)
          → Post
              (Shown s (es ++ showing p (map k.bitrev8 s.screen_base)) count)
              (Stopped k s (es ++ showing p (map k.bitrev8 s.screen_base)) count)
              Never
              ((copy_frame k (frame_size p) >> show_frame k p n) t)
      show_after s t es count h (q, b) =
          let fs = showing p (map k.bitrev8 s.screen_base) in
          let gs = showing p (map k.bitrev8 t.screen_base) in
          let same : gs ≡ fs = ap (λ x. showing p (map k.bitrev8 x)) q.1 in
          Post-weaken ((copy_frame k (frame_size p) >> show_frame k p n) t)
            (Shown t gs t.update_count) (Shown s (es ++ fs) count) (Stopped k t gs t.update_count)
            Never
            (λ a u x. (
              x.0
                  ∙ ap (λ l. l ++ gs) q.0
                  ∙ ap (λ l. (s.wire.log ++ es) ++ l) same
                  ∙ append_assoc s.wire.log es fs,
              x.1 ∙ q.1,
              x.2 ∙ q.2,
            ))
            (λ e u x. (
              Cut-after k s.wire.log es fs t.wire.log e u.wire q.0
                  (subst (λ l. Cut k t.wire.log l e u.wire) same x.0),
              x.1 ∙ q.1,
              x.2 ∙ q.2,
            ))
            (λ f z. z) (shown_lem t (ap (λ x. length x) q.1 ∙ h.0, ap (λ x. length x) b ∙ h.1))

      pub update_display_lem :
          (s : State)
          → s.update_count < 10
          → Sized s
          → Post
              (Shown s
                (updating p (table s.update_count) (map k.bitrev8 s.screen_base))
                ((s.update_count + 1) % 10))
              (Stopped k s
                (updating p (table s.update_count) (map k.bitrev8 s.screen_base))
                ((s.update_count + 1) % 10))
              Never
              (update_display k p n s)
      unfolding update_display
      update_display_lem s l h =
          let count = (s.update_count + 1) % 10 in
          let lut = table s.update_count in
          let u = record s { update_count = count } in
          let es = setting p lut in
          let fs = showing p (map k.bitrev8 s.screen_base) in
          let m = int_lut k p lut in
          let rest = copy_frame k (frame_size p) >> show_frame k p n in
          let whole : Post (Shown s (es ++ fs) count) (Stopped k s (es ++ fs) count) Never
              ((on_wire m >> rest) u) =
            Post-then (Stopped k s (es ++ fs) count) Never (on_wire m) rest u
              (λ a t. Shown u es count a t × (t.ssbuf ≡ s.ssbuf)) (Shown s (es ++ fs) count)
              (Post-weaken (on_wire m u) (λ a t. Shown u es count a t × (t.ssbuf ≡ s.ssbuf))
                (λ a t. Shown u es count a t × (t.ssbuf ≡ s.ssbuf)) (Stopped k u es count) Never
                (λ a t q. q) (λ e t q. (Cut-more k s.wire.log es fs e t.wire q.0, q.1, q.2))
                (λ f z. z) (on_wire_lem k es u m (int_lut_lem k p lut)))
              (λ a t q. show_after s t es count h q) in
          subst
            (λ b. Post (Shown s (es ++ fs) count) (Stopped k s (es ++ fs) count) Never (
              (on_wire (int_lut k p (if b then lut_full_update else lut_partial_update)) >> rest)
                (record s {
                  update_count = if s.update_count + 1 == 10 then 0 else s.update_count + 1;
                })))
            (sym (turn_test s.update_count l))
            (subst
              (λ (x : ℕ).
                Post (Shown s (es ++ fs) count) (Stopped k s (es ++ fs) count) Never
                  ((on_wire m >> rest) (record s { update_count = x })))
              (sym (turn_count s.update_count l)) whole)

      -- The picture of an update is the frame buffer's, in the panel's memory.
      rows_only : (on : Bool) → ram_from on (wire refresh) ≡ []
      rows_only on = refl

      pub updating-ram :
          (lut bytes : List ℕ) → length bytes ≡ p.height * c → ram (updating p lut bytes) ≡ bytes
      updating-ram lut bytes h =
          rows_lem (p.width / 8) p.height 0 bytes (wire refresh) false
            (h ∙ sym (ap (λ (x : ℕ). p.height * x) bytes_lem)) rows_only

      reaches :
          (s : State) (bytes : List ℕ) (count : ℕ)
          → length bytes ≡ p.height * c
          → ((log : List Event) → k.spi_write log ≡ 0)
          → (out : Out State (Unit {0}))
          → Post
              (Shown s (updating p (table s.update_count) bytes) count)
              (Stopped k s (updating p (table s.update_count) bytes) count)
              Never
              out
          → Does out tt
              (λ t. (es : List Event) × (t.wire.log ≡ s.wire.log ++ es) × (ram es ≡ bytes))
      reaches s bytes count h works (ok a t) (q, r, x) =
          let lut = table s.update_count in
          record {
            next = t;
            returned = refl;
            result = (updating p lut bytes, q, updating-ram lut bytes h);
          }
      reaches s bytes count h works (err e t) (q, r, x) =
          absurd (omega (arith, q.is_error, q.is_code, works t.wire.log))
      reaches s bytes count h works (halt f) z = absurd z

      -- Over a bus without errors an update succeeds, and brings the frame buffer, each byte with its
      -- bits reversed, into the panel's memory.
      pub update_display-ram :
          (s : State)
          → ((log : List Event) → k.spi_write log ≡ 0)
          → s.update_count < 10
          → Sized s
          → Does (update_display k p n s) tt (λ t.
            (es : List Event) × (t.wire.log ≡ s.wire.log ++ es)
            × (ram es ≡ map k.bitrev8 s.screen_base))
      update_display-ram s works l h =
          reaches s (map k.bitrev8 s.screen_base) ((s.update_count + 1) % 10)
            (length-map k.bitrev8 s.screen_base ∙ h.0) works (update_display k p n s)
            (update_display_lem s l h)
