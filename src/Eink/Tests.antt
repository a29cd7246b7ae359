-- ===== src/Eink/Tests.antt =====
-- Tests of experimental/waveshare_eink/linux_kernel_modules/fb_waveshare_eink.c on a panel of 16 by 2
-- pixels.
use mang_oh.Prelude.{
  ℕ, zero, suc, ap, length, ◌+◌, ◌*◌, ◌/◌, ◌%◌, ◌≡◌, refl, true, false, List, [], ◌∷◌, ◌++◌, ◌==◌,
  replicate, arith,
}
use mang_oh.Prelude.Monad.{ok, err, Does, after}
use mang_oh.Prelude.Outcome.{Post}
use mang_oh.Board.Ledger.{Never}
use mang_oh.Eink.{
  Event, Kernel, Properties, State, set_dc, reset, spi_write, send_cmd, wait_until_idle, sleep,
  set_memory_pointer, display_frame, set_lut, set_memory_area, int_lut, write_ram, frame_rows,
  set_frame_memory, show_buffer, reverse_bits, copy_frame, on_wire, show_frame, update_display,
}
use mang_oh.Eink.Buffer.{Request, store, fb_write}
use mang_oh.Eink.Sending.{Patient}
use mang_oh.Eink.Rows.{ram}
use mang_oh.Eink.Showing.{Shown, Stopped, updating, table}
use mang_oh.Eink.Updating.{update_display_lem, update_display-ram}
use mang_oh.Eink.Writing.{Fits, Window, written, fb_write-Window}

abbrev bit : ℕ → ℕ → ℕ
bit b i = (b / i) % 2

abbrev reversed : ℕ → ℕ
reversed b =
    bit b 1 * 128
    + bit b 2 * 64
    + bit b 4 * 32
    + bit b 8 * 16
    + bit b 16 * 8
    + bit b 32 * 4
    + bit b 64 * 2
    + bit b 128

-- The panel is busy at every other reading.
abbrev kernel : Kernel
kernel = record { spi_write = λ log. 0; busy = λ log polls. polls % 2 == 0; bitrev8 = reversed }

kernel-Patient : Patient kernel 2
kernel-Patient log polls = ground arith

abbrev panel : Properties
panel = record { width = 16; height = 2; bpp = 1 }

abbrev before : State
before = record {
  wire = record { log = []; dc = false; polls = 0 };
  screen_base = 1 ∷ 2 ∷ 128 ∷ 255 ∷ [];
  ssbuf = replicate 4 0;
  update_count = 9;
}

abbrev shown : List ℕ
shown = 128 ∷ 64 ∷ 1 ∷ 255 ∷ []

update_display_run : (after (update_display kernel panel 2 before) before).ssbuf ≡ shown
unfolding update_display int_lut reset send_cmd set_dc spi_write set_lut on_wire copy_frame
    reverse_bits show_frame show_buffer set_frame_memory set_memory_area frame_rows write_ram
    set_memory_pointer wait_until_idle display_frame sleep
update_display_run = refl

update_display-ram_run : ram (after (update_display kernel panel 2 before) before).wire.log ≡ shown
unfolding update_display int_lut reset send_cmd set_dc spi_write set_lut on_wire copy_frame
    reverse_bits show_frame show_buffer set_frame_memory set_memory_area frame_rows write_ram
    set_memory_pointer wait_until_idle display_frame sleep
update_display-ram_run = refl

update_display_lem_example :
    Post
      (Shown before (updating panel (table 9) shown) 0)
      (Stopped kernel before (updating panel (table 9) shown) 0)
      Never
      (update_display kernel panel 2 before)
update_display_lem_example =
    update_display_lem kernel panel 2 kernel-Patient 2 refl refl (omega arith) before (omega arith)
      (refl, refl)

update_display-ram_example :
    Does
      (update_display kernel panel 2 before)
      tt
      (λ t. (es : List Event) × (t.wire.log ≡ [] ++ es) × (ram es ≡ shown))
update_display-ram_example =
    update_display-ram kernel panel 2 kernel-Patient 2 refl refl (omega arith) before (λ log. refl)
      (omega arith) (refl, refl)

abbrev request : ℕ → ℕ → Request
request count ppos = record {
  running = true;
  smem_len = 4;
  count = count;
  ppos = ppos;
  copy_from_user = λ n. (replicate n 7, true);
}

length-replicate : (n a : ℕ) → length (replicate n a) ≡ n
length-replicate zero a = refl
length-replicate (suc n) a = ap (λ m. suc m) (length-replicate n a)

fb_write_all : fb_write (request 2 1) before.screen_base ≡ ok (2, 3) (1 ∷ 7 ∷ 7 ∷ 255 ∷ [])
unfolding fb_write store
fb_write_all = refl

-- What fits is stored even though the write fails.
fb_write_past : fb_write (request 3 2) before.screen_base ≡ err 28 (1 ∷ 2 ∷ 7 ∷ 7 ∷ [])
unfolding fb_write store
fb_write_past = refl

fb_write-Window_example :
    Post
      (λ v t.
        (v ≡ (3, 5))
        × Fits (request 3 2)
        × (t ≡ written (request 3 2) before.screen_base)
        × Window (request 3 2) before.screen_base t)
      (λ e t.
        (true ≡ true → Fits (request 3 2) → true ≡ false)
        × Window (request 3 2) before.screen_base t)
      Never
      (fb_write (request 3 2) before.screen_base)
fb_write-Window_example =
    fb_write-Window (request 3 2) before.screen_base (omega arith) (omega arith) refl
      (λ n. length-replicate n 7)
