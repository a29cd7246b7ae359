-- ===== src/Eink.antt =====
-- The frame buffer of the e-ink display, experimental/waveshare_eink/linux_kernel_modules/
-- fb_waveshare_eink.c: the commands to the panel, an update, the start, and writes by a program. The
-- wire to the panel is kept as the events on it, in their order; a sum of 32 bits wraps.
pub mod Sending
pub mod Rows
pub mod Showing
pub mod Updating
pub mod Buffer
pub mod Writing
mod Tests
use mang_oh.Prelude.{
  ℕ, zero, suc, ◌+◌, ◌-◌, ◌*◌, ◌/◌, ◌%◌, ◌^◌, Bool, true, false, ◌||◌, List, [], ◌∷◌, ◌++◌, length,
  take, drop, replicate, ltb, ◌==◌, if◌then◌else◌,
}
use mang_oh.Prelude.Monad.{M, ok, err, halt, spin, corrupt, ◌>>◌, einval}

-- What the panel sees: a level of its reset line, a pause, or bytes with the level of the line that
-- tells data (high) from commands.
pub data Event : Type 0 where
  set_rst : (level : Bool) → Event
  mdelay : (ms : ℕ) → Event
  transfer : (dc : Bool) → (bytes : List ℕ) → Event

-- The code of spi_write for the last transfer, the busy line by the events and the number of earlier
-- readings, and bitrev8 of the kernel.
pub record Kernel : Type 0 where
  pub spi_write : List Event → ℕ
  pub busy : List Event → ℕ → Bool
  pub bitrev8 : ℕ → ℕ

-- struct waveshare_eink_device_properties
pub record Properties : Type 0 where
  pub width : ℕ
  pub height : ℕ
  pub bpp : ℕ

pub record Wire : Type 0 where
  pub log : List Event
  pub dc : Bool
  pub polls : ℕ

-- `screen_base` of the frame buffer, `ssbuf` of struct ws_eink_fb_par, and the static counter.
pub record State : Type 0 where
  pub wire : Wire
  pub screen_base : List ℕ
  pub ssbuf : List ℕ
  pub update_count : ℕ

abbrev pub lut_full_update : List ℕ
lut_full_update =
    34 ∷ 85 ∷ 170 ∷ 85 ∷ 170 ∷ 85 ∷ 170 ∷ 17 ∷ replicate 8 0 ++ replicate 8 30 ++ 1 ∷ replicate 5 0

abbrev pub lut_partial_update : List ℕ
lut_partial_update = 24 ∷ replicate 15 0 ++ 15 ∷ 1 ∷ replicate 12 0

-- `n - 1` of an unsigned int.
abbrev pub pred : ℕ → ℕ
pred n = (n + (2 ^ 32 - 1)) % 2 ^ 32

abbrev pub low : ℕ → ℕ
low n = n % 256

abbrev pub high : ℕ → ℕ
high n = (n / 256) % 256

abbrev pub column : ℕ → ℕ
column x = (x / 8) % 256

abbrev pub tell : Event → Wire → Wire
tell e w = record w { log = w.log ++ e ∷ [] }

unfoldable pub set_dc : Bool → M Wire (Unit {0})
set_dc level w = ok tt (record w { dc = level })

-- The two pulses of ws_eink_reset.
unfoldable pub reset : M Wire (Unit {0})
reset w =
    ok tt (tell (mdelay 200) (tell (set_rst true) (tell (mdelay 200) (tell (set_rst false) w))))

module _ (k : Kernel) where
  unfoldable pub spi_write : List ℕ → M Wire (Unit {0})
  spi_write bytes w =
      let v = tell (transfer w.dc bytes) w in
      let code = k.spi_write v.log in if code == 0 then ok tt v else err code v

  unfoldable pub send_cmd : ℕ → List ℕ → M Wire (Unit {0})
  unfolding set_dc spi_write
  send_cmd cmd bytes = do set_dc false; spi_write (cmd ∷ []); set_dc true; spi_write bytes

  -- Of the busy line, `n` readings at most.
  unfoldable pub wait_until_idle : ℕ → M Wire (Unit {0})
  wait_until_idle zero w = halt spin
  wait_until_idle (suc n) w =
      let rest = wait_until_idle n in
      let v = record w { polls = w.polls + 1 } in if k.busy w.log w.polls then rest v else ok tt v

  module _ (n : ℕ) where
    unfoldable pub sleep : M Wire (Unit {0})
    unfolding send_cmd wait_until_idle
    sleep = do send_cmd 16 []; wait_until_idle n

    unfoldable pub set_memory_pointer : ℕ → ℕ → M Wire (Unit {0})
    unfolding send_cmd wait_until_idle
    set_memory_pointer x y = do
      send_cmd 78 (column x ∷ [])
      send_cmd 79 (low y ∷ high y ∷ [])
      wait_until_idle n

    unfoldable pub display_frame : M Wire (Unit {0})
    unfolding send_cmd wait_until_idle
    display_frame = do send_cmd 34 (196 ∷ []); send_cmd 32 []; send_cmd 255 []; wait_until_idle n

  unfoldable pub set_lut : List ℕ → M Wire (Unit {0})
  unfolding send_cmd
  set_lut lut = send_cmd 50 lut

  unfoldable pub set_memory_area : ℕ → ℕ → ℕ → ℕ → M Wire (Unit {0})
  unfolding send_cmd
  set_memory_area x_start y_start x_end y_end = do
    send_cmd 68 (column x_start ∷ column x_end ∷ [])
    send_cmd 69 (low y_start ∷ high y_start ∷ low y_end ∷ high y_end ∷ [])

  module _ (p : Properties) where
    unfoldable pub int_lut : List ℕ → M Wire (Unit {0})
    unfolding reset send_cmd set_lut
    int_lut lut = do
      reset
      send_cmd 1 (low (pred p.height) ∷ high (pred p.height) ∷ 0 ∷ [])
      send_cmd 12 (215 ∷ 214 ∷ 157 ∷ [])
      send_cmd 44 (168 ∷ [])
      send_cmd 58 (26 ∷ [])
      send_cmd 59 (8 ∷ [])
      send_cmd 17 (3 ∷ [])
      set_lut lut

    -- The row that starts at `i`, or memory behind the buffer.
    unfoldable pub write_ram : List ℕ → ℕ → ℕ → M Wire (Unit {0})
    unfolding send_cmd
    write_ram buffer i row_bytes w =
        if ltb (length buffer) (i + row_bytes)
        then halt corrupt
        else send_cmd 36 (take row_bytes (drop i buffer)) w

    module _ (n : ℕ) where
      -- The rest of the loop, with `m` rows to go.
      unfoldable pub frame_rows : ℕ → ℕ → List ℕ → M Wire (Unit {0})
      unfolding set_memory_pointer write_ram
      frame_rows zero row buffer = λ w. ok tt w
      frame_rows (suc m) row buffer = do
        set_memory_pointer n 0 row
        write_ram buffer ((row * (p.width / 8)) % 2 ^ 32) (p.width / 8)
        frame_rows m (row + 1) buffer

      unfoldable pub set_frame_memory : List ℕ → M Wire (Unit {0})
      unfolding set_memory_area frame_rows
      set_frame_memory buffer = do
        set_memory_area 0 0 (pred p.width) (pred p.height)
        frame_rows p.height 0 buffer

      unfoldable pub clear_rows : ℕ → ℕ → List ℕ → M Wire (Unit {0})
      unfolding set_memory_pointer send_cmd
      clear_rows zero row solid_line = λ w. ok tt w
      clear_rows (suc m) row solid_line = do
        set_memory_pointer n 0 row
        send_cmd 36 solid_line
        clear_rows m (row + 1) solid_line

      unfoldable pub clear_frame_memory : ℕ → M Wire (Unit {0})
      unfolding set_memory_area clear_rows
      clear_frame_memory color = do
        set_memory_area 0 0 (pred p.width) (pred p.height)
        clear_rows p.height 0 (replicate (p.width / 8) color)

      -- ws_eink_init_display, when it has its three pins.
      unfoldable pub init_display : M Wire (Unit {0})
      unfolding int_lut clear_frame_memory display_frame
      init_display = do
        int_lut lut_full_update
        clear_frame_memory 255
        display_frame n
        int_lut lut_partial_update

      unfoldable pub show_buffer : List ℕ → M Wire (Unit {0})
      unfolding set_frame_memory display_frame sleep
      show_buffer ssbuf = do set_frame_memory ssbuf; display_frame n; sleep n

  -- The loop over the first `m` bytes of `ssbuf`.
  unfoldable pub reverse_bits : ℕ → List ℕ → List ℕ
  reverse_bits zero ssbuf = ssbuf
  reverse_bits (suc m) [] = []
  reverse_bits (suc m) (b ∷ ssbuf) = k.bitrev8 b ∷ reverse_bits m ssbuf

  -- The memcpy and the loop, for buffers that hold a frame.
  unfoldable pub copy_frame : ℕ → M State (Unit {0})
  unfolding reverse_bits
  copy_frame frame_size s =
      if ltb (length s.screen_base) frame_size || ltb (length s.ssbuf) frame_size
      then halt corrupt
      else ok tt (record s {
        ssbuf = reverse_bits frame_size (take frame_size s.screen_base ++ drop frame_size s.ssbuf);
      })

unfoldable pub on_wire : M Wire (Unit {0}) → M State (Unit {0})
on_wire m s = elim (m s.wire) [
  | ok a w ↦ ok a (record s { wire = w })
  | err e w ↦ err e (record s { wire = w })
  | halt f ↦ halt f
]

abbrev pub frame_size : Properties → ℕ
frame_size p = ((p.height * p.width * p.bpp) % 2 ^ 32) / 8

module _ (k : Kernel) (p : Properties) (n : ℕ) where
  unfoldable pub show_frame : M State (Unit {0})
  unfolding on_wire show_buffer
  show_frame s = on_wire (show_buffer k p n s.ssbuf) s

  unfoldable pub update_display : M State (Unit {0})
  unfolding on_wire int_lut copy_frame show_frame
  update_display s =
      let full = s.update_count + 1 == 10 in
      let lut = if full then lut_full_update else lut_partial_update in
      (on_wire (int_lut k p lut) >> (copy_frame k (frame_size p) >> show_frame))
        (record s { update_count = if full then 0 else s.update_count + 1 })

-- The commands of ws_eink_fb_ioctl. The code of the sleep is not looked at, and an unknown command
-- gives EINVAL as a positive number.
pub data Cmd : Type 0 where
  deep_sleep wakeup other : Cmd

unfoldable pub fb_ioctl : Kernel → ℕ → Cmd → M Wire ℕ
unfolding sleep reset
fb_ioctl k n deep_sleep w = elim (sleep k n w) [
  | ok a v ↦ ok 0 v
  | err e v ↦ ok 0 v
  | halt f ↦ halt f
]
fb_ioctl k n wakeup w = (reset >> (λ v. ok 0 v)) w
fb_ioctl k n other w = ok einval w
