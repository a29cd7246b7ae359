-- ===== src/Eink/Buffer.antt =====
-- Writes by a program to the frame buffer of experimental/waveshare_eink/linux_kernel_modules/
-- fb_waveshare_eink.c. A sum of 32 bits wraps.
use mang_oh.Prelude.{ℕ, ◌+◌, ◌-◌, ◌%◌, ◌^◌, Bool, List, ◌++◌, take, drop, ltb, ◌==◌, if◌then◌else◌}
use mang_oh.Prelude.Monad.{M, ok, err}

abbrev pub eperm : ℕ
eperm = 1

abbrev pub efault : ℕ
efault = 14

abbrev pub efbig : ℕ
efbig = 27

abbrev pub enospc : ℕ
enospc = 28

-- The parts of struct fb_info that fb_write looks at, with what copy_from_user stores of so many bytes,
-- and whether these are all the program's.
pub record Request : Type 0 where
  pub running : Bool
  pub smem_len : ℕ
  pub count : ℕ
  pub ppos : ℕ
  pub copy_from_user : ℕ → List ℕ × Bool

-- The bytes that fit behind `pos`, and the error of those that do not.
abbrev pub clip : ℕ → ℕ → ℕ → ℕ × ℕ
clip total pos count =
    let code = if ltb total count then efbig else 0 in
    let clipped = if ltb total count then total else count in
    if ltb total ((clipped + pos) % 2 ^ 32)
    then (total - pos, if code == 0 then enospc else code)
    else (clipped, code)

-- The copy of `clipped` bytes to `pos`, with the code so far.
unfoldable pub store : Request → ℕ → ℕ → ℕ → M (List ℕ) (ℕ × ℕ)
store r pos clipped err_so_far screen_base =
    let (bytes, whole) = r.copy_from_user clipped in
    let code = if whole then err_so_far else efault in
    let t = take pos screen_base ++ (bytes ++ drop (pos + clipped) screen_base) in
    if code == 0 then ok (clipped, r.ppos + clipped) t else err code t

-- `*ppos` is cut to an unsigned long. The value is the number of the bytes, with the new `*ppos`.
unfoldable pub fb_write : Request → M (List ℕ) (ℕ × ℕ)
unfolding store
fb_write r screen_base =
    let pos = r.ppos % 2 ^ 32 in
    let c = clip r.smem_len pos r.count in
    if r.running
    then (if ltb r.smem_len pos then err efbig screen_base else store r pos c.0 c.1 screen_base)
    else err eperm screen_base
