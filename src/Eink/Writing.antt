-- ===== src/Eink/Writing.antt =====
-- Writes by a program to the frame buffer of experimental/waveshare_eink/linux_kernel_modules/
-- fb_waveshare_eink.c: the place and the length of what is stored, and the codes.
use mang_oh.Prelude.{
  ℕ, ◌+◌, ◌-◌, ◌^◌, ◌%◌, ◌≤◌, ◌<◌, ◌≡◌, refl, ap, sym, ◌∙◌, Bool, true, false, List, ◌++◌, length,
  take, drop, take-all, take-append_le, drop-append_past, length-append, length-take, length-drop,
  min, ltb, ◌==◌, if◌then◌else◌, arith,
}
use mathlib.Core.Path.{subst}
use mang_oh.Prelude.Monad.{ok, err}
use mang_oh.Prelude.Outcome.{Post, Post-if}
use mang_oh.Board.Ledger.{Never}
use mang_oh.Eink.Buffer.{Request, clip, store, fb_write, efbig, efault, eperm}

-- What is stored of a request: what fits behind its position.
abbrev pub stored : Request → ℕ
stored r = min r.count (r.smem_len - r.ppos)

-- The frame buffer behind a request that stores something.
abbrev pub written : Request → List ℕ → List ℕ
written r screen_base =
    take r.ppos screen_base
    ++ ((r.copy_from_user (stored r)).0 ++ drop (r.ppos + stored r) screen_base)

clip_count :
    (total pos count : ℕ)
    → pos ≤ total
    → total < 2 ^ 31
    → (clip total pos count).0 ≡ min count (total - pos)
clip_count total pos count h l = ground arith

clip_fits :
    (total pos count : ℕ)
    → pos ≤ total
    → total < 2 ^ 31
    → (clip total pos count).1 ≡ 0
    → pos + count ≤ total
clip_fits total pos count h l e = ground (arith, e)

fits_clip :
    (total pos count : ℕ)
    → pos ≤ total
    → total < 2 ^ 31
    → pos + count ≤ total
    → (clip total pos count).1 ≡ 0
fits_clip total pos count h l f = ground arith

no_code : (whole : Bool) (code : ℕ) → ((if whole then code else efault) == 0) ≡ true → code ≡ 0
no_code whole code e = ground (arith, e)

unread :
    (whole : Bool) (code : ℕ)
    → ((if whole then code else efault) == 0) ≡ false
    → code ≡ 0
    → whole ≡ false
unread whole code e z = ground (arith, e, z)

-- A window of a list replaced by as many elements.
module _ (xs ys : List ℕ) (i n : ℕ) (fits : i + n ≤ length xs) (same : length ys ≡ n) where
  start_length : length (take i xs) ≡ i
  start_length = omega (arith, length-take i xs)

  replaced-length : length (take i xs ++ (ys ++ drop (i + n) xs)) ≡ length xs
  replaced-length = omega (
    arith,
    length-append (take i xs) (ys ++ drop (i + n) xs),
    length-append ys (drop (i + n) xs),
    length-drop (i + n) xs,
    start_length,
  )

  replaced-take : take i (take i xs ++ (ys ++ drop (i + n) xs)) ≡ take i xs
  replaced-take =
      take-append_le i (take i xs) (ys ++ drop (i + n) xs) (omega (arith, start_length))
      ∙ take-all i (take i xs) (omega (arith, start_length))

  replaced-drop : drop (i + n) (take i xs ++ (ys ++ drop (i + n) xs)) ≡ drop (i + n) xs
  replaced-drop =
      drop-append_past (i + n) n (take i xs) (ys ++ drop (i + n) xs) (omega (arith, start_length))
      ∙ drop-append_past n 0 ys (drop (i + n) xs) (omega (arith, same))

-- Nothing outside of the `stored` bytes from the position on differs, and the length does not.
abbrev pub Window : Request → List ℕ → List ℕ → Type 0
Window r xs t =
    (length t ≡ length xs)
    × (take r.ppos t ≡ take r.ppos xs)
    × (drop (r.ppos + stored r) t ≡ drop (r.ppos + stored r) xs)

-- All the bytes of a request fit.
abbrev pub Fits : Request → Type 0
Fits r = r.ppos + r.count ≤ r.smem_len

module _ (r : Request) (xs : List ℕ) (position : r.ppos < 2 ^ 32) (size : r.smem_len < 2 ^ 31)
    (held : length xs ≡ r.smem_len) (copied : (n : ℕ) → length (r.copy_from_user n).0 ≡ n) where
  written-Window : r.ppos ≤ r.smem_len → Window r xs (written r xs)
  written-Window h =
      let n = stored r in
      let ys = (r.copy_from_user n).0 in
      let fits : r.ppos + n ≤ length xs = omega (arith, held, h) in
      (
        replaced-length xs ys r.ppos n fits (copied n),
        replaced-take xs ys r.ppos n fits (copied n),
        replaced-drop xs ys r.ppos n fits (copied n),
      )

  abbrev Stored : ℕ × ℕ → List ℕ → Type 0
  Stored v t = (v ≡ (r.count, r.ppos + r.count)) × Fits r × (t ≡ written r xs) × Window r xs t

  abbrev Refused : ℕ → List ℕ → Type 0
  Refused e t = (r.running ≡ true → Fits r → (r.copy_from_user r.count).1 ≡ false) × Window r xs t

  store_lem :
      (code : ℕ)
      → r.ppos ≤ r.smem_len
      → (code ≡ 0 → Fits r)
      → (Fits r → code ≡ 0)
      → Post Stored Refused Never (store r r.ppos (stored r) code xs)
  unfolding store
  store_lem code h f g =
      let n = stored r in
      let whole = (r.copy_from_user n).1 in
      let all : Fits r → n ≡ r.count = λ q. omega (arith, q) in
      let t = written r xs in
      let e = if whole then code else efault in
      Post-if Stored Refused Never (e == 0) (ok (n, r.ppos + n) t) (err e t)
        (λ z.
          let q : Fits r = f (no_code whole code z) in
          (ap (λ (j : ℕ). (j, r.ppos + j)) (all q), q, refl, written-Window h))
        (λ z. (
          (λ x q. ap (λ (j : ℕ). (r.copy_from_user j).1) (sym (all q)) ∙ unread whole code z (g q)),
          written-Window h,
        ))

  same_Window : Window r xs xs
  same_Window = (refl, refl, refl)

  -- A write stores what fits of its bytes at its position. It succeeds with their number only if all
  -- of them fit and are read, and moves the position behind them; with an error, not all of them fit,
  -- or could be read, or the display is not running.
  pub fb_write-Window : Post Stored Refused Never (fb_write r xs)
  unfolding fb_write
  fb_write-Window =
      let total = r.smem_len in
      let c = clip total r.ppos r.count in
      let same : r.ppos % 2 ^ 32 ≡ r.ppos = omega (arith, position) in
      let inside : Post Stored Refused Never
          (if ltb total r.ppos then err efbig xs else store r r.ppos c.0 c.1 xs) =
        Post-if Stored Refused Never (ltb total r.ppos) (err efbig xs) (store r r.ppos c.0 c.1 xs)
          (λ e. ((λ x q. absurd (ground (arith, e, q))), same_Window))
          (λ e.
            let h : r.ppos ≤ total = ground (arith, e) in
            subst (λ (j : ℕ). Post Stored Refused Never (store r r.ppos j c.1 xs))
              (sym (clip_count total r.ppos r.count h size))
              (store_lem c.1 h (clip_fits total r.ppos r.count h size)
                (fits_clip total r.ppos r.count h size))) in
      subst
        (λ (pos : ℕ). Post Stored Refused Never (
          if r.running
          then (if ltb total pos
              then err efbig xs
              else store r pos (clip total pos r.count).0 (clip total pos r.count).1 xs)
          else err eperm xs))
        (sym same)
        (Post-if Stored Refused Never r.running
          (if ltb total r.ppos then err efbig xs else store r r.ppos c.0 c.1 xs) (err eperm xs)
          (λ e. inside) (λ e. ((λ x. absurd (grind (arith, e, x))), same_Window)))
