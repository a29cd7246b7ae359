-- ===== src/Eink/Rows.antt =====
-- The picture that set_frame_memory of experimental/waveshare_eink/linux_kernel_modules/
-- fb_waveshare_eink.c writes, row by row, and what reaches the memory of the panel.
use mang_oh.Prelude.{
  ℕ, zero, suc, ◌+◌, ◌*◌, ◌/◌, ◌%◌, ◌^◌, ◌≤◌, ◌<◌, ◌≡◌, refl, sym, ap, append-nil, ◌∙◌, Bool, true,
  false, List, [], ◌∷◌, ◌++◌, length, take, drop, take-append-drop, length-drop, drop-all, ltb,
  ◌==◌, if◌then◌else◌, arith,
}
use mathlib.Core.Path.{subst}
use mang_oh.Prelude.Monad.{halt, corrupt, ◌>>◌}
use mang_oh.Prelude.Outcome.{Post-if}
use mang_oh.Board.Ledger.{Never}
use mang_oh.Eink.{
  Event, set_rst, mdelay, transfer, Kernel, Properties, pred, low, high, column, send_cmd,
  set_memory_pointer, set_memory_area, write_ram, frame_rows, set_frame_memory,
}
use mang_oh.Eink.Sending.{
  wire, Sends, Sends-then, AllSent, Cut, Patient, send_cmd_lem, set_memory_pointer_lem,
  set_memory_area_lem,
}

-- The bytes that follow a command 0x24, WS_WRITE_RAM, up to the next command.
abbrev pub ram_from : Bool → List Event → List ℕ
ram_from on [] = []
ram_from on (set_rst level ∷ es) = ram_from on es
ram_from on (mdelay ms ∷ es) = ram_from on es
ram_from on (transfer false [] ∷ es) = ram_from on es
ram_from on (transfer false (c ∷ cs) ∷ es) = ram_from (c == 36) es
ram_from on (transfer true bytes ∷ es) = if on then bytes ++ ram_from on es else ram_from on es

abbrev pub ram : List Event → List ℕ
ram es = ram_from false es

-- The commands for `m` rows of `c` bytes, the first of which is `row`.
abbrev pub rows : ℕ → ℕ → ℕ → List ℕ → List (ℕ × List ℕ)
rows c zero row bytes = []
rows c (suc m) row bytes =
    (78, 0 ∷ [])
    ∷ (79, low row ∷ high row ∷ [])
    ∷ (36, take c bytes)
    ∷ rows c m (row + 1) (drop c bytes)

-- What set_frame_memory puts on the wire.
abbrev pub picture : Properties → List ℕ → List (ℕ × List ℕ)
picture p bytes =
    (68, 0 ∷ column (pred p.width) ∷ [])
    ∷ (69, 0 ∷ 0 ∷ low (pred p.height) ∷ high (pred p.height) ∷ [])
    ∷ rows (p.width / 8) p.height 0 bytes

suc_sum : (m n : ℕ) → suc (m + n) ≡ suc m + n
suc_sum m n = omega arith

drop-drop : {A : Type 0} (m n : ℕ) (xs : List A) → drop n (drop m xs) ≡ drop (m + n) xs
drop-drop zero n xs = ap (λ (j : ℕ). drop j xs) (omega arith)
drop-drop (suc m) n [] = drop-all n [] (omega arith) ∙ sym (drop-all (suc m + n) [] (omega arith))
drop-drop (suc m) n (x ∷ xs) = drop-drop m n xs ∙ ap (λ (j : ℕ). drop j (x ∷ xs)) (suc_sum m n)

wire-append : (cs ds : List (ℕ × List ℕ)) → wire (cs ++ ds) ≡ wire cs ++ wire ds
wire-append [] ds = refl
wire-append (c ∷ cs) ds =
    ap (λ l. transfer false (c.0 ∷ []) ∷ transfer true c.1 ∷ l) (wire-append cs ds)

empty_lem : {A : Type 0} (xs : List A) → length xs ≡ 0 → xs ≡ []
empty_lem [] h = refl
empty_lem (x ∷ xs) h = absurd (omega (arith, h))

-- The rows bring the bytes in their order, and nothing else.
pub rows_lem :
    (c m row : ℕ) (bytes : List ℕ) (rest : List Event) (on : Bool)
    → length bytes ≡ m * c
    → ((b : Bool) → ram_from b rest ≡ [])
    → ram_from on (wire (rows c m row bytes) ++ rest) ≡ bytes
rows_lem c zero row bytes rest on h q = q on ∙ sym (empty_lem bytes (omega (arith, h)))
rows_lem c (suc m) row bytes rest on h q =
    ap (λ r. take c bytes ++ r)
      (rows_lem c m (row + 1) (drop c bytes) rest true (omega (arith, h, length-drop c bytes)) q)
    ∙ take-append-drop c bytes

module _ (k : Kernel) (p : Properties) (n : ℕ) (patient : Patient k n) where
  write_ram_lem :
      (buffer : List ℕ) (i c : ℕ) (bytes : List ℕ)
      → drop i buffer ≡ bytes
      → i + c ≤ length buffer
      → Sends k (wire ((36, take c bytes) ∷ [])) (write_ram k p buffer i c)
  unfolding write_ram
  write_ram_lem buffer i c bytes d h =
      subst (λ b. Sends k (wire ((36, take c b) ∷ [])) (write_ram k p buffer i c)) d
        (λ w.
          Post-if (AllSent w.log (wire ((36, take c (drop i buffer)) ∷ [])))
            (Cut k w.log (wire ((36, take c (drop i buffer)) ∷ []))) Never
            (ltb (length buffer) (i + c)) (halt corrupt) (send_cmd k 36 (take c (drop i buffer)) w)
            (λ e. absurd (ground (arith, e))) (λ e. send_cmd_lem k 36 (take c (drop i buffer)) w))

  -- The rows from `row` on, of a buffer that holds them.
  frame_rows_lem :
      (m row : ℕ) (buffer bytes : List ℕ)
      → drop (row * (p.width / 8)) buffer ≡ bytes
      → row * (p.width / 8) + m * (p.width / 8) ≤ length buffer
      → length buffer < 2 ^ 32
      → Sends k (wire (rows (p.width / 8) m row bytes)) (frame_rows k p n m row buffer)
  unfolding frame_rows
  frame_rows_lem zero row buffer bytes d h l = λ v. sym (append-nil v.log)
  frame_rows_lem (suc m) row buffer bytes d h l =
      let c = p.width / 8 in
      let i = (row * c) % 2 ^ 32 in
      let same : i ≡ row * c = omega (arith, h, l) in
      let next : (row + 1) * c ≡ row * c + c = omega arith in
      Sends-then k _ _ (set_memory_pointer k n 0 row)
        (write_ram k p buffer i c >> frame_rows k p n m (row + 1) buffer)
        (set_memory_pointer_lem k n patient 0 row)
        (Sends-then k _ _ (write_ram k p buffer i c) (frame_rows k p n m (row + 1) buffer)
          (write_ram_lem buffer i c bytes (ap (λ (j : ℕ). drop j buffer) same ∙ d)
            (omega (arith, same, h)))
          (frame_rows_lem m (row + 1) buffer (drop c bytes)
            (ap (λ (j : ℕ). drop j buffer) next
              ∙ sym (drop-drop (row * c) c buffer)
              ∙ ap (λ b. drop c b) d)
            (omega (arith, next, h)) l))

  pub set_frame_memory_lem :
      (buffer : List ℕ)
      → p.height * (p.width / 8) ≤ length buffer
      → length buffer < 2 ^ 32
      → Sends k (wire (picture p buffer)) (set_frame_memory k p n buffer)
  unfolding set_frame_memory
  set_frame_memory_lem buffer h l =
      let none : 0 * (p.width / 8) ≡ 0 = omega arith in
      Sends-then k _ _ (set_memory_area k 0 0 (pred p.width) (pred p.height))
        (frame_rows k p n p.height 0 buffer)
        (set_memory_area_lem k 0 0 (pred p.width) (pred p.height))
        (frame_rows_lem p.height 0 buffer buffer (ap (λ (j : ℕ). drop j buffer) none)
          (omega (arith, h)) l)
