-- ===== src/Serial/Stream.antt =====
-- A file for linux_kernel_modules/mt7697serial/uart.c that works: it moves some bytes at a time, as
-- many as it likes but at least one, in order.
use mang_oh.Prelude.{
  ℕ, zero, suc, ◌-◌, ◌≤◌, ◌<◌, ◌≡◌, refl, ap, ◌∙◌, some, List, [], ◌∷◌, ◌++◌, length, take, drop,
  arith,
}
use mang_oh.Serial.{Kernel}

-- The bytes that are still to come, and those that have been taken.
pub record IsStream (k : Kernel) : Type 1 where
  pub incoming : k.W → List ℕ
  pub outgoing : k.W → List ℕ
  -- A read of `count` bytes, of which there are some
  pub read_some : (fd count : ℕ) (w : k.W) → ℕ
  pub read_lem :
      (fd count : ℕ) (w : k.W)
      → 0 < count
      → 0 < length (incoming w)
      → (0 < read_some fd count w)
        × (read_some fd count w ≤ count)
        × (read_some fd count w ≤ length (incoming w))
        × ((k.kernel_read fd count w).0 ≡ some (take (read_some fd count w) (incoming w)))
        × (incoming (k.kernel_read fd count w).1 ≡ drop (read_some fd count w) (incoming w))
  -- A read at the end of the stream
  pub end_lem :
      (fd count : ℕ) (w : k.W)
      → length (incoming w) ≡ 0
      → ((k.kernel_read fd count w).0 ≡ some [])
        × (length (incoming (k.kernel_read fd count w).1) ≡ 0)
  -- A write of some bytes
  pub write_some : (fd : ℕ) (bytes : List ℕ) (w : k.W) → ℕ
  pub write_lem :
      (fd : ℕ) (bytes : List ℕ) (w : k.W)
      → 0 < length bytes
      → (0 < write_some fd bytes w)
        × (write_some fd bytes w ≤ length bytes)
        × ((k.kernel_write fd bytes w).0 ≡ some (write_some fd bytes w))
        × (outgoing (k.kernel_write fd bytes w).1
            ≡ outgoing w ++ take (write_some fd bytes w) bytes)

-- Closing and waiting leave what was written as it is, and closing succeeds.
pub record Closes (k : Kernel) (t : IsStream k) : Type 0 where
  pub close_lem :
      (fd : ℕ) (w : k.W)
      → ((k.filp_close fd w).0 ≡ 0) × (t.outgoing (k.filp_close fd w).1 ≡ t.outgoing w)
  pub wait_lem : (w : k.W) → t.outgoing (k.wait_event w).1 ≡ t.outgoing w

take-nil : (j : ℕ) → take {A = ℕ} j [] ≡ []
take-nil zero = refl
take-nil (suc j) = refl

drop-nil : (j : ℕ) → drop {A = ℕ} j [] ≡ []
drop-nil zero = refl
drop-nil (suc j) = refl

-- A part, and what of the whole is behind it.
pub take-take : (n c : ℕ) (xs : List ℕ) → n ≤ c → take n xs ++ take (c - n) (drop n xs) ≡ take c xs
take-take zero c xs h = ap (λ (j : ℕ). take j xs) (omega arith)
take-take (suc n) zero xs h = absurd (omega arith)
take-take (suc n) (suc c) [] h = take-nil (suc c - suc n)
take-take (suc n) (suc c) (x ∷ xs) h =
    ap (λ l. x ∷ l)
      (ap (λ (j : ℕ). take n xs ++ take j (drop n xs)) (omega arith)
        ∙ take-take n c xs (omega arith))

pub drop-drop : (n c : ℕ) (xs : List ℕ) → n ≤ c → drop (c - n) (drop n xs) ≡ drop c xs
drop-drop zero c xs h = ap (λ (j : ℕ). drop j xs) (omega arith)
drop-drop (suc n) zero xs h = absurd (omega arith)
drop-drop (suc n) (suc c) [] h = drop-nil (suc c - suc n)
drop-drop (suc n) (suc c) (x ∷ xs) h =
    ap (λ (j : ℕ). drop j (drop n xs)) (omega arith) ∙ drop-drop n c xs (omega arith)
