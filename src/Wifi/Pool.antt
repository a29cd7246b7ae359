-- ===== src/Wifi/Pool.antt =====
-- A ring of slots that are a function of the index, as the pool of
-- linux_kernel_modules/mt7697wifi/txrx.c.
use mang_oh.Prelude.{
  ℕ, zero, suc, ◌+◌, ◌%◌, ◌≤◌, ◌<◌, ◌≡◌, ◌≢◌, refl, ap, ◌∙◌, List, [], ◌∷◌, ◌++◌, length, arith,
  ==_iff,
}
use mathlib.Core.Path.{subst}
use mang_oh.Wifi.Transmit.{set}

-- The slots from `b` on, going round at 256, hold the list.
abbrev pub Around : {A : Type 0} → (ℕ → A) → ℕ → List A → Type 0
Around f b [] = Unit
Around f b (x ∷ xs) = (f b ≡ x) × Around f ((b + 1) % 256) xs

-- The indices of some slots from `b` on.
abbrev pub indices : ℕ → ℕ → List ℕ
indices b zero = []
indices b (suc n) = b ∷ indices ((b + 1) % 256) n

module _ {A : Type 0} where
  pub set_self : (f : ℕ → A) (i : ℕ) (a : A) → set f i a i ≡ a
  set_self f i a = rw ((==_iff i i).1 refl) refl

  pub set_ne : (f : ℕ → A) (i : ℕ) (a : A) (j : ℕ) → j ≢ i → set f i a j ≡ f j
  set_ne f i a j d = ground (arith, d)

  -- A slot that lies behind the list, but not all the way round.
  pub Around-set :
      (f : ℕ → A) (a : A) (xs : List A) (b d : ℕ)
      → b < 256
      → length xs ≤ d
      → d < 256
      → Around f b xs
      → Around (set f ((b + d) % 256) a) b xs
  Around-set f a [] b d l m n h = tt
  Around-set f a (x ∷ xs) b zero l m n h = absurd (omega (arith, m))
  Around-set f a (x ∷ xs) b (suc d) l m n (e, h) =
      let same : ((b + 1) % 256 + d) % 256 ≡ (b + suc d) % 256 = omega (arith, l, n) in
      (
        set_ne f ((b + suc d) % 256) a b (λ p. omega (arith, p, l, n)) ∙ e,
        subst (λ (i : ℕ). Around (set f i a) ((b + 1) % 256) xs) same
            (Around-set f a xs ((b + 1) % 256) d (omega arith) (omega (arith, m)) (omega (arith, n))
              h),
      )

  pub Around-append :
      (f : ℕ → A) (xs ys : List A) (b : ℕ)
      → b < 256
      → Around f b xs
      → Around f ((b + length xs) % 256) ys
      → Around f b (xs ++ ys)
  Around-append f [] ys b l h k = subst (λ (i : ℕ). Around f i ys) (omega (arith, l)) k
  Around-append f (x ∷ xs) ys b l (e, h) k = (
    e,
    Around-append f xs ys ((b + 1) % 256) (omega arith) h
        (subst (λ (i : ℕ). Around f i ys) (omega arith) k),
  )

  pub Around-split :
      (f : ℕ → A) (xs ys : List A) (b : ℕ)
      → b < 256
      → Around f b (xs ++ ys)
      → Around f b xs × Around f ((b + length xs) % 256) ys
  Around-split f [] ys b l h = (tt, subst (λ (i : ℕ). Around f i ys) (omega (arith, l)) h)
  Around-split f (x ∷ xs) ys b l (e, h) =
      let (p, q) = Around-split f xs ys ((b + 1) % 256) (omega arith) h in
      ((e, p), subst (λ (i : ℕ). Around f i ys) (omega arith) q)

pub indices-snoc : (n b : ℕ) → b < 256 → indices b n ++ (b + n) % 256 ∷ [] ≡ indices b (suc n)
indices-snoc zero b l = ap (λ (i : ℕ). i ∷ []) (omega (arith, l))
indices-snoc (suc n) b l =
    ap (λ is. b ∷ is)
      (ap (λ (i : ℕ). indices ((b + 1) % 256) n ++ i ∷ []) (omega arith)
        ∙ indices-snoc n ((b + 1) % 256) (omega arith))
