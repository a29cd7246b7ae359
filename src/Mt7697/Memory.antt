-- ===== src/Mt7697/Memory.antt =====
-- The co-processor's memory as the driver sees it over the bus: words at byte addresses, four
-- apart.
use mang_oh.Prelude.{
  ℕ, zero, suc, ◌+◌, ◌-◌, ◌*◌, ◌≤◌, ◌<◌, ◌≡◌, refl, ap, ◌∙◌, ◌⊎◌, List, [], ◌∷◌, ◌++◌, arith, ◌==◌,
  if◌then◌else◌, length, take, drop, min,
}

abbrev pub Memory : Type 0
Memory = ℕ → ℕ

abbrev pub store : Memory → ℕ → ℕ → Memory
store m a v p = if p == a then v else m p

-- The words stored one after another from an address on.
unfoldable pub store_words : Memory → ℕ → List ℕ → Memory
store_words m a [] = m
store_words m a (d ∷ ds) = store_words (store m a d) (a + 4) ds

-- The `n` words from an address on.
unfoldable pub words : Memory → ℕ → ℕ → List ℕ
words m a zero = []
words m a (suc n) = m a ∷ words m (a + 4) n

pub length-words : (m : Memory) (a n : ℕ) → length (words m a n) ≡ n
unfolding words
length-words m a zero = refl
length-words m a (suc n) = ap suc (length-words m (a + 4) n)

-- The same range, written in another way.
pub words_cong : (m : Memory) {a b n k : ℕ} → a ≡ b → n ≡ k → words m a n ≡ words m b k
words_cong m e f = rw (e, f)

pub words-add :
    (m : Memory) (n k a b : ℕ) → b ≡ a + 4 * n → words m a (n + k) ≡ words m a n ++ words m b k
unfolding words
words-add m zero k a b e = words_cong m (omega arith) (omega arith)
words-add m (suc n) k a b e =
    rw (split) (ap (λ r. m a ∷ r) (words-add m n k (a + 4) b (omega arith)))
  where
    split : suc n + k ≡ suc (n + k)
    split = omega arith

store_words-outside :
    (m : Memory) (ds : List ℕ) (a p : ℕ)
    → (p < a) ⊎ (a + 4 * length ds ≤ p)
    → store_words m a ds p ≡ m p
unfolding store_words
store_words-outside m [] a p h = refl
store_words-outside m (d ∷ ds) a p h =
    ground (arith, store_words-outside (store m a d) ds (a + 4) p)

-- What is stored is read back.
pub words-store_words :
    (m : Memory) (ds : List ℕ) (a : ℕ) → words (store_words m a ds) a (length ds) ≡ ds
unfolding words store_words
words-store_words m [] a = refl
words-store_words m (d ∷ ds) a = ground (
  arith,
  store_words-outside (store m a d) ds (a + 4) a,
  words-store_words (store m a d) ds (a + 4),
)

-- A store leaves the words of a range that it does not touch.
pub words-store_words_apart :
    (m : Memory) (ds : List ℕ) (a b n : ℕ)
    → (b + 4 * n ≤ a) ⊎ (a + 4 * length ds ≤ b)
    → words (store_words m a ds) b n ≡ words m b n
unfolding words
words-store_words_apart m ds a b zero h = refl
words-store_words_apart m ds a b (suc n) h =
    ground (arith, store_words-outside m ds a b, words-store_words_apart m ds a (b + 4) n)

pub store_words-append :
    (m : Memory) (xs ys : List ℕ) (a b : ℕ)
    → b ≡ a + 4 * length xs
    → store_words m a (xs ++ ys) ≡ store_words (store_words m a xs) b ys
unfolding store_words
store_words-append m [] ys a b e = rw (at)
  where
    at : b ≡ a
    at = omega arith
store_words-append m (x ∷ xs) ys a b e =
    store_words-append (store m a x) xs ys (a + 4) b (omega arith)

pub take-words : (m : Memory) (k n a : ℕ) → take k (words m a n) ≡ words m a (min k n)
unfolding words
take-words m zero n a = words_cong m {n = 0} refl (omega arith)
take-words m (suc k) zero a = words_cong m {n = 0} refl (omega arith)
take-words m (suc k) (suc n) a =
    ap (λ r. m a ∷ r) (take-words m k n (a + 4))
    ∙ words_cong m {n = suc (min k n)} refl (omega arith)

pub drop-words :
    (m : Memory) (k n a b : ℕ) → b ≡ a + 4 * min k n → drop k (words m a n) ≡ words m b (n - k)
unfolding words
drop-words m zero n a b e = words_cong m (omega arith) (omega arith)
drop-words m (suc k) zero a b e = words_cong m {n = 0} {k = 0 - suc k} refl (omega arith)
drop-words m (suc k) (suc n) a b e =
    drop-words m k n (a + 4) b (omega arith) ∙ words_cong m refl (omega arith)
