-- ===== src/Mt7697/Queue/Between.antt =====
-- What taking words out of a ring, and putting words into it, does to the words that it holds.
use mang_oh.Prelude.{
  ℕ, ◌+◌, ◌-◌, ◌*◌, ◌≤◌, ◌<◌, ◌≡◌, refl, sym, ◌∙◌, ap, ◌⊎◌, inl, inr, List, ◌++◌, ◌==◌, Bool-cases,
  if◌then◌else◌, length, take, drop, min, arith, le→leb, lt→leb, append_assoc, append-nil,
  length-append, le-or-lt, take-append_le, drop-append_le, take-append_past, drop-append_past,
}
use mathlib.Core.Path.{ap₂}
use mang_oh.Mt7697.Memory.{
  Memory, words, store_words, length-words, words_cong, words-add, take-words, drop-words,
  words-store_words, words-store_words_apart,
}
use mang_oh.Mt7697.Queue.Contents.{between}

module _ (m : Memory) (base size from to : ℕ) where
  between-up : from ≤ to → between m base size from to ≡ words m (base + 4 * from) (to - from)
  between-up h = rw (le→leb _ _ h)

  between-round :
      to < from
      → between m base size from to ≡ words m (base + 4 * from) (size - from) ++ words m base to
  between-round h = rw (lt→leb _ _ h)

  pub length-between_up : from ≤ to → length (between m base size from to) ≡ to - from
  length-between_up h = ap length (between-up h) ∙ length-words m (base + 4 * from) (to - from)

  pub length-between_round : to < from → length (between m base size from to) ≡ size - from + to
  length-between_round h =
      ap length (between-round h)
      ∙ omega (
        arith,
        length-append (words m (base + 4 * from) (size - from)) (words m base to),
        length-words m (base + 4 * from) (size - from),
        length-words m base to,
      )

  -- A read that does not go round.
  pub read_up :
      (n : ℕ)
      → from ≤ to
      → (take n (between m base size from to) ≡ words m (base + 4 * from) (min n (to - from)))
        × (drop n (between m base size from to) ≡ between m base size (from + min n (to - from)) to)
  read_up n h =
      rw (le→leb from to h, le→leb (from + min n (to - from)) to (omega arith))
        (
          take-words m n (to - from) (base + 4 * from),
          drop-words m n (to - from) (base + 4 * from) (base + 4 * (from + min n (to - from)))
                (omega arith)
              ∙ words_cong m refl (omega arith),
        )

  take_end :
      (n : ℕ)
      → to < from
      → n ≤ size - from
      → take n (between m base size from to) ≡ words m (base + 4 * from) n
  take_end n h p =
      ap (take n) (between-round h)
      ∙ take-append_le n (words m (base + 4 * from) (size - from)) (words m base to)
          (omega (arith, length-words m (base + 4 * from) (size - from)))
      ∙ take-words m n (size - from) (base + 4 * from)
      ∙ words_cong m refl (omega arith)

  drop_end :
      (n : ℕ)
      → to < from
      → from + n < size
      → drop n (between m base size from to) ≡ between m base size (from + n) to
  drop_end n h p =
      ap (drop n) (between-round h)
      ∙ drop-append_le n (words m (base + 4 * from) (size - from)) (words m base to)
          (omega (arith, length-words m (base + 4 * from) (size - from)))
      ∙ ap (λ r. r ++ words m base to)
          (drop-words m n (size - from) (base + 4 * from) (base + 4 * (from + n)) (omega arith)
            ∙ words_cong m {k = size - (from + n)} refl (omega arith))
      ∙ rw (lt→leb (from + n) to (omega arith)) refl

  drop_past :
      (n k : ℕ)
      → to < from
      → n ≡ size - from + k
      → drop n (between m base size from to) ≡ between m base size (min k to) to
  drop_past n k h p =
      ap (drop n) (between-round h)
      ∙ drop-append_past n k (words m (base + 4 * from) (size - from)) (words m base to)
          (omega (arith, length-words m (base + 4 * from) (size - from)))
      ∙ drop-words m k to base (base + 4 * min k to) (omega arith)
      ∙ rw (le→leb (min k to) to (omega arith)) (words_cong m refl (omega arith))

  -- A read that stays in the part before the end of the ring.
  pub read_end :
      (n : ℕ)
      → to < from
      → from < size
      → n ≤ size - from
      → (take n (between m base size from to) ≡ words m (base + 4 * from) n)
        × (drop n (between m base size from to)
            ≡ between m base size (if from + n == size then 0 else from + n) to)
  read_end n h b p = (
    take_end n h p,
    elim (Bool-cases (from + n == size)) [
      | inl e ↦
          rw e (
            drop_past n 0 h (ground arith) ∙ ap (λ (j : ℕ). between m base size j to) (omega arith))
      | inr e ↦ rw e (drop_end n h (ground arith))
    ],
  )

  -- A read that goes round.
  pub read_round :
      (n k : ℕ)
      → to < from
      → n ≡ size - from + k
      → (take n (between m base size from to)
          ≡ words m (base + 4 * from) (size - from) ++ words m base (min k to))
        × (drop n (between m base size from to) ≡ between m base size (min k to) to)
  read_round n k h p = (
    ap (take n) (between-round h)
        ∙ take-append_past n k (words m (base + 4 * from) (size - from)) (words m base to)
            (omega (arith, length-words m (base + 4 * from) (size - from)))
        ∙ ap (λ r. words m (base + 4 * from) (size - from) ++ r) (take-words m k to base),
    drop_past n k h p,
  )

  -- The range before the written words, with them at its end.
  words-store_end :
      (a n : ℕ) (ds : List ℕ)
      → words (store_words m (a + 4 * n) ds) a (n + length ds) ≡ words m a n ++ ds
  words-store_end a n ds =
      words-add (store_words m (a + 4 * n) ds) n (length ds) a (a + 4 * n) refl
      ∙ ap₂ ◌++◌ (words-store_words_apart m ds (a + 4 * n) a n (inl (omega arith)))
          (words-store_words m ds (a + 4 * n))

  words-store_at :
      (start a n k : ℕ) (ds : List ℕ)
      → start ≡ a + 4 * n
      → k ≡ n + length ds
      → words (store_words m start ds) a k ≡ words m a n ++ ds
  words-store_at start a n k ds e f = rw (e, f) (words-store_end a n ds)

  -- A write up to the end of the ring.
  pub write_end :
      (ds : List ℕ)
      → from ≤ to
      → to < size
      → length ds ≤ (if from == 0 then size - to - 1 else size - to)
      → between
          (store_words m (base + 4 * to) ds)
          base
          size
          from
          (if to + length ds == size then 0 else to + length ds)
        ≡ between m base size from to ++ ds
  unfolding words
  write_end ds h b p = elim (Bool-cases (to + length ds == size)) [
    | inl e ↦
        rw (e, le→leb from to h, lt→leb from 0 (ground arith))
          (append-nil _
            ∙ words-store_at (base + 4 * to) (base + 4 * from) (to - from) (size - from) ds
                (omega arith) (ground arith))
    | inr e ↦
        rw (e, le→leb from to h, le→leb from (to + length ds) (omega arith))
          (words-store_at (base + 4 * to) (base + 4 * from) (to - from) (to + length ds - from) ds
            (omega arith) (omega arith))
  ]

  -- A write behind the end of what the ring holds, after that has gone round.
  pub write_before :
      (ds : List ℕ)
      → to + length ds < from
      → from < size
      → between (store_words m (base + 4 * to) ds) base size from (to + length ds)
        ≡ between m base size from to ++ ds
  write_before ds h b =
      rw (lt→leb from (to + length ds) h, lt→leb from to (omega arith))
        (ap₂ ◌++◌
            (words-store_words_apart m ds (base + 4 * to) (base + 4 * from) (size - from)
              (inr (omega arith)))
            (words-store_end base to ds)
          ∙ sym (append_assoc (words m (base + 4 * from) (size - from)) (words m base to) ds))

  -- A store outside the ring.
  pub between-apart :
      (a : ℕ) (ds : List ℕ)
      → from ≤ size
      → to ≤ size
      → (base + 4 * size ≤ a) ⊎ (a + 4 * length ds ≤ base)
      → between (store_words m a ds) base size from to ≡ between m base size from to
  between-apart a ds h k out = elim (le-or-lt from to) [
    | inl le ↦
        rw (le→leb from to le)
          (words-store_words_apart m ds a (base + 4 * from) (to - from) (ground arith))
    | inr lt ↦ rw (lt→leb from to lt) (
        ap₂ ◌++◌ (words-store_words_apart m ds a (base + 4 * from) (size - from) (ground arith))
          (words-store_words_apart m ds a base to (ground arith)))
  ]
