-- ===== src/Serial/Transfers.antt =====
-- mt7697_uart_read and mt7697_uart_write of linux_kernel_modules/mt7697serial/uart.c over a file that
-- works, however it cuts the stream into pieces.
use mang_oh.Prelude.{
  ℕ, zero, suc, ◌-◌, ◌*◌, ◌≤◌, ◌<◌, ◌≡◌, ◌≢◌, refl, sym, ap, ◌∙◌, inl, inr, true, false, List, [],
  ◌∷◌, ◌++◌, length, take, drop, length-take, length-drop, append_assoc, arith, le-or-lt, ◌==◌, leb,
  append-nil, if◌then◌else◌,
}
use mang_oh.Prelude.Monad.{ok, Does}
use mang_oh.Serial.{Kernel, Info, read_loop, read}
use mang_oh.Serial.Stream.{IsStream, take-take, drop-drop}

length-none : (xs : List ℕ) → length xs ≡ 0 → xs ≡ []
length-none [] h = refl
length-none (x ∷ xs) h = absurd (omega arith)

take-none : (n : ℕ) (xs : List ℕ) → length xs ≡ 0 → take n xs ≡ []
take-none zero xs h = refl
take-none (suc n) [] h = refl
take-none (suc n) (x ∷ xs) h = absurd (omega arith)

drop-none : (n : ℕ) (xs : List ℕ) → length xs ≡ 0 → drop n xs ≡ []
drop-none zero xs h = length-none xs h
drop-none (suc n) [] h = refl
drop-none (suc n) (x ∷ xs) h = absurd (omega arith)

module _ (k : Kernel) (t : IsStream k) where
  -- What the loop brings: as many bytes as there are, and whether they are enough.
  abbrev Brings : ℕ → ℕ → ℕ → List ℕ → k.W → Type 0
  Brings fd n count got w =
      Does (read_loop k fd n count got w)
        (leb count (length (t.incoming w)), got ++ take count (t.incoming w))
        (λ v. t.incoming v ≡ drop count (t.incoming w))

  -- The stream has ended.
  read_loop_end :
      (fd n count : ℕ) (got : List ℕ) (w : k.W)
      → 0 < count
      → length (t.incoming w) ≡ 0
      → Brings fd (suc n) count got w
  unfolding read_loop
  read_loop_end fd n count got w p z =
      let (e, rest) = t.end_lem fd count w z in
      let few : leb count (length (t.incoming w)) ≡ false = ground (arith, p, z) in
      record {
        next = (k.kernel_read fd count w).1;
        returned =
            rw (read_loop, e, few, take-none count (t.incoming w) z)
              (ap (λ ys. ok (false, ys) (k.kernel_read fd count w).1) (sym (append-nil got)));
        result = length-none _ rest ∙ sym (drop-none count (t.incoming w) z);
      }

  read_loop_lem :
      (fd n count : ℕ) (got : List ℕ) (w : k.W) → 0 < count → count ≤ n → Brings fd n count got w
  unfolding read_loop
  read_loop_lem fd zero count got w p f = absurd (omega arith)
  read_loop_lem fd (suc n) count got w p f = elim (le-or-lt (length (t.incoming w)) 0) [
    | inl z ↦ read_loop_end fd n count got w p (omega (arith, z))
    | inr z ↦
        let (some_read, within, present, e, rest) = t.read_lem fd count w p z in
        let m = t.read_some fd count w in
        let v = (k.kernel_read fd count w).1 in
        let xs = t.incoming w in
        let len : length (take m xs) ≡ m = omega (arith, length-take m xs, present) in
        let ended : (length (take m xs) == 0) ≡ false = ground (arith, len, some_read) in
        elim (le-or-lt count m) [
          | inl c ↦
              let last : (count - length (take m xs) == 0) ≡ true = ground (arith, len, c) in
              let same : m ≡ count = omega (arith, c, within) in
              let enough : leb count (length xs) ≡ true = ground (arith, present, c) in
              record {
                next = v;
                returned =
                    rw (read_loop, e, ended, last, enough)
                      (ap (λ (j : ℕ). ok (true, got ++ take j xs) v) same);
                result = rest ∙ ap (λ (j : ℕ). drop j xs) same;
              }
          | inr c ↦
              let more : (count - length (take m xs) == 0) ≡ false = ground (arith, len, c) in
              let left : count - length (take m xs) ≡ count - m = omega (arith, len) in
              let there : length (t.incoming v) ≡ length xs - m =
                ap (λ ys. length ys) rest ∙ length-drop m xs in
              let enough : leb (count - length (take m xs)) (length (t.incoming v))
                  ≡ leb count (length xs) =
                ground (arith, there, len, present, within) in
              let d =
                read_loop_lem fd n (count - length (take m xs)) (got ++ take m xs) v
                  (omega (arith, len, c)) (omega (arith, len, f, some_read)) in
              record {
                next = d.next;
                returned =
                    rw (read_loop, e, ended, more)
                      (d.returned
                        ∙ ap
                            (λ i.
                              ok
                                (
                                  i,
                                  got
                                      ++ take m xs
                                      ++ take (count - length (take m xs)) (t.incoming v),
                                )
                                d.next)
                            enough
                        ∙ ap (λ ys. ok (leb count (length xs), ys) d.next)
                            (append_assoc got (take m xs)
                                (take (count - length (take m xs)) (t.incoming v))
                              ∙ ap (λ ys. got ++ ys)
                                  (ap (λ (j : ℕ). take m xs ++ take j (t.incoming v)) left
                                    ∙ ap (λ ys. take m xs ++ take (count - m) ys) rest
                                    ∙ take-take m count xs within)));
                result =
                    d.result
                    ∙ ap (λ (j : ℕ). drop j (t.incoming v)) left
                    ∙ ap (λ ys. drop (count - m) ys) rest
                    ∙ drop-drop m count xs within;
              }
        ]
  ]

  -- A read of some words from an open file that works ends, and leaves in the buffer the next bytes of
  -- the stream, as many as four for each word or as there are, in whatever pieces they come; it
  -- returns the number of words if the buffer is full, and 0 otherwise.
  pub read-take :
      (len : ℕ) (s : Info k.W)
      → s.fd_hndl ≢ 0
      → 0 < len
      → Does
          (read k len s)
          (
            if leb (len * 4) (length (t.incoming s.hw)) then len else 0,
            take (len * 4) (t.incoming s.hw),
          )
          (λ s'. t.incoming s'.hw ≡ drop (len * 4) (t.incoming s.hw))
  unfolding read
  read-take len s o p =
      let d = read_loop_lem s.fd_hndl (len * 4) (len * 4) [] s.hw (omega arith) (omega arith) in
      let opened : (s.fd_hndl == 0) ≡ false = ground (arith, o) in
      record {
        next = record s { hw = d.next };
        returned = rw (read, opened, d.returned) refl;
        result = d.result;
      }
