-- ===== src/Serial/Closing.antt =====
-- mt7697_uart_write and mt7697_uart_close of linux_kernel_modules/mt7697serial/uart.c over a file that
-- works.
use mang_oh.Prelude.{
  ℕ, zero, suc, ◌-◌, ◌/◌, ◌≤◌, ◌<◌, ◌≡◌, ◌≢◌, refl, ap, ◌∙◌, inl, inr, true, false, List, [], ◌∷◌,
  ◌++◌, length, take, drop, length-drop, take-append-drop, take-all, append_assoc, arith, le-or-lt,
  ◌==◌, if◌then◌else◌,
}
use mang_oh.Prelude.Monad.{ok, pure, fail, finally, eio, Does, Does-then, Does-pure, >>=-run, ◌>>◌}
use mang_oh.Serial.{
  Kernel, Info, write_loop, write_body, write, locked, snd_shutdown_req, await_close, close_file,
  uart_close,
}
use mang_oh.Serial.Stream.{IsStream, Closes}

module _ (k : Kernel) (t : IsStream k) where
  write_loop_lem :
      (fd n : ℕ) (bytes : List ℕ) (w : k.W)
      → 0 < length bytes
      → length bytes ≤ n
      → Does (write_loop k fd n bytes w) true (λ v. t.outgoing v ≡ t.outgoing w ++ bytes)
  unfolding write_loop
  write_loop_lem fd zero bytes w p f = absurd (omega arith)
  write_loop_lem fd (suc n) bytes w p f =
      let (some_written, within, e, sent) = t.write_lem fd bytes w p in
      let m = t.write_some fd bytes w in
      let v = (k.kernel_write fd bytes w).1 in
      let ended : (m == 0) ≡ false = ground (arith, some_written) in
      elim (le-or-lt (length bytes) m) [
        | inl c ↦
            let last : (length bytes - m == 0) ≡ true = ground (arith, c) in
            record {
              next = v;
              returned = rw (write_loop, e, ended, last) refl;
              result = sent ∙ ap (λ ys. t.outgoing w ++ ys) (take-all m bytes c);
            }
        | inr c ↦
            let more : (length bytes - m == 0) ≡ false = ground (arith, c) in
            let d =
              write_loop_lem fd n (drop m bytes) v (omega (arith, length-drop m bytes, c))
                (omega (arith, length-drop m bytes, some_written, f)) in
            record {
              next = d.next;
              returned = rw (write_loop, e, ended, more) (d.returned);
              result =
                  d.result
                  ∙ ap (λ ys. ys ++ drop m bytes) sent
                  ∙ append_assoc (t.outgoing w) (take m bytes) (drop m bytes)
                  ∙ ap (λ ys. t.outgoing w ++ ys) (take-append-drop m bytes);
            }
      ]

  -- A write of some bytes to an open file that works, with the mutex free, ends: it returns their
  -- number in words, has put all of them behind what was written, in order and in whatever pieces
  -- they go, and leaves the mutex free and the file open.
  pub write-append :
      (bytes : List ℕ) (s : Info k.W)
      → s.fd_hndl ≢ 0
      → s.mutex ≡ false
      → 0 < length bytes
      → Does (write k bytes s) (length bytes / 4) (λ s'.
        (t.outgoing s'.hw ≡ t.outgoing s.hw ++ bytes)
        × (s'.mutex ≡ false)
        × (s'.fd_hndl ≡ s.fd_hndl)
        × (s'.close ≡ s.close))
  unfolding write write_body locked
  write-append bytes s o u p =
      let d = write_loop_lem s.fd_hndl (length bytes) bytes s.hw p (omega arith) in
      let opened : (s.fd_hndl == 0) ≡ false = ground (arith, o) in
      let body : write_body k bytes (record s { mutex = true })
          ≡ ok (length bytes / 4) (record s { mutex = true; hw = d.next }) =
        rw (write_body, opened, d.returned) refl in
      record {
        next = record s { mutex = false; hw = d.next };
        returned = rw (write, locked, u, finally, body) refl;
        result = (d.result, refl, refl, refl);
      }

  -- What is so after the request to shut down.
  abbrev Asked : List ℕ → Info k.W → Type 0
  Asked sent s = (t.outgoing s.hw ≡ sent) × (s.mutex ≡ false)

  abbrev request : List ℕ
  request = 4 ∷ 0 ∷ 1 ∷ 0 ∷ []

  snd_shutdown_req_lem :
      (s : Info k.W)
      → s.fd_hndl ≢ 0
      → s.mutex ≡ false
      → Does (snd_shutdown_req k s) tt (Asked (t.outgoing s.hw ++ request))
  unfolding snd_shutdown_req
  snd_shutdown_req_lem s o u =
      let d = write-append request s o u (omega arith) in
      record {
        next = d.next;
        returned =
            >>=-run (write k request) (λ ret. if ret == 1 then pure tt else fail eio) {s = s}
              d.returned;
        result = (d.result.0, d.result.1);
      }

  close_file_lem :
      (sent : List ℕ) (s : Info k.W)
      → Closes k t
      → Asked sent s
      → Does
          (locked (close_file k) s)
          tt
          (λ s'. (t.outgoing s'.hw ≡ sent) × (s'.fd_hndl ≡ 0) × (s'.mutex ≡ false))
  unfolding locked close_file
  close_file_lem sent s c a =
      let (e, kept) = c.close_lem s.fd_hndl s.hw in
      let w = (k.filp_close s.fd_hndl s.hw).1 in
      let body : close_file k (record s { mutex = true })
          ≡ ok tt (record s { mutex = true; fd_hndl = 0; hw = w }) =
        rw (close_file, e) refl in
      record {
        next = record s { mutex = false; fd_hndl = 0; hw = w };
        returned = rw (locked, a.1, finally, body) refl;
        result = (kept ∙ a.0, refl, refl);
      }

  -- Closing an open file that works, with the mutex free, succeeds: it puts the request to shut down
  -- behind what was written, and leaves no file and the mutex free.
  pub uart_close_lem :
      (s : Info k.W)
      → Closes k t
      → s.fd_hndl ≢ 0
      → s.mutex ≡ false
      → Does (uart_close k s) tt (λ s'.
        (t.outgoing s'.hw ≡ t.outgoing s.hw ++ request) × (s'.fd_hndl ≡ 0) × (s'.mutex ≡ false))
  unfolding uart_close await_close
  uart_close_lem s c o u =
      let opened : (s.fd_hndl == 0) ≡ false = ground (arith, o) in
      let sent = t.outgoing s.hw ++ request in
      rw (uart_close, opened)
        (Does-then (snd_shutdown_req k) (await_close k >> locked (close_file k))
          (record s { close = true }) (snd_shutdown_req_lem (record s { close = true }) o u)
          (λ v a.
            Does-then (await_close k) (locked (close_file k)) v {P = Asked sent}
              (Does-pure tt _ (c.wait_lem v.hw ∙ a.0, a.1)) (λ w b. close_file_lem sent w c b)))
