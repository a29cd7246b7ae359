-- ===== src/Serial/Tests.antt =====
-- Runs of linux_kernel_modules/mt7697serial/uart.c on a file that moves a byte at a time.
use mang_oh.Prelude.{
  ℕ, ◌≡◌, refl, some, true, false, List, [], ◌∷◌, ◌++◌, length, take, drop, arith,
}
use mang_oh.Prelude.Monad.{Does}
use mang_oh.Serial.{Kernel, Info, poll_in, fresh, read, write, uart_close}
use mang_oh.Serial.Stream.{IsStream, Closes}
use mang_oh.Serial.Transfers.{read-take}
use mang_oh.Serial.Closing.{write-append, uart_close_lem}

record Pipe : Type 0 where
  pub incoming : List ℕ
  pub outgoing : List ℕ

abbrev kernel : Kernel
kernel = record {
  W = Pipe;
  kzalloc = λ w. (true, w);
  kfree = λ w. w;
  filp_open = λ w. (some 3, w);
  filp_close = λ fd w. (0, w);
  kernel_read = λ fd count w. (some (take 1 w.incoming), record w { incoming = drop 1 w.incoming });
  kernel_write = λ fd bytes w. (some 1, record w { outgoing = w.outgoing ++ take 1 bytes });
  poll = λ fd w. (poll_in, w);
  signal_pending = λ w. false;
  schedule_timeout = λ w. (true, w);
  schedule_work = λ w. w;
  wait_event = λ w. (false, w);
  rx_fcn = λ f rsp hndl w. w;
}

take_end : (xs : List ℕ) → length xs ≡ 0 → (some (take 1 xs) ≡ some []) × (length (drop 1 xs) ≡ 0)
take_end [] h = (refl, refl)
take_end (x ∷ xs) h = absurd (omega arith)

kernel-IsStream : IsStream kernel
kernel-IsStream = record {
  incoming = λ w. w.incoming;
  outgoing = λ w. w.outgoing;
  read_some = λ fd count w. 1;
  read_lem = λ fd count w p l. (omega arith, p, l, refl, refl);
  end_lem = λ fd count w z. take_end w.incoming z;
  write_some = λ fd bytes w. 1;
  write_lem = λ fd bytes w p. (omega arith, p, refl, refl);
}

kernel-Closes : Closes kernel kernel-IsStream
unfolding kernel-IsStream
kernel-Closes = record { close_lem = λ fd w. (refl, refl); wait_lem = λ w. refl }

-- An open port, with six bytes to read.
abbrev port : Info Pipe
port = record (fresh (record { incoming = 1 ∷ 2 ∷ 3 ∷ 4 ∷ 5 ∷ 6 ∷ []; outgoing = [] })) {
  fd_hndl = 3;
}

-- One word, and two bytes that stay.
read-take_example :
    Does (read kernel 1 port) (1, 1 ∷ 2 ∷ 3 ∷ 4 ∷ []) (λ s. s.hw.incoming ≡ 5 ∷ 6 ∷ [])
unfolding kernel-IsStream
read-take_example =
    read-take kernel kernel-IsStream 1 port (λ e. absurd (omega (arith, e))) (omega arith)

write-append_example : Does (write kernel (7 ∷ 8 ∷ 9 ∷ 10 ∷ []) port) 1 (λ s.
    (s.hw.outgoing ≡ 7 ∷ 8 ∷ 9 ∷ 10 ∷ []) × (s.mutex ≡ false) × (s.fd_hndl ≡ 3) × (s.close ≡ false))
unfolding kernel-IsStream
write-append_example =
    write-append kernel kernel-IsStream (7 ∷ 8 ∷ 9 ∷ 10 ∷ []) port (λ e. absurd (omega (arith, e)))
      refl (omega arith)

uart_close_lem_example :
    Does
      (uart_close kernel port)
      tt
      (λ s. (s.hw.outgoing ≡ 4 ∷ 0 ∷ 1 ∷ 0 ∷ []) × (s.fd_hndl ≡ 0) × (s.mutex ≡ false))
unfolding kernel-IsStream
uart_close_lem_example =
    uart_close_lem kernel kernel-IsStream port kernel-Closes (λ e. absurd (omega (arith, e))) refl
