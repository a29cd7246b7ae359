-- ===== src/Serial.antt =====
-- The serial port to the MT7697's Bluetooth part, linux_kernel_modules/mt7697serial/uart.c: opening
-- and closing it, the transfers of whole words over a file that moves some bytes at a time, and the
-- receiver. What the code calls of the kernel is a parameter.
pub mod Stream
pub mod Transfers
pub mod Closing
mod Tests
use mang_oh.Prelude.{
  ℕ, zero, suc, ◌+◌, ◌-◌, ◌*◌, ◌/◌, ◌%◌, ◌^◌, Bool, true, false, ◌&&◌, not, Option, none, some,
  List, [], ◌∷◌, ◌++◌, length, drop, get_or, ltb, ◌==◌, if◌then◌else◌,
}
use mang_oh.Prelude.Monad.{
  Out, M, ok, err, halt, deadlock, spin, corrupt, bug, pure, fail, stop, finally, ◌>>=◌, ◌>>◌, eio,
  enomem,
}

abbrev pub eintr : ℕ
eintr = 4

abbrev pub epipe : ℕ
epipe = 32

abbrev pub etimedout : ℕ
etimedout = 110

abbrev pub grp_uart : ℕ
grp_uart = 1

abbrev pub shutdown_req : ℕ
shutdown_req = 0

abbrev pub shutdown_rsp : ℕ
shutdown_rsp = 1

-- LEN_TO_WORD of struct mt7697_rsp_hdr, and of struct mt7697_uart_shutdown_req
abbrev pub rsp_hdr_words : ℕ
rsp_hdr_words = 2

abbrev pub shutdown_req_words : ℕ
shutdown_req_words = 1

-- What a poll of the file tells: POLLERR, POLLHUP, one of the bits for data, or none of them.
pub data Mask : Type 0 where
  poll_err poll_hup poll_in poll_none : Mask

-- What mt7697_uart_open finds: no device, a device without data, or its data.
pub data Lookup : Type 0 where
  no_device no_data found : Lookup

-- What the code calls of the kernel. `none` is an error; a read gives the bytes that it brings, a
-- write their number. `wait_event` says whether `close` is still set when the wait ends: the receiver
-- runs meanwhile, and a signal ends the wait as well.
pub record Kernel : Type 1 where
  pub W : Type 0
  pub kzalloc : W → Bool × W
  pub kfree : W → W
  pub filp_open : W → Option ℕ × W
  pub filp_close : ℕ → W → ℕ × W
  pub kernel_read : ℕ → ℕ → W → Option (List ℕ) × W
  pub kernel_write : ℕ → List ℕ → W → Option ℕ × W
  pub poll : ℕ → W → Mask × W
  pub signal_pending : W → Bool
  pub schedule_timeout : W → Bool × W
  pub schedule_work : W → W
  pub wait_event : W → Bool × W
  pub rx_fcn : ℕ → List ℕ → ℕ → W → W

-- struct mt7697_uart_info: `fd_hndl` is 0 for MT7697_UART_INVALID_FD, `rsp` the bytes of the header.
pub record Info (W : Type 0) : Type 0 where
  pub fd_hndl : ℕ
  pub mutex : Bool
  pub rsp : List ℕ
  pub rx_fcn : ℕ
  pub rx_hndl : ℕ
  pub close : Bool
  pub hw : W

module _ {W : Type 0} where
  -- mutex_lock and mutex_unlock round a body.
  unfoldable pub locked : {A : Type 0} → M (Info W) A → M (Info W) A
  locked m s =
      if s.mutex
      then halt deadlock
      else finally (λ t. record t { mutex = false }) m (record s { mutex = true })

-- The struct that mt7697_uart_probe has filled.
abbrev pub fresh : {W : Type 0} → W → Info W
fresh w = record {
  fd_hndl = 0;
  mutex = false;
  rsp = [];
  rx_fcn = 0;
  rx_hndl = 0;
  close = false;
  hw = w;
}

module _ (k : Kernel) where
  open k use {W, kernel_read, kernel_write, poll, signal_pending, schedule_timeout}

  -- The loop of mt7697_uart_read for `count` bytes: what it has put into the buffer, and whether that
  -- is all.
  unfoldable pub read_loop : ℕ → ℕ → ℕ → List ℕ → M W (Bool × List ℕ)
  read_loop fd zero count got w = halt spin
  read_loop fd (suc n) count got w =
      let (r, v) = kernel_read fd count w in
      elim r [
        | none ↦ ok (false, got) v
        | some bytes ↦
            if length bytes == 0
            then ok (false, got) v
            else (if count - length bytes == 0
                then ok (true, got ++ bytes) v
                else read_loop fd n (count - length bytes) (got ++ bytes) v)
      ]

  -- The number of words read, and the bytes that are in the buffer. Each round of the loop brings a
  -- byte.
  unfoldable pub read : ℕ → M (Info W) (ℕ × List ℕ)
  unfolding read_loop
  read len s =
      if s.fd_hndl == 0
      then ok (0, []) s
      else elim (read_loop s.fd_hndl (len * 4) (len * 4) [] s.hw) [
        | ok r w ↦ ok (if r.0 then len else 0, r.1) (record s { hw = w })
        | err e w ↦ err e (record s { hw = w })
        | halt f ↦ halt f
      ]

  -- The loop of mt7697_uart_write: whether all bytes are written.
  unfoldable pub write_loop : ℕ → ℕ → List ℕ → M W Bool
  write_loop fd zero bytes w = halt spin
  write_loop fd (suc n) bytes w =
      let (r, v) = kernel_write fd bytes w in
      elim r [
        | none ↦ ok false v
        | some num_write ↦
            if num_write == 0
            then ok false v
            else (if length bytes - num_write == 0
                then ok true v
                else write_loop fd n (drop num_write bytes) v)
      ]

  -- The body of mt7697_uart_write under the mutex, for a buffer of so many words.
  unfoldable pub write_body : List ℕ → M (Info W) ℕ
  unfolding write_loop
  write_body bytes s =
      if s.fd_hndl == 0 then ok 0 s else elim (write_loop s.fd_hndl (length bytes) bytes s.hw) [
        | ok done w ↦ ok (if done then length bytes / 4 else 0) (record s { hw = w })
        | err e w ↦ err e (record s { hw = w })
        | halt f ↦ halt f
      ]

  unfoldable pub write : List ℕ → M (Info W) ℕ
  unfolding locked write_body
  write bytes = locked (write_body bytes)

  -- The request's bytes: its length of 4, group and type.
  unfoldable pub snd_shutdown_req : M (Info W) (Unit {0})
  unfolding write
  snd_shutdown_req = do
    ret ← write (4 ∷ 0 ∷ grp_uart ∷ shutdown_req ∷ [])
    if ret == shutdown_req_words then pure tt else fail eio

  -- The loop of mt7697_uart_rx_poll, which ends when the file does, or a signal.
  unfoldable pub rx_poll : ℕ → ℕ → M W (Unit {0})
  rx_poll fd zero w = halt spin
  rx_poll fd (suc n) w =
      let (mask, v) = poll fd w in
      elim mask [
        | poll_err ↦ err eio v
        | poll_hup ↦ err epipe v
        | poll_in ↦ ok tt v
        | poll_none ↦
            if signal_pending v
            then err eintr v
            else (let (ran, u) = schedule_timeout v in
                if ran then rx_poll fd n u else err etimedout u)
      ]

  -- The code behind `cleanup:` of mt7697_uart_rx_work.
  unfoldable pub rx_ended : M (Info W) (Unit {0})
  rx_ended s = ok tt (record s { close = false })

  -- The bytes that a read has put over the header.
  unfoldable pub set_rsp : List ℕ → M (Info W) (Unit {0})
  set_rsp bytes s = ok tt (record s { rsp = bytes ++ drop (length bytes) s.rsp })

  -- What a message leads to: whether the receiver goes on.
  unfoldable pub rx_dispatch : M (Info W) Bool
  rx_dispatch s =
      if get_or s.rsp 2 0 == grp_uart
      then ok (not s.close) s
      else (if s.rx_fcn == 0
          then halt bug
          else ok true (record s { hw = k.rx_fcn s.rx_fcn s.rsp s.rx_hndl s.hw }))

  -- The receiver, for so many messages and so many polls for each at most.
  unfoldable pub rx_work : ℕ → ℕ → M (Info W) (Unit {0})
  unfolding rx_poll read set_rsp rx_dispatch rx_ended
  rx_work polls zero s = halt spin
  rx_work polls (suc n) s = elim (rx_poll s.fd_hndl polls s.hw) [
    | err e w ↦ rx_ended (record s { hw = w })
    | halt f ↦ halt f
    | ok x w ↦
        (do
          (ret, bytes) ← read rsp_hdr_words
          set_rsp bytes
          if ret == rsp_hdr_words
              then (do goes_on ← rx_dispatch; if goes_on then rx_work polls n else rx_ended)
              else rx_ended)
          (record s { hw = w })
  ]

  -- `none` is NULL. Without a device the cleanup reads through a pointer that was never set, and
  -- without data through NULL.
  unfoldable pub uart_open : Lookup → ℕ → ℕ → M (Info W) Bool
  uart_open no_device rx_fcn rx_hndl s = halt corrupt
  uart_open no_data rx_fcn rx_hndl s = halt bug
  uart_open found rx_fcn rx_hndl s =
      let (r, w) = k.filp_open s.hw in
      elim r [
        | none ↦ ok false (record s { fd_hndl = 0; hw = w })
        | some fd ↦ ok true (record s {
          fd_hndl = fd;
          rx_fcn = rx_fcn;
          rx_hndl = rx_hndl;
          close = false;
          hw = k.schedule_work w;
        })
      ]

  -- filp_close under the mutex.
  unfoldable pub close_file : M (Info W) (Unit {0})
  close_file s =
      let (ret, w) = k.filp_close s.fd_hndl s.hw in
      if ret == 0 then ok tt (record s { fd_hndl = 0; hw = w }) else err ret (record s { hw = w })

  unfoldable pub await_close : M (Info W) (Unit {0})
  await_close s =
      let (still, w) = k.wait_event s.hw in ok tt (record s { close = s.close && still; hw = w })

  unfoldable pub uart_close : M (Info W) (Unit {0})
  unfolding snd_shutdown_req await_close locked close_file
  uart_close s =
      if s.fd_hndl == 0
      then ok tt s
      else (do snd_shutdown_req; await_close; locked close_file) (record s { close = true })

  unfoldable pub probe : W → Out W (Info W)
  probe w = let (r, v) = k.kzalloc w in if r then ok (fresh v) v else err enomem v

  -- The struct is freed, whatever the close has returned.
  unfoldable pub remove : Info W → Out W (Unit {0})
  unfolding uart_close
  remove s = elim (uart_close s) [
    | ok x t ↦ ok tt (k.kfree t.hw)
    | err e t ↦ err e (k.kfree t.hw)
    | halt f ↦ halt f
  ]
