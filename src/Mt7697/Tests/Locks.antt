-- ===== src/Mt7697/Tests/Locks.antt =====
-- The mutex of linux_kernel_modules/mt7697q in runs on the reference slave.
use mang_oh.Prelude.{ℕ, List, [], ◌∷◌, true, false, refl}
use mang_oh.Prelude.Monad.{ok}
use mang_oh.Prelude.Outcome.{Post}
use mang_oh.Mt7697.Io.Endings.{Ends, io-IsUndead}
use mang_oh.Mt7697.Queue.Info.{Info}
use mang_oh.Mt7697.Queue.Receive.{Clients, irq_run}
use mang_oh.Mt7697.Queue.Control.{init, shutdown}
use mang_oh.Mt7697.Queue.Mutex.{Undead, IsUndead}
use mang_oh.Mt7697.Queue.Interrupts.{Free, IsPolite, irq_run-Free}
use mang_oh.Mt7697.Queue.Lifecycle.{init-Free, shutdown-Free}
use mang_oh.Mt7697.Tests.{port, spi}
use mang_oh.Mt7697.Tests.Reference.{RefSlave, host, write, write_then_read}

write-Ends : (bytes : List ℕ) → Ends (write bytes)
write-Ends [] r = tt
write-Ends (a ∷ []) r = tt
write-Ends (a ∷ b ∷ []) r = tt
write-Ends (a ∷ b ∷ c ∷ []) r = tt
write-Ends (a ∷ b ∷ c ∷ d ∷ []) r = tt
write-Ends (a ∷ b ∷ c ∷ d ∷ e ∷ es) r = tt

write_then_read-Ends : (bytes : List ℕ) → Ends (write_then_read bytes)
write_then_read-Ends [] r = tt
write_then_read-Ends (a ∷ []) r = tt
write_then_read-Ends (a ∷ b ∷ bs) r = tt

spi-IsUndead : IsUndead spi
spi-IsUndead = io-IsUndead host write-Ends write_then_read-Ends

-- Clients that take what comes, and a work queue.
abbrev clients : Clients spi
clients = record {
  rx = λ f r priv p. ok 0 p;
  notify_tx = λ f priv n p. ok 0 p;
  queue_delayed_work = λ s. ok true s;
  enable_irq = λ s. ok tt s;
}

clients-IsPolite : IsPolite spi clients
clients-IsPolite = record {
  rx_lem = λ f r priv p e. e;
  notify_tx_lem = λ f priv n p e. e;
  queue_delayed_work_lem = λ s e. e;
  enable_irq_lem = λ s e. e;
}

-- Six queues with the same ring.
abbrev queues : Info RefSlave
queues = record {
  queues = λ ch. port.spec;
  rsp = port.rsp;
  blocked_writer = false;
  held = false;
  hw = port.hw;
}

irq_run-Free_example : Post Free Free Undead (irq_run spi clients 5 queues)
irq_run-Free_example = irq_run-Free spi clients spi-IsUndead clients-IsPolite 5 queues refl

init-Free_example : Post Free Free Undead (init spi true 0 1 2 3 4 queues)
init-Free_example = init-Free spi spi-IsUndead true 0 1 2 3 4 queues refl

shutdown-Free_example : Post Free Free Undead (shutdown spi 0 1 queues)
shutdown-Free_example = shutdown-Free spi spi-IsUndead 0 1 queues refl
