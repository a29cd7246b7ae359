-- ===== src/Mt7697/Host.antt =====
-- What linux_kernel_modules/mt7697q/io.c calls of the kernel: the SPI operations behind `hw_ops`,
-- and GENMASK. `W` is everything that such a call can change.
use mang_oh.Prelude.{ℕ, List}
use mang_oh.Prelude.Monad.{M}

pub record Host : Type 1 where
  pub W : Type 0
  -- hw_ops->write, which is spi_write
  pub write : List ℕ → M W (Unit {0})
  -- hw_ops->write_then_read: the bytes that come back, as many as go out
  pub write_then_read : List ℕ → M W (List ℕ)
  pub genmask : ℕ → ℕ → ℕ
  -- how often the model polls a busy slave before it calls the loop endless
  pub polls : ℕ
