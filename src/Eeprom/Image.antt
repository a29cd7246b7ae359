-- ===== src/Eeprom/Image.antt =====
-- What an EEPROM of linux_kernel_modules/iot_slot/iot-slot-eeprom.c holds.
use mang_oh.Prelude.{ℕ, zero, suc, ◌+◌, ◌<◌, ◌≡◌, ◌≢◌, true, List, [], ◌∷◌}
use mang_oh.Eeprom.{Kernel}

-- From an offset on, so many descriptions, and then the mark of their end, all in the EEPROM.
abbrev pub Ends : (ℕ → ℕ) → ℕ → ℕ → Type 0
Ends image off zero = (off < 4096) × (image off ≡ 0xFF)
Ends image off (suc n) = (off < 4096) × (image off ≢ 0xFF) × Ends image (off + 64) n

-- A header of version 1.0.
pub record IsCard (image : ℕ → ℕ) : Type 0 where
  pub first : image 0 ≡ 0xAA
  pub second : image 1 ≡ 0x55
  pub major : image 2 ≡ 1
  pub minor : image 3 ≡ 0

-- Memory is never short.
pub record HasMemory (k : Kernel) : Type 0 where
  pub kzalloc_lem : (w : k.W) → (k.kzalloc w).0 ≡ true

-- So many offsets of descriptions, from one on.
abbrev pub slots : ℕ → ℕ → List ℕ
slots off zero = []
slots off (suc n) = off ∷ slots (off + 64) n

-- How many of them the walk lists for so many descriptions: the mark of the end too, if there is
-- something before it.
abbrev pub listed : ℕ → ℕ
listed zero = 0
listed (suc n) = suc (suc n)
