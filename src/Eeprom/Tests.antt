-- ===== src/Eeprom/Tests.antt =====
-- Runs of linux_kernel_modules/iot_slot/iot-slot-eeprom.c on an EEPROM with an SPI device.
use mang_oh.Prelude.{ℕ, suc, ◌-◌, ◌≡◌, refl, true, none, [], ◌∷◌, arith, if◌then◌else◌, ◌==◌, ltb}
use mang_oh.Prelude.Monad.{Does}
use mang_oh.Eeprom.{Kernel, Map, load_interfaces}
use mang_oh.Eeprom.Image.{IsCard, HasMemory}
use mang_oh.Eeprom.Walk.{load_interfaces_lem}
use mang_oh.Eeprom.Memory.{IsHeap, Listed, Freed, load_interfaces_ends}
use mang_oh.Prelude.Outcome.{Post}
use mang_oh.Board.Ledger.{Never}

-- A kernel that counts the maps that it has given out.
abbrev kernel : Kernel
kernel = record {
  W = ℕ;
  kzalloc = λ n. (true, suc n);
  kfree = λ n. n - 1;
  new_device = λ n. (none, n);
  unregister_device = λ n. n;
}

kernel-HasMemory : HasMemory kernel
kernel-HasMemory = record { kzalloc_lem = λ w. refl }

-- A header, one description, of type 2, and the mark of the end.
abbrev image : ℕ → ℕ
image p =
    if p == 0
    then 0xAA
    else if p == 1
    then 0x55
    else if p == 2
    then 1
    else if p == 192
    then 2
    else if p == 256
    then 0xFF
    else 0

image-IsCard : IsCard image
image-IsCard = record { first = refl; second = refl; major = refl; minor = refl }

abbrev before : Map ℕ
before = record { buffer = image; interfaces = []; hw = 0 }

-- One description, and a list of two.
load_interfaces_lem_example :
    Does
      (load_interfaces kernel 5 before)
      2
      (λ t. (t.interfaces ≡ 192 ∷ 256 ∷ []) × (t.buffer ≡ image))
load_interfaces_lem_example =
    load_interfaces_lem kernel 5 1 before kernel-HasMemory image-IsCard
      (omega arith, omega arith, (omega arith, refl)) refl (omega arith)

-- A kernel with memory for one map.
abbrev small : Kernel
small = record kernel { kzalloc = λ n. (ltb n 1, if ltb n 1 then suc n else n) }

small-IsHeap : IsHeap small
small-IsHeap = record { maps = λ n. n; kzalloc_lem = λ n. ground arith; kfree_lem = λ n. refl }

load_interfaces_ends_example :
    Post
      (Listed small small-IsHeap 2 0)
      (Freed small small-IsHeap 0)
      Never
      (load_interfaces small 5 before)
unfolding small-IsHeap
load_interfaces_ends_example =
    load_interfaces_ends small small-IsHeap 5 1 before image-IsCard
      (omega arith, omega arith, (omega arith, refl)) refl (omega arith)
