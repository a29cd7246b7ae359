-- ===== src/IotSlot/Readings.antt =====
-- Reading a description, with linux_kernel_modules/iot_slot/iot-slot-eeprom.c, changes nothing and
-- fails in no way but by a stop.
use mang_oh.Prelude.{
  Option, none, some, ℕ, zero, suc, ◌+◌, Bool, if◌then◌else◌, ltb, ◌==◌, replicate, ◌&&◌,
}
use mang_oh.Prelude.Monad.{Out, M, err, halt, pure, stop, ok, bug, ◌>>=◌}
use mang_oh.Prelude.Outcome.{Post, Post-bind, Post-if, Post-if_run}
use mang_oh.Eeprom.{
  Map, has_header, byte_at, version, in_1v0, if_first, if_next, if_type, field, pointer,
  if_gpio_cfg,
}
use mang_oh.IotSlot.{Work, strncpy, reading}
use mang_oh.IotSlot.Calls.{Log}
use mang_oh.IotSlot.Holdings.{Stops}

module _ (J : Map Log → Type 0) (E : ℕ → Map Log → Type 0) where
  abbrev Reads : {A : Type 0} → M (Map Log) A → Type 0
  Reads m = (s : Map Log) → J s → Post (λ a. J) E Stops (m s)

  Reads-bind :
      {A B : Type 0} (m : M (Map Log) A) (f : A → M (Map Log) B)
      → Reads m
      → ((a : A) → Reads (f a))
      → Reads (m >>= f)
  Reads-bind m f h k s j = Post-bind E Stops m f s (λ a. J) (λ a. J) (h s j) (λ a t. k a t)

  Reads-if :
      {A : Type 0} (b : Bool) (m n : M (Map Log) A) → Reads m → Reads n → Reads (if b then m else n)
  Reads-if b m n h k s j = Post-if_run (λ a. J) E Stops b m n s (λ _. h s j) (λ _. k s j)

  byte_at-Reads : (off : ℕ) → Reads (byte_at off)
  unfolding byte_at
  byte_at-Reads off s j = Post-if (λ a. J) E Stops (ltb off 4096) _ _ (λ _. j) (λ _. tt)

  in_1v0-Reads : {A : Type 0} (m : M (Map Log) A) → Reads m → Reads (in_1v0 m)
  unfolding version
  in_1v0-Reads m h =
      Reads-bind version (λ v. if v == 256 then m else stop bug)
        (λ s j. Post-if (λ a. J) E Stops (has_header s) _ _ (λ _. j) (λ _. tt))
        (λ v. Reads-if (v == 256) m (stop bug) h (λ s j. tt))

  if_type-Reads : (item : ℕ) → Reads (if_type item)
  unfolding if_type
  if_type-Reads item = in_1v0-Reads (byte_at item) (byte_at-Reads item)

  -- A test of the type of a description.
  typed-Reads :
      {A : Type 0} (item : ℕ) (test : ℕ → Bool) (m : M (Map Log) A)
      → Reads m
      → Reads (in_1v0 (byte_at item >>= (λ type. if test type then m else stop bug)))
  typed-Reads item test m h = in_1v0-Reads _ (
      Reads-bind (byte_at item) _ (byte_at-Reads item)
        (λ type. Reads-if (test type) m (stop bug) h (λ s j. tt)))

  pub if_next-Reads : (item : ℕ) → Reads (if_next item)
  unfolding if_next
  if_next-Reads item = in_1v0-Reads _ (
      Reads-bind (byte_at item) (λ type. pure (if type == 0xFF then none else some (item + 64)))
        (byte_at-Reads item) (λ type s j. j))

  pub if_first-Reads : Reads if_first
  unfolding if_first
  if_first-Reads = in_1v0-Reads _ (
      Reads-bind {B = Option ℕ} (byte_at 192)
        (λ type. pure (if type == 0xFF then none else some 192)) (byte_at-Reads 192)
        (λ type s j. j))

  field-Reads : (kind at item : ℕ) → Reads (field kind at item)
  unfolding field
  field-Reads kind at item = typed-Reads item (λ type. type == kind) _ (byte_at-Reads (item + at))

  pointer-Reads : (kind at item : ℕ) → Reads (pointer kind at item)
  unfolding pointer
  pointer-Reads kind at item = typed-Reads item (λ type. type == kind) _ (λ s j. j)

  if_gpio_cfg-Reads : (item pin : ℕ) → Reads (if_gpio_cfg item pin)
  unfolding if_gpio_cfg
  if_gpio_cfg-Reads item pin =
      typed-Reads item (λ type. type == 0 && ltb pin 4) _ (byte_at-Reads (item + 1 + pin))

  strncpy-Reads : (n at : ℕ) → Reads (strncpy n at)
  unfolding strncpy
  strncpy-Reads zero at = λ s j. j
  strncpy-Reads (suc n) at = Reads-bind (byte_at at) _ (byte_at-Reads at) (λ byte.
      Reads-if (byte == 0) (pure (replicate (suc n) 0)) _ (λ s j. j)
        (Reads-bind (strncpy n (at + 1)) _ (strncpy-Reads n (at + 1)) (λ rest s j. j)))

module _ (J : Work → Type 0) (E : ℕ → Work → Type 0) where
  -- A reading, in a function on a slot.
  pub lifted :
      {A : Type 0} (s : Work) (out : Out (Map Log) A)
      → Post (λ a t. J (record s { eeprom = t })) (λ e t. E e (record s { eeprom = t })) Stops out
      → Post (λ a. J) E Stops (reading (λ _. out) s)
  unfolding reading
  lifted s (ok a t) h = h
  lifted s (err e t) h = h
  lifted s (halt f) h = h

  abbrev With : Work → Map Log → Type 0
  With s t = J (record s { eeprom = t })

  abbrev Failing : Work → ℕ → Map Log → Type 0
  Failing s e t = E e (record s { eeprom = t })

  pub reading-if_type :
      (item : ℕ) (s : Work) → J s → Post (λ a. J) E Stops (reading (if_type item) s)
  unfolding reading
  reading-if_type item s j =
      lifted s (if_type item s.eeprom) (if_type-Reads (With s) (Failing s) item s.eeprom j)

  pub reading-if_gpio_cfg :
      (item pin : ℕ) (s : Work) → J s → Post (λ a. J) E Stops (reading (if_gpio_cfg item pin) s)
  unfolding reading
  reading-if_gpio_cfg item pin s j =
      lifted s (if_gpio_cfg item pin s.eeprom)
        (if_gpio_cfg-Reads (With s) (Failing s) item pin s.eeprom j)

  pub reading-field :
      (kind at item : ℕ) (s : Work) → J s → Post (λ a. J) E Stops (reading (field kind at item) s)
  unfolding reading
  reading-field kind at item s j =
      lifted s (field kind at item s.eeprom)
        (field-Reads (With s) (Failing s) kind at item s.eeprom j)

  -- The copy of a name that lies in a description.
  pub reading-name :
      (kind at item n : ℕ) (s : Work)
      → J s
      → Post (λ a. J) E Stops (reading (pointer kind at item >>= strncpy n) s)
  unfolding reading
  reading-name kind at item n s j = lifted s ((pointer kind at item >>= strncpy n) s.eeprom) (
      Reads-bind (With s) (Failing s) (pointer kind at item) (strncpy n)
        (pointer-Reads (With s) (Failing s) kind at item) (strncpy-Reads (With s) (Failing s) n)
        s.eeprom j)
