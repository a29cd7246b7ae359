-- ===== src/Eeprom.antt =====
-- The description of an IoT card in its EEPROM: linux_kernel_modules/iot_slot/iot-slot-eeprom.c and
-- iot-slot-eeprom-1v0.h. The one client at a time is `this_eeprom`; the log is left out.
pub mod Image
pub mod Walk
pub mod End
pub mod Memory
mod Tests
use mang_oh.Prelude.{
  ℕ, zero, suc, ◌+◌, ◌*◌, Bool, true, false, ◌&&◌, not, Option, none, some, List, [], ◌∷◌, ◌++◌,
  ltb, leb, ◌==◌, if◌then◌else◌,
}
use mang_oh.Prelude.Monad.{M, ok, err, halt, corrupt, spin, bug, pure, stop, ◌>>=◌, ◌>>◌}

abbrev pub eeprom_size : ℕ
eeprom_size = 4096

abbrev pub interface_offset : ℕ
interface_offset = 192

-- sizeof(eeprom_if_1v0)
abbrev pub interface_size : ℕ
interface_size = 64

-- enum EepromInterface, the values that the code names
abbrev pub if_gpio : ℕ
if_gpio = 0

abbrev pub if_i2c : ℕ
if_i2c = 1

abbrev pub if_spi : ℕ
if_spi = 2

abbrev pub if_usb : ℕ
if_usb = 3

abbrev pub if_sdio : ℕ
if_sdio = 4

abbrev pub if_adc : ℕ
if_adc = 5

abbrev pub if_pcm : ℕ
if_pcm = 6

abbrev pub if_clk : ℕ
if_clk = 7

abbrev pub if_uart : ℕ
if_uart = 8

abbrev pub if_plat : ℕ
if_plat = 9

abbrev pub if_last : ℕ
if_last = 0xFF

-- EEPROM_VERSION(1, 0)
abbrev pub version_1v0 : ℕ
version_1v0 = 0x0100

-- A block that memset has filled.
abbrev pub filled : ℕ → ℕ
filled p = 0xFF

-- What the code calls of the kernel: kzalloc of a map and whether there was memory, kfree, and
-- i2c_new_device and i2c_unregister_device. A new device is `none` if there is none, and brings the
-- outcome of the read of its contents.
pub record Kernel : Type 1 where
  pub W : Type 0
  pub kzalloc : W → Bool × W
  pub kfree : W → W
  pub new_device : W → Option (Option (ℕ → ℕ)) × W
  pub unregister_device : W → W

-- struct eeprom_map: the interfaces are the offsets of their descriptions in the buffer.
pub record Map (W : Type 0) : Type 0 where
  pub buffer : ℕ → ℕ
  pub interfaces : List ℕ
  pub hw : W

module _ {W : Type 0} where
  -- The test of the magic in to_eeprom_buffer.
  unfoldable pub has_header : Map W → Bool
  has_header s = s.buffer 0 == 0xAA && s.buffer 1 == 0x55

  -- A byte of the buffer. The code does not test the offset: what it reads past the end of the buffer
  -- is memory that is not its own, and the model stops there.
  unfoldable pub byte_at : ℕ → M (Map W) ℕ
  byte_at off s = if ltb off eeprom_size then ok (s.buffer off) s else halt corrupt

  unfoldable pub version : M (Map W) ℕ
  unfolding has_header
  version s = if has_header s then ok (s.buffer 2 * 256 + s.buffer 3) s else halt bug

  -- The `switch` over the version, which all readers of a description have.
  abbrev pub in_1v0 : {A : Type 0} → M (Map W) A → M (Map W) A
  in_1v0 m = do v ← version; if v == version_1v0 then m else stop bug

  unfoldable pub if_first : M (Map W) (Option ℕ)
  unfolding byte_at version
  if_first = in_1v0 (do
    type ← byte_at interface_offset
    pure (if type == if_last then none else some interface_offset))

  unfoldable pub if_next : ℕ → M (Map W) (Option ℕ)
  unfolding byte_at version
  if_next prev = in_1v0 (do
    type ← byte_at prev
    pure (if type == if_last then none else some (prev + interface_size)))

  unfoldable pub if_type : ℕ → M (Map W) ℕ
  unfolding byte_at version
  if_type item = in_1v0 (byte_at item)

  -- A field of a description, behind a BUG_ON of its type.
  unfoldable pub field : ℕ → ℕ → ℕ → M (Map W) ℕ
  unfolding byte_at version
  field kind at item =
      in_1v0 (do type ← byte_at item; if type == kind then byte_at (item + at) else stop bug)

  unfoldable pub if_gpio_cfg : ℕ → ℕ → M (Map W) ℕ
  unfolding byte_at version
  if_gpio_cfg item pin = in_1v0 (do
    type ← byte_at item
    if type == if_gpio && ltb pin 4 then byte_at (item + 1 + pin) else stop bug)

  unfoldable pub if_spi_irq_gpio : ℕ → M (Map W) ℕ
  unfolding field
  if_spi_irq_gpio = field if_spi 1

  unfoldable pub if_i2c_address : ℕ → M (Map W) ℕ
  unfolding field
  if_i2c_address = field if_i2c 1

  unfoldable pub if_i2c_irq_gpio : ℕ → M (Map W) ℕ
  unfolding field
  if_i2c_irq_gpio = field if_i2c 2

  -- The pointer to a field, as an offset.
  unfoldable pub pointer : ℕ → ℕ → ℕ → M (Map W) ℕ
  unfolding byte_at version
  pointer kind at item =
      in_1v0 (do type ← byte_at item; if type == kind then pure (item + at) else stop bug)

  unfoldable pub if_spi_modalias : ℕ → M (Map W) ℕ
  unfolding pointer
  if_spi_modalias = pointer if_spi 2

  unfoldable pub if_i2c_modalias : ℕ → M (Map W) ℕ
  unfolding pointer
  if_i2c_modalias = pointer if_i2c 3

module _ (k : Kernel) where
  open k use {W, kzalloc, kfree, new_device, unregister_device}

  -- One kfree for each map of the list.
  unfoldable pub free_all : List ℕ → W → W
  free_all [] w = w
  free_all (i ∷ is) w = free_all is (kfree w)

  unfoldable pub free_interfaces : Map W → Map W
  unfolding free_all
  free_interfaces s = record s { interfaces = []; hw = free_all s.interfaces s.hw }

  -- The loop over the descriptions; the fuel bounds its rounds.
  unfoldable pub load_loop : ℕ → Option ℕ → ℕ → M (Map W) ℕ
  unfolding if_next free_interfaces
  load_loop n none count s = ok count s
  load_loop zero (some off) count s = halt spin
  load_loop (suc n) (some off) count s =
      let (found, w) = kzalloc s.hw in
      elim found [
        | false ↦ err 1 (free_interfaces (record s { hw = w }))
        | true ↦
            (do next ← if_next off; load_loop n next (count + 1))
              (record s { interfaces = s.interfaces ++ off ∷ []; hw = w })
      ]

  unfoldable pub load_interfaces : ℕ → M (Map W) ℕ
  unfolding if_first load_loop
  load_interfaces n = do first ← if_first; load_loop n first 0

  -- at24_eeprom_setup
  unfoldable pub setup : Option (ℕ → ℕ) → Map W → Map W
  setup none s = record s { buffer = filled; interfaces = [] }
  setup (some image) s = record s { buffer = image; interfaces = [] }

  -- Whether there is a client, with an adapter that is not NULL.
  unfoldable pub load : ℕ → M (Map W) Bool
  unfolding load_interfaces setup has_header
  load n s =
      let (device, w) = new_device s.hw in
      elim device [
        | none ↦ ok false (record s { hw = w })
        | some read ↦
            let t = setup read (record s { hw = w }) in
            if has_header t
            then elim (load_interfaces n t) [
              | ok count u ↦ ok (ltb 0 count) u
              | err e u ↦ ok false u
              | halt f ↦ halt f
            ]
            else ok false (record t { hw = unregister_device t.hw })
      ]

  unfoldable pub unload : M (Map W) (Unit {0})
  unfolding free_interfaces has_header
  unload s =
      if has_header s
      then (let t = free_interfaces s in
          ok tt (record t { buffer = filled; hw = unregister_device t.hw }))
      else halt bug
