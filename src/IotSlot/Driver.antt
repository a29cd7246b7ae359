-- ===== src/IotSlot/Driver.antt =====
-- iot_slot_enumerate, iot_slot_probe and iot_slot_remove in
-- linux_kernel_modules/iot_slot/iot-slot-core.c.
use mang_oh.Prelude.{
  ℕ, Bool, true, false, ◌||◌, ◌&&◌, not, Option, none, some, List, [], ◌∷◌, length, leb, ◌==◌,
  if◌then◌else◌,
}
use mang_oh.Prelude.Monad.{
  M, ok, err, halt, deadlock, bug, pure, fail, finally, ◌>>=◌, ◌>>◌, einval, enomem, erange,
}
use mang_oh.Eeprom.{Map, load, unload, if_type}
use mang_oh.IotSlot.{
  PlatformData, PlatformDevice, interface_clk, interface_platform, Slot, Work, Described,
  described_gpio, described_i2c, described_spi, described_usb, described_sdio, described_adc,
  described_pcm, described_clk, described_uart, described_plat, other, max_interfaces, described,
  reading, append,
}
use mang_oh.IotSlot.Interfaces.{
  ask, tell, add_gpio, add_i2c, add_spi, add_sdio, add_adc, add_pcm, add_uart,
}
use mang_oh.IotSlot.Calls.{Call, Log, Env, kernel}
use mang_oh.IotSlot.Release.{platform_device, release_resources, request_essential_resources}

-- CONFIG_IOT_SLOT_NUM_SUPPORTED
abbrev pub num_supported : ℕ
num_supported = 3

-- The rounds of the walk over the EEPROM.
abbrev pub rounds : ℕ
rounds = 63

-- The variables of the module, with the driver's data of each device (its address to the address of
-- a slot, or 0), and the EEPROM's client with the calls so far.
pub record State : Type 0 where
  pub slots : ℕ → Option Slot
  pub drvdata : ℕ → ℕ
  pub management_mutex : Bool
  pub eeprom : Map Log

unfoldable pub set_card_present : Bool → M Work (Unit {0})
set_card_present b s = ok tt (record s { slot = record s.slot { card_present = b } })

abbrev pub is_index : ℕ → Bool
is_index id = not (leb 0x80000000 id || leb num_supported id)

unfoldable pub set_slot : ℕ → Option Slot → State → State
set_slot id x s = record s { slots = λ i. if i == id then x else s.slots i }

abbrev pub mutex_lock : M State (Unit {0})
mutex_lock s =
    if s.management_mutex then halt deadlock else ok tt (record s { management_mutex = true })

abbrev pub mutex_unlock : State → State
mutex_unlock s = record s { management_mutex = false }

-- The slot that devm_kzalloc has filled with zeros.
abbrev pub new_slot : ℕ → PlatformDevice → Slot
new_slot address pdev = record {
  address = address;
  pdev = some pdev;
  card_present = false;
  i2c_adapter = 0;
  interfaces = [];
}

-- Whether the slot is the one of the device.
unfoldable pub is_slot_of : PlatformDevice → Slot → PlatformDevice → State → Bool
is_slot_of pdev slot owner s =
    slot.address == s.drvdata pdev.address && owner.address == pdev.address

module _ (env : Env) where
  -- The `switch` over the type; the variable `ret` of the loop is passed on.
  unfoldable pub add_described : Described → PlatformData → ℕ → ℕ → M Work ℕ
  unfolding add_gpio add_i2c add_spi add_sdio add_adc add_pcm add_uart append
  add_described described_gpio p item ret = do add_gpio env p item; pure 0
  add_described described_i2c p item ret = do add_i2c env p item; pure 0
  add_described described_spi p item ret = do add_spi env p item; pure 0
  add_described described_usb p item ret = do append interface_clk; pure ret
  add_described described_sdio p item ret = do add_sdio env p; pure 0
  add_described described_adc p item ret = do add_adc env p; pure 0
  add_described described_pcm p item ret = do add_pcm env p; pure 0
  add_described described_clk p item ret = do append interface_clk; pure ret
  add_described described_uart p item ret = do add_uart env p; pure 0
  add_described described_plat p item ret = do append interface_platform; pure ret
  add_described other p item ret = pure ret

  -- A round of list_for_each.
  unfoldable pub add_item : PlatformData → ℕ → ℕ → M Work ℕ
  unfolding reading if_type add_described described
  add_item p item ret s =
      if leb max_interfaces (length s.slot.interfaces)
      then err erange s
      else (do type ← reading (if_type item); add_described (described type) p item ret) s

  unfoldable pub add_items : PlatformData → List ℕ → ℕ → M Work ℕ
  unfolding add_item
  add_items p [] ret = pure ret
  add_items p (item ∷ items) ret = do r ← add_item p item ret; add_items p items r

  -- The code behind `restore_card_detect:` and behind `unload_eeprom:`
  unfoldable pub restore_card_detect : PlatformData → ℕ → M Work (Unit {0})
  unfolding tell
  restore_card_detect p ret = do
    tell env (Call.gpio_direction_input p.card_detect_gpio)
    if ret == 0 then pure tt else fail ret

  unfoldable pub unload_eeprom : PlatformData → ℕ → M Work (Unit {0})
  unfolding reading restore_card_detect unload
  unload_eeprom p ret = do reading (unload (kernel env)); restore_card_detect p ret

  -- The loop, and what follows it.
  unfoldable pub add_interfaces : PlatformData → ℕ → M Work (Unit {0})
  unfolding add_items release_resources unload_eeprom
  add_interfaces p ret s = elim (add_items p s.eeprom.interfaces ret s) [
    | ok r t ↦ unload_eeprom p r t
    | err e t ↦ (do release_resources env; unload_eeprom p e) t
    | halt f ↦ halt f
  ]

  -- eeprom_load(slot->i2c_adapter)
  unfoldable pub load_eeprom : M Work Bool
  unfolding reading load
  load_eeprom s =
      if s.slot.i2c_adapter == 0 then ok false s else reading (load (kernel env) rounds) s

  -- What follows if there is a card.
  unfoldable pub read_card : PlatformData → M Work (Unit {0})
  unfolding ask tell load_eeprom add_interfaces restore_card_detect
  read_card p = do
    ret ← ask env (Call.gpio_direction_output p.card_detect_gpio 1)
    found ← load_eeprom
    if found
        then (do
          tell env (Call.gpio_set_value p.reset_gpio 1)
          tell env (Call.msleep 10)
          add_interfaces p ret)
        else restore_card_detect p ret

  unfoldable pub enumerate : M Work (Unit {0})
  unfolding platform_device ask read_card set_card_present
  enumerate = do
    pdev ← platform_device
    level ← ask env (Call.gpio_get_value pdev.platdata.card_detect_gpio)
    set_card_present (level == 0)
    if level == 0 then read_card pdev.platdata else pure tt

  -- The calls on the new slot.
  unfoldable pub fill_slot : M Work (Unit {0})
  unfolding request_essential_resources enumerate
  fill_slot = do request_essential_resources env; enumerate

  -- The part of iot_slot_probe under the mutex.
  unfoldable pub probe_locked : PlatformDevice → M State (Unit {0})
  unfolding set_slot fill_slot
  probe_locked pdev s = elim (s.slots pdev.id) [
    | some slot ↦ err einval s
    | none ↦
        let a = env.answer s.eeprom.hw Call.devm_kzalloc in
        let e = record s.eeprom { hw = (Call.devm_kzalloc, a) ∷ s.eeprom.hw } in
        if a == 0
        then err enomem (record s { eeprom = e })
        else (let t = record s { drvdata = λ d. if d == pdev.address then a else s.drvdata d } in
            elim (fill_slot (record { slot = new_slot a pdev; eeprom = e })) [
              | ok x w ↦ ok tt (set_slot pdev.id (some w.slot) (record t { eeprom = w.eeprom }))
              | err r w ↦ err r (set_slot pdev.id none (record t { eeprom = w.eeprom }))
              | halt f ↦ halt f
            ])
  ]

  unfoldable pub probe : PlatformDevice → M State (Unit {0})
  unfolding probe_locked
  probe pdev =
      if is_index pdev.id
      then (do mutex_lock; finally mutex_unlock (probe_locked pdev))
      else fail einval

  unfoldable pub remove : PlatformDevice → M State (Unit {0})
  unfolding is_slot_of release_resources set_slot
  remove pdev s =
      if is_index pdev.id
      then elim (s.slots pdev.id) [
        | none ↦ halt bug
        | some slot ↦ elim slot.pdev [
          | none ↦ err einval s
          | some owner ↦
              if is_slot_of pdev slot owner s
              then elim (release_resources env (record { slot = slot; eeprom = s.eeprom })) [
                | ok x w ↦ ok tt (set_slot pdev.id none (record s { eeprom = w.eeprom }))
                | err e w ↦ err e (record s { eeprom = w.eeprom })
                | halt f ↦ halt f
              ]
              else err einval s
        ]
      ]
      else err einval s
