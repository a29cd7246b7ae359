-- ===== src/IotSlot/Items.antt =====
-- The loop over the descriptions of a card in linux_kernel_modules/iot_slot/iot-slot-core.c: a slot
-- never gets more interfaces than it has room for.
use mang_oh.Prelude.{ℕ, ◌≡◌, refl, List, [], ◌∷◌, length, leb, arith}
use mang_oh.Prelude.Monad.{M, pure, ◌>>◌}
use mang_oh.Prelude.Outcome.{Post, Post-bind, Post-then, Post-if}
use mang_oh.Eeprom.{if_type}
use mang_oh.IotSlot.{
  PlatformData, Interface, interface_sdio, interface_adc, interface_pcm, interface_uart,
  interface_clk, interface_platform, Work, Described, described_gpio, described_i2c, described_spi,
  described_usb, described_sdio, described_adc, described_pcm, described_clk, described_uart,
  described_plat, other, described, reading, append,
}
use mang_oh.IotSlot.Interfaces.{add_sdio, add_adc, add_pcm, add_uart, add_gpio, add_i2c, add_spi}
use mang_oh.IotSlot.Calls.{Call, Env}
use mang_oh.IotSlot.Driver.{add_described, add_item, add_items}
use mang_oh.IotSlot.Holdings.{
  Context, Resource, sdio_port, adc_port, pcm_port, uart_port, Stops, Held, nothing, uses, IsSound,
}
use mang_oh.IotSlot.Readings.{reading-if_type}
use mang_oh.IotSlot.Adding.{Failed, loosen, retotal, append-Held, add_requested-Held}
use mang_oh.IotSlot.Devices.{Adds, add_gpio-Adds, add_i2c-Adds, add_spi-Adds}

module _ (env : Env) (p : PlatformData) (ctx : Context) where
  abbrev no : Resource → ℕ
  no = nothing env p ctx

  -- The variable `ret` is 0, if the pin of the card could be set.
  abbrev pub Quiet : ℕ → Type 0
  Quiet ret = IsSound env p → ret ≡ 0

  abbrev Scanned : ℕ → Work → Type 0
  Scanned ret s = Quiet ret × Held env p ctx 10 no s

  zeroed :
      (m : M Work (Unit {0})) (s : Work)
      → Adds env p ctx m
      → Held env p ctx 9 no s
      → Post Scanned (Failed env p ctx) Stops ((m >> pure 0) s)
  zeroed m s h k =
      Post-then (Failed env p ctx) Stops m (pure 0) s (λ _. Held env p ctx 10 no) Scanned (h s k)
        (λ _ t l. (λ _. refl, l))

  kept :
      (x : Interface) (ret : ℕ) (s : Work)
      → ((r : Resource) → uses p x r ≡ 0)
      → Quiet ret
      → Held env p ctx 9 no s
      → Post Scanned (Failed env p ctx) Stops ((append x >> pure ret) s)
  kept x ret s u q k =
      Post-then (Failed env p ctx) Stops (append x) (pure ret) s (λ _. Held env p ctx 10 no) Scanned
        (append-Held env p ctx (Failed env p ctx) x s
          (retotal env p ctx 9 no (uses p x) s (λ r. omega (arith, u r)) k))
        (λ _ t l. (q, l))

  add_described_scans :
      (d : Described) (item ret : ℕ) (s : Work)
      → Quiet ret
      → Held env p ctx 9 no s
      → Post Scanned (Failed env p ctx) Stops (add_described env d p item ret s)
  unfolding add_described add_sdio add_adc add_pcm add_uart
  add_described_scans described_gpio item ret s q k =
      zeroed (add_gpio env p item) s (add_gpio-Adds env p ctx item) k
  add_described_scans described_i2c item ret s q k =
      zeroed (add_i2c env p item) s (add_i2c-Adds env p ctx item) k
  add_described_scans described_spi item ret s q k =
      zeroed (add_spi env p item) s (add_spi-Adds env p ctx item) k
  add_described_scans described_usb item ret s q k = kept interface_clk ret s (λ r. refl) q k
  add_described_scans described_sdio item ret s q k =
      zeroed (add_sdio env p) s
        (λ t.
          add_requested-Held env p ctx Call.request_sdio interface_sdio sdio_port t refl (λ a. refl)
            (λ r. refl))
        k
  add_described_scans described_adc item ret s q k =
      zeroed (add_adc env p) s
        (λ t.
          add_requested-Held env p ctx Call.request_adc interface_adc adc_port t refl (λ a. refl)
            (λ r. refl))
        k
  add_described_scans described_pcm item ret s q k =
      zeroed (add_pcm env p) s
        (λ t.
          add_requested-Held env p ctx Call.request_pcm interface_pcm pcm_port t refl (λ a. refl)
            (λ r. refl))
        k
  add_described_scans described_clk item ret s q k = kept interface_clk ret s (λ r. refl) q k
  add_described_scans described_uart item ret s q k =
      zeroed (add_uart env p) s
        (λ t.
          add_requested-Held env p ctx Call.request_uart interface_uart uart_port t refl (λ a. refl)
            (λ r. refl))
        k
  add_described_scans described_plat item ret s q k = kept interface_platform ret s (λ r. refl) q k
  add_described_scans other item ret s q k = (q, loosen env p ctx no s k)

  add_item_scans :
      (item ret : ℕ) (s : Work)
      → Quiet ret
      → Held env p ctx 10 no s
      → Post Scanned (Failed env p ctx) Stops (add_item env p item ret s)
  unfolding add_item
  add_item_scans item ret s q k =
      Post-if Scanned (Failed env p ctx) Stops (leb 10 (length s.slot.interfaces)) _ _
        (λ _. (omega arith, k))
        (λ e.
          Post-bind (Failed env p ctx) Stops (reading (if_type item)) _ s (λ _. Held env p ctx 9 no)
            Scanned
            (reading-if_type (Held env p ctx 9 no) (Failed env p ctx) item s
              (ground (arith, e), k.1, k.2))
            (λ type t l. add_described_scans (described type) item ret t q l))

  pub add_items_scans :
      (items : List ℕ) (ret : ℕ) (s : Work)
      → Quiet ret
      → Held env p ctx 10 no s
      → Post Scanned (Failed env p ctx) Stops (add_items env p items ret s)
  unfolding add_items
  add_items_scans [] ret s q k = (q, k)
  add_items_scans (item ∷ items) ret s q k =
      Post-bind (Failed env p ctx) Stops (add_item env p item ret) (add_items env p items) s Scanned
        Scanned (add_item_scans item ret s q k) (λ r t l. add_items_scans items r t l.0 l.1)
