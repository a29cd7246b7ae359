-- ===== src/Expander.antt =====
-- The outputs of the GPIO expander of the Yellow board: linux_kernel_modules/expander/expander.c. The
-- log is left out.
pub mod Pins
pub mod Outputs
mod Tests
use mang_oh.Prelude.{
  ℕ, ◌+◌, ◌-◌, Bool, true, false, ◌&&◌, Option, none, some, List, ltb, ◌==◌, if◌then◌else◌,
}
use mang_oh.Prelude.Monad.{M, ok, err, halt, pure, fail, einval, enomem, ◌>>=◌, ◌>>◌}

-- The attributes that CREATE_SYSFS_DEFN makes.
pub data Output : Type 0 where
  generic_led pcm_sel wl_reg_on tri_led_blu tri_led_red tri_led_grn : Output

abbrev pub same : Output → Output → Bool
same generic_led generic_led = true
same pcm_sel pcm_sel = true
same wl_reg_on wl_reg_on = true
same tri_led_blu tri_led_blu = true
same tri_led_red tri_led_red = true
same tri_led_grn tri_led_grn = true
same _ _ = false

abbrev pub offset_of : Output → ℕ
offset_of generic_led = 4
offset_of pcm_sel = 5
offset_of wl_reg_on = 1
offset_of tri_led_blu = 7
offset_of tri_led_red = 10
offset_of tri_led_grn = 15

abbrev pub active_low : Output → Bool
active_low generic_led = true
active_low pcm_sel = false
active_low wl_reg_on = false
active_low tri_led_blu = true
active_low tri_led_red = true
active_low tri_led_grn = true

-- What the driver calls of the kernel: the number parser, devm_gpio_request_one for an output with a
-- level and whether it is open drain, gpio_set_value_cansleep, the files of the attributes, and
-- devm_kzalloc and whether there was memory.
pub record Kernel : Type 1 where
  pub W : Type 0
  pub kstrtou8 : List ℕ → Option ℕ
  pub request_one : ℕ → ℕ → Bool → M W (Unit {0})
  pub set_value : ℕ → ℕ → W → W
  pub create_file : Output → M W (Unit {0})
  pub remove_file : Output → W → W
  pub kzalloc : W → Bool × W

-- struct expander_device: an atomic for each output.
pub record Device (W : Type 0) : Type 0 where
  pub val : Output → ℕ
  pub gpio_expander_base : ℕ
  pub hw : W

module _ {W : Type 0} where
  -- The number that is printed.
  unfoldable pub show : Output → M (Device W) ℕ
  show o s = ok (s.val o) s

  abbrev pub atomic_set : Output → ℕ → Device W → Device W
  atomic_set o v s = record s { val = λ p. if same p o then v else s.val p }

  abbrev pub pin : Output → Device W → ℕ
  pin o s = s.gpio_expander_base + offset_of o

  -- A call into the kernel.
  abbrev pub kernel_call : M W (Unit {0}) → M (Device W) (Unit {0})
  kernel_call m s = elim (m s.hw) [
    | ok a w ↦ ok tt (record s { hw = w })
    | err e w ↦ err e (record s { hw = w })
    | halt f ↦ halt f
  ]

  abbrev pub modify : (Device W → Device W) → M (Device W) (Unit {0})
  modify f s = ok tt (f s)

module _ (k : Kernel) where
  open k use {W, kstrtou8, request_one, set_value, create_file, remove_file, kzalloc}

  -- The level for a value.
  abbrev pub level_for : Output → ℕ → ℕ
  level_for o v = if active_low o then 1 - v else v

  -- The result is the count of bytes taken.
  unfoldable pub store : Output → List ℕ → ℕ → M (Device W) ℕ
  store o buf count s = elim (kstrtou8 buf) [
    | none ↦ err einval s
    | some v ↦
        if ltb 1 v
        then err einval s
        else (let t = atomic_set o v s in
            ok count (record t { hw = set_value (pin o t) (level_for o v) t.hw }))
  ]

  unfoldable pub gpio_initial_status : Output → ℕ → Bool → M (Device W) (Unit {0})
  gpio_initial_status o level is_open_drain s =
      (do
        kernel_call (request_one (pin o s) level is_open_drain)
        modify (atomic_set o level)
        kernel_call (create_file o))
        s

  unfoldable pub gpio_final_status : Output → ℕ → M (Device W) (Unit {0})
  gpio_final_status o level s =
      ok tt (record s { hw = set_value (pin o s) level (remove_file o s.hw) })

  unfoldable pub initial_outputs : M (Device W) (Unit {0})
  unfolding gpio_initial_status
  initial_outputs = do
    gpio_initial_status generic_led 1 true
    gpio_initial_status pcm_sel 0 false
    gpio_initial_status wl_reg_on 0 false
    gpio_initial_status tri_led_blu 1 true
    gpio_initial_status tri_led_red 1 true
    gpio_initial_status tri_led_grn 1 true

  -- With the base of the platform data, if there is any. A new device is zero.
  unfoldable pub probe : Option ℕ → M (Device W) (Unit {0})
  unfolding initial_outputs
  probe none s = err einval s
  probe (some base) s =
      let (found, w) = kzalloc s.hw in
      elim found [
        | true ↦ initial_outputs (record { val = λ o. 0; gpio_expander_base = base; hw = w })
        | false ↦ err enomem (record s { hw = w })
      ]

  unfoldable pub remove : M (Device W) (Unit {0})
  unfolding gpio_final_status
  remove = do
    gpio_final_status generic_led 0
    gpio_final_status pcm_sel 0
    gpio_final_status wl_reg_on 0
    gpio_final_status tri_led_blu 0
    gpio_final_status tri_led_red 0
    gpio_final_status tri_led_grn 0
