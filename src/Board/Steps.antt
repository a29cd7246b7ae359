-- ===== src/Board/Steps.antt =====
-- The steps of the probes of linux_kernel_modules/mangoh, and the removal.
use mang_oh.Prelude.{
  ℕ, zero, suc, ◌+◌, ◌≡◌, refl, sym, ap, ◌∙◌, Bool, true, false, inl, inr, Bool-cases, Option, none,
  some, List, [], ◌∷◌, All, ◌==◌, ==_iff, if◌then◌else◌, arith,
}
use mang_oh.Prelude.Outcome.{Post}
use mang_oh.Board.{
  Bus, Info, Device, eeprom, i2c_switch, gpio_expander, imu, rtc, light, battery_gauge,
  battery_charger, accelerometer, pressure, number, Platform, expander, led, Call, Kernel, State,
  same, same_platform, tell, check_client, check_code, set_client, map_device, register,
}
use mang_oh.Board.Ledger.{
  Resource, adapter, client, platform, one, here, clients, references, more, flag, Holds, Unset,
  Never, occurs,
}

abbrev device_at : ℕ → Device
device_at zero = eeprom
device_at (suc zero) = i2c_switch
device_at (suc (suc zero)) = gpio_expander
device_at (suc (suc (suc zero))) = imu
device_at (suc (suc (suc (suc zero)))) = rtc
device_at (suc (suc (suc (suc (suc zero))))) = light
device_at (suc (suc (suc (suc (suc (suc zero)))))) = battery_gauge
device_at (suc (suc (suc (suc (suc (suc (suc zero))))))) = battery_charger
device_at (suc (suc (suc (suc (suc (suc (suc (suc zero)))))))) = accelerometer
device_at (suc (suc (suc (suc (suc (suc (suc (suc (suc n))))))))) = pressure

device_at-number : (d : Device) → device_at (number d) ≡ d
device_at-number eeprom = refl
device_at-number i2c_switch = refl
device_at-number gpio_expander = refl
device_at-number imu = refl
device_at-number rtc = refl
device_at-number light = refl
device_at-number battery_gauge = refl
device_at-number battery_charger = refl
device_at-number accelerometer = refl
device_at-number pressure = refl

same_lem : (d e : Device) → same d e ≡ true → d ≡ e
same_lem d e h =
    sym (device_at-number d)
    ∙ ap device_at ((==_iff (number d) (number e)).0 h)
    ∙ device_at-number e

abbrev with_client : (Device → Option ℕ) → Device → Option ℕ → Device → Option ℕ
with_client f d c e = if same d e then c else f e

occurs-same :
    (d e : Device) (es : List Device) → same d e ≡ true → occurs d (e ∷ es) ≡ 1 + occurs d es
occurs-same d e es p = rw p refl

occurs-other :
    (d e : Device) (es : List Device) → same d e ≡ false → occurs d (e ∷ es) ≡ occurs d es
occurs-other d e es p = rw p (omega arith)

clients-absent :
    (f : Device → Option ℕ) (d : Device) (c : Option ℕ) (ds : List Device) (r : Resource)
    → occurs d ds ≡ 0
    → clients (with_client f d c) ds r ≡ clients f ds r
clients-absent f d c [] r h = refl
clients-absent f d c (e ∷ ds) r h = elim (Bool-cases (same d e)) [
  | inl p ↦ absurd (omega (arith, occurs-same d e ds p, h))
  | inr p ↦ rw p (
      ap (λ (n : ℕ). here (f e) r + n)
        (clients-absent f d c ds r (omega (arith, occurs-other d e ds p, h))))
]

clients-set :
    (f : Device → Option ℕ) (d : Device) (c : Option ℕ) (ds : List Device) (r : Resource)
    → f d ≡ none
    → occurs d ds ≡ 1
    → clients (with_client f d c) ds r ≡ here c r + clients f ds r
clients-set f d c [] r u h = absurd (omega (arith, h))
clients-set f d c (e ∷ ds) r u h = elim (Bool-cases (same d e)) [
  | inl p ↦
      let v : here (f e) r ≡ 0 =
        ap (λ x. here (f x) r) (sym (same_lem d e p)) ∙ ap (λ o. here o r) u in
      rw p (omega (arith, v, clients-absent f d c ds r (omega (arith, occurs-same d e ds p, h))))
  | inr p ↦ rw p (omega (arith, clients-set f d c ds r u (omega (arith, occurs-other d e ds p, h))))
]

unset-absent :
    (f : Device → Option ℕ) (d : Device) (c : Option ℕ) (ds : List Device)
    → occurs d ds ≡ 0
    → All (λ e. f e ≡ none) ds
    → All (λ e. with_client f d c e ≡ none) ds
unset-absent f d c [] h u = tt
unset-absent f d c (e ∷ ds) h (u, us) = elim (Bool-cases (same d e)) [
  | inl p ↦ absurd (omega (arith, occurs-same d e ds p, h))
  | inr p ↦ (rw p u, unset-absent f d c ds (omega (arith, occurs-other d e ds p, h)) us)
]

not_zero : (n : ℕ) → (suc n == 0) ≡ false
not_zero n = ground arith

references-suc :
    (a : ℕ) (r : Resource) → references (suc a) r ≡ one (some adapter) r + references a r
references-suc a adapter = omega arith
references-suc a (client c) = refl
references-suc a (platform q) = refl

pub clients-unset :
    (f : Device → Option ℕ) (ds : List Device) (r : Resource)
    → All (λ d. f d ≡ none) ds
    → clients f ds r ≡ 0
clients-unset f [] r u = refl
clients-unset f (d ∷ ds) r (u, us) = omega (arith, ap (λ o. here o r) u, clients-unset f ds r us)

-- The driver's devices `ds` and its platform device `p`, against `n` and `a` references to adapters.
module _ (ds : List Device) (p : Platform) (n : Resource → ℕ) where
  -- A stage of a probe: what is set is held, and the rest is not set.
  abbrev pub Stage : ℕ → List Device → List Platform → State → Type 0
  Stage a es ps s = Holds ds p n a s × Unset es ps s

  -- A failure with a code of the kernel, or ENODEV.
  abbrev pub Failed : ℕ → ℕ → State → Type 0
  Failed a e s = Holds ds p n a s

  pub mapped :
      (bus : Bus) (info : Info) (d : Device) (c : Option ℕ) (a : ℕ) (es : List Device)
      (ps : List Platform) (s : State)
      → occurs d ds ≡ 1
      → occurs d es ≡ 0
      → Stage a (d ∷ es) ps s
      → Stage a es ps (set_client d c (tell (Call.i2c_new_device bus info c) s))
  mapped bus info d none a es ps s h g (l, ((u, us), v)) = (
    (λ r. omega (arith, l r, clients-set s.client d none ds r u h)),
    (unset-absent s.client d none es g us, v),
  )
  mapped bus info d (some c) a es ps s h g (l, ((u, us), v)) = (
    (λ r. omega (arith, l r, clients-set s.client d (some c) ds r u h)),
    (unset-absent s.client d (some c) es g us, v),
  )

  map_outcome :
      (c : Option ℕ) (a : ℕ) (es : List Device) (ps : List Platform) (s : State)
      → Stage a es ps s
      → Post (λ _. Stage a es ps) (Failed a) Never (check_client c s)
  map_outcome none a es ps s h = h.0
  map_outcome (some c) a es ps s h = h

  pub map_device-Stage :
      (k : Kernel) (bus : Bus) (info : Info) (d : Device) (a : ℕ) (es : List Device)
      (ps : List Platform) (s : State)
      → occurs d ds ≡ 1
      → occurs d es ≡ 0
      → Stage a (d ∷ es) ps s
      → Post (λ _. Stage a es ps) (Failed a) Never (map_device k bus info d s)
  unfolding map_device
  map_device-Stage k bus info d a es ps s h g l =
      let c = k.new_device info s.log in
      map_outcome c a es ps (set_client d c (tell (Call.i2c_new_device bus info c) s))
        (mapped bus info d c a es ps s h g l)

  -- A device that is missing leaves the rest unset.
  unset_outcome :
      (c : Option ℕ) (a : ℕ) (es : List Device) (ps : List Platform) (s : State)
      → Stage a es ps s
      → Post (λ _. Stage a es ps) (λ _. Stage a es ps) Never (check_client c s)
  unset_outcome none a es ps s h = h
  unset_outcome (some c) a es ps s h = h

  pub map_device-Unset :
      (k : Kernel) (bus : Bus) (info : Info) (d : Device) (a : ℕ) (es : List Device)
      (ps : List Platform) (s : State)
      → occurs d ds ≡ 1
      → occurs d es ≡ 0
      → Stage a (d ∷ es) ps s
      → Post (λ _. Stage a es ps) (λ _. Stage a es ps) Never (map_device k bus info d s)
  unfolding map_device
  map_device-Unset k bus info d a es ps s h g l =
      let c = k.new_device info s.log in
      unset_outcome c a es ps (set_client d c (tell (Call.i2c_new_device bus info c) s))
        (mapped bus info d c a es ps s h g l)

  same_platform_refl : (q : Platform) → same_platform q q ≡ true
  same_platform_refl expander = refl
  same_platform_refl led = refl

  pub flag-unset : (b : Bool) (r : Resource) → b ≡ false → flag p b r ≡ 0
  flag-unset b r e = rw e refl

  register_outcome :
      (code : ℕ) (a : ℕ) (es : List Device) (s : State)
      → Stage a es (p ∷ []) s
      → Post
          (λ _. Stage a es [])
          (Failed a)
          Never
          (check_code p code (tell (Call.platform_device_register p code) s))
  register_outcome zero a es s (l, (u, (v, w))) = (
    (λ r. rw (same_platform_refl p) (omega (arith, l r, flag-unset (s.registered p) r v))),
    (u, tt),
  )
  register_outcome (suc code) a es s (l, (u, (v, w))) = rw (not_zero code) (λ r. omega (arith, l r))

  pub register-Stage :
      (k : Kernel) (a : ℕ) (es : List Device) (s : State)
      → Stage a es (p ∷ []) s
      → Post (λ _. Stage a es []) (Failed a) Never (register k p s)
  unfolding register
  register-Stage k a es s h = register_outcome (k.register p s.log) a es s h

  -- References to adapters.
  pub got :
      (bus : Bus) (found : Bool) (a : ℕ) (es : List Device) (ps : List Platform) (s : State)
      → Stage a es ps s
      → Stage (more found a) es ps (tell (Call.i2c_get_adapter bus found) s)
  got bus true a es ps s (l, h) = ((λ r. omega (arith, l r, references-suc a r)), h)
  got bus false a es ps s (l, h) = ((λ r. omega (arith, l r)), h)

  pub put_Holds :
      (bus : Bus) (found : Bool) (a : ℕ) (s : State)
      → Holds ds p n (more found a) s
      → Holds ds p n a (tell (Call.i2c_put_adapter bus found) s)
  put_Holds bus true a s l = λ r. omega (arith, l r, references-suc a r)
  put_Holds bus false a s l = λ r. omega (arith, l r)
