-- ===== src/Board/Removal.antt =====
-- The removal of the drivers of linux_kernel_modules/mangoh.
use mang_oh.Prelude.{
  ℕ, ◌+◌, ◌≡◌, refl, ap, ◌∙◌, Bool, true, false, Option, none, some, List, [], ◌∷◌, ◌++◌,
  if◌then◌else◌, arith,
}
use mang_oh.Board.{
  Device, Platform, Call, State, tell, unregister_platform, unregister_all, remove_devices,
  safe_unregister_device, unregister_device,
}
use mang_oh.Board.Ledger.{Resource, acquired, released, here, clients, flag, Holds, Released}

-- A call that gives a client back, and does nothing else.
pub record Unregisters (u : Option ℕ → State → State) : Type 0 where
  pub client_lem : (c : Option ℕ) (s : State) → (u c s).client ≡ s.client
  pub registered_lem : (c : Option ℕ) (s : State) → (u c s).registered ≡ s.registered
  pub acquired_lem :
      (c : Option ℕ) (s : State) (r : Resource) → acquired r (u c s).log ≡ acquired r s.log
  pub released_lem :
      (c : Option ℕ) (s : State) (r : Resource)
      → released r (u c s).log ≡ here c r + released r s.log

module _ (u : Option ℕ → State → State) (iu : Unregisters u) where
  all_client : (ds : List Device) (s : State) → (unregister_all u ds s).client ≡ s.client
  unfolding unregister_all
  all_client [] s = refl
  all_client (d ∷ ds) s = all_client ds (u (s.client d) s) ∙ iu.client_lem (s.client d) s

  all_registered :
      (ds : List Device) (s : State) → (unregister_all u ds s).registered ≡ s.registered
  unfolding unregister_all
  all_registered [] s = refl
  all_registered (d ∷ ds) s =
      all_registered ds (u (s.client d) s) ∙ iu.registered_lem (s.client d) s

  all_acquired :
      (ds : List Device) (s : State) (r : Resource)
      → acquired r (unregister_all u ds s).log ≡ acquired r s.log
  unfolding unregister_all
  all_acquired [] s r = refl
  all_acquired (d ∷ ds) s r =
      all_acquired ds (u (s.client d) s) r ∙ iu.acquired_lem (s.client d) s r

  all_released :
      (ds : List Device) (s : State) (r : Resource)
      → released r (unregister_all u ds s).log ≡ clients s.client ds r + released r s.log
  unfolding unregister_all
  all_released [] s r = omega arith
  all_released (d ∷ ds) s r =
      let v = u (s.client d) s in
      let e = ap (λ f. clients f ds r) (iu.client_lem (s.client d) s) in
      omega (arith, all_released ds v r, e, iu.released_lem (s.client d) s r)

  clients-append :
      (f : Device → Option ℕ) (ds es : List Device) (r : Resource)
      → clients f (ds ++ es) r ≡ clients f ds r + clients f es r
  clients-append f [] es r = omega arith
  clients-append f (d ∷ ds) es r = omega (arith, clients-append f ds es r)

  platform_acquired :
      (p : Platform) (b : Bool) (s : State) (r : Resource)
      → acquired r (if b then tell (Call.platform_device_unregister p) s else s).log
        ≡ acquired r s.log
  platform_acquired p true s r = omega arith
  platform_acquired p false s r = refl

  platform_released :
      (p : Platform) (b : Bool) (s : State) (r : Resource)
      → released r (if b then tell (Call.platform_device_unregister p) s else s).log
        ≡ flag p b r + released r s.log
  platform_released p true s r = refl
  platform_released p false s r = omega arith

  platform_client :
      (p : Platform) (b : Bool) (s : State)
      → (if b then tell (Call.platform_device_unregister p) s else s).client ≡ s.client
  platform_client p true s = refl
  platform_client p false s = refl

  -- What the driver's data name is given back.
  pub remove-Released :
      (ds : List Device) (p : Platform) (es : List Device) (n : Resource → ℕ) (a : ℕ) (s : State)
      → Holds (ds ++ es) p n a s
      → Released n a (remove_devices u ds p es s)
  unfolding remove_devices
  remove-Released ds p es n a s l r =
      let v = unregister_all u ds s in
      let w = unregister_platform p v in
      let cv = ap (λ f. clients f es r) (platform_client p (v.registered p) v ∙ all_client ds s) in
      let fv = ap (λ f. flag p (f p) r) (all_registered ds s) in
      omega (
        arith,
        l r,
        all_acquired es w r,
        all_released es w r,
        platform_acquired p (v.registered p) v r,
        platform_released p (v.registered p) v r,
        all_acquired ds s r,
        all_released ds s r,
        clients-append s.client ds es r,
        cv,
        fv,
      )

pub safe_unregister_device-Unregisters : Unregisters safe_unregister_device
safe_unregister_device-Unregisters = record {
  client_lem = kept;
  registered_lem = marked;
  acquired_lem = taken_none;
  released_lem = gave;
}
  where
    kept : (c : Option ℕ) (s : State) → (safe_unregister_device c s).client ≡ s.client
    kept none s = refl
    kept (some c) s = refl

    marked : (c : Option ℕ) (s : State) → (safe_unregister_device c s).registered ≡ s.registered
    marked none s = refl
    marked (some c) s = refl

    taken_none :
        (c : Option ℕ) (s : State) (r : Resource)
        → acquired r (safe_unregister_device c s).log ≡ acquired r s.log
    taken_none none s r = refl
    taken_none (some c) s r = omega arith

    gave :
        (c : Option ℕ) (s : State) (r : Resource)
        → released r (safe_unregister_device c s).log ≡ here c r + released r s.log
    gave none s r = omega arith
    gave (some c) s r = refl

pub unregister_device-Unregisters : Unregisters unregister_device
unregister_device-Unregisters = record {
  client_lem = λ c s. refl;
  registered_lem = λ c s. refl;
  acquired_lem = λ c s r. omega arith;
  released_lem = gave;
}
  where
    gave :
        (c : Option ℕ) (s : State) (r : Resource)
        → released r (unregister_device c s).log ≡ here c r + released r s.log
    gave none s r = refl
    gave (some c) s r = refl
