-- ===== src/Board/Ledger.antt =====
-- What the calls of the drivers of linux_kernel_modules/mangoh take and give back, against what their
-- data name.
use mang_oh.Prelude.{
  ℕ, zero, suc, ◌+◌, ◌≡◌, Bool, true, false, Option, none, some, List, [], ◌∷◌, All, ◌==◌,
  if◌then◌else◌,
}
use mang_oh.Prelude.Monad.{Fault}
use mang_oh.Board.{Device, Platform, Call, State, same, same_platform}

pub data Resource : Type 0 where
  adapter : Resource
  client : (address : ℕ) → Resource
  platform : (device : Platform) → Resource

abbrev pub is : Resource → Resource → Bool
is adapter adapter = true
is (client a) (client b) = a == b
is (platform p) (platform q) = same_platform p q
is _ _ = false

abbrev pub one : Option Resource → Resource → ℕ
one none r = 0
one (some x) r = if is x r then 1 else 0

-- What a call takes, and what it gives back. To put or to unregister NULL does nothing.
abbrev pub taken : Call → Option Resource
taken (Call.i2c_get_adapter bus true) = some adapter
taken (Call.i2c_new_device bus info (some c)) = some (client c)
taken (Call.platform_device_register p zero) = some (platform p)
taken _ = none

abbrev pub given : Call → Option Resource
given (Call.i2c_put_adapter bus true) = some adapter
given (Call.i2c_unregister_device (some c)) = some (client c)
given (Call.platform_device_unregister p) = some (platform p)
given _ = none

-- How often something has been taken, and given back.
abbrev pub acquired : Resource → List Call → ℕ
acquired r [] = 0
acquired r (c ∷ log) = one (taken c) r + acquired r log

abbrev pub released : Resource → List Call → ℕ
released r [] = 0
released r (c ∷ log) = one (given c) r + released r log

-- The client of a field.
abbrev pub here : Option ℕ → Resource → ℕ
here none r = 0
here (some c) r = if is (client c) r then 1 else 0

-- What the fields of some devices stand for.
abbrev pub clients : (Device → Option ℕ) → List Device → Resource → ℕ
clients f [] r = 0
clients f (d ∷ ds) r = here (f d) r + clients f ds r

abbrev pub references : ℕ → Resource → ℕ
references a adapter = a
references a _ = 0

-- A reference more, if there is an adapter.
abbrev pub more : Bool → ℕ → ℕ
more true a = suc a
more false a = a

abbrev pub flag : Platform → Bool → Resource → ℕ
flag p b r = if b then (if is (platform p) r then 1 else 0) else 0

-- The devices `ds` and the platform device `p` of the driver's data, with `a` references to adapters,
-- are what is held beyond `n`.
abbrev pub Holds : List Device → Platform → (Resource → ℕ) → ℕ → State → Type 0
Holds ds p n a s =
    (r : Resource)
    → acquired r s.log
      ≡ n r + references a r + clients s.client ds r + flag p (s.registered p) r + released r s.log

-- Nothing but `a` references to adapters is held beyond `n`.
abbrev pub Released : (Resource → ℕ) → ℕ → State → Type 0
Released n a s = (r : Resource) → acquired r s.log ≡ n r + references a r + released r s.log

-- Some fields that are not set yet.
abbrev pub Unset : List Device → List Platform → State → Type 0
Unset ds ps s = All (λ d. s.client d ≡ none) ds × All (λ p. s.registered p ≡ false) ps

abbrev pub Never : Fault → Type 0
Never f = ⊥

-- How often a device is listed.
abbrev pub occurs : Device → List Device → ℕ
occurs d [] = 0
occurs d (e ∷ es) = (if same d e then 1 else 0) + occurs d es
