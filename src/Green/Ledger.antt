-- ===== src/Green/Ledger.antt =====
-- What the calls of linux_kernel_modules/mangoh/mangoh_green.c leave registered.
use mang_oh.Prelude.{
  arith, ℕ, suc, ◌-◌, ◌≡◌, refl, ap, ◌∙◌, true, some, List, [], ◌∷◌, ◌==◌, ==_iff, if◌then◌else◌,
}
use mang_oh.Prelude.Monad.{Fault}
use mang_oh.Prelude.Outcome.{Post}
use mang_oh.Green.{Call, State, unregister, remove}

-- A list without the first place of a number.
erase : ℕ → List ℕ → List ℕ
erase n [] = []
erase n (m ∷ ms) = let rest = erase n ms in if n == m then ms else m ∷ rest

-- The clients that are registered after some calls.
unfoldable pub registered : List Call → List ℕ
unfolding erase
registered [] = []
registered (Call.i2c_new_device info (some d) ∷ log) = d ∷ registered log
registered (Call.i2c_unregister_device (some d) ∷ log) = erase d (registered log)
registered (_ ∷ log) = registered log

-- The references to the adapter that are held after some calls.
unfoldable pub adapters : List Call → ℕ
adapters [] = 0
adapters (Call.i2c_get_adapter true ∷ log) = suc (adapters log)
adapters (Call.i2c_put_adapter ∷ log) = adapters log - 1
adapters (_ ∷ log) = adapters log

-- Nothing but `old` is registered.
abbrev pub Released : List ℕ → ℕ → State → Type 0
Released old n s = (registered s.log ≡ old) × (adapters s.log ≡ n)

abbrev pub Never : Fault → Type 0
Never f = ⊥

erase-cons : (d : ℕ) (ds : List ℕ) → erase d (d ∷ ds) ≡ ds
unfolding erase
erase-cons d ds = rw ((==_iff d d).1 refl) refl

pub less_one : {a n : ℕ} → a ≡ suc n → a - 1 ≡ n
less_one e = omega (arith, e)

-- From two clients to nothing.
pub remove_lem :
    (old : List ℕ) (n a b : ℕ) (s : State)
    → s.accelerometer ≡ some a
    → s.i2c_switch ≡ some b
    → registered s.log ≡ a ∷ b ∷ old
    → adapters s.log ≡ n
    → Post (λ _. Released old n) (λ _ _. ⊥) Never (remove s)
unfolding remove unregister registered adapters
remove_lem old n a b s ea eb r c =
    rw (remove, ea, eb)
      (
        ap (λ ds. erase b (erase a ds)) r
            ∙ ap (erase b) (erase-cons a (b ∷ old))
            ∙ erase-cons b old,
        c,
      )
