-- ===== src/Board/Neutral.antt =====
-- Calls of the drivers of linux_kernel_modules/mangoh that take and give back nothing.
use mang_oh.Prelude.{
  ℕ, ◌≡◌, refl, sym, ap, ◌∙◌, Bool, true, false, none, List, All, if◌then◌else◌, arith,
}
use mathlib.Core.Path.{subst}
use mang_oh.Board.{Device, Platform, Call, State, tell}
use mang_oh.Board.Ledger.{Resource, acquired, released, one, taken, given, clients, flag}
use mang_oh.Board.Steps.{Stage}

pub record Neutral (s t : State) : Type 0 where
  pub client_lem : t.client ≡ s.client
  pub registered_lem : t.registered ≡ s.registered
  pub acquired_lem : (r : Resource) → acquired r t.log ≡ acquired r s.log
  pub released_lem : (r : Resource) → released r t.log ≡ released r s.log

pub Neutral-refl : (s : State) → Neutral s s
Neutral-refl s = record {
  client_lem = refl;
  registered_lem = refl;
  acquired_lem = λ r. refl;
  released_lem = λ r. refl;
}

pub Neutral-trans : (s t u : State) → Neutral s t → Neutral t u → Neutral s u
Neutral-trans s t u f g = record {
  client_lem = g.client_lem ∙ f.client_lem;
  registered_lem = g.registered_lem ∙ f.registered_lem;
  acquired_lem = λ r. g.acquired_lem r ∙ f.acquired_lem r;
  released_lem = λ r. g.released_lem r ∙ f.released_lem r;
}

-- A call that takes nothing.
pub Neutral-tell :
    (c : Call) (s t : State) → taken c ≡ none → given c ≡ none → Neutral s t → Neutral s (tell c t)
Neutral-tell c s t e g f = record {
  client_lem = f.client_lem;
  registered_lem = f.registered_lem;
  acquired_lem = λ r. omega (arith, ap (λ o. one o r) e, f.acquired_lem r);
  released_lem = λ r. omega (arith, ap (λ o. one o r) g, f.released_lem r);
}

pub Neutral-if :
    (b : Bool) (s t u : State) → Neutral s t → Neutral s u → Neutral s (if b then t else u)
Neutral-if true s t u f g = f
Neutral-if false s t u f g = g

pub Neutral-Stage :
    (ds : List Device) (p : Platform) (n : Resource → ℕ) (a : ℕ) (es : List Device)
    (ps : List Platform) (s t : State)
    → Neutral s t
    → Stage ds p n a es ps s
    → Stage ds p n a es ps t
Neutral-Stage ds p n a es ps s t f (l, (u, v)) = (
  (λ r. omega (
    arith,
    l r,
    f.acquired_lem r,
    f.released_lem r,
    ap (λ g. clients g ds r) f.client_lem,
    ap (λ g. flag p (g p) r) f.registered_lem,
  )),
  (
    subst (λ g. All (λ d. g d ≡ none) es) (sym f.client_lem) u,
    subst (λ g. All (λ q. g q ≡ false) ps) (sym f.registered_lem) v,
  ),
)
