-- ===== src/Prelude/Monad.antt =====
-- C functions that return a code: a negative one is an error that the callers test for and pass
-- up, and a call that never returns is told apart from one that fails.
use Prim.Native.Nat.{ℕ}
use mathlib.Core.Path.{◌≡◌, refl, subst}
use native.Mathlib.Omega.{arith}

-- Why a call does not return: it locks a mutex that it holds, it loops without end, it uses memory
-- that is not its own, it writes past the end of an array that it fills, or it runs into BUG() or a
-- null pointer.
pub data Fault : Type 0 where
  deadlock spin corrupt overflow bug : Fault

-- The value and the state after a call: `err e` is the return code `-e`.
pub data Out {ℓ κ} (S : Type ℓ) (A : Type κ) : Type (ℓ ⊔ κ) where
  ok : A → S → Out S A
  err : ℕ → S → Out S A
  halt : Fault → Out S A

abbrev pub M {ℓ κ} : Type ℓ → Type κ → Type (ℓ ⊔ κ)
M S A = S → Out S A

module _ {ℓ κ} {S : Type ℓ} {A : Type κ} where
  abbrev pub pure : A → M S A
  pure a s = ok a s

  abbrev pub fail : ℕ → M S A
  fail e s = err e s

  abbrev pub stop : Fault → M S A
  stop f s = halt f

  -- A cleanup that runs whether or not `m` failed, as the code behind a label `cleanup:`.
  abbrev pub finally : (S → S) → M S A → M S A
  finally clean m s = elim (m s) [
    | ok a s' ↦ ok a (clean s')
    | err e s' ↦ err e (clean s')
    | halt f ↦ halt f
  ]

  -- The value and the state of a call that succeeds, and the state of one that fails.
  abbrev pub after : Out S A → S → S
  after (ok a s') s = s'
  after (err e s') s = s'
  after (halt f) s = s

infixl 5 ◌>>=◌ ◌>>◌
abbrev pub ◌>>=◌ {ℓ κ μ} : {S : Type ℓ} {A : Type κ} {B : Type μ} → M S A → (A → M S B) → M S B
◌>>=◌ m f s = elim (m s) [ ok a s' ↦ f a s' | err e s' ↦ err e s' | halt x ↦ halt x ]

abbrev pub ◌>>◌ {ℓ κ μ} : {S : Type ℓ} {A : Type κ} {B : Type μ} → M S A → M S B → M S B
◌>>◌ m k s = elim (m s) [ ok a s' ↦ k s' | err e s' ↦ err e s' | halt x ↦ halt x ]

-- errno values of the kernel that the code names.
abbrev pub eio : ℕ
eio = 5

abbrev pub eagain : ℕ
eagain = 11

abbrev pub enomem : ℕ
enomem = 12

abbrev pub eacces : ℕ
eacces = 13

abbrev pub ebusy : ℕ
ebusy = 16

abbrev pub enodev : ℕ
enodev = 19

abbrev pub einval : ℕ
einval = 22

abbrev pub erange : ℕ
erange = 34

abbrev pub enolck : ℕ
enolck = 37

-- A call that succeeds with `a`, and leaves a state of which `Q` holds.
pub record Does {ℓ κ μ} {S : Type ℓ} {A : Type κ} (out : Out S A) (a : A) (Q : S → Type μ)
    : Type (ℓ ⊔ κ ⊔ μ) where
  pub next : S
  pub returned : out ≡ ok a next
  pub result : Q next

-- One step after another.
pub Does-bind {ℓ κ μ ν ρ} :
    {S : Type ℓ} {A : Type κ} {B : Type μ} (m : M S A) (f : A → M S B) (s : S) {a : A} {b : B}
    {P : S → Type ν} {Q : S → Type ρ}
    → Does (m s) a P
    → ((t : S) → P t → Does (f a t) b Q)
    → Does ((m >>= f) s) b Q
Does-bind m f s d k =
    let r = k d.next d.result in
    record { next = r.next; returned = rw (d.returned, ◌>>=◌) (r.returned); result = r.result }

pub Does-then {ℓ κ μ ν ρ} :
    {S : Type ℓ} {A : Type κ} {B : Type μ} (m : M S A) (k : M S B) (s : S) {a : A} {b : B}
    {P : S → Type ν} {Q : S → Type ρ}
    → Does (m s) a P
    → ((t : S) → P t → Does (k t) b Q)
    → Does ((m >> k) s) b Q
Does-then m k s d f =
    let r = f d.next d.result in
    record { next = r.next; returned = rw (d.returned, ◌>>◌) (r.returned); result = r.result }

pub Does-pure {ℓ κ μ} :
    {S : Type ℓ} {A : Type κ} (a : A) (s : S) {Q : S → Type μ} → Q s → Does (pure a s) a Q
Does-pure a s q = record { next = s; returned = refl; result = q }

pub Does-weaken {ℓ κ μ ν} :
    {S : Type ℓ} {A : Type κ} {out : Out S A} {a : A} {P : S → Type μ} {Q : S → Type ν}
    → ((t : S) → P t → Q t)
    → Does out a P
    → Does out a Q
Does-weaken f d = record { next = d.next; returned = d.returned; result = f d.next d.result }

-- A step made of two.
pub >>_assoc {ℓ κ μ ν} :
    {S : Type ℓ} {A : Type κ} {B : Type μ} {C : Type ν} (m : M S A) (n : M S B) (k : M S C) (s : S)
    → ((m >> n) >> k) s ≡ (m >> (n >> k)) s
>>_assoc m n k s = ground arith

pub Does-then-then {ℓ κ μ ν ρ σ} :
    {S : Type ℓ} {A : Type κ} {B : Type μ} {C : Type ν} (m : M S A) (n : M S B) (k : M S C) (s : S)
    {b : B} {c : C} {P : S → Type ρ} {Q : S → Type σ}
    → Does ((m >> n) s) b P
    → ((t : S) → P t → Does (k t) c Q)
    → Does ((m >> (n >> k)) s) c Q
Does-then-then m n k s {c = c} {Q = Q} d f =
    subst (λ out. Does out c Q) (>>_assoc m n k s) (Does-then (m >> n) k s d f)

-- A step that is known to succeed.
pub >>=-run {ℓ κ μ} :
    {S : Type ℓ} {A : Type κ} {B : Type μ} (m : M S A) (f : A → M S B) {s t : S} {a : A}
    → m s ≡ ok a t
    → (m >>= f) s ≡ f a t
>>=-run m f e = rw (e, ◌>>=◌) refl

pub >>-run {ℓ κ μ} :
    {S : Type ℓ} {A : Type κ} {B : Type μ} (m : M S A) (k : M S B) {s t : S} {a : A}
    → m s ≡ ok a t
    → (m >> k) s ≡ k t
>>-run m k e = rw (e, ◌>>◌) refl
