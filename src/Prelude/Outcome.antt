-- ===== src/Prelude/Outcome.antt =====
-- What holds after a call, on each of its three ways out, and the rules by which it is shown along
-- the steps of a call.
use Prim.Native.Nat.{ℕ}
use mathlib.Core.Path.{◌≡◌, refl}
use mathlib.Core.Bool.{Bool, true, false}
use mang_oh.Prelude.Tests.{if◌then◌else◌}
use mang_oh.Prelude.Monad.{Fault, Out, ok, err, halt, M, ◌>>=◌, ◌>>◌}

-- `Q` of the value and the state, `E` of the error and the state, or `F` of the fault.
abbrev pub Post {ℓ κ μ} :
    {S : Type ℓ} {A : Type κ} (Q : A → S → Type μ) (E : ℕ → S → Type μ) (F : Fault → Type μ)
    → Out S A
    → Type μ
Post Q E F (ok a s) = Q a s
Post Q E F (err e s) = E e s
Post Q E F (halt f) = F f

module _ {ℓ κ λ' μ} {S : Type ℓ} {A : Type κ} {B : Type λ'} (E : ℕ → S → Type μ)
    (F : Fault → Type μ) where
  out_bind :
      (out : Out S A) (f : A → M S B) (s : S) (P : A → S → Type μ) (Q : B → S → Type μ)
      → Post P E F out
      → ((a : A) (t : S) → P a t → Post Q E F (f a t))
      → Post Q E F (((λ _. out) >>= f) s)
  out_bind (ok a t) f s P Q h k = k a t h
  out_bind (err e t) f s P Q h k = h
  out_bind (halt x) f s P Q h k = h

  pub Post-bind :
      (m : M S A) (f : A → M S B) (s : S) (P : A → S → Type μ) (Q : B → S → Type μ)
      → Post P E F (m s)
      → ((a : A) (t : S) → P a t → Post Q E F (f a t))
      → Post Q E F ((m >>= f) s)
  Post-bind m f s P Q h k = out_bind (m s) f s P Q h k

  out_then :
      (out : Out S A) (m : M S B) (s : S) (P : A → S → Type μ) (Q : B → S → Type μ)
      → Post P E F out
      → ((a : A) (t : S) → P a t → Post Q E F (m t))
      → Post Q E F (((λ _. out) >> m) s)
  out_then (ok a t) m s P Q h k = k a t h
  out_then (err e t) m s P Q h k = h
  out_then (halt x) m s P Q h k = h

  pub Post-then :
      (m : M S A) (n : M S B) (s : S) (P : A → S → Type μ) (Q : B → S → Type μ)
      → Post P E F (m s)
      → ((a : A) (t : S) → P a t → Post Q E F (n t))
      → Post Q E F ((m >> n) s)
  Post-then m n s P Q h k = out_then (m s) n s P Q h k

module _ {ℓ κ μ} {S : Type ℓ} {A : Type κ} {E : ℕ → S → Type μ} {F : Fault → Type μ} where
  pub Post-weaken :
      (out : Out S A) (P Q : A → S → Type μ) (D : ℕ → S → Type μ) (G : Fault → Type μ)
      → ((a : A) (t : S) → P a t → Q a t)
      → ((e : ℕ) (t : S) → D e t → E e t)
      → ((f : Fault) → G f → F f)
      → Post P D G out
      → Post Q E F out
  Post-weaken (ok a t) P Q D G q d g h = q a t h
  Post-weaken (err e t) P Q D G q d g h = d e t h
  Post-weaken (halt f) P Q D G q d g h = g f h

module _ {ℓ κ μ} {S : Type ℓ} {A : Type κ} (Q : A → S → Type μ) (E : ℕ → S → Type μ)
    (F : Fault → Type μ) where
  -- A test, of which either way is known in its branch.
  pub Post-if :
      (b : Bool) (x y : Out S A)
      → (b ≡ true → Post Q E F x)
      → (b ≡ false → Post Q E F y)
      → Post Q E F (if b then x else y)
  Post-if true x y h k = h refl
  Post-if false x y h k = k refl

  pub Post-if_run :
      (b : Bool) (m n : M S A) (s : S)
      → (b ≡ true → Post Q E F (m s))
      → (b ≡ false → Post Q E F (n s))
      → Post Q E F ((if b then m else n) s)
  Post-if_run true m n s h k = h refl
  Post-if_run false m n s h k = k refl

-- Two things that hold after a call.
pub Post-and {ℓ κ μ} :
    {S : Type ℓ} {A : Type κ} (out : Out S A) (P Q : A → S → Type μ) (D E : ℕ → S → Type μ)
    (F G : Fault → Type μ)
    → Post P D F out
    → Post Q E G out
    → Post (λ a s. P a s × Q a s) D F out
Post-and (ok a s) P Q D E F G h k = (h, k)
Post-and (err e s) P Q D E F G h k = h
Post-and (halt f) P Q D E F G h k = h
