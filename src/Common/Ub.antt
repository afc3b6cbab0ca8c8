-- ===== src/Common/Ub.antt =====
-- C's undefined behaviour as a result: `undefined` is what a program does after an operation that
-- the language leaves undefined, and nothing is claimed of it.

use mathlib.Core.Path.{◌≡◌, refl, ap}
use mathlib.Core.Bool.{Bool, true, false}
use simple_scc.Common.Tests.{if◌then◌else◌}
use mathlib.Core.Option.{Option, none, some}

pub data Ub {ℓ} (A : Type ℓ) : Type ℓ where
  ok : A → Ub A
  undefined : Ub A

infixl 5 ◌>>=◌
abbrev pub ◌>>=◌ {ℓ κ} : {A : Type ℓ} {B : Type κ} → Ub A → (A → Ub B) → Ub B
ok a >>= f = f a
undefined >>= f = undefined

-- What a pointer leads to: it is undefined for a null pointer, or one to freed memory.
unfoldable pub the {ℓ} : {A : Type ℓ} → Option A → Ub A
the none = undefined
the (some a) = ok a

pub bind_ok {ℓ κ} :
    {A : Type ℓ} {B : Type κ} (m : Ub A) (f : A → Ub B) {b : B}
    → (m >>= f) ≡ ok b
    → (a : A) × (m ≡ ok a) × (f a ≡ ok b)
bind_ok (ok a) f e = (a, refl, e)
bind_ok undefined f e = cc

pub ok-inj {ℓ} : {A : Type ℓ} {a b : A} → ok a ≡ ok b → a ≡ b
ok-inj e = cc

pub the_ok {ℓ} : {A : Type ℓ} (o : Option A) {x : A} → the o ≡ ok x → o ≡ some x
unfolding the
the_ok none e = cc
the_ok (some a) e = ap some (ok-inj e)

-- A result behind a test for what is undefined.
pub guarded {ℓ} :
    {A : Type ℓ} (c : Bool) {x y : A}
    → (if c then undefined else ok x) ≡ ok y
    → (c ≡ false) × (x ≡ y)
guarded true e = cc
guarded false e = (refl, ok-inj e)

pub some-inj {ℓ} : {A : Type ℓ} {x y : A} → some x ≡ some y → x ≡ y
some-inj e = cc
