-- ===== src/Prelude/Results.antt =====
-- `std::result::Result`, whose error type comes first here, with its `do` notation.
use mathlib.Core.Path.{◌≡◌, refl, subst}
use mathlib.Core.Bool.{Bool, true, false}
use mathlib.Core.Option.{Option, none, some}
use wstunnel.Prelude.Tests.{if◌then◌else◌}

pub data Result (E A : Type 0) : Type 0 where
  err : E → Result E A
  ok : A → Result E A

-- `and_then`, the `?` of the source.
infixl 5 ◌>>=◌
abbrev pub ◌>>=◌ : {E A B : Type 0} → Result E A → (A → Result E B) → Result E B
err failure >>= next = err failure
ok value >>= next = next value

abbrev pub ok_or : {E A : Type 0} → Option A → E → Result E A
ok_or none e = err e
ok_or (some a) e = ok a

-- What a chain that succeeds is made of.
pub bind-eq-ok :
    {E A B : Type 0} (m : Result E A) (f : A → Result E B) {b : B}
    → (m >>= f) ≡ ok b
    → (a : A) × (m ≡ ok a) × (f a ≡ ok b)
bind-eq-ok (err e) f h = cc
bind-eq-ok (ok a) f h = (a, refl, h)

-- The same for a goal that follows from the parts, which stay variables in it.
pub bind-eq-ok_elim :
    {E A B G : Type 0} (m : Result E A) (f : A → Result E B) {b : B}
    → (m >>= f) ≡ ok b
    → ((a : A) → m ≡ ok a → f a ≡ ok b → G)
    → G
bind-eq-ok_elim (err e) f h k = cc
bind-eq-ok_elim (ok a) f h k = k a refl h

pub ok_or-eq-ok : {E A : Type 0} (o : Option A) (e : E) {a : A} → ok_or o e ≡ ok a → o ≡ some a
ok_or-eq-ok none e h = cc
ok_or-eq-ok (some a) e h = cc

pub ok_cancel : {E A : Type 0} {a b : A} → ◌≡◌ {A = Result E A} (ok a) (ok b) → a ≡ b
ok_cancel e = cc

-- What holds of the value, if there is one.
unfoldable pub IfOk : {E A : Type 0} → (A → Type 0) → Result E A → Type 0
IfOk P (err e) = Unit
IfOk P (ok a) = P a

pub IfOk-bind :
    {E A B : Type 0} (P : B → Type 0) (m : Result E A) (f : A → Result E B)
    → ((a : A) → IfOk P (f a))
    → IfOk P (m >>= f)
unfolding IfOk
IfOk-bind P (err e) f h = tt
IfOk-bind P (ok a) f h = h a

pub IfOk-if :
    {E A : Type 0} (P : A → Type 0) (b : Bool) (x y : Result E A)
    → IfOk P x
    → IfOk P y
    → IfOk P (if b then x else y)
unfolding IfOk
IfOk-if P true x y hx hy = hx
IfOk-if P false x y hx hy = hy

pub IfOk-err : {E A : Type 0} (P : A → Type 0) (e : E) → IfOk P (err e)
unfolding IfOk
IfOk-err P e = tt

pub IfOk-ok : {E A : Type 0} (P : A → Type 0) (r : Result E A) {a : A} → IfOk P r → r ≡ ok a → P a
unfolding IfOk
IfOk-ok P (err e) h same = cc
IfOk-ok P (ok b) h same = subst P (ok_cancel same) h
