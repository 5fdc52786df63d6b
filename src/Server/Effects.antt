-- ===== src/Server/Effects.antt =====
-- What a computation of the server adds to the trace, and what it returns, by its structure.
use wstunnel.Prelude.{◌≡◌, refl, Option, none, some, All}
use mathlib.Core.Path.{subst}
use wstunnel.Server.Monad.{Action, World, M, ◌>>=◌, pure, lift, perform, bind_result}

-- A computation that adds only actions with the property to the trace.
module _ {U : Type 0} (P : Action U → Type 0) where
  abbrev pub Adds : {A : Type 0} → M U A → Type 0
  Adds m = (w : World U) → All P w.trace → All P (m w).1.trace

  pub Adds-lift : {A : Type 0} (o : Option A) → Adds (lift o)
  Adds-lift o w h = h

  pub Adds-perform : {A : Type 0} (a : Action U) (answer : Option A) → P a → Adds (perform a answer)
  Adds-perform a answer p w h = (p, h)

  Adds-result :
      {A B : Type 0} (o : Option A) (w : World U) (f : A → M U B)
      → ((a : A) → o ≡ some a → Adds (f a))
      → All P w.trace
      → All P (bind_result o w f).1.trace
  Adds-result none w f k h = h
  Adds-result (some a) w f k h = k a refl w h

  pub Adds-bind :
      {A B : Type 0} (m : M U A) (f : A → M U B) → Adds m → ((a : A) → Adds (f a)) → Adds (m >>= f)
  Adds-bind m f s k w h = Adds-result (m w).0 (m w).1 f (λ a e. k a) (s w h)

  -- After an optional value the rest may rely on it.
  pub Adds-lift_bind :
      {A B : Type 0} (o : Option A) (f : A → M U B)
      → ((a : A) → o ≡ some a → Adds (f a))
      → Adds (lift o >>= f)
  Adds-lift_bind o f k w h = Adds-result o w f k h

-- What a computation returns satisfies `Q`.
module _ {U A : Type 0} (Q : A → Type 0) where
  abbrev pub Yields : M U A → Type 0
  Yields m = (w : World U) (a : A) → (m w).0 ≡ some a → Q a

  pub Yields-pure : (x : A) → Q x → Yields (pure x)
  Yields-pure x q w a e = subst Q (inside e) q
    where
      inside : some x ≡ some a → x ≡ a
      inside same = cc

  Yields-result :
      {B : Type 0} (o : Option B) (w : World U) (f : B → M U A) (a : A)
      → ((b : B) → o ≡ some b → Yields (f b))
      → (bind_result o w f).0 ≡ some a
      → Q a
  Yields-result none w f a k e = cc
  Yields-result (some b) w f a k e = k b refl w a e

  pub Yields-lift_bind :
      {B : Type 0} (o : Option B) (f : B → M U A)
      → ((b : B) → o ≡ some b → Yields (f b))
      → Yields (lift o >>= f)
  Yields-lift_bind o f k w a e = Yields-result o w f a k e

  pub Yields-perform_bind :
      {B : Type 0} (act : Action U) (o : Option B) (f : B → M U A)
      → ((b : B) → o ≡ some b → Yields (f b))
      → Yields (perform act o >>= f)
  Yields-perform_bind act o f k w a e = Yields-result o _ f a k e

  -- What follows a computation may rely on what it returns.
  pub Adds-bind_post :
      {B : Type 0} (P : Action U → Type 0) (m : M U A) (f : A → M U B)
      → Adds P m
      → Yields m
      → ((a : A) → Q a → Adds P (f a))
      → Adds P (m >>= f)
  Adds-bind_post P m f s y k w h = Adds-result P (m w).0 (m w).1 f (λ a e. k a (y w a e)) (s w h)
