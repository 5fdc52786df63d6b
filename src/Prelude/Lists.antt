-- ===== src/Prelude/Lists.antt =====
-- Lists measured by native numbers, and the tests of iterators: `any`, `all`, `find`, `find_map`.
use Prim.Native.Nat.{ℕ, zero, suc, ◌+◌, ◌-◌, min}
use mathlib.Core.Path.{◌≡◌, refl, sym, ap, subst}
use mathlib.Core.Bool.{Bool, true, false, ◌&&◌, ◌||◌}
use mathlib.Core.Logic.{◌⊎◌, inl, inr}
use mathlib.Core.List.{List, [], ◌∷◌, ◌++◌}
use mathlib.Core.Option.{Option, none, some}
use native.Mathlib.Omega.{arith}
use wstunnel.Prelude.Tests.{if◌then◌else◌, Bool-cases, or_else, some_cancel}

module _ {ℓ} {A : Type ℓ} where
  abbrev pub length : List A → ℕ
  length [] = 0
  length (x ∷ xs) = suc (length xs)

  abbrev pub is_empty : List A → Bool
  is_empty [] = true
  is_empty (x ∷ xs) = false

  abbrev pub take : ℕ → List A → List A
  take zero xs = []
  take (suc n) [] = []
  take (suc n) (x ∷ xs) = x ∷ take n xs

  abbrev pub drop : ℕ → List A → List A
  drop zero xs = xs
  drop (suc n) [] = []
  drop (suc n) (x ∷ xs) = drop n xs

  abbrev pub get_elem? : List A → ℕ → Option A
  get_elem? [] n = none
  get_elem? (x ∷ xs) zero = some x
  get_elem? (x ∷ xs) (suc n) = get_elem? xs n

  -- The list without the element at an index.
  abbrev pub remove_at : ℕ → List A → List A
  remove_at n [] = []
  remove_at zero (x ∷ xs) = xs
  remove_at (suc n) (x ∷ xs) = x ∷ remove_at n xs

  pub length-append : (xs ys : List A) → length (xs ++ ys) ≡ length xs + length ys
  length-append [] ys = omega arith
  length-append (x ∷ xs) ys = omega (arith, length-append xs ys)

  pub length-take : (n : ℕ) (xs : List A) → length (take n xs) ≡ min n (length xs)
  length-take zero xs = omega arith
  length-take (suc n) [] = omega arith
  length-take (suc n) (x ∷ xs) = omega (arith, length-take n xs)

  pub length-drop : (n : ℕ) (xs : List A) → length (drop n xs) ≡ length xs - n
  length-drop zero xs = omega arith
  length-drop (suc n) [] = omega arith
  length-drop (suc n) (x ∷ xs) = omega (arith, length-drop n xs)

  pub take-append-drop : (n : ℕ) (xs : List A) → take n xs ++ drop n xs ≡ xs
  take-append-drop zero xs = refl
  take-append-drop (suc n) [] = refl
  take-append-drop (suc n) (x ∷ xs) = rw (take-append-drop n xs)

module _ {ℓ} {A : Type ℓ} where
  abbrev pub any : (A → Bool) → List A → Bool
  any p [] = false
  any p (x ∷ xs) = p x || any p xs

  abbrev pub all : (A → Bool) → List A → Bool
  all p [] = true
  all p (x ∷ xs) = p x && all p xs

  -- The first element that passes the test.
  abbrev pub find : (A → Bool) → List A → Option A
  find p [] = none
  find p (x ∷ xs) = if p x then some x else find p xs

  abbrev pub find_map {κ} : {B : Type κ} → (A → Option B) → List A → Option B
  find_map f [] = none
  find_map f (x ∷ xs) = or_else (f x) (find_map f xs)

  abbrev pub filter_by : (A → Bool) → List A → List A
  filter_by p [] = []
  filter_by p (x ∷ xs) = if p x then x ∷ filter_by p xs else filter_by p xs

  abbrev pub All {κ} : (A → Type κ) → List A → Type κ
  All P [] = Unit
  All P (x ∷ xs) = P x × All P xs

module _ {ℓ κ} {A : Type ℓ} (P : A → Type κ) where
  pub All-append : (xs ys : List A) → All P xs → All P ys → All P (xs ++ ys)
  All-append [] ys h k = k
  All-append (x ∷ xs) ys (p, h) k = (p, All-append xs ys h k)

  pub All-remove_at : (n : ℕ) (xs : List A) → All P xs → All P (remove_at n xs)
  All-remove_at n [] h = tt
  All-remove_at zero (x ∷ xs) (p, h) = h
  All-remove_at (suc n) (x ∷ xs) (p, h) = (p, All-remove_at n xs h)

  pub All-get_elem : (xs : List A) (n : ℕ) {a : A} → All P xs → get_elem? xs n ≡ some a → P a
  All-get_elem [] n h e = cc
  All-get_elem (x ∷ xs) zero (p, h) e = subst P (some_cancel e) p
  All-get_elem (x ∷ xs) (suc n) (p, h) e = All-get_elem xs n h e

module _ {A : Type 0} where
  -- Membership by recursion: it computes to a sum, which the tactics read.
  abbrev pub In : A → List A → Type 0
  In a [] = ⊥
  In a (x ∷ xs) = (a ≡ x) ⊎ In a xs

  pub any_intro : (p : A → Bool) (xs : List A) (a : A) → In a xs → p a ≡ true → any p xs ≡ true
  any_intro p [] a h e = absurd h
  any_intro p (x ∷ xs) a (inl same) e = ground (arith, ap p same)
  any_intro p (x ∷ xs) a (inr later) e = ground (arith, any_intro p xs a later e)

  pub any_elim : (p : A → Bool) (xs : List A) → any p xs ≡ true → (a : A) × In a xs × (p a ≡ true)
  any_elim p [] e = cc
  any_elim p (x ∷ xs) e = elim (Bool-cases (p x)) [
    | inl here ↦ (x, inl refl, here)
    | inr other ↦ later (any_elim p xs (ground arith))
  ]
    where
      later : (a : A) × In a xs × (p a ≡ true) → (a : A) × In a (x ∷ xs) × (p a ≡ true)
      later (a, m, q) = (a, inr m, q)

pub All-In : {A : Type 0} (P : A → Type 0) (xs : List A) → All P xs → (a : A) → In a xs → P a
All-In P [] h a m = absurd m
All-In P (x ∷ xs) (p, h) a (inl e) = subst P (sym e) p
All-In P (x ∷ xs) (p, h) a (inr m) = All-In P xs h a m

-- Some element has a property.
abbrev pub Exists : {A : Type 0} → (A → Type 0) → List A → Type 0
Exists {A} P xs = (x : A) × In x xs × P x

module _ {A B : Type 0} (P : A → Type 0) (Q : B → Type 0) where
  pub Exists-cons :
      {a : A} {b : B} (xs : List A) (ys : List B)
      → (P a → Q b)
      → (Exists P xs → Exists Q ys)
      → Exists P (a ∷ xs)
      → Exists Q (b ∷ ys)
  Exists-cons {b} xs ys here later (x, inl e, p) = (b, inl refl, here (subst P e p))
  Exists-cons xs ys here later (x, inr m, p) = let (y, m', q) = later (x, m, p) in (y, inr m', q)
