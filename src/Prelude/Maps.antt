-- ===== src/Prelude/Maps.antt =====
-- Maps as association lists over keys with a test for equality.
use mathlib.Core.Path.{◌≡◌, refl, sym, ◌∙◌}
use mathlib.Core.Bool.{Bool, true}
use mathlib.Core.Logic.{◌↔◌, ◌≢◌, ◌⊎◌, inl, inr}
use mathlib.Core.List.{List, [], ◌∷◌}
use mathlib.Core.Option.{Option, none, some}
use Prim.Native.Nat.{ℕ}
use native.Mathlib.Omega.{arith}
use wstunnel.Prelude.Texts.{Text, text_eq, text_eq_iff}
use wstunnel.Prelude.Tests.{Bool-cases, if◌then◌else◌, ◌==◌, ==_iff}

-- Equality of keys, as `Eq` and `Hash` agree on it.
pub record Eq {ℓ} (A : Type ℓ) : Type ℓ where
  pub eq : A → A → Bool
  pub eq_iff : (a b : A) → (eq a b ≡ true) ↔ (a ≡ b)

instance abbrev pub nat_eq : Eq ℕ
nat_eq = record { eq = ◌==◌; eq_iff = ==_iff }

instance abbrev pub text_keys : Eq Text
text_keys = record { eq = text_eq; eq_iff = text_eq_iff }

pub eq_self {ℓ} : {K : Type ℓ} ⦃e : Eq K⦄ (k : K) → e.eq k k ≡ true
eq_self ⦃e⦄ k = (e.eq_iff k k).1 refl

module _ {ℓ κ} {K : Type ℓ} {V : Type κ} ⦃e : Eq K⦄ where
  unfoldable pub lookup : K → List (K × V) → Option V
  lookup k [] = none
  lookup k ((j, v) ∷ m) = if e.eq j k then some v else lookup k m

  unfoldable pub insert : K → V → List (K × V) → List (K × V)
  insert k v [] = (k, v) ∷ []
  insert k v ((j, w) ∷ m) = if e.eq j k then (k, v) ∷ m else (j, w) ∷ insert k v m

  unfoldable pub remove : K → List (K × V) → List (K × V)
  remove k [] = []
  remove k ((j, w) ∷ m) = if e.eq j k then remove k m else (j, w) ∷ remove k m

  pub lookup-insert :
      (k j : K) (v : V) (m : List (K × V))
      → lookup j (insert k v m) ≡ (if e.eq k j then some v else lookup j m)
  unfolding lookup insert
  lookup-insert k j v [] = refl
  lookup-insert k j v ((i, w) ∷ m) =
      ground (arith, e.eq_iff k j, e.eq_iff i k, e.eq_iff i j, lookup-insert k j v m)

  pub lookup-remove :
      (k j : K) (m : List (K × V)) → lookup j (remove k m) ≡ (if e.eq k j then none else lookup j m)
  unfolding lookup remove
  lookup-remove k j [] = ground arith
  lookup-remove k j ((i, w) ∷ m) =
      ground (arith, e.eq_iff k j, e.eq_iff i k, e.eq_iff i j, lookup-remove k j m)

-- A map as a function, with one key put.
unfoldable pub put : {K V : Type 0} ⦃e : Eq K⦄ → K → V → (K → V) → K → V
put ⦃e⦄ k v f j = if e.eq k j then v else f j

-- What is put is there, and the rest as before.
pub put_lem :
    {K V : Type 0} ⦃e : Eq K⦄ (k : K) (v : V) (f : K → V) (j : K) (P : V → Type 0)
    → (k ≡ j → P v)
    → (k ≢ j → P (f j))
    → P (put k v f j)
unfolding put
put_lem ⦃e⦄ k v f j P here there = elim (Bool-cases (e.eq k j)) [
  | inl y ↦ rw y (here ((e.eq_iff k j).0 y))
  | inr n ↦ rw n (there (λ same. let clash = sym n ∙ (e.eq_iff k j).1 same in cc))
]

module _ {ℓ} {K : Type ℓ} ⦃e : Eq K⦄ where
  pub key_cases : (k j : K) → (k ≡ j) ⊎ (k ≢ j)
  key_cases k j = elim (Bool-cases (e.eq k j)) [
    | inl y ↦ inl ((e.eq_iff k j).0 y)
    | inr n ↦ inr (λ same. let clash = sym n ∙ (e.eq_iff k j).1 same in cc)
  ]

module _ {K V : Type 0} ⦃e : Eq K⦄ where
  pub put_same : (k : K) (v : V) (f : K → V) (j : K) → k ≡ j → put k v f j ≡ v
  unfolding put
  put_same k v f j same = rw ((e.eq_iff k j).1 same) refl

  pub put_other : (k : K) (v : V) (f : K → V) (j : K) → k ≢ j → put k v f j ≡ f j
  put_other k v f j other = put_lem k v f j (λ x. x ≡ f j) (λ same. absurd (other same)) (λ _. refl)

  -- A value that is not the one put was there before.
  pub put_before :
      (k : K) (v : V) (f : K → V) (j : K) {w : V} → v ≢ w → put k v f j ≡ w → (k ≢ j) × (f j ≡ w)
  put_before k v f j differs h = elim (key_cases k j) [
    | inl same ↦ absurd (differs (sym (put_same k v f j same) ∙ h))
    | inr other ↦ (other, sym (put_other k v f j other) ∙ h)
  ]
