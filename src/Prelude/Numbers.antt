-- ===== src/Prelude/Numbers.antt =====
-- `str::parse` of the unsigned integer types of the standard library.
use wstunnel.Prelude.Tests.{ltb, leb, ◌==◌, if◌then◌else◌, and_then, Bool-cases, ltb→lt}
use wstunnel.Prelude.Lists.{is_empty, All, All-append}
use wstunnel.Prelude.Texts.{Text}
use Prim.Native.Nat.{ℕ, zero, suc, ◌+◌, ◌-◌, ◌*◌, ◌/◌, ◌%◌, ◌<◌, ◌≤◌}
use mathlib.Core.Path.{◌≡◌, refl, ap, ◌∙◌}
use mathlib.Core.Logic.{◌≢◌, inl, inr}
use mathlib.Core.Bool.{Bool, ◌&&◌}
use mathlib.Core.List.{[], ◌∷◌, ◌++◌}
use mathlib.Core.Option.{Option, none, some}
use native.Mathlib.Omega.{arith}

abbrev pub is_digit : ℕ → Bool
is_digit c = leb b'0' c && leb c b'9'

-- The digits after `acc`, with the overflow checked at each of them.
pub digits : ℕ → ℕ → Text → Option ℕ
digits bound acc [] = some acc
digits bound acc (c ∷ s) =
    let next = acc * 10 + (c - b'0') in
    let rest = digits bound next s in if is_digit c && ltb next bound then rest else none

-- A leading `+` is taken, a sign alone and the empty text are errors.
unfoldable pub parse_uint : ℕ → Text → Option ℕ
unfolding digits
parse_uint bound [] = none
parse_uint bound (c ∷ s) =
    if c == b'+' then (if is_empty s then none else digits bound 0 s) else digits bound 0 (c ∷ s)

abbrev pub parse_u16 : Text → Option ℕ
parse_u16 = parse_uint 65536

digits-lt :
    (bound acc : ℕ) (s : Text) (n : ℕ) → acc < bound → digits bound acc s ≡ some n → n < bound
unfolding digits
digits-lt bound acc [] n h e = ground arith
digits-lt bound acc (c ∷ s) n h e = ground (arith, digits-lt bound (acc * 10 + (c - b'0')) s n)

pub parse_uint-lt :
    (bound : ℕ) (s : Text) (n : ℕ) → 0 < bound → parse_uint bound s ≡ some n → n < bound
unfolding parse_uint
parse_uint-lt bound [] n h e = cc
parse_uint-lt bound (c ∷ s) n h e =
    ground (arith, digits-lt bound 0 s n, digits-lt bound 0 (c ∷ s) n)

-- The decimal digits of a number, as `format!` prints it; the fuel is more than the digits.
digits_of : ℕ → ℕ → Text
digits_of zero n = []
digits_of (suc fuel) n =
    let before = digits_of fuel (n / 10) in
    if ltb n 10 then (b'0' + n) ∷ [] else before ++ ((b'0' + n % 10) ∷ [])

unfoldable pub to_decimal : ℕ → Text
unfolding digits_of
to_decimal n = digits_of (suc n) n

digits-append :
    (bound acc : ℕ) (s : Text) (c : ℕ)
    → digits bound acc (s ++ (c ∷ []))
      ≡ and_then (digits bound acc s) (λ m. digits bound m (c ∷ []))
unfolding digits
digits-append bound acc [] c = refl
digits-append bound acc (d ∷ s) c = ground (arith, digits-append bound (acc * 10 + (d - b'0')) s c)

digit_lem :
    (bound acc d : ℕ)
    → d < 10
    → acc * 10 + d < bound
    → digits bound acc ((b'0' + d) ∷ []) ≡ some (acc * 10 + d)
unfolding digits
digit_lem bound acc d small fits = ground arith

digits_of_lem :
    (bound fuel n : ℕ) → n < fuel → n < bound → digits bound 0 (digits_of fuel n) ≡ some n
unfolding digits_of
digits_of_lem bound zero n enough fits = absurd (omega (arith, enough))
digits_of_lem bound (suc fuel) n enough fits = elim (Bool-cases (ltb n 10)) [
  | inl small ↦
      rw small
        (digit_lem bound 0 n (ltb→lt n 10 small) (omega (arith, fits)) ∙ ap some (omega arith))
  | inr large ↦
      let big : 10 ≤ n = ground arith in
      rw large (
        digits-append bound 0 (digits_of fuel (n / 10)) (b'0' + n % 10)
        ∙ ap (λ o. and_then o (λ m. digits bound m ((b'0' + n % 10) ∷ [])))
            (digits_of_lem bound fuel (n / 10) (omega (arith, enough, big)) (omega (arith, fits)))
        ∙ digit_lem bound (n / 10) (n % 10) (omega arith) (omega (arith, fits))
        ∙ ap some (omega arith))
]

-- One digit or more.
abbrev IsNumeral : Text → Type 0
IsNumeral [] = ⊥
IsNumeral (c ∷ s) = (b'0' ≤ c) × All (λ d. b'0' ≤ d) s

IsNumeral-append : (s : Text) (d : ℕ) → IsNumeral s → IsNumeral (s ++ ((b'0' + d) ∷ []))
IsNumeral-append [] d h = absurd h
IsNumeral-append (c ∷ s) d (n, h) =
    (n, All-append (λ x. b'0' ≤ x) s ((b'0' + d) ∷ []) h (omega arith, tt))

digits_of-IsNumeral : (fuel n : ℕ) → n < fuel → IsNumeral (digits_of fuel n)
unfolding digits_of
digits_of-IsNumeral zero n enough = absurd (omega (arith, enough))
digits_of-IsNumeral (suc fuel) n enough = elim (Bool-cases (ltb n 10)) [
  | inl small ↦ rw small (omega arith, tt)
  | inr large ↦
      let big : 10 ≤ n = ground arith in
      rw large (
        IsNumeral-append (digits_of fuel (n / 10)) (n % 10)
          (digits_of-IsNumeral fuel (n / 10) (omega (arith, enough, big))))
]

parse_numeral :
    (bound : ℕ) (s : Text) (n : ℕ)
    → IsNumeral s
    → digits bound 0 s ≡ some n
    → parse_uint bound s ≡ some n
unfolding parse_uint
parse_numeral bound [] n h e = absurd h
parse_numeral bound (c ∷ s) n (low, h) e = ground arith

-- What is printed is read.
pub parse_uint-to_decimal : (bound n : ℕ) → n < bound → parse_uint bound (to_decimal n) ≡ some n
unfolding to_decimal
parse_uint-to_decimal bound n fits =
    parse_numeral bound (digits_of (suc n) n) n (digits_of-IsNumeral (suc n) n (omega arith))
      (digits_of_lem bound (suc n) n (omega arith) fits)

above : (k : ℕ) (s : Text) → k < b'0' → All (λ d. b'0' ≤ d) s → All (λ d. d ≢ k) s
above k [] small h = tt
above k (c ∷ s) small (n, h) = (λ e. omega (arith, e, small, n), above k s small h)

numeral_above : (k : ℕ) (s : Text) → k < b'0' → IsNumeral s → All (λ d. d ≢ k) s
numeral_above k [] small h = absurd h
numeral_above k (c ∷ s) small h = above k (c ∷ s) small h

pub to_decimal-Lacks : (k n : ℕ) → k < b'0' → All (λ d. d ≢ k) (to_decimal n)
unfolding to_decimal
to_decimal-Lacks k n small =
    numeral_above k (digits_of (suc n) n) small (digits_of-IsNumeral (suc n) n (omega arith))
