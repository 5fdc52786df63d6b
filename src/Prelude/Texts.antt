-- ===== src/Prelude/Texts.antt =====
-- Texts as lists of code points, with the searches of `str` that the program calls.
use Prim.Native.Nat.{ℕ}
use Prim.Native.Char.{code}
use Prim.Native.String.{String}
use mathlib.Core.Path.{◌≡◌, refl}
use mathlib.Core.Bool.{Bool, true, false, ◌&&◌, ◌||◌}
use mathlib.Core.Logic.{inl, inr, ◌↔◌, ◌≢◌}
use mathlib.Core.List.{List, [], ◌∷◌, ◌++◌, reverse, reverse_aux}
use mathlib.Core.Option
use mathlib.Core.Option.{Option, none, some}
use native.Mathlib.Omega.{arith}
use wstunnel.Prelude.Tests.{leb, if◌then◌else◌, Option-cases, ◌==◌, ==_self}
use wstunnel.Prelude.Lists.{All, length, drop}

abbrev pub Text : Type 0
Text = List ℕ

abbrev pub codes : String → Text
codes String.[] = []
codes (String.◌∷◌ c s) = code c ∷ codes s

abbrev pub text_eq : Text → Text → Bool
text_eq [] [] = true
text_eq [] (b ∷ t) = false
text_eq (a ∷ s) [] = false
text_eq (a ∷ s) (b ∷ t) = (a == b) && text_eq s t

pub text_eq_self : (s : Text) → text_eq s s ≡ true
text_eq_self [] = refl
text_eq_self (a ∷ s) = ground (arith, text_eq_self s)

pub text_eq_sound : (s t : Text) → text_eq s t ≡ true → s ≡ t
text_eq_sound [] [] h = refl
text_eq_sound [] (b ∷ t) h = cc
text_eq_sound (a ∷ s) [] h = cc
text_eq_sound (a ∷ s) (b ∷ t) h = ground (arith, text_eq_sound s t)

pub text_eq_iff : (s t : Text) → (text_eq s t ≡ true) ↔ (s ≡ t)
text_eq_iff s t = (text_eq_sound s t, λ e. rw e (text_eq_self t))

-- `pat` stands at the start of the text.
abbrev pub starts_with : Text → Text → Bool
starts_with s [] = true
starts_with [] (p ∷ pat) = false
starts_with (c ∷ s) (p ∷ pat) = (c == p) && starts_with s pat

-- `pat` stands at the end of the text.
abbrev pub ends_with : Text → Text → Bool
ends_with [] pat = text_eq [] pat
ends_with (c ∷ s) pat = text_eq (c ∷ s) pat || ends_with s pat

-- `str::split_once` with a pattern of one character.
unfoldable pub split_once_char : ℕ → Text → Option (Text × Text)
split_once_char d [] = none
split_once_char d (c ∷ s) =
    if c == d
    then some ([], s)
    else Option.map (λ (t : Text × Text). (c ∷ t.0, t.1)) (split_once_char d s)

-- `str::split_once` with a text as its pattern.
unfoldable pub split_once : Text → Text → Option (Text × Text)
split_once pat [] = if text_eq pat [] then some ([], []) else none
split_once pat (c ∷ s) =
    if starts_with (c ∷ s) pat
    then some ([], drop (length pat) (c ∷ s))
    else Option.map (λ (t : Text × Text). (c ∷ t.0, t.1)) (split_once pat s)

-- `str::split` by one character: at least one part.
unfoldable pub split_char : ℕ → Text → Text × List Text
split_char d [] = ([], [])
split_char d (c ∷ s) = let t = split_char d s in if c == d then ([], t.0 ∷ t.1) else (c ∷ t.0, t.1)

abbrev pub Lacks : ℕ → Text → Type 0
Lacks d s = All (λ c. c ≢ d) s

pub reverse_aux-Lacks :
    (d : ℕ) (s acc : Text) → Lacks d s → Lacks d acc → Lacks d (reverse_aux s acc)
reverse_aux-Lacks d [] acc h k = k
reverse_aux-Lacks d (c ∷ s) acc (p, h) k = reverse_aux-Lacks d s (c ∷ acc) h (p, k)

-- A split at the first `d`: what stands before it has none.
pub split_once_char_lem :
    (d : ℕ) (l r : Text) → Lacks d l → split_once_char d (l ++ d ∷ r) ≡ some (l, r)
unfolding split_once_char
split_once_char_lem d [] r h = rw (==_self d) refl
split_once_char_lem d (c ∷ l) r (h, hs) = ground (arith, split_once_char_lem d l r hs)

-- What a split returns was there, around a `d`, and `d` is not in the first part.
pub split_once_char_sound :
    (d : ℕ) (s l r : Text) → split_once_char d s ≡ some (l, r) → (s ≡ l ++ (d ∷ r)) × Lacks d l
unfolding split_once_char
split_once_char_sound d [] l r h = cc
split_once_char_sound d (c ∷ s) [] r h = elim (Option-cases (split_once_char d s)) [
  | inl e ↦ ground arith
  | inr e ↦ ground arith
]
split_once_char_sound d (c ∷ s) (b ∷ l) r h = elim (Option-cases (split_once_char d s)) [
  | inl e ↦ ground arith
  | inr (t, e) ↦ ground (arith, split_once_char_sound d s l r)
]

-- The code points with the Unicode property White_Space.
abbrev pub is_white_space : ℕ → Bool
is_white_space c =
    (leb 9 c && leb c 13)
    || c == 32
    || c == 0x85
    || c == 0xa0
    || c == 0x1680
    || (leb 0x2000 c && leb c 0x200a)
    || c == 0x2028
    || c == 0x2029
    || c == 0x202f
    || c == 0x205f
    || c == 0x3000

abbrev pub trim_start : Text → Text
trim_start [] = []
trim_start (c ∷ s) = if is_white_space c then trim_start s else c ∷ s

-- `str::trim`.
unfoldable pub trim : Text → Text
trim s = reverse (trim_start (reverse (trim_start s)))
