-- ===== src/Restrictions/Ports.antt =====
-- The port lists of wstunnel/src/restrictions/types.rs as a rule file spells them. `none` is the
-- error that `serde` reports; the texts are what `serde` hands over.
use wstunnel.Prelude.{
  ℕ, Option, none, some, List, [], ◌∷◌, Text, codes, split_once, split_char, parse_u16, insert,
  nat_eq, is_empty, if◌then◌else◌,
}
use wstunnel.Restrictions.{PortRange}

infixl 5 ◌>>=◌
abbrev pub ◌>>=◌ {ℓ κ} : {A : Type ℓ} {B : Type κ} → Option A → (A → Option B) → Option B
none >>= f = none
some a >>= f = f a

-- One entry of `port`: `8000` or `8000..9000`.
unfoldable pub port_range : Text → Option PortRange
port_range s = elim (split_once (codes "..") s) [
  | some (l, r) ↦ do
    low ← parse_u16 l
    high ← parse_u16 r
    some (record { start = low; last = high })
  | none ↦ do port ← parse_u16 s; some (record { start = port; last = port })
]

-- An iterator of results collected into one: the first error wins.
abbrev pub collect {ℓ κ} : {A : Type ℓ} {B : Type κ} → (A → Option B) → List A → Option (List B)
collect f [] = some []
collect f (x ∷ xs) = do y ← f x; ys ← collect f xs; some (y ∷ ys)

unfoldable pub deserialize_port_range : List Text → Option (List PortRange)
deserialize_port_range s = collect port_range s

-- One entry of `port_mapping`: `10001:8080`, exactly two parts.
abbrev pub two_parts : Text × List Text → Option (Text × Text)
two_parts (orig, target ∷ []) = some (orig, target)
two_parts (orig, _) = none

unfoldable pub port_pair : Text → Option (ℕ × ℕ)
port_pair s = do
  parts ← two_parts (split_char b':' s)
  orig ← parse_u16 parts.0
  target ← parse_u16 parts.1
  some (orig, target)

-- Collecting into a map: a later entry for a port replaces an earlier one.
abbrev pub insert_all : List (ℕ × ℕ) → List (ℕ × ℕ) → List (ℕ × ℕ)
insert_all m [] = m
insert_all m ((k, v) ∷ ps) = insert_all (insert k v m) ps

unfoldable pub deserialize_port_mapping : List Text → Option (List (ℕ × ℕ))
deserialize_port_mapping s = do pairs ← collect port_pair s; some (insert_all [] pairs)

abbrev pub deserialize_non_empty_vec {ℓ} : {A : Type ℓ} → List A → Option (List A)
deserialize_non_empty_vec v = if is_empty v then none else some v
