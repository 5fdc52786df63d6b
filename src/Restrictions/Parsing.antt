-- ===== src/Restrictions/Parsing.antt =====
-- What the port lists of a rule file come to.
use wstunnel.Prelude.{
  some_cancel, suc, ℕ, ◌<◌, ◌≡◌, refl, ap, inl, inr, Option, none, some, List, [], ◌∷◌, Text, All,
  arith, length, lookup, insert, lookup-insert, nat_eq, ◌==◌, if◌then◌else◌, or_else, Option-cases,
  parse_u16, parse_uint-lt, split_once, codes,
}
use mathlib.Core.Path.{subst}
use wstunnel.Restrictions.{PortRange}
use wstunnel.Restrictions.Ports.{
  ◌>>=◌, collect, port_range, deserialize_port_range, port_pair, insert_all,
  deserialize_port_mapping,
}

bind-eq-some {ℓ κ} :
    {A : Type ℓ} {B : Type κ} (o : Option A) (f : A → Option B) {b : B}
    → (o >>= f) ≡ some b
    → (a : A) × (o ≡ some a) × (f a ≡ some b)
bind-eq-some none f e = cc
bind-eq-some (some a) f e = (a, refl, e)

-- Both ends of a range are ports.
abbrev pub IsPortRange : PortRange → Type 0
IsPortRange r = (r.start < 65536) × (r.last < 65536)

port_range-IsPortRange : (s : Text) (r : PortRange) → port_range s ≡ some r → IsPortRange r
unfolding port_range
port_range-IsPortRange s r e = elim (Option-cases (split_once (codes "..") s)) [
  | inr ((low, high), split) ↦
      let chain = rw (split, port_range) at e in
      let (l, low_ok, e') = bind-eq-some (parse_u16 low) _ chain in
      let (h, high_ok, e'') = bind-eq-some (parse_u16 high) _ e' in
      subst IsPortRange (some_cancel e'') (
        parse_uint-lt 65536 low l (omega arith) low_ok,
        parse_uint-lt 65536 high h (omega arith) high_ok,
      )
  | inl whole ↦
      let (p, ok, e') = bind-eq-some (parse_u16 s) _ (rw (whole, port_range) at e) in
      let bound = parse_uint-lt 65536 s p (omega arith) ok in
      subst IsPortRange (some_cancel e') (bound, bound)
]

-- Every range read from a rule file has ports for its ends, and there is one for each entry.
pub deserialize_port_range-IsPortRange :
    (s : List Text) (rs : List PortRange)
    → deserialize_port_range s ≡ some rs
    → All IsPortRange rs × (length rs ≡ length s)
unfolding deserialize_port_range
deserialize_port_range-IsPortRange [] rs e =
    subst (λ x. All IsPortRange x × (length x ≡ 0)) (some_cancel e) (tt, refl)
deserialize_port_range-IsPortRange (t ∷ s) rs e =
    let (r, ok, e') = bind-eq-some (port_range t) _ e in
    let (more, rest, e'') = bind-eq-some (collect port_range s) _ e' in
    let (bounds, count) = deserialize_port_range-IsPortRange s more rest in
    subst (λ x. All IsPortRange x × (length x ≡ suc (length s))) (some_cancel e'')
      ((port_range-IsPortRange t r ok, bounds), ap suc count)

-- The last pair for a port.
abbrev pub last_for : ℕ → List (ℕ × ℕ) → Option ℕ
last_for port [] = none
last_for port ((k, v) ∷ ps) = or_else (last_for port ps) (if k == port then some v else none)

lookup-insert_all :
    (port : ℕ) (m ps : List (ℕ × ℕ))
    → lookup port (insert_all m ps) ≡ or_else (last_for port ps) (lookup port m)
lookup-insert_all port m [] = refl
lookup-insert_all port m ((k, v) ∷ ps) =
    ground (arith, lookup-insert_all port (insert k v m) ps, lookup-insert k port v m)

or_else-none {ℓ} : {A : Type ℓ} (o : Option A) → or_else o none ≡ o
or_else-none none = refl
or_else-none (some a) = refl

-- The map that a rule file's port mappings come to sends a port where the last entry for it does,
-- and nowhere if no entry names it.
pub lookup-deserialize_port_mapping :
    (s : List Text) (pairs m : List (ℕ × ℕ)) (port : ℕ)
    → collect port_pair s ≡ some pairs
    → deserialize_port_mapping s ≡ some m
    → lookup port m ≡ last_for port pairs
unfolding deserialize_port_mapping lookup
lookup-deserialize_port_mapping s pairs m port read e =
    let same : insert_all [] pairs ≡ m = some_cancel (rw (read) at e) in
    rw (← same, lookup-insert_all port [] pairs) (or_else-none (last_for port pairs))
