-- ===== src/Dns/Order.antt =====
-- The order of the addresses of a host.
use wstunnel.Prelude.{
  ℕ, zero, suc, ◌≤◌, ◌+◌, ◌≡◌, refl, ap, ◌∙◌, inl, inr, Bool, true, false, not, List, [], ◌∷◌, ◌++◌,
  length, filter_by, Bool-cases, any, arith,
}
use mathlib.Core.List.{Perm, Permᴰ}
use mathlib.Core.List.Permᴰ
use wstunnel.Net.{SocketAddr}
use wstunnel.Dns.{is_v6, take_turns, sort_socket_addrs}

take_turns-Permᴰ :
    {A : Type 0} (n : ℕ) (first second : List A)
    → length first + length second ≤ n
    → Permᴰ (take_turns n first second) (first ++ second)
unfolding take_turns
take_turns-Permᴰ zero [] [] h = Permᴰ.nil
take_turns-Permᴰ zero (x ∷ first) second h = absurd (omega (arith, h))
take_turns-Permᴰ zero [] (y ∷ second) h = absurd (omega (arith, h))
take_turns-Permᴰ (suc n) (x ∷ first) second h = Permᴰ.cons refl (
    Permᴰ.trans (take_turns-Permᴰ n second first (omega (arith, h)))
      (Permᴰ.append_comm second first))
take_turns-Permᴰ (suc n) [] (y ∷ second) h =
    Permᴰ.cons refl
      (Permᴰ.trans (take_turns-Permᴰ n second [] (omega (arith, h))) (Permᴰ.append-nil second))
take_turns-Permᴰ (suc n) [] [] h = Permᴰ.nil

module _ {A : Type 0} (p : A → Bool) where
  abbrev others : List A → List A
  others = filter_by (λ a. not (p a))

  parts-Permᴰ : (xs : List A) → Permᴰ (filter_by p xs ++ others xs) xs
  parts-Permᴰ [] = Permᴰ.nil
  parts-Permᴰ (x ∷ xs) = elim (Bool-cases (p x)) [
    | inl y ↦ rw y (Permᴰ.cons refl (parts-Permᴰ xs))
    | inr n ↦ rw n (
        Permᴰ.trans (Permᴰ.middle x (filter_by p xs) (others xs))
          (Permᴰ.cons refl (parts-Permᴰ xs)))
  ]

  length-parts : (xs : List A) → length (filter_by p xs) + length (others xs) ≡ length xs
  length-parts [] = omega arith
  length-parts (x ∷ xs) = elim (Bool-cases (p x)) [
    | inl y ↦ rw y (omega (arith, length-parts xs))
    | inr n ↦ rw n (omega (arith, length-parts xs))
  ]

-- An item of a list that passes the test is first among those that pass.
filter_by-head :
    {A : Type 0} (p : A → Bool) (xs : List A)
    → any p xs ≡ true
    → (a : A) × (rest : List A) × (filter_by p xs ≡ a ∷ rest) × (p a ≡ true)
filter_by-head p [] e = cc
filter_by-head p (x ∷ xs) e = elim (Bool-cases (p x)) [
  | inl y ↦ (x, filter_by p xs, rw y refl, y)
  | inr n ↦ let (a, rest, same, h) = filter_by-head p xs (rw n at e) in (a, rest, rw n same, h)
]

take_turns-head :
    {A : Type 0} (n : ℕ) (first second : List A) {a : A} {rest : List A}
    → first ≡ a ∷ rest
    → (tail : List A) × (take_turns (suc n) first second ≡ a ∷ tail)
unfolding take_turns
take_turns-head n first second {a} {rest} e =
    (take_turns n second rest, ap (λ f. take_turns (suc n) f second) e)

-- The address is of the preferred family.
abbrev pub preferred : Bool → SocketAddr → Bool
preferred true a = is_v6 a
preferred false a = not (is_v6 a)

any-length :
    {A : Type 0} (p : A → Bool) (xs : List A) → any p xs ≡ true → (n : ℕ) × (length xs ≡ suc n)
any-length p [] e = cc
any-length p (x ∷ xs) e = (length xs, refl)

sort_socket_addrs-Perm :
    (addrs : List SocketAddr) (prefer : Bool) → Perm (sort_socket_addrs addrs prefer) addrs
unfolding sort_socket_addrs
sort_socket_addrs-Perm addrs true =
    ∣ Permᴰ.trans
      (take_turns-Permᴰ (length addrs) (filter_by is_v6 addrs) (others is_v6 addrs)
        (omega (arith, length-parts is_v6 addrs)))
      (parts-Permᴰ is_v6 addrs) ∣₁
sort_socket_addrs-Perm addrs false =
    ∣ Permᴰ.trans
      (take_turns-Permᴰ (length addrs) (others is_v6 addrs) (filter_by is_v6 addrs)
        (omega (arith, length-parts is_v6 addrs)))
      (Permᴰ.trans (Permᴰ.append_comm (others is_v6 addrs) (filter_by is_v6 addrs))
        (parts-Permᴰ is_v6 addrs)) ∣₁

-- The addresses that are tried are those given, each as often, and the first is of the preferred family
-- if there is one.
pub sort_socket_addrs_lem :
    (addrs : List SocketAddr) (prefer : Bool)
    → Perm (sort_socket_addrs addrs prefer) addrs
      × (any (preferred prefer) addrs ≡ true
          → (a : SocketAddr) × (rest : List SocketAddr) × (sort_socket_addrs addrs prefer
              ≡ a ∷ rest)
            × (preferred prefer a ≡ true))
unfolding sort_socket_addrs
sort_socket_addrs_lem addrs true = (
  sort_socket_addrs-Perm addrs true,
  λ some_six.
      let (a, rest, same, is_six) = filter_by-head is_v6 addrs some_six in
      let (n, size) = any-length is_v6 addrs some_six in
      let (tail, turns) = take_turns-head n (filter_by is_v6 addrs) (others is_v6 addrs) same in
      (
        a,
        tail,
        ap (λ k. take_turns k (filter_by is_v6 addrs) (others is_v6 addrs)) size ∙ turns,
        is_six,
      ),
)
sort_socket_addrs_lem addrs false = (
  sort_socket_addrs-Perm addrs false,
  λ some_four.
      let (a, rest, same, is_four) = filter_by-head (λ x. not (is_v6 x)) addrs some_four in
      let (n, size) = any-length (λ x. not (is_v6 x)) addrs some_four in
      let (tail, turns) = take_turns-head n (others is_v6 addrs) (filter_by is_v6 addrs) same in
      (
        a,
        tail,
        ap (λ k. take_turns k (others is_v6 addrs) (filter_by is_v6 addrs)) size ∙ turns,
        is_four,
      ),
)
