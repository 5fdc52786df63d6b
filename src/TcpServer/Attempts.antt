-- ===== src/TcpServer/Attempts.antt =====
-- The attempts that `connect` of wstunnel/src/protocols/tcp/server.rs starts.
use wstunnel.Prelude.{
  ℕ, suc, ◌+◌, ◌*◌, ◌<◌, ◌≡◌, ◌↔◌, ◌⊎◌, refl, sym, ap, ◌∙◌, inl, inr, Bool, true, false, some, List,
  [], ◌∷◌, All, All-In, In, Bool-cases, get_elem?, arith, if◌then◌else◌,
}
use wstunnel.Prelude.Results.{ok, err, bind-eq-ok, ◌>>=◌}
use wstunnel.Net.{SocketAddr}
use wstunnel.TcpServer.{cannot_configure, Attempt, spawn_attempts}

-- Each attempt waits longer than those before it.
abbrev pub Ascending : List Attempt → Type 0
Ascending [] = Unit
Ascending (a ∷ rest) = All (λ (b : Attempt). a.delay < b.delay) rest × Ascending rest

module _ (makes_socket : SocketAddr → Bool) where
  -- At an address of the list whose socket can be made, after 250 ms for each address before it.
  abbrev pub Placed : List SocketAddr → ℕ → Attempt → Type 0
  Placed addrs from a =
      (ix : ℕ) × (get_elem? addrs ix ≡ some a.addr)
      × (makes_socket a.addr ≡ true)
      × (a.delay ≡ 250 * (from + ix))

  -- These attempts are all of those, in their order.
  abbrev pub Tried : List SocketAddr → ℕ → List Attempt → Type 0
  Tried addrs from attempts =
      Ascending attempts × ((a : Attempt) → In a attempts ↔ Placed addrs from a)

-- What is in the rest of one list is in the rest of the other.
inside :
    (x y : Attempt) (xs ys : List Attempt)
    → x ≡ y
    → All (λ (b : Attempt). x.delay < b.delay) xs
    → ((a : Attempt) → In a (x ∷ xs) → In a (y ∷ ys))
    → (a : Attempt) → In a xs
    → In a ys
inside x y xs ys e p f a m = kept (f a (inr m)) (All-In _ xs p a m)
  where
    kept : (a ≡ y) ⊎ In a ys → x.delay < a.delay → In a ys
    kept (inl same) longer =
        absurd (omega (arith, ap (λ (t : Attempt). t.delay) e, ap (λ (t : Attempt). t.delay) same))
    kept (inr m) longer = m

Ascending-unique :
    (xs ys : List Attempt)
    → Ascending xs
    → Ascending ys
    → ((a : Attempt) → In a xs → In a ys)
    → ((a : Attempt) → In a ys → In a xs)
    → xs ≡ ys
Ascending-unique [] [] p q f g = refl
Ascending-unique [] (y ∷ ys) p q f g = absurd (g y (inl refl))
Ascending-unique (x ∷ xs) [] p q f g = absurd (f x (inl refl))
Ascending-unique (x ∷ xs) (y ∷ ys) (px, sx) (py, sy) f g =
    let head = heads (f x (inl refl)) (g y (inl refl)) in
    let rest =
      Ascending-unique xs ys sx sy (inside x y xs ys head px f)
        (inside y x ys xs (sym head) py g) in
    λ i. head i ∷ rest i
  where
    heads : (x ≡ y) ⊎ In x ys → (y ≡ x) ⊎ In y xs → x ≡ y
    heads (inl e) n = e
    heads (inr m) (inl e) = sym e
    heads (inr m) (inr n) = absurd (omega (arith, All-In _ ys py x m, All-In _ xs px y n))

module _ (makes_socket : SocketAddr → Bool) where
  pub Tried-unique :
      (addrs : List SocketAddr) (from : ℕ) (xs ys : List Attempt)
      → Tried makes_socket addrs from xs
      → Tried makes_socket addrs from ys
      → xs ≡ ys
  Tried-unique addrs from xs ys (p, f) (q, g) =
      Ascending-unique xs ys p q (λ a m. (g a).1 ((f a).0 m)) (λ a m. (f a).1 ((g a).0 m))

  -- An address whose socket cannot be made.
  skip :
      (addr : SocketAddr) (addrs : List SocketAddr) (from : ℕ) (attempts : List Attempt)
      → makes_socket addr ≡ false
      → Tried makes_socket addrs (suc from) attempts
      → Tried makes_socket (addr ∷ addrs) from attempts
  skip addr addrs from attempts unmade (p, f) =
      (p, λ a. (λ m. later a ((f a).0 m), λ placed. (f a).1 (not_first a placed)))
    where
      later :
          (a : Attempt)
          → Placed makes_socket addrs (suc from) a
          → Placed makes_socket (addr ∷ addrs) from a
      later a (ix, there, made, d) = (suc ix, there, made, omega (arith, d))

      not_first :
          (a : Attempt)
          → Placed makes_socket (addr ∷ addrs) from a
          → Placed makes_socket addrs (suc from) a
      not_first a (ℕ.zero, there, made, d) = let same : addr ≡ a.addr = cc in cc
      not_first a (suc ix, there, made, d) = (ix, there, made, omega (arith, d))

  add_first :
      (addr : SocketAddr) (addrs : List SocketAddr) (from : ℕ) (attempts : List Attempt)
      → makes_socket addr ≡ true
      → Tried makes_socket addrs (suc from) attempts
      → Tried makes_socket
          (addr ∷ addrs)
          from
          (record { addr = addr; delay = 250 * from } ∷ attempts)
  add_first addr addrs from attempts made (p, f) =
      ((after attempts (λ a m. (f a).0 m), p), λ a. (placed a, member a))
    where
      first : Attempt
      first = record { addr = addr; delay = 250 * from }

      after :
          (rest : List Attempt)
          → ((a : Attempt) → In a rest → Placed makes_socket addrs (suc from) a)
          → All (λ (b : Attempt). 250 * from < b.delay) rest
      after [] h = tt
      after (b ∷ rest) h =
          let (ix, there, made, d) = h b (inl refl) in
          (omega (arith, d), after rest (λ a m. h a (inr m)))

      placed :
          (a : Attempt) → (a ≡ first) ⊎ In a attempts → Placed makes_socket (addr ∷ addrs) from a
      placed a (inl e) =
          let here : a.addr ≡ addr = ap (λ (t : Attempt). t.addr) e in
          (
            0,
            sym (ap some here),
            ap makes_socket here ∙ made,
            omega (arith, ap (λ (t : Attempt). t.delay) e),
          )
      placed a (inr m) =
          let (ix, there, made, d) = (f a).0 m in (suc ix, there, made, omega (arith, d))

      member :
          (a : Attempt) → Placed makes_socket (addr ∷ addrs) from a → (a ≡ first) ⊎ In a attempts
      member a (ℕ.zero, there, made, d) =
          let here : a.addr ≡ addr = cc in
          let wait : a.delay ≡ 250 * from = omega (arith, d) in
          inl (λ i. record { addr = here i; delay = wait i })
      member a (suc ix, there, made, d) = inr ((f a).1 (ix, there, made, omega (arith, d)))

module _ (makes_socket configures : SocketAddr → Bool) where
  abbrev pub Configured : SocketAddr → Type 0
  Configured addr = makes_socket addr ≡ true → configures addr ≡ true

  pub spawn_attempts-Tried :
      (addrs : List SocketAddr) (from : ℕ)
      → All Configured addrs
      → (attempts : List Attempt) × (spawn_attempts makes_socket configures from addrs
          ≡ ok attempts)
        × Tried makes_socket addrs from attempts
  unfolding spawn_attempts
  spawn_attempts-Tried [] from h =
      ([], refl, (tt, λ a. (λ m. absurd m, λ (ix, there, made, d). cc)))
  spawn_attempts-Tried (addr ∷ addrs) from (c, h) =
      let (rest, spawned, tried) = spawn_attempts-Tried addrs (suc from) h in
      elim (Bool-cases (makes_socket addr)) [
        | inl made ↦ (
          record { addr = addr; delay = 250 * from } ∷ rest,
          rw (made, c made, spawned) refl,
          add_first makes_socket addr addrs from rest made tried,
        )
        | inr unmade ↦
            (rest, rw unmade spawned, skip makes_socket addr addrs from rest unmade tried)
      ]

  pub spawn_attempts-Configured :
      (addrs : List SocketAddr) (from : ℕ) (attempts : List Attempt)
      → spawn_attempts makes_socket configures from addrs ≡ ok attempts
      → All Configured addrs
  unfolding spawn_attempts
  spawn_attempts-Configured [] from attempts e = tt
  spawn_attempts-Configured (addr ∷ addrs) from attempts e =
      spawned (makes_socket addr) (configures addr) refl refl e
        (spawn_attempts-Configured addrs (suc from))
    where
      spawned :
          (b c : Bool)
          → makes_socket addr ≡ b
          → configures addr ≡ c
          → (if b
              then (if c
                  then (do
                    rest ← spawn_attempts makes_socket configures (suc from) addrs
                    ok (record { addr = addr; delay = 250 * from } ∷ rest))
                  else err cannot_configure)
              else spawn_attempts makes_socket configures (suc from) addrs)
            ≡ ok attempts
          → ((attempts : List Attempt)
              → spawn_attempts makes_socket configures (suc from) addrs ≡ ok attempts
              → All Configured addrs)
          → All Configured (addr ∷ addrs)
      spawned false c unmade conf h more = (λ made. cc, more attempts h)
      spawned true false made conf h more = cc
      spawned true true made conf h more =
          let (rest, e, same) =
            bind-eq-ok (spawn_attempts makes_socket configures (suc from) addrs) _ h in
          (λ m. conf, more rest e)
