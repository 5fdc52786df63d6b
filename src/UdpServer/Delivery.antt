-- ===== src/UdpServer/Delivery.antt =====
-- Packets reach the stream of their sender.
use wstunnel.Prelude.{
  ℕ, ◌≤◌, ◌≡◌, ◌≢◌, refl, sym, ap, ◌∙◌, inl, inr, Bool, true, false, Option, none, some,
  some_cancel, List, [], ◌∷◌, ◌++◌, map, Eq, nat_eq, put, put_lem, put_same, put_other, put_before,
  key_cases, All-In, All, All-append, In, arith,
}
use mathlib.Core.Path.{subst}
use mathlib.Core.List.{append_assoc}
use wstunnel.UdpServer.{
  UdpServer, clean_dead_keys, UdpStep, arrives, cleans, notifies, accepts, reads, goes_on, drops,
  UdpReachable, new, step,
}

pub map_snoc :
    {A C : Type 0} (f : A → C) (xs : List A) (y : A) (zs : List C)
    → map f (xs ++ (y ∷ [])) ++ zs ≡ map f xs ++ (f y ∷ zs)
map_snoc f [] y zs = refl
map_snoc f (x ∷ xs) y zs = ap (λ t. f x ∷ t) (map_snoc f xs y zs)

module _ {B : Type 0} ⦃e : Eq B⦄ where
  -- The next packet is of the peer.
  abbrev Head : Option B → List (B × ℕ) → Type 0
  Head o [] = ⊥
  Head o ((b, d) ∷ q) = o ≡ some b

  -- A stream stands under its peer while it lives.
  abbrev Live : UdpServer B → Type 0
  Live s = (i : ℕ) (b : B) → s.alive i ≡ true → s.peer i ≡ some b → s.peers b ≡ some i

  -- The map has streams under their own peers.
  abbrev Owns : UdpServer B → Type 0
  Owns s = (b : B) (i : ℕ) → s.peers b ≡ some i → s.peer i ≡ some b

  -- A key to delete is that of a stream that is gone.
  abbrev Dead : (B → Option ℕ) → (ℕ → Bool) → B → Type 0
  Dead peers alive b = (i : ℕ) × (peers b ≡ some i) × (alive i ≡ false)

  -- A stream that can read has its packet before it.
  abbrev Armed : UdpServer B → Type 0
  Armed s = (i : ℕ) → s.alive i ≡ true → s.has_data i ≡ true → Head (s.peer i) s.queue

  abbrev Fresh : UdpServer B → Type 0
  Fresh s = (i : ℕ) → s.next ≤ i → (s.peer i ≡ none) × (s.alive i ≡ false)

  -- What was read came from the peer of the stream.
  abbrev pub Given : (ℕ → Option B) → ℕ × (B × ℕ) → Type 0
  Given peer (i, (b, d)) = peer i ≡ some b

  abbrev Sound : UdpServer B → Type 0
  Sound s =
      Live s
      × Owns s
      × All (Dead s.peers s.alive) s.keys_to_delete
      × Armed s
      × Fresh s
      × All (Given s.peer) s.delivered
      × (map (λ (g : ℕ × (B × ℕ)). g.1) s.delivered ++ s.queue ≡ s.arrived)

  pub clean-some :
      (bs : List B) (peers : B → Option ℕ) (b : B) (i : ℕ)
      → clean_dead_keys bs peers b ≡ some i
      → peers b ≡ some i
  unfolding clean_dead_keys
  clean-some [] peers b i h = h
  clean-some (k ∷ bs) peers b i h =
      (put_before k none peers b (λ x. cc) (clean-some bs (put k none peers) b i h)).1

  pub clean_keeps :
      (bs : List B) (peers : B → Option ℕ) (b : B)
      → (In b bs → ⊥)
      → clean_dead_keys bs peers b ≡ peers b
  unfolding clean_dead_keys
  clean_keeps [] peers b out = refl
  clean_keeps (k ∷ bs) peers b out =
      clean_keeps bs (put k none peers) b (λ m. out (inr m))
      ∙ put_other k none peers b (λ same. out (inl (sym same)))

  Head-append : (o : Option B) (q : List (B × ℕ)) (p : B × ℕ) → Head o q → Head o (q ++ (p ∷ []))
  Head-append o [] p h = absurd h
  Head-append o ((b, d) ∷ q) p h = h

  -- A stream to come has no peer.
  not_next : (s : UdpServer B) → Fresh s → (i : ℕ) (b : B) → s.peer i ≡ some b → s.next ≢ i
  not_next s f i b own same =
      let clash = sym (f s.next (omega arith)).0 ∙ ap s.peer same ∙ own in cc

  -- What the peers of streams that are there give stays with one more stream.
  put-Given :
      (s : UdpServer B) (b : B) (xs : List (ℕ × (B × ℕ)))
      → Fresh s
      → All (Given s.peer) xs
      → All (Given (put s.next (some b) s.peer)) xs
  put-Given s b [] f h = tt
  put-Given s b ((i, (c, d)) ∷ xs) f (g, h) =
      (put_other s.next (some b) s.peer i (not_next s f i c g) ∙ g, put-Given s b xs f h)

  put-Dead :
      (s : UdpServer B) (b : B) (bs : List B)
      → Owns s
      → Fresh s
      → s.peers b ≡ none
      → All (Dead s.peers s.alive) bs
      → All (Dead (put b (some s.next) s.peers) (put s.next true s.alive)) bs
  put-Dead s b [] o f unknown h = tt
  put-Dead s b (c ∷ bs) o f unknown ((i, there, gone), h) = (
    (
      i,
      put_other b (some s.next) s.peers c
            (λ same. let clash = sym unknown ∙ ap s.peers same ∙ there in cc)
          ∙ there,
      put_other s.next true s.alive i (not_next s f i c (o c i there)) ∙ gone,
    ),
    put-Dead s b bs o f unknown h,
  )

  put-Dead_more :
      (s : UdpServer B) (i : ℕ) (bs : List B)
      → All (Dead s.peers s.alive) bs
      → All (Dead s.peers (put i false s.alive)) bs
  put-Dead_more s i [] h = tt
  put-Dead_more s i (c ∷ bs) ((j, there, gone), h) = (
    (j, there, put_lem i false s.alive j (λ v. v ≡ false) (λ same. refl) (λ other. gone)),
    put-Dead_more s i bs h,
  )

  step-Sound : (s s' : UdpServer B) → UdpStep s s' → Sound s → Sound s'
  step-Sound _ _ (arrives s p) (l, o, d, a, f, g, c) = (
    l,
    o,
    d,
    λ i live armed. Head-append (s.peer i) s.queue p (a i live armed),
    f,
    g,
    sym (append_assoc (map (λ (x : ℕ × (B × ℕ)). x.1) s.delivered) s.queue (p ∷ []))
        ∙ ap (λ t. t ++ (p ∷ [])) c,
  )
  step-Sound _ _ (cleans s at) (l, o, d, a, f, g, c) = (
    λ i b live own.
        clean_keeps s.keys_to_delete s.peers b (λ m.
          let (j, there, gone) = All-In (Dead s.peers s.alive) s.keys_to_delete d b m in
          let clash = sym gone ∙ ap s.alive (some_cancel (sym there ∙ l i b live own)) ∙ live in cc)
        ∙ l i b live own,
    λ b i h. o b i (clean-some s.keys_to_delete s.peers b i h),
    tt,
    a,
    f,
    g,
    c,
  )
  step-Sound _ _ (notifies s b x rest i at q known) (l, o, d, a, f, g, c) = (
    l,
    o,
    d,
    λ j live armed. elim (key_cases i j) [
      | inl same ↦ subst (Head (s.peer j)) (sym q) (ap s.peer (sym same) ∙ o b i known)
      | inr other ↦ a j live (sym (put_other i true s.has_data j other) ∙ armed)
    ],
    f,
    g,
    c,
  )
  step-Sound _ _ (accepts s b x rest at q unknown) (l, o, d, a, f, g, c) = (
    λ i b' live own. elim (key_cases s.next i) [
      | inl same ↦
          let is_b = some_cancel (sym (put_same s.next (some b) s.peer i same) ∙ own) in
          put_same b (some s.next) s.peers b' is_b ∙ ap some same
      | inr other ↦
          let there =
            l i b' (sym (put_other s.next true s.alive i other) ∙ live)
              (sym (put_other s.next (some b) s.peer i other) ∙ own) in
          put_other b (some s.next) s.peers b'
            (λ same. let clash = sym unknown ∙ ap s.peers same ∙ there in cc)
          ∙ there
    ],
    λ b' i h. elim (key_cases b b') [
      | inl same ↦
          put_same s.next (some b) s.peer i
            (some_cancel (sym (put_same b (some s.next) s.peers b' same) ∙ h))
          ∙ ap some same
      | inr other ↦
          let own = o b' i (sym (put_other b (some s.next) s.peers b' other) ∙ h) in
          put_other s.next (some b) s.peer i (not_next s f i b' own) ∙ own
    ],
    put-Dead s b s.keys_to_delete o f unknown d,
    λ i live armed. elim (key_cases s.next i) [
      | inl same ↦ subst (Head _) (sym q) (put_same s.next (some b) s.peer i same)
      | inr other ↦
          subst (λ v. Head v s.queue) (sym (put_other s.next (some b) s.peer i other))
            (a i (sym (put_other s.next true s.alive i other) ∙ live)
              (sym (put_other s.next true s.has_data i other) ∙ armed))
    ],
    λ i later.
        let other = λ (same : s.next ≡ i). absurd {A = ⊥} (omega (arith, same, later)) in
        (
          put_other s.next (some b) s.peer i other ∙ (f i (omega (arith, later))).0,
          put_other s.next true s.alive i other ∙ (f i (omega (arith, later))).1,
        ),
    put-Given s b s.delivered f g,
    c,
  )
  step-Sound _ _ (reads s i (b, x) rest live armed q) (l, o, d, a, f, g, c) =
      let own = subst (Head (s.peer i)) q (a i live armed) in
      (
        l,
        o,
        d,
        λ j live' armed'.
            let (other, had) = put_before i false s.has_data j (λ t. cc) armed' in
            let own' = subst (Head (s.peer j)) q (a j live' had) in
            absurd (other (some_cancel (sym (l i b live own) ∙ l j b live' own'))),
        f,
        All-append (Given s.peer) s.delivered ((i, (b, x)) ∷ []) g (own, tt),
        map_snoc (λ (y : ℕ × (B × ℕ)). y.1) s.delivered (i, (b, x)) rest
            ∙ ap (λ t. map (λ (y : ℕ × (B × ℕ)). y.1) s.delivered ++ t) (sym q)
            ∙ c,
      )
  step-Sound _ _ (goes_on s i at read) h = h
  step-Sound _ _ (drops s i b live own) (l, o, d, a, f, g, c) = (
    λ j b' live' own'. l j b' (put_before i false s.alive j (λ t. cc) live').1 own',
    o,
    All-append (Dead s.peers (put i false s.alive)) s.keys_to_delete (b ∷ [])
        (put-Dead_more s i s.keys_to_delete d)
        ((i, l i b live own, put_same i false s.alive i refl), tt),
    λ j live' armed. a j (put_before i false s.alive j (λ t. cc) live').1 armed,
    λ j later. (
      (f j later).0,
      put_lem i false s.alive j (λ v. v ≡ false) (λ same. refl) (λ other. (f j later).1),
    ),
    g,
    c,
  )

  UdpReachable-Sound : (s : UdpServer B) → UdpReachable s → Sound s
  UdpReachable-Sound _ new =
      (λ i b live own. cc, λ b i h. cc, tt, λ i live armed. cc, λ i later. (refl, refl), tt, refl)
  UdpReachable-Sound _ (step s s' r t) = step-Sound s s' t (UdpReachable-Sound s r)

  -- In whatever order packets arrive, streams read and are dropped and the server goes on, each packet
  -- that a stream read was sent by the peer of the stream, and the packets read are, in their order,
  -- those that arrived first: none is lost, read twice or overtaken.
  pub UdpReachable-delivered :
      (s : UdpServer B)
      → UdpReachable s
      → All (Given s.peer) s.delivered
        × (map (λ (g : ℕ × (B × ℕ)). g.1) s.delivered ++ s.queue ≡ s.arrived)
  UdpReachable-delivered s r = let (l, o, d, a, f, g, c) = UdpReachable-Sound s r in (g, c)
