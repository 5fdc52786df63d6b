-- ===== src/Socks5/Delivery.antt =====
-- What every step of the server of datagrams keeps.
use wstunnel.Prelude.{
  ℕ, suc, ◌≤◌, ◌≡◌, ◌≢◌, refl, sym, ap, ◌∙◌, inl, inr, true, false, Option, none, some, some_cancel,
  List, [], ◌∷◌, ◌++◌, map, Eq, nat_eq, put, put_same, put_other, put_before, key_cases, All-In,
  All, arith,
}
use mathlib.Core.List.{append-nil}
use wstunnel.UdpServer.{clean_dead_keys}
use wstunnel.UdpServer.Delivery.{clean_keeps, map_snoc}
use wstunnel.Socks5.{Loop, cleaning, receiving, sending, Socks5UdpServer}
use wstunnel.Socks5.Datagrams.{
  data_for, Given, in_flight, Known, Live, Owns, Gone, Fresh, Closed, not_next, data_for-other,
}

pub cleaning_differs : {K D : Type 0} → ◌≢◌ {A = Loop K D} cleaning receiving
cleaning_differs h = cc

module _ {K D : Type 0} ⦃e : Eq K⦄ where
  -- Elsewhere nothing is asked of the keys to delete.
  pub elsewhere :
      (at : Loop K D) (peers : K → Option ℕ) (ks : List K)
      → at ≢ receiving
      → All (Known at peers) ks
  elsewhere at peers [] other = tt
  elsewhere cleaning peers (k ∷ ks) other = (tt, elsewhere cleaning peers ks other)
  elsewhere receiving peers (k ∷ ks) other = absurd (other refl)
  elsewhere (sending i j d) peers (k ∷ ks) other = (tt, elsewhere (sending i j d) peers ks other)

  pub put-Given :
      (s : Socks5UdpServer K D) (k : K) (xs : List (Option ℕ × (K × D)))
      → Fresh s
      → All (Given s.key) xs
      → All (Given (put s.next (some k) s.key)) xs
  put-Given s k [] f h = tt
  put-Given s k ((none, (c, d)) ∷ xs) f (g, h) = (tt, put-Given s k xs f h)
  put-Given s k ((some i, (c, d)) ∷ xs) f (g, h) =
      (put_other s.next (some k) s.key i (not_next s f i c g) ∙ g, put-Given s k xs f h)

  pub put-Gone :
      (s : Socks5UdpServer K D) (k : K) (ks : List K)
      → s.peers k ≡ none
      → All (Known {D = D} receiving s.peers) ks
      → All (Gone s.alive s.key) ks
      → All (Gone (put s.next true s.alive) (put s.next (some k) s.key)) ks
  put-Gone s k [] unknown n h = tt
  put-Gone s k (c ∷ ks) unknown ((i, there), n) (g, h) = (
    λ j live own. elim (key_cases s.next j) [
      | inl same ↦
          let is_c = some_cancel (sym (put_same s.next (some k) s.key j same) ∙ own) in
          let clash = sym unknown ∙ ap s.peers is_c ∙ there in cc
      | inr other ↦
          g j (sym (put_other s.next true s.alive j other) ∙ live)
            (sym (put_other s.next (some k) s.key j other) ∙ own)
    ],
    put-Gone s k ks unknown n h,
  )

  pub put-Gone_more :
      (s : Socks5UdpServer K D) (i : ℕ) (ks : List K)
      → All (Gone s.alive s.key) ks
      → All (Gone (put i false s.alive) s.key) ks
  put-Gone_more s i [] h = tt
  put-Gone_more s i (c ∷ ks) (g, h) = (
    λ j live own. g j (put_before i false s.alive j (λ t. cc) live).1 own,
    put-Gone_more s i ks h,
  )

  -- The key of a stream that is dropped is known while the server waits.
  pub live-Known :
      (at : Loop K D) (peers : K → Option ℕ) (k : K) (i : ℕ) → peers k ≡ some i → Known at peers k
  live-Known cleaning peers k i h = tt
  live-Known receiving peers k i h = (i, h)
  live-Known (sending _ _ _) peers k i h = tt

  -- The requests that are handled, with those on their way.
  abbrev pub Flow : Socks5UdpServer K D → Loop K D → Type 0
  Flow s at = map (λ (h : Option ℕ × (K × D)). h.1) s.handled ++ in_flight at ≡ s.requests

  -- A request is handled that was on its way,
  pub handled_more :
      (s : Socks5UdpServer K D) (i i' : ℕ) (o : Option ℕ) (k : K) (d : D)
      → Flow s (sending i k d)
      → map (λ (h : Option ℕ × (K × D)). h.1) (s.handled ++ ((o, (k, d)) ∷ [])) ++ [] ≡ s.requests
  handled_more s i i' o k d r =
      map_snoc (λ (h : Option ℕ × (K × D)). h.1) s.handled (o, (k, d)) [] ∙ r

  -- or at once.
  pub handled_now :
      (s : Socks5UdpServer K D) (o : Option ℕ) (k : K) (d : D)
      → Flow s receiving
      → map (λ (h : Option ℕ × (K × D)). h.1) (s.handled ++ ((o, (k, d)) ∷ [])) ++ []
        ≡ s.requests ++ ((k, d) ∷ [])
  handled_now s o k d r =
      map_snoc (λ (h : Option ℕ × (K × D)). h.1) s.handled (o, (k, d)) []
      ∙ ap (λ t. t ++ ((k, d) ∷ []))
          (sym (append-nil (map (λ (h : Option ℕ × (K × D)). h.1) s.handled)) ∙ r)

  pub clean-Live :
      (s : Socks5UdpServer K D)
      → All (Gone s.alive s.key) s.keys_to_delete
      → Live s
      → (i : ℕ) (k : K) → s.alive i ≡ true
      → s.key i ≡ some k
      → clean_dead_keys s.keys_to_delete s.peers k ≡ some i
  clean-Live s g l i k live own =
      clean_keeps s.keys_to_delete s.peers k
        (λ m. All-In (Gone s.alive s.key) s.keys_to_delete g k m i live own)
      ∙ l i k live own

  -- The map of streams after a new one,
  pub accept-Live :
      (s : Socks5UdpServer K D) (k : K)
      → s.peers k ≡ none
      → Live s
      → (i : ℕ) (j : K) → put s.next true s.alive i ≡ true
      → put s.next (some k) s.key i ≡ some j
      → put k (some s.next) s.peers j ≡ some i
  accept-Live s k unknown l i j live own = elim (key_cases s.next i) [
    | inl same ↦
        put_same k (some s.next) s.peers j
          (some_cancel (sym (put_same s.next (some k) s.key i same) ∙ own))
        ∙ ap some same
    | inr other ↦
        let there =
          l i j (sym (put_other s.next true s.alive i other) ∙ live)
            (sym (put_other s.next (some k) s.key i other) ∙ own) in
        put_other k (some s.next) s.peers j
          (λ same. let clash = sym unknown ∙ ap s.peers same ∙ there in cc)
        ∙ there
  ]

  -- which is under its own key.
  pub accept-Owns :
      (s : Socks5UdpServer K D) (k : K)
      → Fresh s
      → Owns s
      → (j : K) (i : ℕ) → put k (some s.next) s.peers j ≡ some i
      → put s.next (some k) s.key i ≡ some j
  accept-Owns s k f o j i h = elim (key_cases k j) [
    | inl same ↦
        put_same s.next (some k) s.key i
          (some_cancel (sym (put_same k (some s.next) s.peers j same) ∙ h))
        ∙ ap some same
    | inr other ↦
        let own = o j i (sym (put_other k (some s.next) s.peers j other) ∙ h) in
        put_other s.next (some k) s.key i (not_next s f i j own) ∙ own
  ]

  pub accept-Fresh :
      (s : Socks5UdpServer K D) (k : K) (d : D)
      → Fresh s
      → (i : ℕ) → suc s.next ≤ i
      → (put s.next (some k) s.key i ≡ none)
        × (put s.next true s.alive i ≡ false)
        × (data_for i (s.handled ++ ((some s.next, (k, d)) ∷ [])) ≡ [])
  accept-Fresh s k d f i later =
      let other = λ (same : s.next ≡ i). absurd {A = ⊥} (omega (arith, same, later)) in
      let (no_key, dead, no_data) = f i (omega (arith, later)) in
      (
        put_other s.next (some k) s.key i other ∙ no_key,
        put_other s.next true s.alive i other ∙ dead,
        data_for-other s.next i s.handled k d other ∙ no_data,
      )

  pub accept-Closed :
      (s : Socks5UdpServer K D)
      → Closed s
      → (i : ℕ) → put s.next false s.closed i ≡ true
      → put s.next true s.alive i ≡ false
  accept-Closed s c i h =
      let (other, was) = put_before s.next false s.closed i (λ t. cc) h in
      put_other s.next true s.alive i other ∙ c i was

  -- A stream that was sent something is not one to come.
  pub send-Fresh :
      (s : Socks5UdpServer K D) (i : ℕ) (k : K) (d : D)
      → s.key i ≡ some k
      → Fresh s
      → (j : ℕ) → s.next ≤ j
      → (s.key j ≡ none)
        × (s.alive j ≡ false)
        × (data_for j (s.handled ++ ((some i, (k, d)) ∷ [])) ≡ [])
  send-Fresh s i k d own f j later =
      let (no_key, dead, no_data) = f j later in
      (
        no_key,
        dead,
        data_for-other i j s.handled k d
              (λ same. let clash = sym no_key ∙ sym (ap s.key same) ∙ own in cc)
            ∙ no_data,
      )
