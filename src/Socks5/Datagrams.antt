-- ===== src/Socks5/Datagrams.antt =====
-- Datagrams reach the stream of their peer and destination.
use wstunnel.Prelude.{
  ℕ, ◌≤◌, ◌≡◌, ◌≢◌, refl, sym, ap, ◌∙◌, inl, inr, Bool, true, false, Option, none, some, List, [],
  ◌∷◌, ◌++◌, map, length, nat_eq, put, put_lem, put_same, put_other, key_cases, All, arith,
}
use mathlib.Core.List.{append_assoc, append-nil}
use wstunnel.Socks5.{channel_size, Loop, cleaning, receiving, sending, Socks5UdpServer}

-- What was put in the channel of a stream.
unfoldable pub data_for : {K D : Type 0} → ℕ → List (Option ℕ × (K × D)) → List D
data_for i [] = []
data_for i ((none, (k, d)) ∷ handled) = data_for i handled
data_for i ((some j, (k, d)) ∷ handled) = put j (d ∷ data_for i handled) (λ _. data_for i handled) i

pub data_for-append :
    {K D : Type 0} (i : ℕ) (xs ys : List (Option ℕ × (K × D)))
    → data_for i (xs ++ ys) ≡ data_for i xs ++ data_for i ys
unfolding data_for put
data_for-append i [] ys = refl
data_for-append i ((none, (k, d)) ∷ xs) ys = data_for-append i xs ys
data_for-append i ((some j, (k, d)) ∷ xs) ys = ground (arith, data_for-append i xs ys)

-- A key to delete is of no stream that lives.
abbrev pub Gone : {K : Type 0} → (ℕ → Bool) → (ℕ → Option K) → K → Type 0
Gone alive key k = (i : ℕ) → alive i ≡ true → key i ≢ some k

module _ {K D : Type 0} where
  -- A datagram that a stream got has its key.
  abbrev pub Given : (ℕ → Option K) → Option ℕ × (K × D) → Type 0
  Given key (none, (k, d)) = Unit
  Given key (some i, (k, d)) = key i ≡ some k

  -- What the server has received and not yet handled.
  abbrev pub in_flight : Loop K D → List (K × D)
  in_flight cleaning = []
  in_flight receiving = []
  in_flight (sending i k d) = (k, d) ∷ []

  abbrev pub Target : (K → Option ℕ) → Loop K D → Type 0
  Target peers cleaning = Unit
  Target peers receiving = Unit
  Target peers (sending i k d) = peers k ≡ some i

  -- While the server waits for a datagram, a key to delete still has its stream.
  abbrev pub Known : Loop K D → (K → Option ℕ) → K → Type 0
  Known cleaning peers k = Unit
  Known receiving peers k = (i : ℕ) × (peers k ≡ some i)
  Known (sending _ _ _) peers k = Unit

  -- A stream stands under its key while it lives.
  abbrev pub Live : Socks5UdpServer K D → Type 0
  Live s = (i : ℕ) (k : K) → s.alive i ≡ true → s.key i ≡ some k → s.peers k ≡ some i

  abbrev pub Owns : Socks5UdpServer K D → Type 0
  Owns s = (k : K) (i : ℕ) → s.peers k ≡ some i → s.key i ≡ some k

  abbrev pub Fresh : Socks5UdpServer K D → Type 0
  Fresh s =
      (i : ℕ) → s.next ≤ i → (s.key i ≡ none) × (s.alive i ≡ false) × (data_for i s.handled ≡ [])

  abbrev pub Closed : Socks5UdpServer K D → Type 0
  Closed s = (i : ℕ) → s.closed i ≡ true → s.alive i ≡ false

  -- What a stream took and what waits for it are what it was sent, in order.
  abbrev pub InOrder : Socks5UdpServer K D → Type 0
  InOrder s = (i : ℕ) → s.taken i ++ s.channel i ≡ data_for i s.handled

  abbrev pub Bounded : Socks5UdpServer K D → Type 0
  Bounded s = (i : ℕ) → length (s.channel i) ≤ channel_size

  abbrev pub Sound : Socks5UdpServer K D → Type 0
  Sound s =
      Live s
      × Owns s
      × All (Gone s.alive s.key) s.keys_to_delete
      × All (Known s.loop_at s.peers) s.keys_to_delete
      × Target s.peers s.loop_at
      × Fresh s
      × Closed s
      × All (Given s.key) s.handled
      × InOrder s
      × Bounded s
      × (map (λ (h : Option ℕ × (K × D)). h.1) s.handled ++ in_flight s.loop_at ≡ s.requests)

pub not_next :
    {K D : Type 0} (s : Socks5UdpServer K D)
    → Fresh s
    → (i : ℕ) (k : K) → s.key i ≡ some k
    → s.next ≢ i
not_next s f i k own same = let clash = sym (f s.next (omega arith)).0 ∙ ap s.key same ∙ own in cc

module _ {K D : Type 0} where
  -- One more datagram for a stream,
  pub data_for-same :
      (i j : ℕ) (handled : List (Option ℕ × (K × D))) (k : K) (d : D)
      → i ≡ j
      → data_for j (handled ++ ((some i, (k, d)) ∷ [])) ≡ data_for j handled ++ (d ∷ [])
  unfolding data_for
  data_for-same i j handled k d same =
      data_for-append j handled ((some i, (k, d)) ∷ [])
      ∙ ap (λ t. data_for j handled ++ t) (put_same i (d ∷ []) (λ _. []) j same)

  -- and for another.
  pub data_for-other :
      (i j : ℕ) (handled : List (Option ℕ × (K × D))) (k : K) (d : D)
      → i ≢ j
      → data_for j (handled ++ ((some i, (k, d)) ∷ [])) ≡ data_for j handled
  unfolding data_for
  data_for-other i j handled k d other =
      data_for-append j handled ((some i, (k, d)) ∷ [])
      ∙ ap (λ t. data_for j handled ++ t) (put_other i (d ∷ []) (λ _. []) j other)
      ∙ append-nil (data_for j handled)

  pub data_for-none :
      (j : ℕ) (handled : List (Option ℕ × (K × D))) (k : K) (d : D)
      → data_for j (handled ++ ((none, (k, d)) ∷ [])) ≡ data_for j handled
  unfolding data_for
  data_for-none j handled k d =
      data_for-append j handled ((none, (k, d)) ∷ []) ∙ append-nil (data_for j handled)

  pub send-InOrder :
      (s : Socks5UdpServer K D) (i : ℕ) (k : K) (d : D)
      → InOrder s
      → (j : ℕ)
      → s.taken j ++ put i (s.channel i ++ (d ∷ [])) s.channel j
        ≡ data_for j (s.handled ++ ((some i, (k, d)) ∷ []))
  send-InOrder s i k d o j = elim (key_cases i j) [
    | inl same ↦
        ap (λ c. s.taken j ++ c)
          (put_same i (s.channel i ++ (d ∷ [])) s.channel j same
            ∙ ap (λ v. s.channel v ++ (d ∷ [])) same)
        ∙ sym (append_assoc (s.taken j) (s.channel j) (d ∷ []))
        ∙ ap (λ t. t ++ (d ∷ [])) (o j)
        ∙ sym (data_for-same i j s.handled k d same)
    | inr other ↦
        ap (λ c. s.taken j ++ c) (put_other i (s.channel i ++ (d ∷ [])) s.channel j other)
        ∙ o j
        ∙ sym (data_for-other i j s.handled k d other)
  ]

  pub take-InOrder :
      (s : Socks5UdpServer K D) (i : ℕ) (d : D) (rest : List D)
      → InOrder s
      → s.channel i ≡ d ∷ rest
      → (j : ℕ)
      → put i (s.taken i ++ (d ∷ [])) s.taken j ++ put i rest s.channel j ≡ data_for j s.handled
  take-InOrder s i d rest o c j = elim (key_cases i j) [
    | inl same ↦
        ap (λ t. t ++ put i rest s.channel j) (put_same i (s.taken i ++ (d ∷ [])) s.taken j same)
        ∙ ap (λ t. (s.taken i ++ (d ∷ [])) ++ t) (put_same i rest s.channel j same)
        ∙ append_assoc (s.taken i) (d ∷ []) rest
        ∙ ap (λ t. s.taken i ++ t) (sym c)
        ∙ o i
        ∙ ap (λ v. data_for v s.handled) same
    | inr other ↦
        ap (λ t. t ++ put i rest s.channel j) (put_other i (s.taken i ++ (d ∷ [])) s.taken j other)
        ∙ ap (λ t. s.taken j ++ t) (put_other i rest s.channel j other)
        ∙ o j
  ]

  pub accept-InOrder :
      (s : Socks5UdpServer K D) (k : K) (d : D)
      → Fresh s
      → InOrder s
      → (j : ℕ)
      → put s.next [] s.taken j ++ put s.next (d ∷ []) s.channel j
        ≡ data_for j (s.handled ++ ((some s.next, (k, d)) ∷ []))
  accept-InOrder s k d f o j = elim (key_cases s.next j) [
    | inl same ↦
        ap (λ t. t ++ put s.next (d ∷ []) s.channel j) (put_same s.next [] s.taken j same)
        ∙ put_same s.next (d ∷ []) s.channel j same
        ∙ ap (λ t. t ++ (d ∷ [])) (sym (f j (omega (arith, same))).2)
        ∙ sym (data_for-same s.next j s.handled k d same)
    | inr other ↦
        ap (λ t. t ++ put s.next (d ∷ []) s.channel j) (put_other s.next [] s.taken j other)
        ∙ ap (λ t. s.taken j ++ t) (put_other s.next (d ∷ []) s.channel j other)
        ∙ o j
        ∙ sym (data_for-other s.next j s.handled k d other)
  ]

  pub put-Bounded :
      (s : Socks5UdpServer K D) (i : ℕ) (c : List D)
      → Bounded s
      → length c ≤ channel_size
      → (j : ℕ) → length (put i c s.channel j) ≤ channel_size
  put-Bounded s i c b le j =
      put_lem i c s.channel j (λ v. length v ≤ channel_size) (λ same. le) (λ other. b j)
