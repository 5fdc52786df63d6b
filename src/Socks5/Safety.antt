-- ===== src/Socks5/Safety.antt =====
-- Every state that the server of datagrams reaches.
use wstunnel.Prelude.{
  ℕ, ◌≡◌, refl, sym, ap, ◌∙◌, inl, inr, true, false, Option, none, some, some_cancel, [], ◌∷◌, ◌++◌,
  map, length, length-append, Eq, nat_eq, put, put_lem, put_same, put_other, put_before, key_cases,
  All, All-append, arith,
}
use mathlib.Core.Path.{subst}
use mathlib.Core.List.{append-nil}
use wstunnel.UdpServer.Delivery.{clean-some}
use wstunnel.Socks5.{
  cleaning, sending, Socks5UdpServer, Step, cleans, skips, receives, sends, fails_to_send, accepts,
  takes, drops, closes, Reachable, new, step,
}
use wstunnel.Socks5.Delivery.{
  elsewhere, cleaning_differs, put-Given, put-Gone, put-Gone_more, live-Known, handled_more,
  handled_now, clean-Live, accept-Live, accept-Owns, accept-Fresh, accept-Closed, send-Fresh, Flow,
}
use wstunnel.Socks5.Datagrams.{
  data_for, Given, in_flight, Target, Known, Gone, InOrder, Bounded, Sound, data_for-none,
  send-InOrder, take-InOrder, accept-InOrder, put-Bounded,
}

module _ {A T D P : Type 0} ⦃e : Eq (A × T)⦄ (parse_udp_request : P → Option (ℕ × T × D)) where
  step-Sound : (s s' : Socks5UdpServer (A × T) D) → Step parse_udp_request s s' → Sound s → Sound s'
  step-Sound _ _ (cleans s at) (l, o, g, n, t, f, c, v, q, b, r) = (
    clean-Live s g l,
    λ k i h. o k i (clean-some s.keys_to_delete s.peers k i h),
    tt,
    tt,
    tt,
    f,
    c,
    v,
    q,
    b,
    subst (Flow s) at r,
  )
  step-Sound _ _ (skips s packet at dropped) (l, o, g, n, t, f, c, v, q, b, r) = (
    l,
    o,
    g,
    elsewhere {D = D} cleaning s.peers s.keys_to_delete cleaning_differs,
    tt,
    f,
    c,
    v,
    q,
    b,
    subst (Flow s) at r,
  )
  step-Sound _ _ (receives s packet k d i at parsed known) (l, o, g, n, t, f, c, v, q, b, r) = (
    l,
    o,
    g,
    elsewhere (sending i k d) s.peers s.keys_to_delete (λ h. cc),
    known,
    f,
    c,
    v,
    q,
    b,
    ap (λ t. t ++ ((k, d) ∷ []))
        (sym (append-nil (map (λ (h : Option ℕ × ((A × T) × D)). h.1) s.handled))
          ∙ subst (Flow s) at r),
  )
  step-Sound _ _ (sends s i k d at open_yet room) (l, o, g, n, t, f, c, v, q, b, r) =
      let own = o k i (subst (Target s.peers) at t) in
      (
        l,
        o,
        g,
        elsewhere {D = D} cleaning s.peers s.keys_to_delete cleaning_differs,
        tt,
        send-Fresh s i k d own f,
        c,
        All-append (Given s.key) s.handled ((some i, (k, d)) ∷ []) v (own, tt),
        send-InOrder s i k d q,
        put-Bounded s i (s.channel i ++ (d ∷ [])) b
            (omega (arith, length-append (s.channel i) (d ∷ []), room)),
        handled_more s i i (some i) k d (subst (Flow s) at r),
      )
  step-Sound _ _ (fails_to_send s i k d at gone) (l, o, g, n, t, f, c, v, q, b, r) =
      let there = subst (Target s.peers) at t in
      (
        λ j k' live own'.
            put_other k none s.peers k' (λ same.
              let is_i = some_cancel (sym there ∙ ap s.peers same ∙ l j k' live own') in
              let clash = sym live ∙ sym (ap s.alive is_i) ∙ c i gone in cc)
            ∙ l j k' live own',
        λ k' j h. o k' j (put_before k none s.peers k' (λ x. cc) h).1,
        g,
        elsewhere {D = D} cleaning (put k none s.peers) s.keys_to_delete cleaning_differs,
        tt,
        λ j later. ((f j later).0, (f j later).1, data_for-none j s.handled k d ∙ (f j later).2),
        c,
        All-append (Given s.key) s.handled ((none, (k, d)) ∷ []) v (tt, tt),
        λ j. q j ∙ sym (data_for-none j s.handled k d),
        b,
        handled_more s i i none k d (subst (Flow s) at r),
      )
  step-Sound _ _ (accepts s packet k d at parsed unknown) (l, o, g, n, t, f, c, v, q, b, r) = (
    accept-Live s k unknown l,
    accept-Owns s k f o,
    put-Gone s k s.keys_to_delete unknown (subst (λ x. All (Known x s.peers) s.keys_to_delete) at n)
        g,
    elsewhere {D = D} cleaning (put k (some s.next) s.peers) s.keys_to_delete cleaning_differs,
    tt,
    accept-Fresh s k d f,
    accept-Closed s c,
    All-append (Given (put s.next (some k) s.key)) s.handled ((some s.next, (k, d)) ∷ [])
        (put-Given s k s.handled f v) (put_same s.next (some k) s.key s.next refl, tt),
    accept-InOrder s k d f q,
    put-Bounded s s.next (d ∷ []) b (omega arith),
    handled_now s (some s.next) k d (subst (Flow s) at r),
  )
  step-Sound _ _ (takes s i d rest live waits) (l, o, g, n, t, f, c, v, q, b, r) = (
    l,
    o,
    g,
    n,
    t,
    f,
    c,
    v,
    take-InOrder s i d rest q waits,
    put-Bounded s i rest b
        (let before = b i in let size = ap length waits in omega (arith, before, size)),
    r,
  )
  step-Sound _ _ (drops s i k live own) (l, o, g, n, t, f, c, v, q, b, r) = (
    λ j k' live' own'. l j k' (put_before i false s.alive j (λ x. cc) live').1 own',
    o,
    All-append (Gone (put i false s.alive) s.key) s.keys_to_delete (k ∷ [])
        (put-Gone_more s i s.keys_to_delete g)
        (
          λ j live' own'.
              let (other, was) = put_before i false s.alive j (λ x. cc) live' in
              other (some_cancel (sym (l i k live own) ∙ l j k was own')),
          tt,
        ),
    All-append (Known s.loop_at s.peers) s.keys_to_delete (k ∷ []) n
        (live-Known s.loop_at s.peers k i (l i k live own), tt),
    t,
    λ j later. (
      (f j later).0,
      put_lem i false s.alive j (λ x. x ≡ false) (λ same. refl) (λ other. (f j later).1),
      (f j later).2,
    ),
    λ j h. put_lem i false s.alive j (λ x. x ≡ false) (λ same. refl) (λ other. c j h),
    v,
    q,
    b,
    r,
  )
  step-Sound _ _ (closes s i k dead own) (l, o, g, n, t, f, c, v, q, b, r) = (
    l,
    o,
    g,
    n,
    t,
    f,
    λ j h. elim (key_cases i j) [
      | inl same ↦ sym (ap s.alive same) ∙ dead
      | inr other ↦ c j (sym (put_other i true s.closed j other) ∙ h)
    ],
    v,
    q,
    b,
    r,
  )

  Reachable-Sound : (s : Socks5UdpServer (A × T) D) → Reachable parse_udp_request s → Sound s
  unfolding data_for
  Reachable-Sound _ new = (
    λ i k live own. cc,
    λ k i h. cc,
    tt,
    tt,
    tt,
    λ i later. (refl, refl, refl),
    λ i h. refl,
    tt,
    λ i. refl,
    λ i. omega arith,
    refl,
  )
  Reachable-Sound _ (step s s' r x) = step-Sound s s' x (Reachable-Sound s r)

  -- In whatever order datagrams arrive, streams read and are dropped and the server goes on: the valid
  -- datagrams are handled in the order in which they were received; each that a stream was sent came
  -- from its peer for its destination; what a stream took, and then what waits in its channel, is all
  -- it was sent, in order; and the channel never holds more than its size.
  pub Reachable-InOrder :
      (s : Socks5UdpServer (A × T) D)
      → Reachable parse_udp_request s
      → (map (λ (h : Option ℕ × ((A × T) × D)). h.1) s.handled ++ in_flight s.loop_at ≡ s.requests)
        × All (Given s.key) s.handled
        × InOrder s
        × Bounded s
  Reachable-InOrder s r =
      let (l, o, g, n, t, f, c, v, q, b, w) = Reachable-Sound s r in (w, v, q, b)
