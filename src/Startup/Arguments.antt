-- ===== src/Startup/Arguments.antt =====
-- From the arguments of the command line to the tunnels that run.
use wstunnel.Prelude.{
  ◌≡◌, refl, sym, inl, inr, Bool, true, false, List, [], ◌∷◌, ◌++◌, Text, All, In, if◌then◌else◌,
}
use mathlib.Core.Path.{subst}
use mathlib.Core.List.{append_assoc, append-nil}
use wstunnel.Prelude.Results.{ok, IfOk-ok}
use wstunnel.Net.{is_reverse_tunnel}
use wstunnel.Cli.{Urls, IpParsers, LocalToRemote}
use wstunnel.Cli.Args.{ArgParsers, parse_tunnel_arg, parse_reverse_tunnel_arg}
use wstunnel.Cli.Kinds.{Local, parse_reverse_tunnel_arg-parse_tunnel_arg, parse_tunnel_arg-Local}
use wstunnel.Startup.{
  TunnelListener, Tunnel, forward, Start, panicked, failed, exited, tunnels, invalid, skipped, runs,
  Forwarded, passed, unavailable, Platform, listens, reads_terminal, forwarded, start_forwards,
  start_all,
}
use wstunnel.Startup.Tunnels.{
  ListensFor, Serves, Pairwise, Pairwise-snoc, reversed-Serves, Listened, Unavailable,
  forwarded-Listened,
}

module _ (platform : Platform) (opens : TunnelListener → Bool) where
  -- What a start comes to, for these arguments.
  abbrev pub Comes : List LocalToRemote → Start → Type 0
  Comes all_args panicked = (t : LocalToRemote) × In t all_args × Unavailable platform t
  Comes all_args failed =
      (t : LocalToRemote) × (l : TunnelListener) × In t all_args
      × ListensFor t l
      × (opens l ≡ false)
  Comes all_args (exited l) =
      (t : LocalToRemote) × In t all_args × ListensFor t l × (opens l ≡ true)
  Comes all_args (tunnels ts) = Pairwise Serves all_args ts

  Comes-if :
      (all_args : List LocalToRemote) (b : Bool) (x y : Start)
      → (b ≡ true → Comes all_args x)
      → (b ≡ false → Comes all_args y)
      → Comes all_args (if b then x else y)
  Comes-if all_args true x y hx hy = hx refl
  Comes-if all_args false x y hx hy = hy refl

  In-right : {A : Type 0} (xs ys : List A) (a : A) → In a ys → In a (xs ++ ys)
  In-right [] ys a m = m
  In-right (x ∷ xs) ys a m = inr (In-right xs ys a m)

  start_forwards-Comes :
      (done : List LocalToRemote) (started : List Tunnel) (args : List LocalToRemote)
      → Pairwise Serves done started
      → All (λ t. is_reverse_tunnel t.local_protocol ≡ false) args
      → Comes (done ++ args) (start_forwards platform opens started args)
  unfolding start_forwards
  start_forwards-Comes done started [] served h =
      subst (λ v. Pairwise Serves v started) (sym (append-nil done)) served
  start_forwards-Comes done started (t ∷ args) served (no_reverse, h) =
      next (forwarded platform t.local_protocol t)
        (forwarded-Listened platform t.local_protocol t refl no_reverse)
        (λ l good.
          start_forwards-Comes (done ++ (t ∷ [])) (started ++ (forward l ∷ [])) args
            (Pairwise-snoc Serves done started t (forward l) served (no_reverse, good)) h)
    where
      next :
          (f : Forwarded)
          → Listened platform t f
          → ((l : TunnelListener)
              → ListensFor t l
              → Comes
                  ((done ++ (t ∷ [])) ++ args)
                  (start_forwards platform opens (started ++ (forward l ∷ [])) args))
          → Comes (done ++ (t ∷ args)) (elim f [
            | unavailable ↦ panicked
            | passed ↦ start_forwards platform opens started args
            | listens listener ↦
                let later =
                  start_forwards platform opens (started ++ (forward listener ∷ [])) args in
                if opens listener then later else failed
            | reads_terminal listener ↦ if opens listener then exited listener else failed
          ])
      next passed l more = absurd l
      next unavailable no_listener more = (t, In-right done (t ∷ args) t (inl refl), no_listener)
      next (listens l) good more =
          Comes-if (done ++ (t ∷ args)) (opens l) _ failed
            (λ _.
              subst
                (λ v. Comes v (start_forwards platform opens (started ++ (forward l ∷ [])) args))
                (append_assoc done (t ∷ []) args) (more l good))
            (λ shut. (t, l, In-right done (t ∷ args) t (inl refl), good, shut))
      next (reads_terminal l) good more =
          Comes-if (done ++ (t ∷ args)) (opens l) (exited l) failed
            (λ made. (t, In-right done (t ∷ args) t (inl refl), good, made))
            (λ shut. (t, l, In-right done (t ∷ args) t (inl refl), good, shut))

  pub start_all-Comes :
      (done : List LocalToRemote) (started : List Tunnel) (reverse_args args : List LocalToRemote)
      → Pairwise Serves done started
      → All (λ t. is_reverse_tunnel t.local_protocol ≡ true) reverse_args
      → All (λ t. is_reverse_tunnel t.local_protocol ≡ false) args
      → Comes (done ++ (reverse_args ++ args)) (start_all platform opens started reverse_args args)
  unfolding start_all
  start_all-Comes done started [] args served r h = start_forwards-Comes done started args served h
  start_all-Comes done started (t ∷ reverse_args) args served (turned, r) h =
      let (tunnel, e, serves) = reversed-Serves t.local_protocol t refl turned in
      subst
        (λ f. Comes (done ++ (t ∷ (reverse_args ++ args))) (elim f [
          | invalid ↦ panicked
          | skipped ↦ start_all platform opens started reverse_args args
          | runs u ↦ start_all platform opens (started ++ (u ∷ [])) reverse_args args
        ]))
        (sym e)
        (subst
          (λ v. Comes v (start_all platform opens (started ++ (tunnel ∷ [])) reverse_args args))
          (append_assoc done (t ∷ []) (reverse_args ++ args))
          (start_all-Comes (done ++ (t ∷ [])) (started ++ (tunnel ∷ [])) reverse_args args
            (Pairwise-snoc Serves done started t tunnel served serves) r h))

module _ {U : Type 0} (ips : IpParsers) (urls : Urls U) (parsers : ArgParsers) where
  abbrev pub ParsesReverse : Text → LocalToRemote → Type 0
  ParsesReverse arg t = parse_reverse_tunnel_arg ips urls parsers arg ≡ ok t

  abbrev pub Parses : Text → LocalToRemote → Type 0
  Parses arg t = parse_tunnel_arg ips urls parsers arg ≡ ok t

  pub reverse_args_lem :
      (args : List Text) (ts : List LocalToRemote)
      → Pairwise ParsesReverse args ts
      → All (λ t. is_reverse_tunnel t.local_protocol ≡ true) ts
  reverse_args_lem [] [] h = tt
  reverse_args_lem [] (t ∷ ts) h = absurd h
  reverse_args_lem (a ∷ args) [] h = absurd h
  reverse_args_lem (a ∷ args) (t ∷ ts) (e, h) =
      let (l, p, k, turned, s, a1, a2) =
        parse_reverse_tunnel_arg-parse_tunnel_arg ips urls parsers a t e in
      (turned, reverse_args_lem args ts h)

  pub local_args_lem :
      (args : List Text) (ts : List LocalToRemote)
      → Pairwise Parses args ts
      → All (λ t. is_reverse_tunnel t.local_protocol ≡ false) ts
  local_args_lem [] [] h = tt
  local_args_lem [] (t ∷ ts) h = absurd h
  local_args_lem (a ∷ args) [] h = absurd h
  local_args_lem (a ∷ args) (t ∷ ts) (e, h) = (
    IfOk-ok Local (parse_tunnel_arg ips urls parsers a) (parse_tunnel_arg-Local ips urls parsers a)
        e,
    local_args_lem args ts h,
  )
