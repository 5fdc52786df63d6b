-- ===== src/Server/Safety.antt =====
-- What the trace of a request may hold: nothing reaches the network but what the rules accepted.
use wstunnel.Prelude.{
  ℕ, ◌≡◌, ◌≢◌, refl, ◌⊎◌, inl, inr, Bool, true, false, Option, none, some, Text, Bool-cases,
  text_eq_iff, is_some, ◌||◌,
}
use wstunnel.Prelude.Results.{Result, ok, err}
use wstunnel.Net.{
  SocketAddr, LocalProtocol, tunnel_stdio, RemoteAddr, tcp, Host, domain, ipv4, ipv6,
}
use wstunnel.Deps.{Regexes, IpNets}
use wstunnel.Restrictions.{RestrictionConfig, RestrictionsRules}
use wstunnel.Access.{validate_tunnel}
use wstunnel.Access.Prefix.{extract_path_prefix}
use wstunnel.Request.{
  extract_x_forwarded_for, HttpRequest, extract_authorization, extract_tunnel_info, try_from,
  JwtTunnelConfig,
}
use wstunnel.Resolver.{TunnelEndpoint, resolve_tunnel_over_http}
use wstunnel.Server.Monad.{Action, resolve, Env, M, ◌>>◌, perform}
use wstunnel.Server.Exec.{exec_tunnel}
use wstunnel.Server.Handle.{
  RateInfo, domain_of, ok_value, path_allowed, require, effective, apply_limits, admit,
  handle_tunnel_request, client_of,
}
use wstunnel.Server.Effects.{
  Adds, Adds-perform, Adds-bind, Adds-lift_bind, Yields, Yields-pure, Yields-lift_bind,
  Yields-perform_bind, Adds-bind_post,
}
use wstunnel.Server.Serves.{Serves, exec_tunnel-Adds}

ok_value_sound : {E A : Type 0} (r : Result E A) {a : A} → ok_value r ≡ some a → r ≡ ok a
ok_value_sound (ok a) e = cc
ok_value_sound (err x) e = cc

domain_of_sound : (h : Host) {name : Text} → domain_of h ≡ some name → h ≡ domain name
domain_of_sound (domain s) e = cc
domain_of_sound (ipv4 ip) e = cc
domain_of_sound (ipv6 ip) e = cc

-- The prefix that a certificate imposes.
abbrev pub PathAllowed : Option Text → Text → Type 0
PathAllowed none prefix = Unit
PathAllowed (some restrict_path) prefix = prefix ≡ restrict_path

module _ {U R N : Type 0} ⦃re : Regexes R⦄ ⦃nets : IpNets N⦄ (env : Env U)
    (rules : RestrictionsRules R N) (restrict : Option Text) (addr : SocketAddr)
    (req : HttpRequest) where
  -- The request's token claims the destination.
  abbrev pub Claims : RemoteAddr → Type 0
  Claims claimed =
      (claims : JwtTunnelConfig) × (extract_tunnel_info env.decode req ≡ some claims)
      × (try_from env.host_parse claims ≡ some claimed)

  -- The claimed destination is a tunnel by id, whose host is the text of this id; `proxy_protocol` is
  -- its option.
  abbrev pub NamesTunnel : RemoteAddr → ℕ → Bool → Type 0
  NamesTunnel claimed id proxy_protocol =
      (timeout : Option ℕ) × (name : Text) × (claimed.protocol
        ≡ tunnel_stdio proxy_protocol timeout)
      × (claimed.host ≡ domain name)
      × (env.uuid_parse name ≡ some id)

  -- The destination that the token claims, if that is not a tunnel by id; or the endpoint that the
  -- server's resolver gives for the id that the claimed destination names, over TCP.
  abbrev pub Requested : RemoteAddr → Type 0
  Requested remote =
      (claimed : RemoteAddr) × Claims claimed
      × ((((p : Bool) (t : Option ℕ) → claimed.protocol ≢ tunnel_stdio p t) × (remote ≡ claimed))
          ⊎ ((url : U) × (id : ℕ) × (p : Bool) × (e : TunnelEndpoint) × NamesTunnel claimed id p
              × (env.tunnel_resolver ≡ some url)
              × (resolve_tunnel_over_http env.backend nets.parse_ip url id
                    (extract_authorization req)
                  ≡ some e)
              × (remote ≡ record { protocol = tcp p; host = e.host; port = e.port })))

  -- The action asks the resolver for the id that the claimed destination names, with the request's
  -- own authorization.
  abbrev pub Resolves : Action U → Type 0
  Resolves (resolve id auth) =
      (auth ≡ extract_authorization req)
      × (claimed : RemoteAddr) × (p : Bool) × Claims claimed
      × NamesTunnel claimed id p
  Resolves _ = ⊥

  -- The path is well formed and agrees with the certificate; and the action asks the resolver, or
  -- serves a tunnel to the requested destination that the rules accept.
  abbrev pub Permitted : Action U → Type 0
  Permitted a =
      (prefix : Text) × (extract_path_prefix req.path ≡ ok prefix)
      × PathAllowed restrict prefix
      × (Resolves a
          ⊎ ((remote : RemoteAddr) × (r : RestrictionConfig R N) × Requested remote
              × (validate_tunnel remote prefix (extract_authorization req) rules ≡ some r)
              × Serves remote r a))

  abbrev auth : Option Text
  auth = extract_authorization req

  effective-Yields :
      (claimed : RemoteAddr) (p : LocalProtocol)
      → claimed.protocol ≡ p
      → Claims claimed
      → Yields (λ t. Requested t.0) (effective env nets.parse_ip claimed auth p)
  effective-Yields claimed (tunnel_stdio proxy_protocol timeout) same c =
      Yields-lift_bind _ (domain_of claimed.host) _ λ name named.
        Yields-lift_bind _ (env.uuid_parse name) _ λ uuid read.
          Yields-lift_bind _ env.tunnel_resolver _ λ resolver there.
            Yields-perform_bind (λ t'. Requested t'.0) (resolve uuid auth)
              (resolve_tunnel_over_http env.backend nets.parse_ip resolver uuid auth) _
              λ endpoint e.
                let by_id : NamesTunnel claimed uuid proxy_protocol =
                  (timeout, name, same, domain_of_sound claimed.host named, read) in
                Yields-pure (λ t'. Requested t'.0) _
                  (
                    claimed,
                    c,
                    inr (resolver, uuid, proxy_protocol, endpoint, by_id, there, e, refl),
                  )
  effective-Yields claimed _ same c =
      Yields-pure (λ t'. Requested t'.0) (claimed, none) (claimed, c, inl (λ b t e. cc, refl))

  -- What every permitted action has.
  module _ (Q : Action U → Type 0) (sub : (a : Action U) → Permitted a → Q a) where
    effective-Adds :
        (remote : RemoteAddr) (p : LocalProtocol)
        → remote.protocol ≡ p
        → ((id : ℕ) (b : Bool) → NamesTunnel remote id b → Permitted (resolve id auth))
        → Adds Q (effective env nets.parse_ip remote auth p)
    effective-Adds remote (tunnel_stdio proxy_protocol timeout) same asks =
        Adds-lift_bind Q (domain_of remote.host) _ λ name named.
          Adds-lift_bind Q (env.uuid_parse name) _ λ uuid read.
            Adds-lift_bind Q env.tunnel_resolver _ λ resolver _.
              Adds-bind Q
                (perform (resolve uuid auth)
                  (resolve_tunnel_over_http env.backend nets.parse_ip resolver uuid auth))
                _
                (Adds-perform Q {A = TunnelEndpoint} (resolve uuid auth)
                  (resolve_tunnel_over_http env.backend nets.parse_ip resolver uuid auth)
                  (sub _ (
                    asks uuid proxy_protocol
                      (timeout, name, same, domain_of_sound remote.host named, read))))
                (λ endpoint w h. h)
    effective-Adds remote _ same asks = λ w h. h

    limits-Adds : (rate : RateInfo) → Adds Q (apply_limits env nets.parse_ip rate)
    limits-Adds none w h = h
    limits-Adds (some (tid, up, down)) w h = elim (Bool-cases (is_some up || is_some down)) [
      | inl limited ↦ rw limited h
      | inr free ↦ rw free h
    ]

    admit-Adds :
        (prefix : Text) (client : SocketAddr) (target : RemoteAddr × RateInfo)
        → extract_path_prefix req.path ≡ ok prefix
        → PathAllowed restrict prefix
        → Requested target.0
        → Adds Q (admit env rules prefix auth client target)
    admit-Adds prefix client (remote, rate) path allowed wanted =
        Adds-lift_bind Q (validate_tunnel remote prefix auth rules) _ λ r valid.
          Adds-bind Q (exec_tunnel env r remote client) _
            (exec_tunnel-Adds env Q r remote client
              λ a serves. sub a (prefix, path, allowed, inr (remote, r, wanted, valid, serves)))
            λ tunnel.
              Adds-bind Q (apply_limits env nets.parse_ip rate) _ (limits-Adds rate)
                (λ limits w h. h)

    require-Adds :
        {A : Type 0} (b : Bool) (rest : M U A)
        → (b ≡ true → Adds Q rest)
        → Adds Q (require b >> rest)
    require-Adds true rest k = k refl
    require-Adds false rest k = λ w h. h

    path_allowed_sound :
        (o : Option Text) (prefix : Text) → path_allowed o prefix ≡ true → PathAllowed o prefix
    path_allowed_sound none prefix e = tt
    path_allowed_sound (some p) prefix e = (text_eq_iff prefix p).0 e

    pub handle-Adds : Adds Q (handle_tunnel_request env rules restrict addr req)
    unfolding handle_tunnel_request
    handle-Adds = Adds-lift_bind Q (ok_value (extract_path_prefix req.path)) _ λ prefix path.
        require-Adds (path_allowed restrict prefix) _ λ allowed.
          Adds-lift_bind Q (extract_tunnel_info env.decode req) _ λ claims c.
            Adds-lift_bind Q (try_from env.host_parse claims) _ λ claimed t.
              Adds-bind_post (λ target. Requested target.0) Q
                (effective env nets.parse_ip claimed auth claimed.protocol) _
                (effective-Adds claimed claimed.protocol refl λ id b named. (
                  prefix,
                  ok_value_sound _ path,
                  path_allowed_sound restrict prefix allowed,
                  inl (refl, claimed, b, (claims, c, t), named),
                ))
                (effective-Yields claimed claimed.protocol refl (claims, c, t))
                (λ target wanted.
                  admit-Adds prefix (client_of addr (extract_x_forwarded_for nets.parse_ip req))
                    target (ok_value_sound _ path) (path_allowed_sound restrict prefix allowed)
                    wanted)
