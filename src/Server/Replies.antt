-- ===== src/Server/Replies.antt =====
-- What a refused request leaves: the server as it was.
use wstunnel.Prelude.{
  ℕ, ◌≡◌, ◌≢◌, refl, ◌⊎◌, inl, inr, Bool, false, Option, none, some, Text, text_eq, text_eq_iff,
  some_cancel, ◌∙◌, Bool-cases,
}
use wstunnel.Prelude.Results.{ok}
use wstunnel.Net.{IpAddr, SocketAddr, LocalProtocol, tunnel_stdio, RemoteAddr}
use wstunnel.Deps.{Regexes, IpNets}
use wstunnel.Restrictions.{RestrictionsRules}
use wstunnel.Access.{validate_tunnel}
use wstunnel.Access.Prefix.{extract_path_prefix}
use wstunnel.Request.{
  HttpRequest, extract_authorization, extract_tunnel_info, try_from, JwtTunnelConfig,
}
use wstunnel.Server.Monad.{Env, World, pure}
use wstunnel.Server.Handle.{path_allowed, effective, handle_tunnel_request}

-- Any tunnel but one by id is its own target.
effective_direct :
    {U : Type 0} (env : Env U) (parse_ip : Text → Option IpAddr) (remote : RemoteAddr)
    (auth : Option Text) (p : LocalProtocol)
    → ((b : Bool) (t : Option ℕ) → p ≢ tunnel_stdio b t)
    → effective env parse_ip remote auth p ≡ pure (remote, none)
effective_direct env parse_ip remote auth (tunnel_stdio b t) h = absurd (h b t refl)
effective_direct env parse_ip remote auth _ h = refl

-- The certificate imposes a path, and the prefix is another one.
abbrev pub Disagrees : Option Text → Text → Type 0
Disagrees restrict prefix = (imposed : Text) × (restrict ≡ some imposed) × (prefix ≢ imposed)

path_allowed-Disagrees :
    (restrict : Option Text) (prefix : Text)
    → Disagrees restrict prefix
    → path_allowed restrict prefix ≡ false
path_allowed-Disagrees none prefix (imposed, e, other) = cc
path_allowed-Disagrees (some path) prefix (imposed, e, other) =
    elim (Bool-cases (text_eq prefix path)) [
      | inl same ↦ absurd (other ((text_eq_iff prefix path).0 same ∙ some_cancel e))
      | inr differ ↦ differ
    ]

module _ {U R N : Type 0} ⦃re : Regexes R⦄ ⦃nets : IpNets N⦄ (env : Env U)
    (rules : RestrictionsRules R N) (restrict : Option Text) (addr : SocketAddr) (req : HttpRequest)
    (prefix : Text) (claims : JwtTunnelConfig) (remote : RemoteAddr) where
  -- A request whose path and token are well formed and whose destination is not a tunnel id, is
  -- refused and changes nothing, no action and the same limiters, if its certificate imposes
  -- another path, or the rules reject its destination.
  pub handle_tunnel_request_refuses :
      (w : World U)
      → extract_path_prefix req.path ≡ ok prefix
      → extract_tunnel_info env.decode req ≡ some claims
      → try_from env.host_parse claims ≡ some remote
      → ((p : Bool) (t : Option ℕ) → remote.protocol ≢ tunnel_stdio p t)
      → Disagrees restrict prefix
        ⊎ (validate_tunnel remote prefix (extract_authorization req) rules ≡ none)
      → handle_tunnel_request env rules restrict addr req w ≡ (none, w)
  unfolding handle_tunnel_request
  handle_tunnel_request_refuses w path c t direct (inl disagrees) =
      rw (path, path_allowed-Disagrees restrict prefix disagrees)
  handle_tunnel_request_refuses w path c t direct (inr rejected) =
      elim (Bool-cases (path_allowed restrict prefix)) [
        | inl agrees ↦ rw (
          path,
          agrees,
          c,
          t,
          effective_direct env nets.parse_ip remote (extract_authorization req) remote.protocol
              direct,
          rejected,
        )
        | inr disagrees ↦ rw (path, disagrees)
      ]
