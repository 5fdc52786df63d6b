-- ===== src/Server/Handle.antt =====
-- `handle_tunnel_request`: from an upgrade request to the streams of a tunnel.
use wstunnel.Prelude.{
  ℕ, Bool, true, false, ◌||◌, Option, none, some, Text, text_eq, if◌then◌else◌, is_some,
}
use wstunnel.Prelude.Results.{Result, ok, err}
use wstunnel.Net.{
  IpAddr, Host, domain, ipv4, ipv6, SocketAddr, LocalProtocol, tcp, tunnel_stdio, RemoteAddr,
  is_dynamic_reverse_tunnel,
}
use wstunnel.Deps.{Regexes, IpNets}
use wstunnel.Restrictions.{RestrictionsRules}
use wstunnel.Access.{validate_tunnel}
use wstunnel.Access.Prefix.{extract_path_prefix}
use wstunnel.Request.{
  HttpRequest, extract_authorization, extract_x_forwarded_for, extract_tunnel_info, set_ip,
  try_from,
}
use wstunnel.RateLimit.{DirectionalLimiters, wrap}
use wstunnel.Resolver.{resolve_tunnel_over_http}
use wstunnel.Server.Monad.{resolve, Env, M, ◌>>=◌, ◌>>◌, pure, fail, lift, perform}
use wstunnel.Server.Exec.{exec_tunnel}

-- An accepted tunnel: the remote, the stream, its limiters if it is limited, and whether the
-- response carries a cookie.
pub record Accepted : Type 0 where
  pub remote : RemoteAddr
  pub stream : ℕ
  pub limits : Option DirectionalLimiters
  pub inject_cookie : Bool

-- The rates of a resolved tunnel: its id, the upload and the download.
abbrev pub RateInfo : Type 0
RateInfo = Option (ℕ × Option ℕ × Option ℕ)

abbrev pub ok_value : {E A : Type 0} → Result E A → Option A
ok_value (ok a) = some a
ok_value (err e) = none

-- The address of the client, replaced by the one that a proxy forwards.
abbrev pub client_of : SocketAddr → Option (IpAddr × Text) → SocketAddr
client_of addr none = addr
client_of addr (some (ip, header)) = set_ip addr ip

abbrev pub domain_of : Host → Option Text
domain_of (domain s) = some s
domain_of (ipv4 ip) = none
domain_of (ipv6 ip) = none

-- The prefix that the client's certificate imposes, if there is one, is that of the path.
abbrev pub path_allowed : Option Text → Text → Bool
path_allowed none prefix = true
path_allowed (some restrict_path) prefix = text_eq prefix restrict_path

-- A chain that goes on only if the test passes.
abbrev pub require : {U : Type 0} → Bool → M U (Unit {0})
require true = pure tt
require false = fail

module _ {U : Type 0} (env : Env U) (parse_ip : Text → Option IpAddr) where
  -- A tunnel by id becomes a TCP tunnel to its endpoint, any other stays.
  abbrev pub effective : RemoteAddr → Option Text → LocalProtocol → M U (RemoteAddr × RateInfo)
  effective remote auth (tunnel_stdio proxy_protocol timeout) = do
    tunnel_id ← lift (domain_of remote.host)
    uuid ← lift (env.uuid_parse tunnel_id)
    resolver ← lift env.tunnel_resolver
    endpoint ←
        perform (resolve uuid auth)
          (resolve_tunnel_over_http env.backend parse_ip resolver uuid auth)
    pure (
      record { protocol = tcp proxy_protocol; host = endpoint.host; port = endpoint.port },
      some (uuid, endpoint.rate_limit_upload_m, endpoint.rate_limit_download_m),
    )
  effective remote auth _ = pure (remote, none)

  -- Wraps the streams in the shared limiters if a direction is limited.
  abbrev pub apply_limits : RateInfo → M U (Option DirectionalLimiters)
  apply_limits none w = (some none, w)
  apply_limits (some (tid, upload_m, download_m)) w =
      if is_some upload_m || is_some download_m
      then (let r = wrap w.pool tid upload_m download_m in
          (some (some r.0), record w { pool = r.1 }))
      else (some none, w)

module _ {U R N : Type 0} ⦃re : Regexes R⦄ ⦃nets : IpNets N⦄ (env : Env U) where
  -- What follows the resolution: the rules, then the connection.
  abbrev pub admit :
      RestrictionsRules R N → Text → Option Text → SocketAddr → RemoteAddr × RateInfo → M U Accepted
  admit rules prefix auth client (remote, rate) = do
    restriction ← lift (validate_tunnel remote prefix auth rules)
    tunnel ← exec_tunnel env restriction remote client
    limits ← apply_limits env nets.parse_ip rate
    pure (record {
      remote = tunnel.0;
      stream = tunnel.1;
      limits = limits;
      inject_cookie = is_dynamic_reverse_tunnel remote.protocol;
    })

  unfoldable pub handle_tunnel_request :
      RestrictionsRules R N → Option Text → SocketAddr → HttpRequest → M U Accepted
  handle_tunnel_request rules restrict_path_prefix addr req =
      let auth = extract_authorization req in
      let client = client_of addr (extract_x_forwarded_for nets.parse_ip req) in
      do
        prefix ← lift (ok_value (extract_path_prefix req.path))
        require (path_allowed restrict_path_prefix prefix)
        claims ← lift (extract_tunnel_info env.decode req)
        remote ← lift (try_from env.host_parse claims)
        target ← effective env nets.parse_ip remote auth remote.protocol
        admit rules prefix auth client target
