-- ===== src/Resolver.antt =====
-- wstunnel/src/tunnel/server/tunnel_resolver.rs: the endpoint of a tunnel id, asked of an HTTP
-- service. `none` is an error.
pub mod Laws
use wstunnel.Prelude.{
  ℕ, ◌-◌, min, Bool, true, false, not, ◌&&◌, ◌||◌, Option, none, some, List, [], ◌∷◌, Text, codes,
  text_eq, is_empty, trim, or_else, if◌then◌else◌, leb, ltb, ◌==◌, and_then,
}
use mathlib.Core.Option
use wstunnel.Net.{IpAddr, v4, v6, Host, domain, ipv4, ipv6}

pub record TunnelEndpoint : Type 0 where
  pub host : Host
  pub port : ℕ
  pub rate_limit_upload_m : Option ℕ
  pub rate_limit_download_m : Option ℕ

pub record TunnelEndpointResponse : Type 0 where
  pub host : Text
  pub port : ℕ
  pub rate_limit_upload_m : Option ℕ
  pub rate_limit_download_m : Option ℕ
  pub rate_limit_m : Option ℕ

-- The URL (crate `url`), the HTTP client (`hyper`), and the YAML parser. `send` appends the id to
-- the URL and makes the request, with the authorization given; it answers the status and the body.
pub record Backend (U : Type 0) : Type 0 where
  pub scheme : U → Text
  pub send : U → ℕ → Option Text → Option (ℕ × Text)
  pub from_yaml : Text → Option TunnelEndpointResponse

abbrev pub host_of_ip : IpAddr → Host
host_of_ip (v4 ip) = ipv4 ip
host_of_ip (v6 ip) = ipv6 ip

-- An address if it is one, else a name; `parse_ip` is `str::parse::<IpAddr>`.
unfoldable pub parse_host : (Text → Option IpAddr) → Text → Option Host
unfolding trim
parse_host parse_ip host =
    let t = trim host in
    if is_empty t
    then none
    else elim (parse_ip t) [ some ip ↦ some (host_of_ip ip) | none ↦ some (domain t) ]

-- At most 10 MiB/s.
abbrev pub cap : Option ℕ → Option ℕ
cap v = Option.map (λ (n : ℕ). min n 10) v

-- The endpoint that a parsed response stands for.
unfoldable pub endpoint : (Text → Option IpAddr) → TunnelEndpointResponse → Option TunnelEndpoint
unfolding parse_host
endpoint parse_ip parsed =
    Option.map
      (λ (h : Host). record {
        host = h;
        port = parsed.port;
        rate_limit_upload_m = cap (or_else parsed.rate_limit_upload_m parsed.rate_limit_m);
        rate_limit_download_m = cap (or_else parsed.rate_limit_download_m parsed.rate_limit_m);
      })
      (parse_host parse_ip parsed.host)

-- `authorization.filter(|s| !s.is_empty())`.
abbrev pub sent_authorization : Option Text → Option Text
sent_authorization none = none
sent_authorization (some s) = if is_empty s then none else some s

module _ {U : Type 0} (backend : Backend U) (parse_ip : Text → Option IpAddr) where
  -- A response with a status of success, parsed.
  abbrev pub accepted : ℕ × Text → Option TunnelEndpoint
  accepted (status, body) =
      if leb 200 status && ltb status 300
      then and_then (backend.from_yaml body) (endpoint parse_ip)
      else none

  unfoldable pub resolve_tunnel_over_http : U → ℕ → Option Text → Option TunnelEndpoint
  unfolding endpoint
  resolve_tunnel_over_http base id authorization =
      if not (text_eq (backend.scheme base) (codes "http"))
      then none
      else and_then (backend.send base id (sent_authorization authorization)) accepted
