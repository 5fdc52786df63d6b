-- ===== src/Request.antt =====
-- The parts of an upgrade request: the `extract_*` functions of
-- wstunnel/src/tunnel/server/utils.rs and the token of wstunnel/src/tunnel/transport/jwt.rs. A
-- header is its first value; one that is not visible ASCII is opaque.
pub mod Token
use wstunnel.Prelude.{
  ℕ, Option, none, some, Text, codes, ◌++◌, ◌==◌, if◌then◌else◌, split_once, split_once_char,
  or_else, unwrap_or, [], and_then,
}
use wstunnel.Net.{
  IpAddr, v4, v6, Host, SocketAddr, sock_v4, sock_v6, LocalProtocol, tcp, udp, stdio, tunnel_stdio,
  socks5, t_proxy_tcp, t_proxy_udp, http_proxy, reverse_tcp, reverse_udp, reverse_socks5,
  reverse_http_proxy, reverse_unix, unix, RemoteAddr,
}
use mathlib.Core.Option

pub data HeaderValue : Type 0 where
  ascii opaque : Text → HeaderValue

-- `HeaderValue::to_str`, `none` for its error.
abbrev pub header_text : HeaderValue → Option Text
header_text (ascii s) = some s
header_text (opaque b) = none

pub record HttpRequest : Type 0 where
  pub path : Text
  pub authorization : Option HeaderValue
  pub x_forwarded_for : Option HeaderValue
  pub sec_websocket_protocol : Option HeaderValue
  pub cookie : Option HeaderValue

unfoldable pub extract_authorization : HttpRequest → Option Text
extract_authorization req = and_then req.authorization header_text

-- The first address of the header's list, if it is one.
unfoldable pub extract_x_forwarded_for :
    (Text → Option IpAddr) → HttpRequest → Option (IpAddr × Text)
extract_x_forwarded_for parse_ip req = and_then req.x_forwarded_for λ header.
    let whole = unwrap_or (header_text header) [] in
    let first =
      unwrap_or (Option.map (λ (t : Text × Text). t.0) (split_once_char b',' whole)) whole in
    Option.map (λ (ip : IpAddr). (ip, first)) (parse_ip first)

-- `SocketAddr::set_ip`: a V6 address that stays V6 keeps its flow information and scope.
abbrev pub set_ip : SocketAddr → IpAddr → SocketAddr
set_ip (sock_v4 ip port) (v4 new) = sock_v4 new port
set_ip (sock_v4 ip port) (v6 new) = sock_v6 new port 0 0
set_ip (sock_v6 ip port flow scope) (v4 new) = sock_v4 new port
set_ip (sock_v6 ip port flow scope) (v6 new) = sock_v6 new port flow scope

abbrev pub jwt_header_prefix : Text
jwt_header_prefix = codes "authorization.bearer."

-- The claims of a token.
pub record JwtTunnelConfig : Type 0 where
  pub id : Text
  pub p : LocalProtocol
  pub r : Text
  pub rp : ℕ

-- The token of the request, before it is decoded: from the WebSocket protocol header, else from the
-- cookie, else empty.
unfoldable pub request_token : HttpRequest → Text
request_token req =
    unwrap_or
      (or_else
        (Option.map (λ (t : Text × Text). t.1)
          (and_then (and_then req.sec_websocket_protocol header_text)
            (split_once jwt_header_prefix)))
        (and_then req.cookie header_text))
      []

-- `decode` stands for `jsonwebtoken::decode`, which is told not to check the signature.
unfoldable pub extract_tunnel_info :
    (Text → Option JwtTunnelConfig) → HttpRequest → Option JwtTunnelConfig
unfolding request_token
extract_tunnel_info decode req = decode (request_token req)

-- The protocols that a token can carry: any other is `unreachable!`.
abbrev pub sendable : LocalProtocol → Option LocalProtocol
sendable t_proxy_tcp = none
sendable (t_proxy_udp timeout) = none
sendable (stdio proxy_protocol) = none
sendable (unix path proxy_protocol) = none
sendable (socks5 timeout credentials) = none
sendable (http_proxy timeout credentials proxy_protocol) = none
sendable q = some q

-- `JwtTunnelConfig::new`; `none` is the panic of a protocol that is no destination. `show` stands for
-- the text of a host (crate `url`).
unfoldable pub new_config : (Host → Text) → Text → RemoteAddr → Option JwtTunnelConfig
new_config show request_id dest =
    Option.map
      (λ (p : LocalProtocol). record { id = request_id; p = p; r = show dest.host; rp = dest.port })
      (sendable dest.protocol)

-- `TryFrom<JwtTunnelConfig>`; `parse` stands for `Host::parse`.
unfoldable pub try_from : (Text → Option Host) → JwtTunnelConfig → Option RemoteAddr
try_from parse jwt =
    Option.map (λ (h : Host). record { protocol = jwt.p; host = h; port = jwt.rp }) (parse jwt.r)
