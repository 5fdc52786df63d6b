-- ===== src/Cli/Args.antt =====
-- `parse_tunnel_arg` and `parse_reverse_tunnel_arg`.
use wstunnel.Prelude.{
  ℕ, ◌*◌, Bool, Option, none, some, unwrap_or, and_then, is_some, List, [], ◌++◌, Text, codes,
  text_eq, split_once, split_once_char, trim, parse_uint, lookup, text_keys, is_empty,
  if◌then◌else◌, ◌==◌,
}
use wstunnel.Prelude.Results.{Result, ok, err, ◌>>=◌, ok_or}
use mathlib.Core.Option
use wstunnel.Net.{
  domain, SocketAddr, sock_v4, sock_v6, utf8, LocalProtocol, tcp, udp, stdio, tunnel_stdio, socks5,
  t_proxy_tcp, t_proxy_udp, http_proxy, unix, reverse_tcp, reverse_udp, reverse_socks5,
  reverse_http_proxy, reverse_unix, Credentials,
}
use wstunnel.Cli.{
  ArgError, invalid_input, Urls, IpParsers, Options, collect_options, LocalToRemote,
  parse_local_bind, parse_tunnel_dest,
}

abbrev pub from_secs : ℕ → ℕ
from_secs d = d * 1_000_000_000

-- Thirty seconds, unless the option is a number; 0 is no timeout.
unfoldable pub get_timeout : Options → Option ℕ
get_timeout options =
    unwrap_or
      (Option.map (λ (d : ℕ). if d == 0 then none else some (from_secs d))
        (and_then (lookup (codes "timeout_sec") options) (parse_uint 18446744073709551616)))
      (some (from_secs 30))

unfoldable pub get_credentials : Options → Credentials
get_credentials options =
    and_then (lookup (codes "login") options)
      λ login. Option.map (λ (p : Text). (login, p)) (lookup (codes "password") options)

abbrev pub get_proxy_protocol : Options → Bool
get_proxy_protocol options = is_some (lookup (codes "proxy_protocol") options)

abbrev pub no_local : SocketAddr
no_local = sock_v4 0 0

-- `url::form_urlencoded::parse` and `Uuid::parse_str`, of which only success counts.
pub record ArgParsers : Type 0 where
  pub form_pairs : Text → List (Text × Text)
  pub is_uuid : Text → Bool

-- The reverse of a local protocol, if it has one.
unfoldable pub reverse_protocol : LocalProtocol → Result ArgError LocalProtocol
reverse_protocol (tcp proxy_protocol) = ok reverse_tcp
reverse_protocol (udp timeout) = ok (reverse_udp timeout)
reverse_protocol (socks5 timeout credentials) = ok (reverse_socks5 timeout credentials)
reverse_protocol (http_proxy timeout credentials proxy_protocol) =
    ok (reverse_http_proxy timeout credentials)
reverse_protocol (unix path proxy_protocol) = ok (reverse_unix path)
reverse_protocol _ = err invalid_input

module _ {U : Type 0} (ips : IpParsers) (urls : Urls U) (parsers : ArgParsers) where
  -- A local address, then a destination.
  unfoldable pub bound : (Options → LocalProtocol) → Text → Result ArgError LocalToRemote
  bound protocol tunnel_info = do
    bind ← parse_local_bind ips tunnel_info
    dest ← parse_tunnel_dest urls bind.1
    ok (record { local_protocol = protocol dest.2; local = bind.0; remote = (dest.0, dest.1) })

  -- A local address, then options alone: the destination is dynamic.
  unfoldable pub dynamic : (Options → LocalProtocol) → Text → Result ArgError LocalToRemote
  dynamic protocol tunnel_info = do
    bind ← parse_local_bind ips tunnel_info
    dest ← parse_tunnel_dest urls (codes "0.0.0.0:0?" ++ bind.1)
    ok (record { local_protocol = protocol dest.2; local = bind.0; remote = (dest.0, dest.1) })

  unfoldable pub unix_arg : Text → Result ArgError LocalToRemote
  unix_arg tunnel_info = do
    parts ← ok_or (split_once_char b':' tunnel_info) invalid_input
    dest ← parse_tunnel_dest urls parts.1
    ok (record {
      local_protocol = unix (utf8 parts.0) (get_proxy_protocol dest.2);
      local = sock_v6 0 0 0 0;
      remote = (dest.0, dest.1);
    })

  unfoldable pub stdio_arg : Text → Result ArgError LocalToRemote
  stdio_arg tunnel_info = do
    dest ← parse_tunnel_dest urls tunnel_info
    ok (record {
      local_protocol = stdio (get_proxy_protocol dest.2);
      local = no_local;
      remote = (dest.0, dest.1);
    })

  -- `tunnel://{uuid}?proxy_protocol&timeout_sec=10`
  unfoldable pub tunnel_id_arg : Text → Result ArgError LocalToRemote
  unfolding get_timeout
  tunnel_id_arg tunnel_info =
      let parts = unwrap_or (split_once_char b'?' tunnel_info) (tunnel_info, []) in
      let id = trim parts.0 in
      let options =
        if is_empty parts.1 then [] else collect_options [] (parsers.form_pairs parts.1) in
      if parsers.is_uuid id
      then ok (record {
        local_protocol = tunnel_stdio (get_proxy_protocol options) (get_timeout options);
        local = no_local;
        remote = (domain id, 0);
      })
      else err invalid_input

  -- By the protocol of the argument.
  unfoldable pub tunnel_of : Text → Text → Result ArgError LocalToRemote
  unfolding get_timeout get_credentials bound dynamic unix_arg stdio_arg tunnel_id_arg
  tunnel_of proto info =
      if text_eq proto (codes "tcp")
      then bound (λ o. tcp (get_proxy_protocol o)) info
      else if text_eq proto (codes "udp")
      then bound (λ o. udp (get_timeout o)) info
      else if text_eq proto (codes "unix")
      then unix_arg info
      else if text_eq proto (codes "http")
      then dynamic (λ o. http_proxy (get_timeout o) (get_credentials o) (get_proxy_protocol o)) info
      else if text_eq proto (codes "socks5")
      then dynamic (λ o. socks5 (get_timeout o) (get_credentials o)) info
      else if text_eq proto (codes "stdio")
      then stdio_arg info
      else if text_eq proto (codes "tunnel")
      then tunnel_id_arg info
      else if text_eq proto (codes "tproxy+tcp")
      then dynamic (λ o. t_proxy_tcp) info
      else if text_eq proto (codes "tproxy+udp")
      then dynamic (λ o. t_proxy_udp (get_timeout o)) info
      else err invalid_input

  unfoldable pub parse_tunnel_arg : Text → Result ArgError LocalToRemote
  unfolding tunnel_of
  parse_tunnel_arg arg = do
    parts ← ok_or (split_once (codes "://") arg) invalid_input
    tunnel_of parts.0 parts.1

  unfoldable pub parse_reverse_tunnel_arg : Text → Result ArgError LocalToRemote
  unfolding reverse_protocol
  parse_reverse_tunnel_arg arg = do
    proto ← parse_tunnel_arg arg
    local_protocol ← reverse_protocol proto.local_protocol
    ok (record { local_protocol = local_protocol; local = proto.local; remote = proto.remote })
