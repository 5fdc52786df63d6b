-- ===== src/Net.antt =====
-- wstunnel/src/tunnel/mod.rs: addresses and the protocols of a tunnel. An IPv4 address is a number
-- below 2^32, an IPv6 address one below 2^128, a duration a number of nanoseconds.
pub mod Laws
use wstunnel.Prelude.{ℕ, Bool, true, false, Option, none, some, Text}

pub data IpAddr : Type 0 where
  v4 v6 : ℕ → IpAddr

-- `url::Host`.
pub data Host : Type 0 where
  domain : Text → Host
  ipv4 ipv6 : ℕ → Host

-- `std::net::SocketAddr`; a V6 address carries its flow information and scope.
pub data SocketAddr : Type 0 where
  sock_v4 : ℕ → ℕ → SocketAddr
  sock_v6 : ℕ → ℕ → ℕ → ℕ → SocketAddr

-- `PathBuf`: the text if the path is UTF-8, else its bytes.
pub data FilePath : Type 0 where
  utf8 bytes : Text → FilePath

abbrev pub to_str : FilePath → Option Text
to_str (utf8 s) = some s
to_str (bytes b) = none

abbrev pub Credentials : Type 0
Credentials = Option (Text × Text)

pub data LocalProtocol : Type 0 where
  tcp : Bool → LocalProtocol
  udp : Option ℕ → LocalProtocol
  stdio : Bool → LocalProtocol
  tunnel_stdio : Bool → Option ℕ → LocalProtocol
  socks5 : Option ℕ → Credentials → LocalProtocol
  t_proxy_tcp : LocalProtocol
  t_proxy_udp : Option ℕ → LocalProtocol
  http_proxy : Option ℕ → Credentials → Bool → LocalProtocol
  reverse_tcp : LocalProtocol
  reverse_udp : Option ℕ → LocalProtocol
  reverse_socks5 : Option ℕ → Credentials → LocalProtocol
  reverse_http_proxy : Option ℕ → Credentials → LocalProtocol
  reverse_unix : FilePath → LocalProtocol
  unix : FilePath → Bool → LocalProtocol

unfoldable pub is_reverse_tunnel : LocalProtocol → Bool
is_reverse_tunnel reverse_tcp = true
is_reverse_tunnel (reverse_udp _) = true
is_reverse_tunnel (reverse_socks5 _ _) = true
is_reverse_tunnel (reverse_unix _) = true
is_reverse_tunnel (reverse_http_proxy _ _) = true
is_reverse_tunnel _ = false

unfoldable pub is_dynamic_reverse_tunnel : LocalProtocol → Bool
is_dynamic_reverse_tunnel (reverse_socks5 _ _) = true
is_dynamic_reverse_tunnel (reverse_http_proxy _ _) = true
is_dynamic_reverse_tunnel _ = false

pub record RemoteAddr : Type 0 where
  pub protocol : LocalProtocol
  pub host : Host
  pub port : ℕ

unfoldable pub to_host_port : SocketAddr → Host × ℕ
to_host_port (sock_v4 ip port) = (ipv4 ip, port)
to_host_port (sock_v6 ip port flow scope) = (ipv6 ip, port)

unfoldable pub try_to_sock_addr : Host × ℕ → Option SocketAddr
try_to_sock_addr (domain _, port) = none
try_to_sock_addr (ipv4 ip, port) = some (sock_v4 ip port)
try_to_sock_addr (ipv6 ip, port) = some (sock_v6 ip port 0 0)
