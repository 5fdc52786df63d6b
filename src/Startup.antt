-- ===== src/Startup.antt =====
-- wstunnel/src/lib.rs: what a client and a server do with their arguments when they start. Here the
-- tunnels that `create_client_tunnels` starts, which Startup/Create has; Startup/Config has what both make of the
-- other arguments.
pub mod Tunnels
pub mod Arguments
pub mod Config
pub mod Resolvers
pub mod ClientData
pub mod ClientConfig
pub mod Rules
pub mod Starting
pub mod Secure
pub mod Create
use wstunnel.Prelude.{
  ℕ, Bool, true, false, not, Option, none, some, List, [], ◌∷◌, ◌++◌, if◌then◌else◌,
}
use wstunnel.Net.{
  LocalProtocol, tcp, udp, stdio, tunnel_stdio, socks5, t_proxy_tcp, t_proxy_udp, http_proxy,
  reverse_tcp, reverse_udp, reverse_socks5, reverse_http_proxy, reverse_unix, unix, RemoteAddr,
  SocketAddr, Host, FilePath, Credentials, to_host_port,
}
use wstunnel.Cli.{LocalToRemote}

-- The end of a reverse tunnel at the client: a fixed host and port, or what the request names.
pub data Connector : Type 0 where
  tcp_connector udp_connector : Host → ℕ → Connector
  socks5_connector : Connector

-- The listeners, with the arguments they are made with.
pub data TunnelListener : Type 0 where
  tcp_listener : SocketAddr → Host × ℕ → Bool → TunnelListener
  t_proxy_tcp_listener : SocketAddr → TunnelListener
  unix_listener : FilePath → Host × ℕ → Bool → TunnelListener
  t_proxy_udp_listener : SocketAddr → Option ℕ → TunnelListener
  udp_listener : SocketAddr → Host × ℕ → Option ℕ → TunnelListener
  socks5_listener : SocketAddr → Option ℕ → Credentials → TunnelListener
  http_proxy_listener : SocketAddr → Option ℕ → Credentials → Bool → TunnelListener
  stdio_listener : Host × ℕ → Bool → TunnelListener
  tunnel_id_listener : Host × ℕ → Bool → Option ℕ → TunnelListener

-- The target of the build, `cfg(target_os = "linux")` and `cfg(unix)`.
pub record Platform : Type 0 where
  pub is_linux : Bool
  pub is_unix : Bool

-- A tunnel to run: `run_reverse_tunnel` or `run_tunnel` of the client.
pub data Tunnel : Type 0 where
  reverse : RemoteAddr → Connector → Tunnel
  forward : TunnelListener → Tunnel

-- What starting the tunnels comes to: a panic, an error of a listener, the end of the process after the
-- one tunnel that was run, or the tunnels to run.
pub data Start : Type 0 where
  panicked failed : Start
  exited : TunnelListener → Start
  tunnels : List Tunnel → Start

-- The remote that the server is asked to listen at.
unfoldable pub remote_of : LocalToRemote → RemoteAddr
remote_of tunnel = record {
  protocol = tunnel.local_protocol;
  host = (to_host_port tunnel.local).0;
  port = (to_host_port tunnel.local).1;
}

-- Each tunnel of `remote_to_local`: it is run, passed over, or a panic.
pub data Reversed : Type 0 where
  invalid skipped : Reversed
  runs : Tunnel → Reversed

abbrev pub by_tcp : LocalToRemote → Reversed
by_tcp tunnel = runs (reverse (remote_of tunnel) (tcp_connector tunnel.remote.0 tunnel.remote.1))

unfoldable pub reversed : LocalProtocol → LocalToRemote → Reversed
reversed reverse_tcp tunnel = by_tcp tunnel
reversed (reverse_udp timeout) tunnel =
    runs (reverse (remote_of tunnel) (udp_connector tunnel.remote.0 tunnel.remote.1))
reversed (reverse_socks5 timeout credentials) tunnel =
    runs (reverse (remote_of tunnel) socks5_connector)
reversed (reverse_http_proxy timeout credentials) tunnel = by_tcp tunnel
reversed (reverse_unix path) tunnel = by_tcp tunnel
reversed (unix path proxy_protocol) tunnel = invalid
reversed _ tunnel = skipped

-- Each tunnel of `local_to_remote`: it is passed over, a panic on this platform, or listens; one that reads the terminal is run at once, and then the process ends.
pub data Forwarded : Type 0 where
  passed unavailable : Forwarded
  listens reads_terminal : TunnelListener → Forwarded

unfoldable pub forwarded : Platform → LocalProtocol → LocalToRemote → Forwarded
forwarded platform (tcp proxy_protocol) tunnel =
    listens (tcp_listener tunnel.local tunnel.remote proxy_protocol)
forwarded platform t_proxy_tcp tunnel =
    if platform.is_linux then listens (t_proxy_tcp_listener tunnel.local) else unavailable
forwarded platform (unix path proxy_protocol) tunnel =
    if platform.is_unix
    then listens (unix_listener path tunnel.remote proxy_protocol)
    else unavailable
forwarded platform (t_proxy_udp timeout) tunnel =
    if platform.is_linux then listens (t_proxy_udp_listener tunnel.local timeout) else unavailable
forwarded platform (udp timeout) tunnel = listens (udp_listener tunnel.local tunnel.remote timeout)
forwarded platform (socks5 timeout credentials) tunnel =
    listens (socks5_listener tunnel.local timeout credentials)
forwarded platform (http_proxy timeout credentials proxy_protocol) tunnel =
    listens (http_proxy_listener tunnel.local timeout credentials proxy_protocol)
forwarded platform (stdio proxy_protocol) tunnel =
    reads_terminal (stdio_listener tunnel.remote proxy_protocol)
forwarded platform (tunnel_stdio proxy_protocol timeout) tunnel =
    reads_terminal (tunnel_id_listener tunnel.remote proxy_protocol timeout)
forwarded platform _ tunnel = passed

-- `opens` says which listeners can be made.
module _ (platform : Platform) (opens : TunnelListener → Bool) where
  -- The tunnels so far, and those from `local_to_remote`.
  unfoldable pub start_forwards : List Tunnel → List LocalToRemote → Start
  start_forwards started [] = tunnels started
  start_forwards started (tunnel ∷ rest) = elim (forwarded platform tunnel.local_protocol tunnel) [
    | unavailable ↦ panicked
    | passed ↦ start_forwards started rest
    | listens listener ↦
        let later = start_forwards (started ++ (forward listener ∷ [])) rest in
        if opens listener then later else failed
    | reads_terminal listener ↦ if opens listener then exited listener else failed
  ]

  unfoldable pub start_all : List Tunnel → List LocalToRemote → List LocalToRemote → Start
  start_all started [] local_to_remote = start_forwards started local_to_remote
  start_all started (tunnel ∷ rest) local_to_remote = elim (reversed tunnel.local_protocol tunnel) [
    | invalid ↦ panicked
    | skipped ↦ start_all started rest local_to_remote
    | runs t ↦ start_all (started ++ (t ∷ [])) rest local_to_remote
  ]
