-- ===== src/Server/Exec.antt =====
-- `exec_tunnel`: the connection of an accepted tunnel.
use wstunnel.Prelude.{ℕ, ◌*◌, Bool, true, false, Option, none, some, unwrap_or}
use wstunnel.Net.{
  ipv6, SocketAddr, LocalProtocol, tcp, udp, reverse_tcp, reverse_udp, reverse_socks5,
  reverse_http_proxy, reverse_unix, RemoteAddr, try_to_sock_addr,
}
use wstunnel.Restrictions.{RestrictionConfig}
use wstunnel.Access.{find_mapped_port}
use wstunnel.Server.Monad.{
  Listener, tcp_listener, udp_listener, socks5_listener, http_listener, unix_listener, Action,
  dial_udp, dial_tcp, send_header, listen, Env, M, ◌>>=◌, ◌>>◌, pure, fail, lift, perform,
}

-- Ten seconds.
abbrev pub default_timeout : ℕ
default_timeout = 10 * 1_000_000_000

module _ {U : Type 0} (env : Env U) where
  -- Writes the header if the client asked for it; the outcome of the write is ignored.
  abbrev pub proxy_header : Bool → SocketAddr → ℕ → M U (Unit {0})
  proxy_header false client stream = pure tt
  proxy_header true client stream = do
    local ← lift (env.local_addr stream)
    header ← lift (env.header client local)
    perform (send_header client local) (some tt)

  -- No UDP through an HTTP proxy.
  abbrev pub dial_udp_direct : Option U → Action U → M U ℕ
  dial_udp_direct none a = perform a (env.connect a)
  dial_udp_direct (some url) a = fail

  abbrev pub run_listening_server : Listener → SocketAddr → M U (RemoteAddr × ℕ)
  run_listening_server kind bind = do
    cnx ← perform (listen kind bind) (env.accept (listen kind bind))
    pure (cnx.1, cnx.0)

  -- The listener of a reverse tunnel, on the requested address and the mapped port.
  abbrev pub exec_reverse :
      {R N : Type 0} → Listener → RestrictionConfig R N → RemoteAddr → M U (RemoteAddr × ℕ)
  exec_reverse kind restriction remote = do
    bind ← lift (try_to_sock_addr (remote.host, find_mapped_port remote.port restriction))
    run_listening_server kind bind

  -- By the protocol of `remote`.
  abbrev pub exec_protocol :
      {R N : Type 0}
      → RestrictionConfig R N
      → RemoteAddr
      → SocketAddr
      → LocalProtocol
      → M U (RemoteAddr × ℕ)
  exec_protocol restriction remote client (udp timeout) = do
    stream ←
        dial_udp_direct env.proxy
          (dial_udp remote.host remote.port (unwrap_or timeout default_timeout))
    pure (remote, stream)
  exec_protocol restriction remote client (tcp proxy_protocol) = do
    stream ←
        perform (dial_tcp remote.host remote.port env.proxy)
          (env.connect (dial_tcp remote.host remote.port env.proxy))
    proxy_header proxy_protocol client stream
    pure (remote, stream)
  exec_protocol restriction remote client reverse_tcp = exec_reverse tcp_listener restriction remote
  exec_protocol restriction remote client (reverse_udp timeout) =
      exec_reverse (udp_listener timeout) restriction remote
  exec_protocol restriction remote client (reverse_socks5 timeout credentials) =
      exec_reverse (socks5_listener timeout credentials) restriction remote
  exec_protocol restriction remote client (reverse_http_proxy timeout credentials) =
      exec_reverse (http_listener timeout credentials) restriction remote
  exec_protocol restriction remote client (reverse_unix path) = do
    bind ← lift (try_to_sock_addr (ipv6 (env.hash_path path), 0))
    run_listening_server (unix_listener path) bind
  exec_protocol restriction remote client _ = fail

  unfoldable pub exec_tunnel :
      {R N : Type 0} → RestrictionConfig R N → RemoteAddr → SocketAddr → M U (RemoteAddr × ℕ)
  exec_tunnel restriction remote client = exec_protocol restriction remote client remote.protocol
