-- ===== src/Server/Serves.antt =====
-- The actions of an accepted tunnel: `exec_tunnel` of wstunnel/src/tunnel/server/server.rs.
use wstunnel.Prelude.{ℕ, ◌≡◌, refl, ap, ◌∙◌, Bool, true, false, Option, none, some, unwrap_or}
use wstunnel.Net.{
  SocketAddr, LocalProtocol, tcp, udp, reverse_tcp, reverse_udp, reverse_socks5, reverse_http_proxy,
  reverse_unix, RemoteAddr, is_reverse_tunnel, try_to_sock_addr,
}
use wstunnel.Restrictions.{RestrictionConfig}
use wstunnel.Access.{find_mapped_port}
use wstunnel.Server.Monad.{
  Listener, tcp_listener, udp_listener, socks5_listener, http_listener, unix_listener, Action,
  resolve, dial_udp, dial_tcp, send_header, listen, Env, ◌>>=◌, pure, lift, perform,
}
use wstunnel.Server.Exec.{
  exec_tunnel, exec_protocol, run_listening_server, default_timeout, proxy_header, dial_udp_direct,
}
use wstunnel.Server.Effects.{Adds, Adds-perform, Adds-bind, Adds-lift_bind}

-- What an action of a tunnel to `remote`, accepted by `r`, may be.
abbrev pub Serves : {U R N : Type 0} → RemoteAddr → RestrictionConfig R N → Action U → Type 0
Serves remote r (resolve id auth) = ⊥
Serves remote r (dial_udp host port timeout) =
    (is_reverse_tunnel remote.protocol ≡ false) × (host ≡ remote.host) × (port ≡ remote.port)
Serves remote r (dial_tcp host port proxy) =
    (is_reverse_tunnel remote.protocol ≡ false) × (host ≡ remote.host) × (port ≡ remote.port)
Serves remote r (send_header client local) = remote.protocol ≡ tcp true
Serves remote r (listen (unix_listener path) bind) = remote.protocol ≡ reverse_unix path
Serves remote r (listen kind bind) =
    (is_reverse_tunnel remote.protocol ≡ true)
    × (try_to_sock_addr (remote.host, find_mapped_port remote.port r) ≡ some bind)

module _ {U R N : Type 0} (env : Env U) (P : Action U → Type 0) (r : RestrictionConfig R N)
    (remote : RemoteAddr) (client : SocketAddr) where
  listening-Adds :
      (kind : Listener) (o : Option SocketAddr)
      → ((bind : SocketAddr) → o ≡ some bind → P (listen kind bind))
      → Adds P (lift o >>= run_listening_server env kind)
  listening-Adds kind o served = Adds-lift_bind P o (run_listening_server env kind) λ bind e.
      Adds-bind P (perform (listen kind bind) (env.accept (listen kind bind)))
        (λ cnx. pure (cnx.1, cnx.0))
        (Adds-perform P (listen kind bind) (env.accept (listen kind bind)) (served bind e))
        (λ cnx w h. h)

  direct-Adds : (o : Option U) (a : Action U) → P a → Adds P (dial_udp_direct env o a)
  direct-Adds none a p = Adds-perform P a (env.connect a) p
  direct-Adds (some url) a p = λ w h. h

  header-Adds :
      (asked : Bool) (stream : ℕ)
      → (asked ≡ true → (local : SocketAddr) → P (send_header client local))
      → Adds P (proxy_header env asked client stream)
  header-Adds false stream served = λ w h. h
  header-Adds true stream served = Adds-lift_bind P (env.local_addr stream) _ λ local _.
      Adds-lift_bind P (env.header client local) _
        λ header _. Adds-perform P (send_header client local) (some tt) (served refl local)

  exec_protocol-Adds :
      (p : LocalProtocol)
      → remote.protocol ≡ p
      → ((a : Action U) → Serves remote r a → P a)
      → Adds P (exec_protocol env r remote client p)
  unfolding is_reverse_tunnel
  exec_protocol-Adds (udp timeout) e served =
      let dial = dial_udp remote.host remote.port (unwrap_or timeout default_timeout) in
      Adds-bind P (dial_udp_direct env env.proxy dial) _
        (direct-Adds env.proxy dial (served dial (ap is_reverse_tunnel e, refl, refl)))
        (λ stream w h. h)
  exec_protocol-Adds (tcp proxy_protocol) e served =
      let dial = dial_tcp remote.host remote.port env.proxy in
      Adds-bind P (perform dial (env.connect dial)) _
        (Adds-perform P dial (env.connect dial) (served dial (ap is_reverse_tunnel e, refl, refl)))
        λ stream.
          Adds-bind P (proxy_header env proxy_protocol client stream) _
            (header-Adds proxy_protocol stream
              (λ asked local. served (send_header client local) (e ∙ ap tcp asked)))
            (λ _ w h. h)
  exec_protocol-Adds reverse_tcp e served =
      listening-Adds tcp_listener _ λ bind b. served _ (ap is_reverse_tunnel e, b)
  exec_protocol-Adds (reverse_udp timeout) e served =
      listening-Adds (udp_listener timeout) _ λ bind b. served _ (ap is_reverse_tunnel e, b)
  exec_protocol-Adds (reverse_socks5 timeout cred) e served =
      listening-Adds (socks5_listener timeout cred) _ λ bind b. served _ (ap is_reverse_tunnel e, b)
  exec_protocol-Adds (reverse_http_proxy timeout cred) e served =
      listening-Adds (http_listener timeout cred) _ λ bind b. served _ (ap is_reverse_tunnel e, b)
  exec_protocol-Adds (reverse_unix path) e served =
      listening-Adds (unix_listener path) _ λ bind b. served (listen (unix_listener path) bind) e
  exec_protocol-Adds _ e served = λ w h. h

  -- `exec_tunnel` adds only actions that serve the tunnel.
  pub exec_tunnel-Adds :
      ((a : Action U) → Serves remote r a → P a) → Adds P (exec_tunnel env r remote client)
  unfolding exec_tunnel
  exec_tunnel-Adds served = exec_protocol-Adds remote.protocol refl served
