-- ===== src/Net/Laws.antt =====
-- Laws of the addresses of wstunnel/src/tunnel/mod.rs.
use wstunnel.Prelude.{ℕ, ◌≡◌, true, some, arith}
use wstunnel.Net.{
  Host, domain, ipv4, ipv6, SocketAddr, to_host_port, try_to_sock_addr, LocalProtocol,
  is_reverse_tunnel, is_dynamic_reverse_tunnel,
}

-- A host and port that convert to a socket address are those that the address converts back to.
pub to_host_port-try_to_sock_addr :
    (h : Host) (port : ℕ) (a : SocketAddr)
    → try_to_sock_addr (h, port) ≡ some a
    → to_host_port a ≡ (h, port)
unfolding to_host_port try_to_sock_addr
to_host_port-try_to_sock_addr (domain _) port a e = cc
to_host_port-try_to_sock_addr (ipv4 ip) port a e = ground arith
to_host_port-try_to_sock_addr (ipv6 ip) port a e = ground arith

pub is_dynamic→is_reverse :
    (p : LocalProtocol) → is_dynamic_reverse_tunnel p ≡ true → is_reverse_tunnel p ≡ true
unfolding is_reverse_tunnel is_dynamic_reverse_tunnel
is_dynamic→is_reverse p e = ground arith
