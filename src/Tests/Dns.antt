-- ===== src/Tests/Dns.antt =====
-- Three addresses of a host.
use wstunnel.Prelude.{◌≡◌, refl, true, List, [], ◌∷◌}
use wstunnel.Net.{SocketAddr, sock_v4, sock_v6}
use wstunnel.Dns.{sort_socket_addrs}

abbrev addrs : List SocketAddr
addrs = sock_v4 1 80 ∷ sock_v4 2 80 ∷ sock_v6 3 80 0 0 ∷ []

sorted : sort_socket_addrs addrs true ≡ sock_v6 3 80 0 0 ∷ sock_v4 1 80 ∷ sock_v4 2 80 ∷ []
unfolding sort_socket_addrs
sorted = refl
