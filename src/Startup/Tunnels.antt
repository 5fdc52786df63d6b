-- ===== src/Startup/Tunnels.antt =====
-- The tunnels that a client runs for the arguments it was given.
use wstunnel.Prelude.{
  ℕ, ◌≡◌, ◌⊎◌, inl, inr, if◌then◌else◌, refl, sym, ap, Bool, true, false, Option, none, some, List,
  [], ◌∷◌, ◌++◌,
}
use wstunnel.Net.{
  LocalProtocol, tcp, udp, stdio, tunnel_stdio, socks5, t_proxy_tcp, t_proxy_udp, http_proxy,
  reverse_tcp, reverse_udp, reverse_socks5, reverse_http_proxy, reverse_unix, unix, SocketAddr,
  FilePath, Host, to_host_port, is_reverse_tunnel,
}
use wstunnel.Cli.{LocalToRemote}
use wstunnel.Startup.{
  Connector, tcp_connector, udp_connector, socks5_connector, TunnelListener, tcp_listener,
  t_proxy_tcp_listener, unix_listener, t_proxy_udp_listener, udp_listener, socks5_listener,
  http_proxy_listener, stdio_listener, tunnel_id_listener, Tunnel, reverse, forward, remote_of,
  runs, reversed, Forwarded, passed, unavailable, Platform, listens, reads_terminal, forwarded,
}

-- The protocol that a listener speaks, with its options.
abbrev pub protocol_of : TunnelListener → LocalProtocol
protocol_of (tcp_listener local remote proxy_protocol) = tcp proxy_protocol
protocol_of (t_proxy_tcp_listener local) = t_proxy_tcp
protocol_of (unix_listener path remote proxy_protocol) = unix path proxy_protocol
protocol_of (t_proxy_udp_listener local timeout) = t_proxy_udp timeout
protocol_of (udp_listener local remote timeout) = udp timeout
protocol_of (socks5_listener local timeout credentials) = socks5 timeout credentials
protocol_of (http_proxy_listener local timeout credentials pp) = http_proxy timeout credentials pp
protocol_of (stdio_listener remote proxy_protocol) = stdio proxy_protocol
protocol_of (tunnel_id_listener remote proxy_protocol timeout) = tunnel_stdio proxy_protocol timeout

-- The address it listens at, and the destination it sends to, where it has one.
abbrev pub bind_of : TunnelListener → Option SocketAddr
bind_of (tcp_listener local remote proxy_protocol) = some local
bind_of (t_proxy_tcp_listener local) = some local
bind_of (t_proxy_udp_listener local timeout) = some local
bind_of (udp_listener local remote timeout) = some local
bind_of (socks5_listener local timeout credentials) = some local
bind_of (http_proxy_listener local timeout credentials proxy_protocol) = some local
bind_of _ = none

abbrev pub destination_of : TunnelListener → Option (Host × ℕ)
destination_of (tcp_listener local remote proxy_protocol) = some remote
destination_of (unix_listener path remote proxy_protocol) = some remote
destination_of (udp_listener local remote timeout) = some remote
destination_of (stdio_listener remote proxy_protocol) = some remote
destination_of (tunnel_id_listener remote proxy_protocol timeout) = some remote
destination_of _ = none

abbrev pub target_of : Connector → Option (Host × ℕ)
target_of (tcp_connector host port) = some (host, port)
target_of (udp_connector host port) = some (host, port)
target_of socks5_connector = none

abbrev pub is_udp_connector : Connector → Bool
is_udp_connector (udp_connector host port) = true
is_udp_connector _ = false

abbrev pub is_reverse_udp : LocalProtocol → Bool
is_reverse_udp (reverse_udp _) = true
is_reverse_udp _ = false

-- Nothing, or this.
abbrev pub AtMost : {A : Type 0} → A → Option A → Type 0
AtMost a none = Unit
AtMost a (some b) = b ≡ a

abbrev pub ListensFor : LocalToRemote → TunnelListener → Type 0
ListensFor t l =
    (protocol_of l ≡ t.local_protocol)
    × AtMost t.local (bind_of l)
    × AtMost t.remote (destination_of l)

-- The tunnel that runs for an argument: for a reverse one the server is asked to listen at its local
-- address with its protocol, and the client connects to its remote; for another one a listener.
abbrev pub Serves : LocalToRemote → Tunnel → Type 0
Serves t (reverse remote connector) =
    (is_reverse_tunnel t.local_protocol ≡ true)
    × (remote.protocol ≡ t.local_protocol)
    × ((remote.host, remote.port) ≡ to_host_port t.local)
    × (is_udp_connector connector ≡ is_reverse_udp t.local_protocol)
    × AtMost t.remote (target_of connector)
Serves t (forward l) = (is_reverse_tunnel t.local_protocol ≡ false) × ListensFor t l

abbrev pub Pairwise : {A B : Type 0} → (A → B → Type 0) → List A → List B → Type 0
Pairwise R [] [] = Unit
Pairwise R [] (b ∷ ys) = ⊥
Pairwise R (a ∷ xs) [] = ⊥
Pairwise R (a ∷ xs) (b ∷ ys) = R a b × Pairwise R xs ys

pub Pairwise-snoc :
    {A B : Type 0} (R : A → B → Type 0) (xs : List A) (ys : List B) (a : A) (b : B)
    → Pairwise R xs ys
    → R a b
    → Pairwise R (xs ++ (a ∷ [])) (ys ++ (b ∷ []))
Pairwise-snoc R [] [] a b h r = (r, tt)
Pairwise-snoc R [] (y ∷ ys) a b h r = absurd h
Pairwise-snoc R (x ∷ xs) [] a b h r = absurd h
Pairwise-snoc R (x ∷ xs) (y ∷ ys) a b (k, h) r = (k, Pairwise-snoc R xs ys a b h r)

pub reversed-Serves :
    (p : LocalProtocol) (t : LocalToRemote)
    → t.local_protocol ≡ p
    → is_reverse_tunnel p ≡ true
    → (tunnel : Tunnel) × (reversed p t ≡ runs tunnel) × Serves t tunnel
unfolding reversed is_reverse_tunnel remote_of
reversed-Serves reverse_tcp t same turned =
    (_, refl, (ap is_reverse_tunnel same, refl, refl, sym (ap is_reverse_udp same), refl))
reversed-Serves (reverse_udp timeout) t same turned =
    (_, refl, (ap is_reverse_tunnel same, refl, refl, sym (ap is_reverse_udp same), refl))
reversed-Serves (reverse_socks5 timeout credentials) t same turned =
    (_, refl, (ap is_reverse_tunnel same, refl, refl, sym (ap is_reverse_udp same), tt))
reversed-Serves (reverse_http_proxy timeout credentials) t same turned =
    (_, refl, (ap is_reverse_tunnel same, refl, refl, sym (ap is_reverse_udp same), refl))
reversed-Serves (reverse_unix path) t same turned =
    (_, refl, (ap is_reverse_tunnel same, refl, refl, sym (ap is_reverse_udp same), refl))
reversed-Serves (tcp _) t same turned = cc
reversed-Serves (udp _) t same turned = cc
reversed-Serves (stdio _) t same turned = cc
reversed-Serves (tunnel_stdio _ _) t same turned = cc
reversed-Serves (socks5 _ _) t same turned = cc
reversed-Serves t_proxy_tcp t same turned = cc
reversed-Serves (t_proxy_udp _) t same turned = cc
reversed-Serves (http_proxy _ _ _) t same turned = cc
reversed-Serves (unix _ _) t same turned = cc

-- The protocol of the argument has no listener on the platform.
abbrev pub Unavailable : Platform → LocalToRemote → Type 0
Unavailable platform t =
    ((platform.is_linux ≡ false)
      × ((t.local_protocol ≡ t_proxy_tcp)
          ⊎ ((timeout : Option ℕ) × (t.local_protocol ≡ t_proxy_udp timeout))))
    ⊎ ((platform.is_unix ≡ false)
        × (path : FilePath) × (b : Bool) × (t.local_protocol ≡ unix path b))

-- A listener for the argument, to run with the others or to read the terminal.
abbrev pub Listened : Platform → LocalToRemote → Forwarded → Type 0
Listened platform t passed = ⊥
Listened platform t unavailable = Unavailable platform t
Listened platform t (listens l) = ListensFor t l
Listened platform t (reads_terminal l) = ListensFor t l

by_platform :
    (b : Bool) (platform : Platform) (t : LocalToRemote) (l : TunnelListener)
    → (b ≡ false → Unavailable platform t)
    → ListensFor t l
    → Listened platform t (if b then listens l else unavailable)
by_platform true platform t l no_listener good = good
by_platform false platform t l no_listener good = no_listener refl

pub forwarded-Listened :
    (platform : Platform) (p : LocalProtocol) (t : LocalToRemote)
    → t.local_protocol ≡ p
    → is_reverse_tunnel p ≡ false
    → Listened platform t (forwarded platform p t)
unfolding forwarded is_reverse_tunnel
forwarded-Listened platform (tcp _) t same no_reverse = (sym same, refl, refl)
forwarded-Listened platform (udp _) t same no_reverse = (sym same, refl, refl)
forwarded-Listened platform (stdio _) t same no_reverse = (sym same, tt, refl)
forwarded-Listened platform (tunnel_stdio _ _) t same no_reverse = (sym same, tt, refl)
forwarded-Listened platform (socks5 _ _) t same no_reverse = (sym same, refl, tt)
forwarded-Listened platform t_proxy_tcp t same no_reverse =
    by_platform platform.is_linux platform t _ (λ no_linux. inl (no_linux, inl same))
      (sym same, refl, tt)
forwarded-Listened platform (t_proxy_udp timeout) t same no_reverse =
    by_platform platform.is_linux platform t _ (λ no_linux. inl (no_linux, inr (timeout, same)))
      (sym same, refl, tt)
forwarded-Listened platform (http_proxy _ _ _) t same no_reverse = (sym same, refl, tt)
forwarded-Listened platform (unix path b) t same no_reverse =
    by_platform platform.is_unix platform t _ (λ no_unix. inr (no_unix, path, b, same))
      (sym same, tt, refl)
forwarded-Listened platform reverse_tcp t same no_reverse = cc
forwarded-Listened platform (reverse_udp _) t same no_reverse = cc
forwarded-Listened platform (reverse_socks5 _ _) t same no_reverse = cc
forwarded-Listened platform (reverse_http_proxy _ _) t same no_reverse = cc
forwarded-Listened platform (reverse_unix _) t same no_reverse = cc
