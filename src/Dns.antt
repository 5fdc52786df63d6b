-- ===== src/Dns.antt =====
-- wstunnel/src/protocols/dns/resolver.rs: the order in which the addresses of a host are tried. The
-- lookups are parameters.
pub mod Order
use wstunnel.Prelude.{
  ℕ, zero, suc, ◌+◌, Bool, true, false, not, Option, none, some, List, [], ◌∷◌, map, length,
  filter_by, Text, if◌then◌else◌,
}
use mathlib.Core.Option
use wstunnel.Net.{IpAddr, v4, v6, SocketAddr, sock_v4, sock_v6}

abbrev pub is_v6 : SocketAddr → Bool
is_v6 (sock_v4 ip port) = false
is_v6 (sock_v6 ip port flow scope) = true

-- The items of two iterators in turn, `first.next().or_else(|| second.next())`, which swap at each
-- item; the fuel is the number of items.
unfoldable pub take_turns : {A : Type 0} → ℕ → List A → List A → List A
take_turns zero first second = []
take_turns (suc n) (x ∷ first) second = x ∷ take_turns n second first
take_turns (suc n) [] (y ∷ second) = y ∷ take_turns n second []
take_turns (suc n) [] [] = []

unfoldable pub sort_socket_addrs : List SocketAddr → Bool → List SocketAddr
unfolding take_turns
sort_socket_addrs addrs prefer_ipv6 =
    let sixes = filter_by is_v6 addrs in
    let fours = filter_by (λ a. not (is_v6 a)) addrs in
    if prefer_ipv6
    then take_turns (length addrs) sixes fours
    else take_turns (length addrs) fours sixes

abbrev pub with_port : ℕ → IpAddr → SocketAddr
with_port port (v4 ip) = sock_v4 ip port
with_port port (v6 ip) = sock_v6 ip port 0 0

pub data DnsResolver : Type 0 where
  system : (Text → ℕ → Option (List SocketAddr)) → DnsResolver
  trust_dns : (Text → Option (List IpAddr)) → Bool → DnsResolver

unfoldable pub lookup_host : DnsResolver → Text → ℕ → Option (List SocketAddr)
unfolding sort_socket_addrs
lookup_host (system lookup_all) domain port = lookup_all domain port
lookup_host (trust_dns lookup_ip prefer_ipv6) domain port =
    Option.map (λ ips. sort_socket_addrs (map (with_port port) ips) prefer_ipv6) (lookup_ip domain)
