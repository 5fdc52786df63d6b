-- ===== src/Tests/TcpServer.antt =====
-- A host with two addresses, and a proxy whose response comes in two reads.
use wstunnel.Prelude.{
  ℕ, ◌≡◌, ◌≢◌, ◌↔◌, ◌⊎◌, inr, false, refl, sym, ap, ◌∙◌, Bool, true, false, Option, none, some,
  List, [], ◌∷◌, ◌++◌, Text, codes, All,
}
use mathlib.Core.List.{append-nil, flatten}
use wstunnel.Prelude.Results.{ok, err}
use wstunnel.Net.{domain, SocketAddr, sock_v4}
use wstunnel.TcpServer.{
  invalid_response, socket_addrs, Attempt, spawn_attempts, Ended, connected, refused, connect,
  has_window, is_complete, bytes, ProxyUrl, authorization, connect_with_http_proxy, join_next,
}
use wstunnel.TcpServer.Attempts.{Configured, Tried}
use wstunnel.TcpServer.Race.{Wins, AddrsOf, connect_iff}
use wstunnel.TcpServer.Proxy.{
  Accepts, Complete, is_complete-Complete, Whole, connect_with_http_proxy_lem,
}

abbrev lookup_two : Text → ℕ → Option (List SocketAddr)
lookup_two name port = some (sock_v4 1 port ∷ sock_v4 2 port ∷ [])

-- The first address refuses, the second connects.
abbrev ends_of : List Attempt → List (Attempt × Ended ℕ)
ends_of (a ∷ b ∷ []) = (a, refused) ∷ (b, connected 7) ∷ []
ends_of _ = []

connects_7 :
    connect lookup_two (λ a. true) (λ a. true) (λ s. true) ends_of (domain (codes "qa")) 443 ≡ ok 7
unfolding connect socket_addrs spawn_attempts join_next
connects_7 = refl

connect_iff_example :
    (connect lookup_two (λ a. true) (λ a. true) (λ s. true) ends_of (domain (codes "qa")) 443
      ≡ ok 7)
    ↔ ((addrs : List SocketAddr) × (attempts : List Attempt) × AddrsOf lookup_two
          (domain (codes "qa"))
          443
          addrs
        × All (Configured (λ a. true) (λ a. true)) addrs
        × Tried (λ a. true) addrs 0 attempts
        × Wins 7 (ends_of attempts)
        × (◌≡◌ {A = Bool} true true))
connect_iff_example =
    connect_iff lookup_two (λ a. true) (λ a. true) (λ s. true) ends_of (domain (codes "qa")) 443 7

-- The second read has the blank line and a byte more.
abbrev second : List ℕ
second = codes "P/1.1 200 OK" ++ (13 ∷ 10 ∷ 13 ∷ 10 ∷ 7 ∷ [])

abbrev accepted : List ℕ
accepted = codes "HTT" ++ second

accepted-Complete : Complete accepted
accepted-Complete = inr (codes "HTTP/1.1 200 OK", 7 ∷ [], refl)

start_incomplete : is_complete (codes "HTT") ≡ false
unfolding is_complete has_window
start_incomplete = refl

empty_incomplete : is_complete [] ≡ false
unfolding is_complete has_window
empty_incomplete = refl

reads-Whole : Whole (codes "HTT" ∷ second ∷ [])
unfolding flatten
reads-Whole = (accepted-Complete, early)
  where
    early :
        (p q : List (List ℕ))
        → codes "HTT" ∷ second ∷ [] ≡ p ++ q
        → q ≢ []
        → Complete (flatten p)
        → ⊥
    early [] q e n full =
        let clash = sym ((is_complete-Complete []).1 full) ∙ empty_incomplete in cc
    early (x ∷ []) q e n full =
        let same : codes "HTT" ≡ x = cc in
        let clash =
          sym ((is_complete-Complete (x ++ [])).1 full)
          ∙ ap is_complete (append-nil x ∙ sym same)
          ∙ start_incomplete in
        cc
    early (x ∷ y ∷ []) q e n full = n (cc)
    early (x ∷ y ∷ z ∷ p) q e n full = cc

abbrev proxy : ProxyUrl
proxy = record {
  host = some (domain (codes "proxy"));
  port_or_known_default = none;
  username = codes "u";
  password = none;
  url_decode = λ s. some s;
  encode = λ s. s;
}

connect_with_http_proxy_lem_example :
    (Accepts accepted
      × (connect_with_http_proxy proxy
            (λ h p. ok p)
            (λ s r. true)
            (λ s. bytes (codes "HTT") ∷ bytes second ∷ [])
            (codes "qa:443")
          ≡ ok 80))
    ⊎ ((Accepts accepted → ⊥)
        × (connect_with_http_proxy proxy
              (λ h p. ok p)
              (λ s r. true)
              (λ s. bytes (codes "HTT") ∷ bytes second ∷ [])
              (codes "qa:443")
            ≡ err invalid_response))
unfolding authorization flatten
connect_with_http_proxy_lem_example =
    connect_with_http_proxy_lem proxy (λ h p. ok p) (λ s r. true)
      (λ s. bytes (codes "HTT") ∷ bytes second ∷ []) (codes "qa:443") (domain (codes "proxy")) 80 []
      (codes "HTT") (second ∷ []) [] refl refl refl refl refl (λ e. cc, (λ e. cc, tt)) reads-Whole
