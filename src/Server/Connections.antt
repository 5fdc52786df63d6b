-- ===== src/Server/Connections.antt =====
-- The connections of `serve`, wstunnel/src/tunnel/server/server.rs, with the client's certificate as
-- wstunnel/src/protocols/tls/utils.rs reads it. Each request sees the rules at its moment.
use wstunnel.Prelude.{
  Bool, not, Option, none, some, List, [], ◌∷◌, Text, codes, text_eq, and_then, find_map,
  if◌then◌else◌,
}
use wstunnel.Net.{SocketAddr}
use wstunnel.Deps.{Regexes, IpNets}
use wstunnel.Restrictions.{RestrictionsRules}
use wstunnel.Server.Monad.{Env, World}
use wstunnel.Server.Upgrade.{
  text_body, UpgradeRequest, Cookies, Served, ws_server_upgrade, http_server_upgrade,
}

-- What the certificates tell (crate `x509_parser`): the parsed certificate, whether it is an
-- authority's, and its common names, `none` if one is no text.
pub record X509 (D X : Type 0) : Type 0 where
  pub parse : D → Option X
  pub is_ca : X → Bool
  pub common_names : X → List (Option Text)

-- The first certificate that is not an authority's.
unfoldable pub find_leaf_certificate : {D X : Type 0} → X509 D X → List D → Option X
find_leaf_certificate x509 [] = none
find_leaf_certificate x509 (d ∷ ds) =
    let rest = find_leaf_certificate x509 ds in
    elim (x509.parse d) [ none ↦ rest | some x ↦ if not (x509.is_ca x) then some x else rest ]

-- The first common name that is a text.
unfoldable pub cn_from_certificate : {D X : Type 0} → X509 D X → X → Option Text
cn_from_certificate x509 x = find_map (λ name. name) (x509.common_names x)

-- A TLS session after its handshake.
pub record Session (D : Type 0) : Type 0 where
  pub peer_certificates : Option (List D)
  pub alpn_protocol : Option Text

unfoldable pub restrict_path_of : {D X : Type 0} → X509 D X → Session D → Option Text
unfolding find_leaf_certificate cn_from_certificate
restrict_path_of x509 session =
    and_then (and_then session.peer_certificates (find_leaf_certificate x509))
      (cn_from_certificate x509)

-- A connection: over TLS, with its session unless the handshake fails, or plain.
pub data Connection (D : Type 0) : Type 0 where
  over_tls : Option (Session D) → Connection D
  plain : Connection D

-- The function that answers the requests of a connection.
pub data Upgrader : Type 0 where
  websocket_upgrade http_upgrade auto_upgrade : Upgrader

unfoldable pub by_alpn : Option Text → Upgrader
by_alpn none = websocket_upgrade
by_alpn (some protocol) = if text_eq protocol (codes "h2") then http_upgrade else websocket_upgrade

-- A request, and the rules when it arrives.
pub record Arrival (R N : Type 0) : Type 0 where
  pub rules : RestrictionsRules R N
  pub request : UpgradeRequest

module _ {U R N : Type 0} ⦃re : Regexes R⦄ ⦃nets : IpNets N⦄ (env : Env U) (cookies : Cookies) where
  unfoldable pub answer : Upgrader → Option Text → SocketAddr → Arrival R N → World U → Served U
  answer websocket_upgrade restrict addr a w =
      ws_server_upgrade env cookies a.rules restrict addr a.request w
  answer http_upgrade restrict addr a w =
      http_server_upgrade env cookies a.rules restrict addr a.request w
  answer auto_upgrade restrict addr a w =
      if a.request.is_upgrade
      then ws_server_upgrade env cookies a.rules restrict addr a.request w
      else if a.request.http_2
      then http_server_upgrade env cookies a.rules restrict addr a.request w
      else record {
        response = some (record {
          status = 400;
          headers = [];
          body = text_body (codes "Invalid protocol request");
        });
        started = none;
        world = w;
      }

  -- The requests of a connection, in order, with their responses.
  unfoldable pub answers :
      Upgrader → Option Text → SocketAddr → List (Arrival R N) → World U → List (Served U) × World U
  unfolding answer
  answers kind restrict addr [] w = ([], w)
  answers kind restrict addr (a ∷ arrivals) w =
      let served = answer kind restrict addr a w in
      let rest = answers kind restrict addr arrivals served.world in (served ∷ rest.0, rest.1)

  unfoldable pub serve_connection :
      {D X : Type 0}
      → X509 D X
      → Connection D
      → SocketAddr
      → List (Arrival R N)
      → World U
      → List (Served U) × World U
  unfolding answers restrict_path_of by_alpn
  serve_connection x509 (over_tls none) addr arrivals w = ([], w)
  serve_connection x509 (over_tls (some session)) addr arrivals w =
      answers (by_alpn session.alpn_protocol) (restrict_path_of x509 session) addr arrivals w
  serve_connection x509 plain addr arrivals w = answers auto_upgrade none addr arrivals w
