-- ===== src/Server/Certified.antt =====
-- What the requests of a connection make the server do.
use wstunnel.Prelude.{
  ℕ, ◌≡◌, refl, inl, inr, Bool, true, false, not, Option, none, some, List, [], ◌∷◌, All, Exists,
  In, Bool-cases, if◌then◌else◌, Text,
}
use wstunnel.RateLimit.{Pool}
use wstunnel.Net.{SocketAddr}
use wstunnel.Deps.{Regexes, IpNets}
use wstunnel.Request.{HeaderValue}
use wstunnel.Server.Monad.{Env, World, Action}
use wstunnel.Server.Handle.{handle_tunnel_request, Accepted}
use wstunnel.Server.Safety.{Permitted, handle-Adds}
use wstunnel.Server.Upgrade.{
  Cookies, Served, ws_server_upgrade, http_server_upgrade, start_websocket, start_http2,
}
use wstunnel.Server.Imposed.{Imposed, restricted_path, restricted_path-Imposed}
use wstunnel.Server.Connections.{
  X509, Connection, over_tls, plain, Upgrader, websocket_upgrade, http_upgrade, auto_upgrade,
  Arrival, answer, answers, serve_connection, restrict_path_of, by_alpn,
}

if_lem : {A : Type 0} (P : A → Type 0) (b : Bool) (x y : A) → P x → P y → P (if b then x else y)
if_lem P true x y p q = p
if_lem P false x y p q = q

module _ {U : Type 0} (cookies : Cookies) where
  websocket_world :
      (o : Option Accepted) (u : Option (ℕ × List (Text × HeaderValue))) (w : World U)
      → (start_websocket cookies o u w).world ≡ w
  websocket_world none u w = refl
  websocket_world (some accepted) none w = refl
  websocket_world (some accepted) (some (status, headers)) w = refl

  http2_world :
      (o : Option Accepted) (c : Option HeaderValue) (w : World U)
      → (start_http2 cookies o c w).world ≡ w
  http2_world none c w = refl
  http2_world (some accepted) c w = refl

module _ {U R N : Type 0} ⦃re : Regexes R⦄ ⦃nets : IpNets N⦄ (env : Env U) (cookies : Cookies) where
  -- A request allows the action, under the rules at its moment.
  abbrev pub Allows : Option Text → SocketAddr → Action U → Arrival R N → Type 0
  Allows restrict addr action a = Permitted env a.rules restrict addr a.request.request action

  -- A handler leaves the world of `handle_tunnel_request`, or the one it had.
  module _ (restrict : Option Text) (addr : SocketAddr) (a : Arrival R N) (w : World U)
      (P : World U → Type 0) (same : P w)
      (handled : P (handle_tunnel_request env a.rules restrict addr a.request.request w).1) where
    websocket_lem : P (ws_server_upgrade env cookies a.rules restrict addr a.request w).world
    unfolding ws_server_upgrade
    websocket_lem = elim (Bool-cases (not a.request.is_upgrade)) [
      | inl y ↦ rw y same
      | inr n ↦
          rw
            (
              n,
              websocket_world cookies
                  (handle_tunnel_request env a.rules restrict addr a.request.request w).0
                  a.request.upgrade
                  (handle_tunnel_request env a.rules restrict addr a.request.request w).1,
            )
            handled
    ]

    http2_lem : P (http_server_upgrade env cookies a.rules restrict addr a.request w).world
    unfolding http_server_upgrade
    http2_lem =
        rw
          (http2_world cookies
            (handle_tunnel_request env a.rules restrict addr a.request.request w).0
            a.request.content_type
            (handle_tunnel_request env a.rules restrict addr a.request.request w).1)
          handled

    answer_lem : (kind : Upgrader) → P (answer env cookies kind restrict addr a w).world
    unfolding answer
    answer_lem websocket_upgrade = websocket_lem
    answer_lem http_upgrade = http2_lem
    answer_lem auto_upgrade =
        if_lem (λ (served : Served U). P served.world) a.request.is_upgrade
          (ws_server_upgrade env cookies a.rules restrict addr a.request w) _ websocket_lem
          (if_lem (λ (served : Served U). P served.world) a.request.http_2
            (http_server_upgrade env cookies a.rules restrict addr a.request w) _ http2_lem same)

  abbrev Traced : Option Text → SocketAddr → List (Arrival R N) → World U → Type 0
  Traced restrict addr arrivals w =
      All (λ action. Exists (Allows restrict addr action) arrivals) w.trace

  answers-Traced :
      (kind : Upgrader) (restrict : Option Text) (addr : SocketAddr) (arrivals : List (Arrival R N))
      (all : List (Arrival R N)) (w : World U)
      → ((a : Arrival R N) → In a arrivals → In a all)
      → Traced restrict addr all w
      → Traced restrict addr all (answers env cookies kind restrict addr arrivals w).1
  unfolding answers
  answers-Traced kind restrict addr [] all w sub h = h
  answers-Traced kind restrict addr (a ∷ arrivals) all w sub h =
      answers-Traced kind restrict addr arrivals all _ (λ b m. sub b (inr m))
        (answer_lem restrict addr a w (Traced restrict addr all) h
          (handle-Adds env a.rules restrict addr a.request.request
            (λ action. Exists (Allows restrict addr action) all)
            (λ action permitted. (a, sub a (inl refl), permitted)) w h)
          kind)

  serve_connection-Allows :
      {D X : Type 0} (x509 : X509 D X) (connection : Connection D) (addr : SocketAddr)
      (arrivals : List (Arrival R N)) (pool : Pool)
      → All
          (λ action. Exists (Allows (restricted_path x509 connection) addr action) arrivals)
          (serve_connection env cookies x509 connection addr arrivals
            (record { trace = []; pool = pool })).1.trace
  unfolding serve_connection
  serve_connection-Allows x509 (over_tls none) addr arrivals pool = tt
  serve_connection-Allows x509 (over_tls (some session)) addr arrivals pool =
      answers-Traced (by_alpn session.alpn_protocol) (restrict_path_of x509 session) addr arrivals
        arrivals (record { trace = []; pool = pool }) (λ a m. m) tt
  serve_connection-Allows x509 plain addr arrivals pool =
      answers-Traced auto_upgrade none addr arrivals arrivals (record { trace = []; pool = pool })
        (λ a m. m) tt

  -- Each connection has one imposed path or none: over TLS it is the first common name that is a text,
  -- of the first of the client's certificates that can be read and is no authority's; where there is no
  -- such certificate or name, and on a plain connection, there is none. Whatever the answers of the
  -- network, each action of a connection's requests was permitted for one of these requests, under that
  -- path and the rules when the request arrived: its path prefix is the imposed one; the action asks the
  -- resolver for the tunnel id of the request's token, or serves the request's destination, which those
  -- rules accept.
  pub serve_connection-Permitted :
      {D X : Type 0} (x509 : X509 D X) (connection : Connection D) (addr : SocketAddr)
      (arrivals : List (Arrival R N)) (pool : Pool)
      → (restrict : Option Text) × Imposed x509 connection restrict
        × All
            (λ action. Exists (Allows restrict addr action) arrivals)
            (serve_connection env cookies x509 connection addr arrivals
              (record { trace = []; pool = pool })).1.trace
  serve_connection-Permitted x509 connection addr arrivals pool = (
    restricted_path x509 connection,
    restricted_path-Imposed x509 connection,
    serve_connection-Allows x509 connection addr arrivals pool,
  )
