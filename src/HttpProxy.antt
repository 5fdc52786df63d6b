-- ===== src/HttpProxy.antt =====
-- wstunnel/src/protocols/http_proxy/server.rs: the HTTP proxy of a client or of a reverse tunnel.
pub mod Authorized
use wstunnel.Prelude.{
  ℕ, Bool, true, false, ◌&&◌, not, Option, none, some, List, [], ◌∷◌, ◌++◌, Text, codes, text_eq,
  starts_with, drop, take, length, trim, find, and_then, unwrap_or, is_some, or_else, if◌then◌else◌,
  get_elem?, remove_at,
}
use mathlib.Core.Option
use wstunnel.Net.{Host}
use wstunnel.Request.{HeaderValue, header_text}

abbrev pub Destination : Type 0
Destination = Host × ℕ

abbrev pub authorization_prefix : Text
authorization_prefix = codes "Basic "

unfoldable pub verify_credentials : Option Text → Option Text → Bool
verify_credentials none header = true
verify_credentials (some token) none = false
verify_credentials (some token) (some header) =
    let auth = trim header in
    starts_with auth authorization_prefix && text_eq (drop (length authorization_prefix) auth) token

-- A request that `hyper` reads: whether it is CONNECT, the parts of its URI, and a header.
pub record ConnectRequest : Type 0 where
  pub is_connect : Bool
  pub uri_host : Option Text
  pub uri_port : Option ℕ
  pub proxy_authorization : Option HeaderValue

-- The status of the response, and the destination that is stored.
unfoldable pub handle_http_connect_request :
    (Text → Option Host) → Option Text → ConnectRequest → ℕ × Option Destination
unfolding verify_credentials
handle_http_connect_request host_parse credentials req =
    if not req.is_connect then (401, none) else elim (host_parse (unwrap_or req.uri_host [])) [
      | none ↦ (401, none)
      | some host ↦
          if not (verify_credentials credentials (and_then req.proxy_authorization header_text))
          then (401, none)
          else (200, some (host, unwrap_or req.uri_port 443))
    ]

-- What `httparse` reads of the first bytes: the headers, whether each is `Proxy-Authorization`, with
-- its value as `String::from_utf8_lossy` gives it, and the path.
pub record ParsedRequest : Type 0 where
  pub headers : List (Bool × Text)
  pub path : Option Text

-- `url::Url`, as far as it is used.
pub record ProxyUrls (U : Type 0) : Type 0 where
  pub parse : Text → Option U
  pub host : U → Option Host
  pub port_or_known_default : U → Option ℕ

abbrev pub authorization_of : ParsedRequest → Option Text
authorization_of req =
    Option.map (λ (h : Bool × Text). h.1) (find (λ (h : Bool × Text). h.0) req.headers)

unfoldable pub handle_regular_http_request :
    {U : Type 0} → ProxyUrls U → ParsedRequest → Option Text → Option Destination
unfolding verify_credentials
handle_regular_http_request urls req credentials =
    if not (verify_credentials credentials (authorization_of req))
    then none
    else and_then (urls.parse (unwrap_or req.path [])) λ url.
      Option.map (λ (host : Host). (host, unwrap_or (urls.port_or_known_default url) 80))
        (urls.host url)

-- A peer: the bytes that are there at first, at most 512, unless reading them fails; the requests that
-- `hyper` hands to the service if it reads the stream, and whether it ends well.
pub record Peer : Type 0 where
  pub peeked : Option Text
  pub requests : List ConnectRequest
  pub served : Bool

-- What the loop waits for: a task ends, by its index, or is lost; a peer connects, or cannot.
pub data ProxyEvent : Type 0 where
  joined lost : ℕ → ProxyEvent
  accepted : Peer → ProxyEvent
  accept_error : ProxyEvent

-- The tasks that run and the peers that are handed on, newest first.
pub record ProxyServer : Type 0 where
  pub tasks : List Peer
  pub forwarded : List (Peer × Destination)

abbrev pub hand_on : Peer → Option Destination → ProxyServer → ProxyServer
hand_on peer none server = server
hand_on peer (some dest) server = record server { forwarded = (peer, dest) ∷ server.forwarded }

abbrev pub end_task : ℕ → ProxyServer → ProxyServer
end_task i server = record server { tasks = remove_at i server.tasks }

-- The destination stored last.
unfoldable pub stored :
    (Text → Option Host)
    → Option Text
    → List ConnectRequest
    → Option Destination
    → Option Destination
unfolding handle_http_connect_request
stored host_parse credentials [] dest = dest
stored host_parse credentials (req ∷ reqs) dest =
    stored host_parse credentials reqs
      (or_else (handle_http_connect_request host_parse credentials req).1 dest)

module _ {U : Type 0} (host_parse : Text → Option Host) (urls : ProxyUrls U)
    (http_parse : ℕ → Text → ParsedRequest) where
  unfoldable pub handle_new_connection : Option Text → Peer → Option Destination
  unfolding stored handle_regular_http_request
  handle_new_connection credentials peer = and_then peer.peeked λ buf.
      if not (text_eq (take 8 buf) (codes "CONNECT "))
      then handle_regular_http_request urls (http_parse (if is_some credentials then 32 else 0) buf)
          credentials
      else if peer.served
      then stored host_parse credentials peer.requests none
      else none

  unfoldable pub proxy_step : Option Text → ProxyEvent → ProxyServer → ProxyServer
  unfolding handle_new_connection
  proxy_step credentials (accepted peer) server = record server {
    tasks = server.tasks ++ (peer ∷ []);
  }
  proxy_step credentials accept_error server = server
  proxy_step credentials (lost i) server = end_task i server
  proxy_step credentials (joined i) server = elim (get_elem? server.tasks i) [
    | none ↦ server
    | some peer ↦ hand_on peer (handle_new_connection credentials peer) (end_task i server)
  ]

  unfoldable pub proxy_run : Option Text → List ProxyEvent → ProxyServer → ProxyServer
  unfolding proxy_step
  proxy_run credentials [] server = server
  proxy_run credentials (e ∷ es) server = proxy_run credentials es (proxy_step credentials e server)

-- The token of the credentials, `base64` standing for the engine of the crate.
unfoldable pub auth_header : (Text → Text) → Option (Text × Text) → Option Text
auth_header base64 none = none
auth_header base64 (some (user, pass)) = some (base64 (user ++ (b':' ∷ pass)))
