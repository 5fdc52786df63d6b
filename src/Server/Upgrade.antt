-- ===== src/Server/Upgrade.antt =====
-- `ws_server_upgrade` of handler_websocket.rs and `http_server_upgrade` of handler_http2.rs, in
-- wstunnel/src/tunnel/server/, with `bad_request` and `inject_cookie` of utils.rs beside them.
use wstunnel.Prelude.{
  ℕ, Bool, true, false, not, Option, none, some, List, [], Text, codes, insert, text_keys,
  if◌then◌else◌,
}
use mathlib.Core.Option
use wstunnel.Prelude.Results.{Result, ok, err}
use wstunnel.Net.{Host, SocketAddr, RemoteAddr}
use wstunnel.Deps.{Regexes, IpNets}
use wstunnel.Restrictions.{RestrictionsRules}
use wstunnel.Request.{HttpRequest, HeaderValue, ascii, JwtTunnelConfig, new_config}
use wstunnel.Server.Monad.{Env, World}
use wstunnel.Server.Handle.{Accepted, handle_tunnel_request}

-- The body of a response: a text, an empty body, or what the local stream sends.
pub data Body : Type 0 where
  text_body : Text → Body
  empty_body stream_body : Body

pub record Response : Type 0 where
  pub status : ℕ
  pub headers : List (Text × HeaderValue)
  pub body : Body

-- A request, with what its crates tell of it: `is_upgrade_request` and `upgrade` of
-- `fastwebsockets`, whose answer is a status and headers, and its HTTP version.
pub record UpgradeRequest : Type 0 where
  pub request : HttpRequest
  pub is_upgrade : Bool
  pub upgrade : Option (ℕ × List (Text × HeaderValue))
  pub http_2 : Bool
  pub content_type : Option HeaderValue

-- The tunnels that a request starts.
pub data Started : Type 0 where
  websocket_tunnel http2_tunnel : Accepted → Started

-- How the text of a cookie is made; `encode` stands for `jsonwebtoken::encode`.
pub record Cookies : Type 0 where
  pub show : Host → Text
  pub encode : JwtTunnelConfig → Text
  pub from_str : Text → Option HeaderValue
  pub nil_id : Text

-- A cookie that is no header value, or the panic of a destination that no token carries.
pub data CookieError : Type 0 where
  bad_header unreachable_protocol : CookieError

abbrev pub bad_request : Response
bad_request = record { status = 400; headers = []; body = text_body (codes "Invalid request") }

unfoldable pub tunnel_to_jwt_token : Cookies → Text → RemoteAddr → Option Text
tunnel_to_jwt_token cookies id remote =
    Option.map cookies.encode (new_config cookies.show id remote)

unfoldable pub inject_cookie : Cookies → Response → RemoteAddr → Result CookieError Response
unfolding tunnel_to_jwt_token
inject_cookie cookies response remote = elim (tunnel_to_jwt_token cookies cookies.nil_id remote) [
  | none ↦ err unreachable_protocol
  | some token ↦ elim (cookies.from_str token) [
    | none ↦ err bad_header
    | some value ↦ ok (record response { headers = insert (codes "cookie") value response.headers })
  ]
]

abbrev pub put_header : Text → HeaderValue → Response → Response
put_header name value response = record response { headers = insert name value response.headers }

-- The response with its cookie, if it needs one, and then its last header; `none` is a panic.
unfoldable pub finish :
    Cookies → Bool → RemoteAddr → (Response → Response) → Response → Option Response
unfolding inject_cookie
finish cookies false remote last response = some (last response)
finish cookies true remote last response = elim (inject_cookie cookies response remote) [
  | err bad_header ↦ some bad_request
  | err unreachable_protocol ↦ none
  | ok with_cookie ↦ some (last with_cookie)
]

-- What a handler gives: its response, the tunnel that it starts, and the world.
pub record Served (U : Type 0) : Type 0 where
  pub response : Option Response
  pub started : Option Started
  pub world : World U

abbrev pub refused : {U : Type 0} → World U → Served U
refused w = record { response = some bad_request; started = none; world = w }

abbrev pub content_type_of : Option HeaderValue → Response → Response
content_type_of none response = response
content_type_of (some value) response = put_header (codes "content-type") value response

module _ {U : Type 0} (cookies : Cookies) where
  -- After `handle_tunnel_request`.
  abbrev pub start_websocket :
      Option Accepted → Option (ℕ × List (Text × HeaderValue)) → World U → Served U
  start_websocket none upgraded w = refused w
  start_websocket (some accepted) none w = refused w
  start_websocket (some accepted) (some (status, headers)) w = record {
    response =
        finish cookies accepted.inject_cookie accepted.remote
          (put_header (codes "sec-websocket-protocol") (ascii (codes "v1")))
          (record { status = status; headers = headers; body = empty_body });
    started = some (websocket_tunnel accepted);
    world = w;
  }

  abbrev pub start_http2 : Option Accepted → Option HeaderValue → World U → Served U
  start_http2 none content_type w = refused w
  start_http2 (some accepted) content_type w = record {
    response =
        finish cookies accepted.inject_cookie accepted.remote (content_type_of content_type)
          (record { status = 200; headers = []; body = stream_body });
    started = some (http2_tunnel accepted);
    world = w;
  }

module _ {U R N : Type 0} ⦃re : Regexes R⦄ ⦃nets : IpNets N⦄ (env : Env U) (cookies : Cookies) where
  unfoldable pub ws_server_upgrade :
      RestrictionsRules R N → Option Text → SocketAddr → UpgradeRequest → World U → Served U
  unfolding finish
  ws_server_upgrade rules restrict addr req w =
      let handled = handle_tunnel_request env rules restrict addr req.request w in
      if not req.is_upgrade
      then refused w
      else start_websocket cookies handled.0 req.upgrade handled.1

  unfoldable pub http_server_upgrade :
      RestrictionsRules R N → Option Text → SocketAddr → UpgradeRequest → World U → Served U
  unfolding finish
  http_server_upgrade rules restrict addr req w =
      let handled = handle_tunnel_request env rules restrict addr req.request w in
      start_http2 cookies handled.0 req.content_type handled.1
