-- ===== src/Request/Token.antt =====
-- The token from the client's request to the server's destination.
use wstunnel.Prelude.{
  ◌≡◌, ap, ◌∙◌, Option, some, Text, codes, ◌++◌, arith, split_once, Option-cases, inl, inr,
}
use wstunnel.Net.{Host, LocalProtocol, RemoteAddr}
use wstunnel.Request.{
  HttpRequest, HeaderValue, ascii, request_token, jwt_header_prefix, JwtTunnelConfig, sendable,
  new_config, try_from, extract_tunnel_info,
}

-- `format!("v1, {}{}", JWT_HEADER_PREFIX, token)`.
unfoldable pub protocol_header : Text → HeaderValue
protocol_header token = ascii (codes "v1, " ++ (jwt_header_prefix ++ token))

-- Whatever the token and the other headers, the server reads the token that the client wrote.
pub request_token-protocol_header :
    (req : HttpRequest) (token : Text)
    → req.sec_websocket_protocol ≡ some (protocol_header token)
    → request_token req ≡ token
unfolding request_token protocol_header split_once
request_token-protocol_header req token e = rw e

pub sendable_same : (q p : LocalProtocol) → sendable q ≡ some p → p ≡ q
sendable_same q p e = ground arith

-- A destination that a token can carry comes back from the token of the client's request, where
-- the token's encoding and the host's text can be read back.
pub try_from-new_config :
    (show : Host → Text) (parse : Text → Option Host) (encode : JwtTunnelConfig → Text)
    (decode : Text → Option JwtTunnelConfig) (id : Text) (dest : RemoteAddr)
    (claims : JwtTunnelConfig) (req : HttpRequest)
    → parse (show dest.host) ≡ some dest.host
    → decode (encode claims) ≡ some claims
    → new_config show id dest ≡ some claims
    → req.sec_websocket_protocol ≡ some (protocol_header (encode claims))
    → (extract_tunnel_info decode req ≡ some claims) × (try_from parse claims ≡ some dest)
unfolding extract_tunnel_info try_from new_config
try_from-new_config show parse encode decode id dest claims req shown coded made sent = (
  ap decode (request_token-protocol_header req (encode claims) sent) ∙ coded,
  elim (Option-cases (sendable dest.protocol)) [
    | inl e ↦ ground arith
    | inr (p, e) ↦
        let fields : claims
            ≡ record { id = id; p = dest.protocol; r = show dest.host; rp = dest.port } =
          ground (arith, sendable_same dest.protocol p) in
        rw (fields, shown)
  ],
)
