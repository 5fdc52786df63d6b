-- ===== src/Tests/Server.antt =====
-- A server with concrete answers of the network, and requests to it.
use wstunnel.Prelude.{
  ℕ, suc, text_eq_iff, ◌≢◌, ◌≤◌, ◌≡◌, refl, inl, false, none, some, [], ◌∷◌, Text, codes, text_eq,
  split_once_char, split_once, lookup, insert, or_else, if◌then◌else◌,
}
use wstunnel.Prelude.Results.{ok}
use wstunnel.Net.{domain, ipv4, SocketAddr, sock_v4, try_to_sock_addr, tcp, tunnel_stdio}
use wstunnel.Access.{validate_tunnel}
use wstunnel.Access.Prefix.{extract_path_prefix}
use wstunnel.Request.{
  HttpRequest, JwtTunnelConfig, extract_authorization, extract_tunnel_info, new_config, try_from,
}
use wstunnel.Request.Token.{protocol_header, try_from-new_config}
use wstunnel.Resolver.{
  TunnelEndpoint, TunnelEndpointResponse, cap, resolve_tunnel_over_http, sent_authorization,
}
use wstunnel.Resolver.Laws.{RateAtMost, resolve_tunnel_over_http_sound}
use wstunnel.RateLimit.{wrap}
use wstunnel.Server.Monad.{resolve, dial_tcp, Env, World}
use wstunnel.Server.Exec.{exec_tunnel}
use wstunnel.Server.Handle.{handle_tunnel_request}
use wstunnel.Server.Replies.{handle_tunnel_request_refuses}
use wstunnel.Tests.Instances.{test_regexes, test_nets}
use wstunnel.Tests.Rules.{forward, two_rules, to_80}

abbrev pub claims_80 : JwtTunnelConfig
claims_80 = record { id = []; p = tcp false; r = codes "qa.com"; rp = 80 }

abbrev claims_id : JwtTunnelConfig
claims_id = record { id = []; p = tunnel_stdio false none; r = codes "id"; rp = 0 }

abbrev answer : TunnelEndpointResponse
answer = record {
  host = codes " qa.com ";
  port = 80;
  rate_limit_upload_m = none;
  rate_limit_download_m = some 4;
  rate_limit_m = some 99;
}

-- One token is of a TCP destination, any other of a tunnel id.
abbrev pub env : Env Text
env = record {
  tunnel_resolver = some (codes "http");
  proxy = none;
  backend = record {
    scheme = λ u. u;
    send = λ u id auth. some (200, []);
    from_yaml = λ body. some answer;
  };
  decode = λ s. if text_eq s (codes "80") then some claims_80 else some claims_id;
  host_parse = λ s. some (domain s);
  uuid_parse = λ s. some 7;
  hash_path = λ p. 0;
  connect = λ a. some 3;
  local_addr = λ s. some (sock_v4 1 1);
  header = λ a b. some [];
  accept = λ a. none;
}

abbrev pub request : Text → HttpRequest
request token = record {
  path = codes "/v1/events";
  authorization = none;
  x_forwarded_for = none;
  sec_websocket_protocol = some (protocol_header token);
  cookie = none;
}

abbrev pub start : World Text
start = record { trace = []; pool = [] }

abbrev pub client : SocketAddr
client = sock_v4 5 5

resolved :
    (handle_tunnel_request env two_rules none client (request (codes "id")) start).1.trace
    ≡ dial_tcp (domain (codes "qa.com")) 80 none ∷ resolve 7 none ∷ []
unfolding handle_tunnel_request exec_tunnel validate_tunnel extract_path_prefix extract_tunnel_info
    try_from resolve_tunnel_over_http extract_authorization split_once_char split_once
    protocol_header wrap lookup insert
resolved = refl

path_read : extract_path_prefix (codes "/v1/events") ≡ ok (codes "v1")
unfolding extract_path_prefix split_once_char
path_read = refl

token_read : extract_tunnel_info env.decode (request (codes "80")) ≡ some claims_80
unfolding extract_tunnel_info protocol_header split_once
token_read = refl

claims_read : try_from env.host_parse claims_80 ≡ some to_80
unfolding try_from
claims_read = refl

accepted : validate_tunnel to_80 (codes "v1") none two_rules ≡ some forward
unfolding validate_tunnel
accepted = refl

no_authorization : extract_authorization (request (codes "80")) ≡ none
unfolding extract_authorization
no_authorization = refl

accepted_request :
    validate_tunnel to_80 (codes "v1") (extract_authorization (request (codes "80"))) two_rules
    ≡ some forward
accepted_request = rw no_authorization accepted

other_prefix : codes "v1" ≢ codes "v2"
other_prefix e = let same = (text_eq_iff (codes "v1") (codes "v2")).1 e in cc

-- The certificate of the client names another prefix.
handle_tunnel_request_refuses_example :
    handle_tunnel_request env two_rules (some (codes "v2")) client (request (codes "80")) start
    ≡ (none, start)
handle_tunnel_request_refuses_example =
    handle_tunnel_request_refuses env two_rules (some (codes "v2")) client (request (codes "80"))
      (codes "v1") claims_80 to_80 start path_read token_read claims_read (λ p t e. cc)
      (inl (codes "v2", refl, other_prefix))

endpoint_7 : TunnelEndpoint
endpoint_7 = record {
  host = domain (codes "qa.com");
  port = 80;
  rate_limit_upload_m = some 10;
  rate_limit_download_m = some 4;
}

resolved_7 :
    resolve_tunnel_over_http env.backend test_nets.parse_ip (codes "http") 7 none ≡ some endpoint_7
unfolding resolve_tunnel_over_http endpoint_7
resolved_7 = refl

resolve_tunnel_over_http_sound_example :
    (env.backend.scheme (codes "http") ≡ codes "http")
    × RateAtMost 10 endpoint_7.rate_limit_upload_m
    × RateAtMost 10 endpoint_7.rate_limit_download_m
    × ((status : ℕ) × (body : Text) × (parsed : TunnelEndpointResponse) × (env.backend.send
            (codes "http")
            7
            (sent_authorization none)
          ≡ some (status, body))
        × (200 ≤ status)
        × (suc status ≤ 300)
        × (env.backend.from_yaml body ≡ some parsed)
        × (endpoint_7.port ≡ parsed.port)
        × (endpoint_7.rate_limit_upload_m
            ≡ cap (or_else parsed.rate_limit_upload_m parsed.rate_limit_m))
        × (endpoint_7.rate_limit_download_m
            ≡ cap (or_else parsed.rate_limit_download_m parsed.rate_limit_m)))
resolve_tunnel_over_http_sound_example =
    resolve_tunnel_over_http_sound env.backend test_nets.parse_ip (codes "http") 7 none endpoint_7
      resolved_7

claims_made : new_config (λ h. codes "qa.com") [] to_80 ≡ some claims_80
unfolding new_config
claims_made = refl

try_from-new_config_example :
    (extract_tunnel_info env.decode (request (codes "80")) ≡ some claims_80)
    × (try_from env.host_parse claims_80 ≡ some to_80)
try_from-new_config_example =
    try_from-new_config (λ h. codes "qa.com") env.host_parse (λ c. codes "80") env.decode [] to_80
      claims_80 (request (codes "80")) refl refl claims_made refl

converted : try_to_sock_addr (ipv4 9, 80) ≡ some (sock_v4 9 80)
unfolding try_to_sock_addr
converted = refl
