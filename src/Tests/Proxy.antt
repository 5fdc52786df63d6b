-- ===== src/Tests/Proxy.antt =====
-- Peers of the HTTP proxy; `base64` keeps its argument.
use wstunnel.Prelude.{ℕ, ◌≡◌, refl, true, none, some, [], ◌∷◌, List, Option, Text, codes, All, trim}
use wstunnel.Net.{Host, domain}
use wstunnel.Request.{ascii}
use wstunnel.HttpProxy.{
  ConnectRequest, ParsedRequest, ProxyUrls, Peer, ProxyEvent, joined, accepted, ProxyServer,
  proxy_run, auth_header,
}
use wstunnel.HttpProxy.Authorized.{Presents, proxy_run-Presents}

abbrev connect : ConnectRequest
connect = record {
  is_connect = true;
  uri_host = some (codes "qa");
  uri_port = none;
  proxy_authorization = some (ascii (codes " Basic u:p"));
}

abbrev peer : Peer
peer = record { peeked = some (codes "CONNECT qa"); requests = connect ∷ []; served = true }

abbrev stranger : Peer
stranger = record { peeked = some (codes "GET qa"); requests = []; served = true }

abbrev urls : ProxyUrls Text
urls = record {
  parse = λ s. some s;
  host = λ u. some (domain u);
  port_or_known_default = λ u. none;
}

abbrev parse_host : Text → Option Host
parse_host s = some (domain s)

abbrev http_parse : ℕ → Text → ParsedRequest
http_parse n s = record { headers = []; path = some s }

abbrev no_task : ProxyServer
no_task = record { tasks = []; forwarded = [] }

abbrev day : List ProxyEvent
day = accepted stranger ∷ accepted peer ∷ joined 1 ∷ joined 0 ∷ []

one_forwarded :
    (proxy_run parse_host urls http_parse
      (auth_header (λ s. s) (some (codes "u", codes "p")))
      day
      no_task).forwarded
    ≡ (peer, (domain (codes "qa"), 443)) ∷ []
unfolding proxy_run auth_header trim
one_forwarded = refl

proxy_run-Presents_example :
    All
      (Presents parse_host urls http_parse (codes "u:p"))
      (proxy_run parse_host urls http_parse
        (auth_header (λ s. s) (some (codes "u", codes "p")))
        day
        no_task).forwarded
proxy_run-Presents_example =
    proxy_run-Presents parse_host urls http_parse (λ s. s) (codes "u") (codes "p") day
