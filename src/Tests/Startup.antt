-- ===== src/Tests/Startup.antt =====
-- A client with one tunnel of each kind, and a server with one destination.
use wstunnel.Prelude.{
  ℕ, ◌≡◌, ◌↔◌, refl, inl, inr, arith, not, true, false, Option, none, some, List, [], ◌∷◌, map,
  Text, codes, Exists, is_some, parse_uint, parse_u16, Lacks,
}
use wstunnel.Prelude.Results.{ok}
use wstunnel.Net.{
  Host, domain, sock_v4, RemoteAddr, FilePath, utf8, IpAddr, tcp, stdio, reverse_tcp, to_host_port,
}
use wstunnel.Restrictions.{RestrictionsRules}
use wstunnel.Request.{ascii}
use wstunnel.Reload.Certs.{Loaders}
use wstunnel.Server.Connections.{X509}
use wstunnel.Access.{validate_tunnel}
use wstunnel.Access.Destinations.{DestIs}
use wstunnel.Access.CommandLine.{PrefixIs}
use wstunnel.Cli.{LocalToRemote, localhost}
use wstunnel.Transport.Addr.{wss, from_str, alpn_protocols}
use wstunnel.Startup.{
  tcp_listener, stdio_listener, exited, tunnels, reverse, forward, tcp_connector, Platform,
  start_all, start_forwards, reversed, forwarded, remote_of,
}
use wstunnel.Reload.Connector.{new_for_client}
use wstunnel.Startup.Resolvers.{ServerUrls, trust_dns, new_from_urls}
use wstunnel.Startup.Config.{
  StartUrls, Server, WsServerConfig, restrictions_of, run_server_impl, mk_http_proxy,
}
use wstunnel.Startup.Rules.{Entry, meant, run_server_impl-validate_tunnel}
use wstunnel.Startup.ClientData.{Client, Outside}
use wstunnel.Startup.ClientConfig.{
  tls_reloader_of, host_header, load_mtls, client_tls, ech_config, check_file,
}
use wstunnel.Startup.Starting.{Succeeds, Starts, starts}
use wstunnel.Tests.Cli
use wstunnel.Tests.Instances.{test_regexes, test_nets, lawful_regexes, lawful_nets}

abbrev local : LocalToRemote
local = record {
  local_protocol = tcp false;
  local = sock_v4 localhost 8080;
  remote = (domain (codes "qa"), 443);
}

abbrev start_urls : Text → StartUrls Text
start_urls scheme = record {
  parse = λ s. some s;
  scheme = λ u. scheme;
  set_username = λ s u. some u;
  set_password = λ s u. some u;
  socket_addrs = λ port u. some (sock_v4 0 port ∷ []);
}

abbrev loaders : Loaders FilePath (List ℕ) ℕ
loaders = record { load_certs = λ p. some []; load_key = λ p. some 1 }

abbrev server : Server Text
server = record {
  remote_addr = codes "wss://qa";
  socket_so_mark = none;
  websocket_ping_frequency = some 0;
  websocket_mask_frame = false;
  dns_resolver = [];
  dns_resolver_prefer_ipv4 = true;
  restrict_to = some (codes "[127.0.0.1]:443" ∷ []);
  restrict_http_upgrade_path_prefix = some (codes "v1" ∷ []);
  restrict_config = none;
  tls_certificate = none;
  tls_private_key = none;
  tls_client_ca_certs = none;
  http_proxy = none;
  http_proxy_login = none;
  http_proxy_password = none;
  remote_to_local_server_idle_timeout = 0;
  tunnel_resolver = none;
}

digits_443 : parse_u16 (codes "443") ≡ some 443
unfolding parse_uint
digits_443 = refl

no_colon_443 : Lacks b':' (codes "443")
no_colon_443 = (λ e. cc, (λ e. cc, (λ e. cc, tt)))

abbrev entry : Entry
entry = record {
  opening = codes "[";
  host = codes "127.0.0.1";
  closing = codes "]";
  digits = codes "443";
  port = 443;
  opens = (inl refl, tt);
  no_opening = omega arith;
  no_closing = omega arith;
  closes = (inr refl, tt);
  no_colon = no_colon_443;
  reads = digits_443;
}

run_server_impl-validate_tunnel_example :
    (rules : RestrictionsRules Text IpAddr) × (restrictions_of (λ p. none) server ≡ ok rules)
    × ((remote : RemoteAddr) (prefix : Text) (auth : Option Text)
        → (is_some (validate_tunnel remote prefix auth rules) ≡ true) ↔ (
            PrefixIs (codes "v1" ∷ []) prefix
            × Exists (DestIs test_nets remote) (map meant (entry ∷ []))))
    × ((config : WsServerConfig Text (List ℕ) ℕ) (rules' : RestrictionsRules Text IpAddr)
        → run_server_impl (start_urls (codes "wss")) loaders ([], 1) (λ p. none) server
          ≡ ok (config, rules')
        → rules' ≡ rules)
run_server_impl-validate_tunnel_example =
    run_server_impl-validate_tunnel (start_urls (codes "wss")) loaders ([], 1) (λ p. none)
      lawful_regexes lawful_nets server entry [] refl refl

abbrev client : Client Text
client = record {
  local_to_remote = local ∷ [];
  remote_to_local = Cli.reversed ∷ [];
  socket_so_mark = none;
  connection_min_idle = 0;
  connection_retry_max_backoff = 0;
  reverse_tunnel_connection_retry_max_backoff = 0;
  tls_sni_override = some (codes "other");
  tls_sni_disable = false;
  tls_ech_enable = false;
  tls_verify_certificate = true;
  http_proxy = some (codes "proxy:3128");
  http_proxy_login = some (codes "u");
  http_proxy_password = none;
  http_upgrade_path_prefix = codes "v1";
  http_upgrade_credentials = none;
  websocket_ping_frequency = none;
  websocket_mask_frame = false;
  http_headers = (codes "host", ascii (codes "front")) ∷ (codes "x-a", ascii (codes "1")) ∷ [];
  http_headers_file = some (utf8 (codes "headers"));
  remote_addr = codes "wss://qa";
  tls_certificate = none;
  tls_private_key = none;
  dns_resolver = [];
  dns_resolver_prefer_ipv4 = true;
}

abbrev server_urls : ServerUrls Text
server_urls = record {
  host = λ u. some (domain (codes "qa"));
  port = λ u. none;
  port_or_known_default = λ u. some 443;
  query_sni = λ u. none;
  parse_host = λ s. none;
  host_to_string = λ h. codes "qa";
  port_to_string = λ n. codes "443";
}

abbrev outside : Outside ℕ ℕ ℕ ℕ
outside = record {
  tls_connector = λ verify alpn sni ech cert key. some 7;
  supports_ech = false;
  lookup_https = λ s. none;
  header_value = λ s. some (ascii s);
  exists_file = λ p. true;
  reads_system_conf = true;
  watchable = λ p. true;
  builds_pool = λ idle backoff. true;
}

abbrev x509 : X509 ℕ ℕ
x509 = record { parse = λ d. some d; is_ca = λ d. false; common_names = λ d. [] }

resolver_made :
    new_from_urls
      (start_urls (codes "wss"))
      server_urls
      true
      []
      (some (codes "http://proxy:3128"))
      none
      (not true)
    ≡ ok (trust_dns none (some (codes "http://proxy:3128")) none false)
unfolding new_from_urls
resolver_made = refl

succeeds : Succeeds (start_urls (codes "wss")) server_urls loaders x509 outside client
unfolding load_mtls mk_http_proxy from_str client_tls ech_config host_header check_file
    alpn_protocols tls_reloader_of new_for_client
succeeds = record {
  mtls = (none, none);
  http_proxy = some (codes "http://proxy:3128");
  dns_resolver = trust_dns none (some (codes "http://proxy:3128")) none false;
  scheme = wss;
  tls = some (record {
    tls_connector = 7;
    tls_sni_override = some (codes "other");
    tls_verify_certificate = true;
    tls_sni_disabled = false;
    tls_certificate_path = none;
    tls_key_path = none;
  });
  header = ascii (codes "front");
  headers_file = some (utf8 (codes "headers"));
  host = domain (codes "qa");
  port = 443;
  tls_reloader = none;
  loads = refl;
  resolves = resolver_made;
  watches = refl;
  pools = refl;
  proxied = refl;
  has_scheme = refl;
  connects = refl;
  names = refl;
  has_file = refl;
  has_host = refl;
  has_port = refl;
}

abbrev urls : StartUrls Text
urls = start_urls (codes "wss")

client-Starts : Starts urls server_urls loaders x509 outside client succeeds
client-Starts = starts urls server_urls loaders x509 outside client succeeds

abbrev linux : Platform
linux = record { is_linux = true; is_unix = true }

two_tunnels :
    start_all linux (λ l. true) [] (Cli.reversed ∷ []) (local ∷ [])
    ≡ tunnels (
        reverse
          (record { protocol = reverse_tcp; host = Host.ipv4 localhost; port = 8080 })
          (tcp_connector (domain (codes "qa")) 443)
        ∷ forward (tcp_listener (sock_v4 localhost 8080) (domain (codes "qa"), 443) false)
        ∷ [])
unfolding start_all start_forwards reversed forwarded remote_of to_host_port
two_tunnels = refl

-- With a tunnel on the terminal, no other one runs.
terminal_alone :
    start_all linux
      (λ l. true)
      []
      (Cli.reversed ∷ [])
      (local ∷ record local { local_protocol = stdio false } ∷ [])
    ≡ exited (stdio_listener (domain (codes "qa"), 443) false)
unfolding start_all start_forwards reversed forwarded
terminal_alone = refl
