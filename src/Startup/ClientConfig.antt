-- ===== src/Startup/ClientConfig.antt =====
-- wstunnel/src/lib.rs: create_client, WsClient::new of wstunnel/src/tunnel/client/client.rs, and the name for
-- TLS of wstunnel/src/tunnel/client/config.rs.
use wstunnel.Prelude.{
  ℕ, Bool, true, not, ◌||◌, ◌==◌, Option, none, some, unwrap_or, and_then, List, [], ◌∷◌, ◌++◌,
  Text, codes, text_eq, find, filter_by, insert, text_keys, if◌then◌else◌,
}
use wstunnel.Prelude.Results.{Result, ok, err, ◌>>=◌, ok_or}
use wstunnel.Net.{Host, domain, ipv4, ipv6, IpAddr, v4, v6, FilePath}
use wstunnel.Request.{HeaderValue}
use wstunnel.Reload.Certs.{Loaders}
use wstunnel.Reload.Connector.{TlsClient, new_for_client}
use wstunnel.Startup.Resolvers.{ServerUrls, ResolverConfig, new_from_urls, lookup_ech_config}
use wstunnel.Server.Connections.{X509, find_leaf_certificate, cn_from_certificate}
use wstunnel.Transport.Addr
use wstunnel.Transport.Addr.{
  TransportScheme, ws, wss, http, https, TransportAddr, from_str, alpn_protocols,
}
use wstunnel.Startup.Config.{
  StartError, start_error, panicked, StartUrls, mk_http_proxy, ping_frequency, timeout_connect,
  expect,
}
use wstunnel.Startup.ClientData.{Client, TlsClientConfig, WsClientConfig, WsClient, Outside}

abbrev pub default_upgrade_path_prefix : Text
default_upgrade_path_prefix = codes "v1"

abbrev pub host_name : Text
host_name = codes "host"

-- The certificate and the key of the client, if both are given.
unfoldable pub load_mtls :
    {D K : Type 0}
    → Loaders FilePath (List D) K
    → Option FilePath
    → Option FilePath
    → Result StartError (Option (List D) × Option K)
load_mtls loaders (some cert) (some key) = do
  tls_certificate ← expect (loaders.load_certs cert)
  tls_key ← expect (loaders.load_key key)
  ok (some tls_certificate, some tls_key)
load_mtls loaders cert key = ok (none, none)

-- The path prefix: the common name of the client's certificate in place of the default one.
unfoldable pub path_prefix_of : {D X : Type 0} → X509 D X → Option (List D) → Text → Text
path_prefix_of x509 tls_certificate prefix =
    if text_eq prefix default_upgrade_path_prefix
    then unwrap_or
        (and_then (and_then tls_certificate (find_leaf_certificate x509))
          (cn_from_certificate x509))
        prefix
    else prefix

unfoldable pub is_usual_port : Option ℕ → Bool
is_usual_port none = true
is_usual_port (some port) = port == 80 || port == 443

-- Pairs collected into a map: the last value of a key stays.
unfoldable pub collect_map :
    List (Text × HeaderValue) → List (Text × HeaderValue) → List (Text × HeaderValue)
collect_map m [] = m
collect_map m ((k, v) ∷ pairs) = collect_map (insert k v m) pairs

-- The host header: the one given, or the host with its port, unless the port is the usual one.
unfoldable pub host_header :
    {U : Type 0}
    → ServerUrls U
    → (Text → Option HeaderValue)
    → U
    → List (Text × HeaderValue)
    → Result StartError HeaderValue
unfolding is_usual_port
host_header urls header_value remote_addr http_headers =
    elim (find (λ (h : Text × HeaderValue). text_eq h.0 host_name) http_headers) [
      | some (name, value) ↦ ok value
      | none ↦ do
        host ← expect (urls.host remote_addr)
        let port = urls.port_or_known_default remote_addr in
            ok_or
              (header_value (
                if is_usual_port port
                then urls.host_to_string host
                else urls.host_to_string host ++ (b':' ∷ urls.port_to_string (unwrap_or port 0))))
              start_error
    ]

-- The reloader of a client, if it uses TLS.
unfoldable pub tls_reloader_of :
    {C : Type 0}
    → (FilePath → Bool)
    → Option (TlsClientConfig C)
    → Option (Option (TlsClient FilePath C))
tls_reloader_of watchable none = some none
tls_reloader_of watchable (some tls) =
    new_for_client watchable tls.tls_certificate_path tls.tls_key_path tls.tls_connector

-- `expect` of a result: an error is a panic.
abbrev pub expect_ok : {A : Type 0} → Result StartError A → Result StartError A
expect_ok (err e) = err panicked
expect_ok (ok a) = ok a

module _ {U D K X E C : Type 0} (urls : StartUrls U) (server_urls : ServerUrls U)
    (loaders : Loaders FilePath (List D) K) (x509 : X509 D X) (outside : Outside D K E C) where
  unfoldable pub ech_config : Client U → ResolverConfig U → Result StartError (Option E)
  unfolding lookup_ech_config
  ech_config args dns_resolver =
      if args.tls_ech_enable
      then (if outside.supports_ech
          then (do
            host ← expect (server_urls.host args.remote_addr)
            ok_or (lookup_ech_config outside.lookup_https dns_resolver host) start_error)
          else err start_error)
      else ok none

  unfoldable pub client_tls :
      Client U
      → ResolverConfig U
      → Option (List D)
      → Option K
      → TransportScheme
      → Result StartError (Option (TlsClientConfig C))
  unfolding ech_config
  client_tls args dns_resolver tls_certificate tls_key ws = ok none
  client_tls args dns_resolver tls_certificate tls_key http = ok none
  client_tls args dns_resolver tls_certificate tls_key scheme = do
    ech ← ech_config args dns_resolver
    connector ← expect (
        outside.tls_connector args.tls_verify_certificate (alpn_protocols scheme)
          (not args.tls_sni_disable) ech tls_certificate tls_key)
    ok (
        some (record {
          tls_connector = connector;
          tls_sni_override = args.tls_sni_override;
          tls_verify_certificate = args.tls_verify_certificate;
          tls_sni_disabled = args.tls_sni_disable;
          tls_certificate_path = args.tls_certificate;
          tls_key_path = args.tls_private_key;
        }))

  -- A file of headers that is not there is a panic.
  unfoldable pub check_file : Option FilePath → Result StartError (Option FilePath)
  check_file none = ok none
  check_file (some path) = if outside.exists_file path then ok (some path) else err panicked

  -- `WsClient::new`: a reloader that cannot watch its files, or a pool that is not made, is an error.
  unfoldable pub ws_client_new : Client U → WsClientConfig U C → Result StartError (WsClient U C)
  unfolding tls_reloader_of
  ws_client_new args config = do
    tls_reloader ←
        ok_or (tls_reloader_of outside.watchable (Addr.tls_of config.remote_addr)) start_error
    (if outside.builds_pool args.connection_min_idle args.connection_retry_max_backoff
        then ok (record {
          config = config;
          reverse_tunnel_connection_retry_max_backoff =
              args.reverse_tunnel_connection_retry_max_backoff;
          tls_reloader = tls_reloader;
        })
        else err start_error)

  unfoldable pub create_client : Client U → Result StartError (WsClient U C)
  unfolding load_mtls path_prefix_of host_header client_tls check_file mk_http_proxy ping_frequency
      new_from_urls ws_client_new
  create_client args = do
    mtls ← load_mtls loaders args.tls_certificate args.tls_private_key
    http_proxy ← mk_http_proxy urls args.http_proxy args.http_proxy_login args.http_proxy_password
    dns_resolver ← expect_ok (
        new_from_urls urls server_urls outside.reads_system_conf args.dns_resolver http_proxy
          args.socket_so_mark (not args.dns_resolver_prefer_ipv4))
    scheme ← expect (from_str (urls.scheme args.remote_addr))
    tls ← client_tls args dns_resolver mtls.0 mtls.1 scheme
    http_header_host ←
        host_header server_urls outside.header_value args.remote_addr args.http_headers
    http_headers_file ← check_file args.http_headers_file
    host ← expect (server_urls.host args.remote_addr)
    port ← expect (server_urls.port_or_known_default args.remote_addr)
    remote_addr ← expect (Addr.new scheme host port tls)
    ws_client_new args (record {
      remote_addr = remote_addr;
      socket_so_mark = args.socket_so_mark;
      http_upgrade_path_prefix = path_prefix_of x509 mtls.0 args.http_upgrade_path_prefix;
      http_upgrade_credentials = args.http_upgrade_credentials;
      http_headers =
          collect_map []
            (filter_by (λ (h : Text × HeaderValue). not (text_eq h.0 host_name)) args.http_headers);
      http_headers_file = http_headers_file;
      http_header_host = http_header_host;
      timeout_connect = timeout_connect;
      websocket_ping_frequency = ping_frequency args.websocket_ping_frequency;
      websocket_mask_frame = args.websocket_mask_frame;
      http_proxy = http_proxy;
      dns_resolver = dns_resolver;
    })

-- `rustls::pki_types::ServerName`.
pub data ServerName : Type 0 where
  dns_name : Text → ServerName
  ip_address : IpAddr → ServerName

-- The name that the server must prove: the override, or the host. `is_dns_name` is `DnsName::try_from`.
unfoldable pub host_server_name : (Text → Bool) → Host → ServerName
host_server_name is_dns_name (domain name) =
    dns_name (if is_dns_name name then name else codes "dns-name-invalid.com")
host_server_name is_dns_name (ipv4 ip) = ip_address (v4 ip)
host_server_name is_dns_name (ipv6 ip) = ip_address (v6 ip)

unfoldable pub tls_server_name : {U C : Type 0} → (Text → Bool) → WsClientConfig U C → ServerName
unfolding host_server_name
tls_server_name is_dns_name config =
    elim (and_then (Addr.tls_of config.remote_addr) (λ tls. tls.tls_sni_override)) [
      | some sni_override ↦ dns_name sni_override
      | none ↦ host_server_name is_dns_name (Addr.host_of config.remote_addr)
    ]
