-- ===== src/Startup/Starting.antt =====
-- What a client needs to start, and what it starts with.
use wstunnel.Prelude.{
  ℕ, ◌≡◌, refl, sym, inl, inr, Bool, true, false, not, Option, none, some, List, [], ◌∷◌, Text,
  text_eq, filter_by, All, insert, text_keys, Bool-cases,
}
use mathlib.Core.Path.{subst, ap, ◌∙◌}
use wstunnel.Prelude.Results.{ok, bind-eq-ok, ok_cancel}
use wstunnel.Net.{Host, FilePath}
use wstunnel.Request.{HeaderValue}
use wstunnel.Reload.Certs.{Loaders}
use wstunnel.Server.Connections.{X509}
use wstunnel.Transport.Addr
use wstunnel.Transport.Addr.{
  TransportScheme, ws, wss, http, https, TransportAddr, from_str, alpn_protocols,
}
use wstunnel.Startup.Config.{StartUrls, mk_http_proxy, ping_frequency, timeout_connect, expect}
use wstunnel.Reload.Connector.{TlsClient}
use wstunnel.Startup.Resolvers.{ServerUrls, ResolverConfig, new_from_urls}
use wstunnel.Startup.ClientData.{Client, TlsClientConfig, WsClientConfig, Outside, WsClient}
use wstunnel.Startup.ClientConfig.{
  host_name, load_mtls, path_prefix_of, host_header, ech_config, client_tls, check_file,
  create_client, collect_map, tls_reloader_of, ws_client_new,
}

abbrev pub is_secure : TransportScheme → Bool
is_secure ws = false
is_secure http = false
is_secure wss = true
is_secure https = true

abbrev pub NotHost : Text × HeaderValue → Type 0
NotHost h = text_eq h.0 host_name ≡ false

insert-NotHost :
    (k : Text) (v : HeaderValue) (m : List (Text × HeaderValue))
    → text_eq k host_name ≡ false
    → All NotHost m
    → All NotHost (insert k v m)
unfolding insert
insert-NotHost k v [] n h = (n, tt)
insert-NotHost k v ((j, w) ∷ m) n (p, h) = elim (Bool-cases (text_eq j k)) [
  | inl same ↦ rw same (n, h)
  | inr other ↦ rw other (p, insert-NotHost k v m n h)
]

collect_map-NotHost :
    (m pairs : List (Text × HeaderValue))
    → All NotHost m
    → All NotHost
        (collect_map m (filter_by (λ (h : Text × HeaderValue). not (text_eq h.0 host_name)) pairs))
unfolding collect_map
collect_map-NotHost m [] h = h
collect_map-NotHost m ((k, v) ∷ pairs) h = elim (Bool-cases (text_eq k host_name)) [
  | inl same ↦ rw same (collect_map-NotHost m pairs h)
  | inr other ↦ rw other (collect_map-NotHost (insert k v m) pairs (insert-NotHost k v m other h))
]

module _ {U D K X E C : Type 0} (urls : StartUrls U) (server_urls : ServerUrls U)
    (loaders : Loaders FilePath (List D) K) (x509 : X509 D X) (outside : Outside D K E C) where
  -- The configuration of TLS that an address holds is the one of the arguments.
  abbrev pub OfArgs : Client U → Bool → Option (TlsClientConfig C) → Type 0
  OfArgs args false tls = tls ≡ none
  OfArgs args true tls =
      (t : TlsClientConfig C) × (tls ≡ some t)
      × (t.tls_sni_override ≡ args.tls_sni_override)
      × (t.tls_verify_certificate ≡ args.tls_verify_certificate)
      × (t.tls_sni_disabled ≡ args.tls_sni_disable)

  tls_config_of : Client U → C → TlsClientConfig C
  tls_config_of args connector = record {
    tls_connector = connector;
    tls_sni_override = args.tls_sni_override;
    tls_verify_certificate = args.tls_verify_certificate;
    tls_sni_disabled = args.tls_sni_disable;
    tls_certificate_path = args.tls_certificate;
    tls_key_path = args.tls_private_key;
  }

  pub secure-OfArgs :
      (args : Client U) (dns_resolver : ResolverConfig U) (cert : Option (List D)) (key : Option K)
      (scheme : TransportScheme) (tls : Option (TlsClientConfig C))
      → client_tls urls server_urls loaders x509 outside args dns_resolver cert key scheme ≡ ok tls
      → OfArgs args (is_secure scheme) tls
  unfolding client_tls tls_config_of
  secure-OfArgs args dns_resolver cert key ws tls e = sym (ok_cancel e)
  secure-OfArgs args dns_resolver cert key http tls e = sym (ok_cancel e)
  secure-OfArgs args dns_resolver cert key wss tls e =
      let (ech, e0, e1) =
        bind-eq-ok (ech_config urls server_urls loaders x509 outside args dns_resolver) _ e in
      let (connector, e2, e3) =
        bind-eq-ok
          (expect (
            outside.tls_connector args.tls_verify_certificate (alpn_protocols wss)
              (not args.tls_sni_disable) ech cert key))
          _ e1 in
      (tls_config_of args connector, sym (ok_cancel e3), refl, refl, refl)
  secure-OfArgs args dns_resolver cert key https tls e =
      let (ech, e0, e1) =
        bind-eq-ok (ech_config urls server_urls loaders x509 outside args dns_resolver) _ e in
      let (connector, e2, e3) =
        bind-eq-ok
          (expect (
            outside.tls_connector args.tls_verify_certificate (alpn_protocols https)
              (not args.tls_sni_disable) ech cert key))
          _ e1 in
      (tls_config_of args connector, sym (ok_cancel e3), refl, refl, refl)

  -- `TransportAddr::new` succeeds with it.
  pub addr_made :
      (args : Client U) (scheme : TransportScheme) (host : Host) (port : ℕ)
      (tls : Option (TlsClientConfig C))
      → OfArgs args (is_secure scheme) tls
      → (addr : TransportAddr (TlsClientConfig C)) × (Addr.new scheme host port tls ≡ some addr)
        × (Addr.scheme_of addr ≡ scheme)
        × (Addr.host_of addr ≡ host)
        × (Addr.port_of addr ≡ port)
        × (Addr.tls_of addr ≡ tls)
  unfolding Addr.new Addr.scheme_of Addr.host_of Addr.port_of Addr.tls_of
  addr_made args ws host port tls e = (_, refl, refl, refl, refl, sym e)
  addr_made args http host port tls e = (_, refl, refl, refl, refl, sym e)
  addr_made args wss host port tls (t, e, n, v, d) =
      (Addr.wss_addr t wss host port, rw e refl, refl, refl, refl, sym e)
  addr_made args https host port tls (t, e, n, v, d) =
      (Addr.https_addr https t host port, rw e refl, refl, refl, refl, sym e)

  -- What its callers give for a client to start.
  pub record Succeeds (args : Client U) : Type 0 where
    pub mtls : Option (List D) × Option K
    pub http_proxy : Option U
    pub dns_resolver : ResolverConfig U
    pub scheme : TransportScheme
    pub tls : Option (TlsClientConfig C)
    pub header : HeaderValue
    pub headers_file : Option FilePath
    pub host : Host
    pub port : ℕ
    pub tls_reloader : Option (TlsClient FilePath C)
    pub loads : load_mtls loaders args.tls_certificate args.tls_private_key ≡ ok mtls
    pub proxied :
        mk_http_proxy urls args.http_proxy args.http_proxy_login args.http_proxy_password
        ≡ ok http_proxy
    pub resolves :
        new_from_urls urls server_urls outside.reads_system_conf args.dns_resolver http_proxy
          args.socket_so_mark
          (not args.dns_resolver_prefer_ipv4)
        ≡ ok dns_resolver
    pub has_scheme : from_str (urls.scheme args.remote_addr) ≡ some scheme
    pub connects :
        client_tls urls server_urls loaders x509 outside args dns_resolver mtls.0 mtls.1 scheme
        ≡ ok tls
    pub names :
        host_header server_urls outside.header_value args.remote_addr args.http_headers ≡ ok header
    pub has_file :
        check_file urls server_urls loaders x509 outside args.http_headers_file ≡ ok headers_file
    pub has_host : server_urls.host args.remote_addr ≡ some host
    pub has_port : server_urls.port_or_known_default args.remote_addr ≡ some port
    pub watches : tls_reloader_of outside.watchable tls ≡ some tls_reloader
    pub pools :
        outside.builds_pool args.connection_min_idle args.connection_retry_max_backoff ≡ true

  config_made :
      (args : Client U) → Succeeds args → TransportAddr (TlsClientConfig C) → WsClientConfig U C
  unfolding path_prefix_of ping_frequency
  config_made args s addr = record {
    remote_addr = addr;
    socket_so_mark = args.socket_so_mark;
    http_upgrade_path_prefix = path_prefix_of x509 s.mtls.0 args.http_upgrade_path_prefix;
    http_upgrade_credentials = args.http_upgrade_credentials;
    http_headers =
        collect_map []
          (filter_by (λ (h : Text × HeaderValue). not (text_eq h.0 host_name)) args.http_headers);
    http_headers_file = s.headers_file;
    http_header_host = s.header;
    timeout_connect = timeout_connect;
    websocket_ping_frequency = ping_frequency args.websocket_ping_frequency;
    websocket_mask_frame = args.websocket_mask_frame;
    http_proxy = s.http_proxy;
    dns_resolver = s.dns_resolver;
  }

  client_made : (args : Client U) → Succeeds args → TransportAddr (TlsClientConfig C) → WsClient U C
  unfolding config_made
  client_made args s addr = record {
    config = config_made args s addr;
    reverse_tunnel_connection_retry_max_backoff = args.reverse_tunnel_connection_retry_max_backoff;
    tls_reloader = s.tls_reloader;
  }

  -- The client is made of what its callers give.
  abbrev pub Starts : (args : Client U) → Succeeds args → Type 0
  Starts args s =
      (client : WsClient U C) × (create_client urls server_urls loaders x509 outside args
        ≡ ok client)
      × (Addr.scheme_of client.config.remote_addr ≡ s.scheme)
      × (Addr.host_of client.config.remote_addr ≡ s.host)
      × (Addr.port_of client.config.remote_addr ≡ s.port)
      × OfArgs args (is_secure s.scheme) (Addr.tls_of client.config.remote_addr)
      × All NotHost client.config.http_headers
      × (client.config.http_header_host ≡ s.header)

  pub starts : (args : Client U) (s : Succeeds args) → Starts args s
  unfolding create_client client_made ws_client_new
  starts args s =
      let of_args = secure-OfArgs args s.dns_resolver s.mtls.0 s.mtls.1 s.scheme s.tls s.connects in
      let (addr, made, a, b, c, d) = addr_made args s.scheme s.host s.port s.tls of_args in
      let watched = ap (tls_reloader_of outside.watchable) d ∙ s.watches in
      (
        client_made args s addr,
        rw
            (
              s.loads, s.proxied, s.resolves, s.has_scheme, s.connects, s.names, s.has_file,
              s.has_host, s.has_port, made, watched, s.pools,
            )
            refl,
        a,
        b,
        c,
        subst (OfArgs args (is_secure s.scheme)) (sym d) of_args,
        collect_map-NotHost [] args.http_headers tt,
        refl,
      )
