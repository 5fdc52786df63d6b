-- ===== src/Startup/ClientData.antt =====
-- The arguments of a client (`Client` of wstunnel/src/config.rs), its configuration (`WsClientConfig` of
-- wstunnel/src/tunnel/client/config.rs) and what a start takes from outside.
use wstunnel.Prelude.{ℕ, Bool, Option, List, Text, text_keys}
use wstunnel.Net.{FilePath}
use wstunnel.Request.{HeaderValue}
use wstunnel.Reload.Connector.{TlsClient}
use wstunnel.Startup.Resolvers.{ResolverConfig}
use wstunnel.Transport.Addr.{TransportAddr}
use wstunnel.Cli.{LocalToRemote}

pub record Client (U : Type 0) : Type 0 where
  pub local_to_remote : List LocalToRemote
  pub remote_to_local : List LocalToRemote
  pub socket_so_mark : Option ℕ
  pub connection_min_idle : ℕ
  pub connection_retry_max_backoff : ℕ
  pub reverse_tunnel_connection_retry_max_backoff : ℕ
  pub tls_sni_override : Option Text
  pub tls_sni_disable : Bool
  pub tls_ech_enable : Bool
  pub tls_verify_certificate : Bool
  pub http_proxy : Option Text
  pub http_proxy_login : Option Text
  pub http_proxy_password : Option Text
  pub http_upgrade_path_prefix : Text
  pub http_upgrade_credentials : Option HeaderValue
  pub websocket_ping_frequency : Option ℕ
  pub websocket_mask_frame : Bool
  pub http_headers : List (Text × HeaderValue)
  pub http_headers_file : Option FilePath
  pub remote_addr : U
  pub tls_certificate : Option FilePath
  pub tls_private_key : Option FilePath
  pub dns_resolver : List U
  pub dns_resolver_prefer_ipv4 : Bool

-- `C` is the connector of crate `rustls`.
pub record TlsClientConfig (C : Type 0) : Type 0 where
  pub tls_connector : C
  pub tls_sni_override : Option Text
  pub tls_verify_certificate : Bool
  pub tls_sni_disabled : Bool
  pub tls_certificate_path : Option FilePath
  pub tls_key_path : Option FilePath

pub record WsClientConfig (U C : Type 0) : Type 0 where
  pub remote_addr : TransportAddr (TlsClientConfig C)
  pub socket_so_mark : Option ℕ
  pub http_upgrade_path_prefix : Text
  pub http_upgrade_credentials : Option HeaderValue
  pub http_headers : List (Text × HeaderValue)
  pub http_headers_file : Option FilePath
  pub http_header_host : HeaderValue
  pub timeout_connect : ℕ
  pub websocket_ping_frequency : Option ℕ
  pub websocket_mask_frame : Bool
  pub http_proxy : Option U
  pub dns_resolver : ResolverConfig U

-- `WsClient`, with the reloader of its files; the pool is made of these.
pub record WsClient (U C : Type 0) : Type 0 where
  pub config : WsClientConfig U C
  pub reverse_tunnel_connection_retry_max_backoff : ℕ
  pub tls_reloader : Option (TlsClient FilePath C)

-- The rest that is outside: building a connector of the check of certificates, the protocols, the use of
-- SNI, the configuration of encrypted hello and the material of mTLS; header values of texts; the files that
-- are there, and those that can be watched; whether the pool is made, of its connections at least idle and
-- its timeout; and the build and the queries of encrypted hello.
pub record Outside (D K E C : Type 0) : Type 0 where
  pub tls_connector : Bool → List Text → Bool → Option E → Option (List D) → Option K → Option C
  pub supports_ech : Bool
  pub lookup_https : Text → Option (Option E)
  pub header_value : Text → Option HeaderValue
  pub exists_file : FilePath → Bool
  pub reads_system_conf : Bool
  pub watchable : FilePath → Bool
  pub builds_pool : ℕ → ℕ → Bool
