-- ===== src/Startup/Config.antt =====
-- wstunnel/src/lib.rs: mk_http_proxy and run_server_impl, with the arguments of the server
-- (`Server` of wstunnel/src/config.rs). URLs, files and name lookups are parameters.
use wstunnel.Prelude.{
  ℕ, ◌*◌, ◌/◌, Bool, not, Option, none, some, or_else, unwrap_or, and_then, List, [], ◌∷◌, ◌++◌,
  Text, codes, text_eq, starts_with, split_once_char, parse_u16, if◌then◌else◌, ltb, ◌==◌, ◌||◌,
}
use mathlib.Core.Option
use mathlib.Core.List.{reverse}
use wstunnel.Prelude.Results.{Result, ok, ◌>>=◌, ok_or}
use wstunnel.Net.{SocketAddr, FilePath}
use wstunnel.Deps.{Regexes, IpNets}
use wstunnel.Restrictions.{RestrictionsRules}
use wstunnel.Restrictions.Ports.{collect}
use wstunnel.Restrictions.Build.{from_path_prefix}
use wstunnel.Reload.Certs.{TlsServerConfig, Loaders}

-- An error, or a panic of `expect`, `unwrap` or an index.
pub data StartError : Type 0 where
  start_error panicked : StartError

-- `url::Url`, with the operations that change it.
pub record StartUrls (U : Type 0) : Type 0 where
  pub parse : Text → Option U
  pub scheme : U → Text
  pub set_username : Text → U → Option U
  pub set_password : Text → U → Option U
  -- `socket_addrs`, with the port for a URL without one.
  pub socket_addrs : ℕ → U → Option (List SocketAddr)

-- What an optional argument changes.
unfoldable pub with_option :
    {U : Type 0} → (Text → U → Option U) → Option Text → U → Result StartError U
with_option set none url = ok url
with_option set (some s) url = ok_or (set s url) start_error

unfoldable pub mk_http_proxy :
    {U : Type 0}
    → StartUrls U
    → Option Text
    → Option Text
    → Option Text
    → Result StartError (Option U)
unfolding with_option
mk_http_proxy urls none proxy_login proxy_password = ok none
mk_http_proxy urls (some proxy) proxy_login proxy_password = do
  url ←
      ok_or
        (urls.parse
          (if starts_with proxy (codes "http://") then proxy else codes "http://" ++ proxy))
        start_error
  named ← with_option urls.set_username proxy_login url
  secret ← with_option urls.set_password proxy_password named
  ok (some secret)

abbrev pub nanos : ℕ
nanos = 1_000_000_000

-- `or(Some(Duration::from_secs(30))).filter(|d| d.as_secs() > 0)`.
unfoldable pub ping_frequency : Option ℕ → Option ℕ
ping_frequency d =
    and_then (or_else d (some (30 * nanos))) (λ t. if ltb 0 (t / nanos) then some t else none)

abbrev pub timeout_connect : ℕ
timeout_connect = 10 * nanos

pub record Server (U : Type 0) : Type 0 where
  pub remote_addr : U
  pub socket_so_mark : Option ℕ
  pub websocket_ping_frequency : Option ℕ
  pub websocket_mask_frame : Bool
  pub dns_resolver : List U
  pub dns_resolver_prefer_ipv4 : Bool
  pub restrict_to : Option (List Text)
  pub restrict_http_upgrade_path_prefix : Option (List Text)
  pub restrict_config : Option FilePath
  pub tls_certificate : Option FilePath
  pub tls_private_key : Option FilePath
  pub tls_client_ca_certs : Option FilePath
  pub http_proxy : Option Text
  pub http_proxy_login : Option Text
  pub http_proxy_password : Option Text
  pub remote_to_local_server_idle_timeout : ℕ
  pub tunnel_resolver : Option U

-- `DnsResolver::new_from_urls` is given the servers and the order of addresses.
pub record WsServerConfig (U C K : Type 0) : Type 0 where
  pub socket_so_mark : Option ℕ
  pub bind : SocketAddr
  pub websocket_ping_frequency : Option ℕ
  pub timeout_connect : ℕ
  pub websocket_mask_frame : Bool
  pub tls : Option (TlsServerConfig FilePath C K)
  pub dns_resolver : List U × Bool
  pub restriction_config : Option FilePath
  pub http_proxy : Option U
  pub remote_server_idle_timeout : ℕ
  pub tunnel_resolver : Option U

-- `str::rsplit_once` by one character.
unfoldable pub rsplit_once : ℕ → Text → Option (Text × Text)
rsplit_once d s =
    Option.map (λ (t : Text × Text). (reverse t.1, reverse t.0)) (split_once_char d (reverse s))

abbrev pub is_bracket : ℕ → Bool
is_bracket c = c == b'[' || c == b']'

unfoldable pub trim_brackets_start : Text → Text
trim_brackets_start [] = []
trim_brackets_start (c ∷ s) = if is_bracket c then trim_brackets_start s else c ∷ s

-- `trim_matches(['[', ']'])`.
unfoldable pub trim_brackets : Text → Text
unfolding trim_brackets_start
trim_brackets s = reverse (trim_brackets_start (reverse (trim_brackets_start s)))

-- An entry of `--restrict-to`; `none` is a panic.
unfoldable pub restrict_entry : Text → Option (Text × ℕ)
unfolding rsplit_once trim_brackets
restrict_entry x =
    and_then (rsplit_once b':' x)
      (λ (host, port). Option.map (λ n. (trim_brackets host, n)) (parse_u16 port))

-- `and_then` with a panic in place of `none`.
abbrev pub expect : {A : Type 0} → Option A → Result StartError A
expect o = ok_or o panicked

-- A file that is there is loaded or a panic; the default is the embedded one.
abbrev pub load_or :
    {C : Type 0} → (FilePath → Option C) → Option FilePath → C → Result StartError C
load_or load none default = ok default
load_or load (some path) default = expect (load path)

abbrev pub load_optional :
    {C : Type 0} → (FilePath → Option C) → Option FilePath → Result StartError (Option C)
load_optional load none = ok none
load_optional load (some path) = do c ← expect (load path); ok (some c)

abbrev pub first_addr : List SocketAddr → Option SocketAddr
first_addr [] = none
first_addr (a ∷ addrs) = some a

module _ {U R N : Type 0} ⦃re : Regexes R⦄ ⦃nets : IpNets N⦄
    (from_config_file : FilePath → Option (RestrictionsRules R N)) where
  -- The rules: of the file, or of the other arguments.
  unfoldable pub restrictions_of : Server U → Result StartError (RestrictionsRules R N)
  unfolding restrict_entry
  restrictions_of args = elim args.restrict_config [
    | some path ↦ expect (from_config_file path)
    | none ↦ do
      restrict_to ← expect (collect restrict_entry (unwrap_or args.restrict_to []))
      expect (from_path_prefix (unwrap_or args.restrict_http_upgrade_path_prefix []) restrict_to)
  ]

module _ {U C K : Type 0} (urls : StartUrls U) (loaders : Loaders FilePath C K)
    (embedded_certificate : C × K) where
  unfoldable pub tls_config : Server U → Result StartError (Option (TlsServerConfig FilePath C K))
  tls_config args =
      if text_eq (urls.scheme args.remote_addr) (codes "wss")
      then (do
        tls_certificate ← load_or loaders.load_certs args.tls_certificate embedded_certificate.0
        tls_key ← load_or loaders.load_key args.tls_private_key embedded_certificate.1
        tls_client_ca_certificates ← load_optional loaders.load_certs args.tls_client_ca_certs
        ok (
            some (record {
              tls_certificate_path = args.tls_certificate;
              tls_key_path = args.tls_private_key;
              tls_client_ca_certs_path = args.tls_client_ca_certs;
              tls_certificate = tls_certificate;
              tls_key = tls_key;
              tls_client_ca_certificates = tls_client_ca_certificates;
            })))
      else ok none

module _ {U C K R N : Type 0} ⦃re : Regexes R⦄ ⦃nets : IpNets N⦄ (urls : StartUrls U)
    (loaders : Loaders FilePath C K) (embedded_certificate : C × K)
    (from_config_file : FilePath → Option (RestrictionsRules R N)) where
  -- What `server.serve` is called with.
  unfoldable pub run_server_impl :
      Server U → Result StartError (WsServerConfig U C K × RestrictionsRules R N)
  unfolding tls_config restrictions_of mk_http_proxy ping_frequency
  run_server_impl args = do
    tls ← tls_config urls loaders embedded_certificate args
    restrictions ← restrictions_of from_config_file args
    http_proxy ← mk_http_proxy urls args.http_proxy args.http_proxy_login args.http_proxy_password
    addrs ← ok_or (urls.socket_addrs 8080 args.remote_addr) start_error
    bind ← expect (first_addr addrs)
    ok (
      record {
        socket_so_mark = args.socket_so_mark;
        bind = bind;
        websocket_ping_frequency = ping_frequency args.websocket_ping_frequency;
        timeout_connect = timeout_connect;
        websocket_mask_frame = args.websocket_mask_frame;
        tls = tls;
        dns_resolver = (args.dns_resolver, not args.dns_resolver_prefer_ipv4);
        restriction_config = args.restrict_config;
        http_proxy = http_proxy;
        remote_server_idle_timeout = args.remote_to_local_server_idle_timeout;
        tunnel_resolver = args.tunnel_resolver;
      },
      restrictions,
    )
