-- ===== src/Startup/Resolvers.antt =====
-- wstunnel/src/protocols/dns/resolver.rs: DnsResolver::new_from_urls, and whom lookup_ech_config asks.
use wstunnel.Prelude.{
  ℕ, Bool, Option, none, some, unwrap_or, and_then, List, [], ◌∷◌, Text, codes, text_eq, any,
  if◌then◌else◌,
}
use wstunnel.Prelude.Results.{Result, ok, ok_or}
use wstunnel.Net.{Host, domain, ipv4, ipv6, IpAddr, v4, v6, SocketAddr}
use wstunnel.Dns.{with_port}
use wstunnel.Restrictions.Ports.{collect}
use wstunnel.Startup.Config.{StartError, start_error, StartUrls}

-- What a URL tells (crate `url`), with hosts and numbers printed.
pub record ServerUrls (U : Type 0) : Type 0 where
  pub host : U → Option Host
  pub port : U → Option ℕ
  pub port_or_known_default : U → Option ℕ
  pub query_sni : U → Option Text
  pub parse_host : Text → Option Host
  pub host_to_string : Host → Text
  pub port_to_string : ℕ → Text

pub data Protocol : Type 0 where
  udp_protocol https_protocol tls_protocol : Protocol

pub record NameServerConfig : Type 0 where
  pub socket_addr : SocketAddr
  pub protocol : Protocol
  pub tls_dns_name : Option Text

-- The resolver that is made: of the system, or of crate `hickory_resolver` with these servers, those of the
-- system for `none`, through the proxy, with the mark and the preference for IPv6.
pub data ResolverConfig (U : Type 0) : Type 0 where
  system : ResolverConfig U
  trust_dns : Option (List NameServerConfig) → Option U → Option ℕ → Bool → ResolverConfig U

module _ {U : Type 0} (urls : StartUrls U) (server_urls : ServerUrls U) where
  -- The address of a server, which must be an IP address.
  unfoldable pub resolver_ip : Host → Option IpAddr
  resolver_ip (ipv4 ip) = some (v4 ip)
  resolver_ip (ipv6 ip) = some (v6 ip)
  resolver_ip (domain name) =
      and_then (server_urls.parse_host name)
        λ h. elim h [ domain s ↦ none | ipv4 ip ↦ some (v4 ip) | ipv6 ip ↦ some (v6 ip) ]

  -- The protocol, the port and the name for TLS, by the scheme.
  unfoldable pub by_scheme : U → Option (Protocol × ℕ × Option Text)
  by_scheme resolver =
      if text_eq (urls.scheme resolver) (codes "dns")
      then some (udp_protocol, unwrap_or (server_urls.port resolver) 53, none)
      else if text_eq (urls.scheme resolver) (codes "dns+https")
      then and_then (server_urls.query_sni resolver)
          (λ sni. some (https_protocol, unwrap_or (server_urls.port resolver) 443, some sni))
      else if text_eq (urls.scheme resolver) (codes "dns+tls")
      then and_then (server_urls.query_sni resolver)
          (λ sni. some (tls_protocol, unwrap_or (server_urls.port resolver) 853, some sni))
      else none

  unfoldable pub url_to_ns_config : U → Option NameServerConfig
  unfolding resolver_ip by_scheme
  url_to_ns_config resolver = and_then (by_scheme resolver) λ (protocol, port, tls_sni).
      and_then (server_urls.host resolver) λ host. and_then (resolver_ip host) λ ip.
        some
          (record { socket_addr = with_port port ip; protocol = protocol; tls_dns_name = tls_sni })

  -- `reads_system_conf` is whether the configuration of the system can be read.
  unfoldable pub new_from_urls :
      Bool → List U → Option U → Option ℕ → Bool → Result StartError (ResolverConfig U)
  unfolding url_to_ns_config
  new_from_urls reads_system_conf [] proxy so_mark prefer_ipv6 =
      ok (if reads_system_conf then trust_dns none proxy so_mark prefer_ipv6 else system)
  new_from_urls reads_system_conf (resolver ∷ resolvers) proxy so_mark prefer_ipv6 =
      if any (λ r. text_eq (urls.scheme r) (codes "system")) (resolver ∷ resolvers)
      then ok system
      else ok_or
          (and_then (collect url_to_ns_config (resolver ∷ resolvers))
            (λ servers. some (trust_dns (some servers) proxy so_mark prefer_ipv6)))
          start_error

-- Only names, and only a resolver of crate `hickory_resolver`, are asked for the configuration of encrypted
-- hello; `lookup_https` is its query.
unfoldable pub lookup_ech_config :
    {U E : Type 0} → (Text → Option (Option E)) → ResolverConfig U → Host → Option (Option E)
lookup_ech_config lookup_https system host = some none
lookup_ech_config lookup_https (trust_dns servers proxy so_mark prefer) (domain name) =
    lookup_https name
lookup_ech_config lookup_https (trust_dns servers proxy so_mark prefer) (ipv4 ip) = some none
lookup_ech_config lookup_https (trust_dns servers proxy so_mark prefer) (ipv6 ip) = some none
