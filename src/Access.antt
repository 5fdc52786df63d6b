-- ===== src/Access.antt =====
-- wstunnel/src/tunnel/server/utils.rs: whether a client may open a tunnel, and the parts of its
-- request that this rests on.
pub mod Laws
pub mod Prefix
pub mod Mapping
pub mod Destinations
pub mod CommandLine
use wstunnel.Prelude.{
  ℕ, Bool, true, false, not, ◌&&◌, ◌||◌, Option, none, some, List, [], ◌∷◌, Text, codes, any, all,
  find, find_map, filter_by, is_empty, is_some_and, unwrap_or, if◌then◌else◌, lookup, nat_eq,
}
use wstunnel.Net.{
  IpAddr, v4, v6, Host, domain, ipv4, ipv6, LocalProtocol, reverse_unix, RemoteAddr,
  is_reverse_tunnel, FilePath, to_str,
}
use wstunnel.Deps.{Regexes, IpNets}
use wstunnel.Restrictions.{
  PortRange, contains_port, AllowTunnelConfig, AllowReverseTunnelConfig, AllowConfig,
  reverse_tunnel, tunnel, MatchConfig, path_prefix, authorization, RestrictionConfig,
  RestrictionsRules, of_protocol, reverse_of_protocol, same_protocol, same_reverse,
}

-- The path of a `ReverseUnix` protocol.
abbrev pub reverse_unix_path : LocalProtocol → Option FilePath
reverse_unix_path (reverse_unix path) = some path
reverse_unix_path _ = none

-- The port list of a rule: an empty one takes every port.
unfoldable pub port_ok : List PortRange → ℕ → Bool
unfolding contains_port
port_ok ranges port = not (not (is_empty ranges) && not (any (λ r. contains_port r port) ranges))

module _ {R : Type 0} ⦃re : Regexes R⦄ where
  abbrev pub match_one : Text → Option Text → MatchConfig R → Bool
  match_one prefix auth MatchConfig.any = true
  match_one prefix auth (path_prefix path) = re.is_match path prefix
  match_one prefix auth (authorization reg) = is_some_and auth (λ val. re.is_match reg val)

module _ {R N : Type 0} ⦃re : Regexes R⦄ where
  -- `RestrictionConfig::filter`.
  unfoldable pub filter : RestrictionConfig R N → Text → Option Text → Bool
  filter r prefix auth = all (match_one prefix auth) r.matches

module _ {N : Type 0} ⦃nets : IpNets N⦄ where
  -- The last test of `AllowReverseTunnelConfig::is_allowed`, on the address to listen on.
  abbrev pub bind_ok : List N → Host → Bool
  bind_ok cidr (domain _) = false
  bind_ok cidr (ipv4 ip) = any (λ c. nets.contains c (v4 ip)) cidr
  bind_ok cidr (ipv6 ip) = any (λ c. nets.contains c (v6 ip)) cidr

module _ {R N : Type 0} ⦃re : Regexes R⦄ ⦃nets : IpNets N⦄ where
  -- The last test of `AllowTunnelConfig::is_allowed`, on the destination.
  abbrev pub dest_ok : R → List N → Host → Bool
  dest_ok host cidr (domain name) = re.is_match host name
  dest_ok host cidr (ipv4 ip) = any (λ c. nets.contains c (v4 ip)) cidr
  dest_ok host cidr (ipv6 ip) = any (λ c. nets.contains c (v6 ip)) cidr

  unfoldable pub reverse_is_allowed : AllowReverseTunnelConfig R N → RemoteAddr → Bool
  unfolding port_ok is_reverse_tunnel
  reverse_is_allowed config remote =
      if not (is_reverse_tunnel remote.protocol)
      then false
      else elim (reverse_unix_path remote.protocol) [
        | some path ↦
            re.is_match config.unix_path
              (unwrap_or (to_str path) (codes "####INVALID_UNIX_PATH####"))
        | none ↦
            if not (port_ok config.port remote.port)
            then false
            else if not (is_empty config.protocol)
                && not (any (same_reverse (reverse_of_protocol remote.protocol)) config.protocol)
            then false
            else bind_ok config.cidr remote.host
      ]

  unfoldable pub tunnel_is_allowed : AllowTunnelConfig R N → RemoteAddr → Bool
  unfolding port_ok is_reverse_tunnel
  tunnel_is_allowed config remote =
      if is_reverse_tunnel remote.protocol
      then false
      else if not (port_ok config.port remote.port)
      then false
      else if not (is_empty config.protocol)
          && not (any (same_protocol (of_protocol remote.protocol)) config.protocol)
      then false
      else dest_ok config.host config.cidr remote.host

  unfoldable pub is_allowed : RemoteAddr → AllowConfig R N → Bool
  unfolding reverse_is_allowed tunnel_is_allowed
  is_allowed remote (reverse_tunnel config) = reverse_is_allowed config remote
  is_allowed remote (tunnel config) = tunnel_is_allowed config remote

  -- `restriction.allow.iter().any(..)` of `validate_tunnel`.
  unfoldable pub allows : RemoteAddr → RestrictionConfig R N → Bool
  unfolding is_allowed
  allows remote r = any (is_allowed remote) r.allow

  unfoldable pub validate_tunnel :
      RemoteAddr → Text → Option Text → RestrictionsRules R N → Option (RestrictionConfig R N)
  unfolding filter allows
  validate_tunnel remote prefix auth rules =
      find (allows remote) (filter_by (λ r. filter r prefix auth) rules.restrictions)

-- The mapping of one entry of `allow`, if it has one for the port.
abbrev pub mapped_by : {R N : Type 0} → ℕ → AllowConfig R N → Option ℕ
mapped_by port (reverse_tunnel config) = lookup port config.port_mapping
mapped_by port (tunnel config) = none

unfoldable pub find_mapped_port : {R N : Type 0} → ℕ → RestrictionConfig R N → ℕ
find_mapped_port req_port restriction =
    unwrap_or (find_map (mapped_by req_port) restriction.allow) req_port
