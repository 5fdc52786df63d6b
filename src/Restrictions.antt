-- ===== src/Restrictions.antt =====
-- wstunnel/src/restrictions/types.rs: the rules that say which tunnels a client may open. `R` stands
-- for the compiled regular expressions, `N` for the address ranges.
pub mod Ports
pub mod Build
pub mod Parsing
use wstunnel.Prelude.{ℕ, Bool, ◌&&◌, leb, List, Text}
use wstunnel.Net.{LocalProtocol}

-- `RangeInclusive<u16>`.
pub record PortRange : Type 0 where
  pub start : ℕ
  pub last : ℕ

unfoldable pub contains_port : PortRange → ℕ → Bool
contains_port r p = leb r.start p && leb p r.last

pub data TunnelConfigProtocol : Type 0 where
  tcp udp unknown : TunnelConfigProtocol

pub data ReverseTunnelConfigProtocol : Type 0 where
  tcp udp socks5 unix http_proxy unknown : ReverseTunnelConfigProtocol

pub record AllowTunnelConfig (R N : Type 0) : Type 0 where
  pub protocol : List TunnelConfigProtocol
  pub port : List PortRange
  pub host : R
  pub cidr : List N

pub record AllowReverseTunnelConfig (R N : Type 0) : Type 0 where
  pub protocol : List ReverseTunnelConfigProtocol
  pub port : List PortRange
  pub port_mapping : List (ℕ × ℕ)
  pub cidr : List N
  pub unix_path : R

pub data AllowConfig (R N : Type 0) : Type 0 where
  reverse_tunnel : AllowReverseTunnelConfig R N → AllowConfig R N
  tunnel : AllowTunnelConfig R N → AllowConfig R N

pub data MatchConfig (R : Type 0) : Type 0 where
  any : MatchConfig R
  path_prefix authorization : R → MatchConfig R

pub record RestrictionConfig (R N : Type 0) : Type 0 where
  pub name : Text
  pub matches : List (MatchConfig R)
  pub allow : List (AllowConfig R N)

pub record RestrictionsRules (R N : Type 0) : Type 0 where
  pub restrictions : List (RestrictionConfig R N)

-- `From<&LocalProtocol>` of the two enums.
abbrev pub reverse_of_protocol : LocalProtocol → ReverseTunnelConfigProtocol
reverse_of_protocol LocalProtocol.reverse_tcp = ReverseTunnelConfigProtocol.tcp
reverse_of_protocol (LocalProtocol.reverse_udp _) = ReverseTunnelConfigProtocol.udp
reverse_of_protocol (LocalProtocol.reverse_socks5 _ _) = ReverseTunnelConfigProtocol.socks5
reverse_of_protocol (LocalProtocol.reverse_unix _) = ReverseTunnelConfigProtocol.unix
reverse_of_protocol (LocalProtocol.reverse_http_proxy _ _) = ReverseTunnelConfigProtocol.http_proxy
reverse_of_protocol _ = ReverseTunnelConfigProtocol.unknown

abbrev pub of_protocol : LocalProtocol → TunnelConfigProtocol
of_protocol (LocalProtocol.tcp _) = TunnelConfigProtocol.tcp
of_protocol (LocalProtocol.udp _) = TunnelConfigProtocol.udp
of_protocol _ = TunnelConfigProtocol.unknown

-- Derived equality of the two enums.
abbrev pub same_protocol : TunnelConfigProtocol → TunnelConfigProtocol → Bool
same_protocol TunnelConfigProtocol.tcp TunnelConfigProtocol.tcp = Bool.true
same_protocol TunnelConfigProtocol.udp TunnelConfigProtocol.udp = Bool.true
same_protocol TunnelConfigProtocol.unknown TunnelConfigProtocol.unknown = Bool.true
same_protocol _ _ = Bool.false

abbrev pub same_reverse : ReverseTunnelConfigProtocol → ReverseTunnelConfigProtocol → Bool
same_reverse ReverseTunnelConfigProtocol.tcp ReverseTunnelConfigProtocol.tcp = Bool.true
same_reverse ReverseTunnelConfigProtocol.udp ReverseTunnelConfigProtocol.udp = Bool.true
same_reverse ReverseTunnelConfigProtocol.socks5 ReverseTunnelConfigProtocol.socks5 = Bool.true
same_reverse ReverseTunnelConfigProtocol.unix ReverseTunnelConfigProtocol.unix = Bool.true
same_reverse ReverseTunnelConfigProtocol.http_proxy ReverseTunnelConfigProtocol.http_proxy =
    Bool.true
same_reverse ReverseTunnelConfigProtocol.unknown ReverseTunnelConfigProtocol.unknown = Bool.true
same_reverse _ _ = Bool.false
