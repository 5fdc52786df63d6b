-- ===== src/Tests/Rules.antt =====
-- Rules and a destination to test with.
use wstunnel.Prelude.{false, [], ◌∷◌, Text, codes, nat_eq}
use wstunnel.Net.{IpAddr, v4, domain, tcp, RemoteAddr}
use wstunnel.Restrictions.{
  reverse_tunnel, tunnel, AllowReverseTunnelConfig, MatchConfig, path_prefix, RestrictionConfig,
  RestrictionsRules, ReverseTunnelConfigProtocol,
}
use wstunnel.Tests.Instances.{test_regexes, test_nets}

abbrev pub to_80 : RemoteAddr
to_80 = record { protocol = tcp false; host = domain (codes "qa.com"); port = 80 }

-- Forward tunnels to port 80 of `a.com`.
abbrev pub forward : RestrictionConfig Text IpAddr
forward = record {
  name = codes "restrict1";
  matches = MatchConfig.any ∷ [];
  allow =
      tunnel (record {
        protocol = [];
        port = record { start = 80; last = 80 } ∷ [];
        host = codes "^qqa.com$";
        cidr = [];
      })
      ∷ [];
}

abbrev pub socks_only : AllowReverseTunnelConfig Text IpAddr
socks_only = record {
  protocol = ReverseTunnelConfigProtocol.socks5 ∷ [];
  port = record { start = 1080; last = 1443 } ∷ [];
  port_mapping = (1080, 9080) ∷ [];
  cidr = v4 0 ∷ [];
  unix_path = codes "^.*$";
}

abbrev pub backward : RestrictionConfig Text IpAddr
backward = record {
  name = codes "restrict2";
  matches = path_prefix (codes "^qv1$") ∷ [];
  allow = reverse_tunnel socks_only ∷ [];
}

abbrev pub two_rules : RestrictionsRules Text IpAddr
two_rules = record { restrictions = backward ∷ forward ∷ [] }
