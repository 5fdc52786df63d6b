-- ===== src/Restrictions/Build.antt =====
-- wstunnel/src/restrictions/mod.rs: the rules built from the command line, from the allowed path
-- prefixes and the allowed destinations. `none` is an error, or the panic of an `unwrap`.
use wstunnel.Prelude.{ℕ, Option, none, some, List, [], ◌∷◌, ◌++◌, Text, codes}
use mathlib.Core.List.{flatten}
use wstunnel.Deps.{Regexes, IpNets, exactly, host_bits}
use wstunnel.Restrictions.{
  PortRange, AllowConfig, tunnel, reverse_tunnel, MatchConfig, RestrictionConfig, RestrictionsRules,
}
use wstunnel.Restrictions.Ports.{◌>>=◌, collect}

abbrev pub single_port : ℕ → List PortRange
single_port port = record { start = port; last = port } ∷ []

module _ {R : Type 0} ⦃re : Regexes R⦄ where
  abbrev pub default_host : Option R
  default_host = re.new (codes "^.*$")

module _ {N : Type 0} ⦃nets : IpNets N⦄ where
  abbrev pub default_cidr : List N
  default_cidr = nets.default_v4 ∷ nets.default_v6 ∷ []

module _ {R N : Type 0} ⦃re : Regexes R⦄ ⦃nets : IpNets N⦄ where
  -- No destination given: every tunnel of both kinds.
  unfoldable pub open_tunnels : Option (List (AllowConfig R N))
  open_tunnels = do
    host ← default_host
    unix_path ← default_host
    some (
        tunnel (record { protocol = []; port = []; host = host; cidr = default_cidr })
        ∷ reverse_tunnel (record {
          protocol = [];
          port = [];
          port_mapping = [];
          cidr = default_cidr;
          unix_path = unix_path;
        })
        ∷ [])

  -- One destination: an address alone, or a host name alone.
  unfoldable pub restricted_tunnel : Text × ℕ → Option (List (AllowConfig R N))
  restricted_tunnel (host, port) = elim (nets.parse_ip host) [
    | some ip ↦ do
      no_name ← re.new (codes "^$")
      net ← nets.new_net ip (host_bits ip)
      some (
          tunnel
            (record { protocol = []; port = single_port port; host = no_name; cidr = net ∷ [] })
          ∷ [])
    | none ↦ do
      name ← re.new (exactly re host)
      some (tunnel (record { protocol = []; port = single_port port; host = name; cidr = [] }) ∷ [])
  ]

  unfoldable pub tunnels_restrictions : List (Text × ℕ) → Option (List (AllowConfig R N))
  unfolding open_tunnels restricted_tunnel
  tunnels_restrictions [] = open_tunnels
  tunnels_restrictions (t ∷ ts) = do
    configs ← collect restricted_tunnel (t ∷ ts)
    some (flatten configs)

  abbrev pub prefix_restriction : List (AllowConfig R N) → Text → Option (RestrictionConfig R N)
  prefix_restriction tunnels path_prefix = do
    reg ← re.new (exactly re path_prefix)
    some (record {
      name = codes "Allow path prefix " ++ path_prefix;
      matches = MatchConfig.path_prefix reg ∷ [];
      allow = tunnels;
    })

  unfoldable pub prefix_restrictions :
      List Text → List (AllowConfig R N) → Option (List (RestrictionConfig R N))
  prefix_restrictions [] tunnels =
      some
        (record { name = codes "Allow All"; matches = MatchConfig.any ∷ []; allow = tunnels } ∷ [])
  prefix_restrictions (p ∷ ps) tunnels = collect (prefix_restriction tunnels) (p ∷ ps)

  unfoldable pub from_path_prefix : List Text → List (Text × ℕ) → Option (RestrictionsRules R N)
  unfolding tunnels_restrictions prefix_restrictions
  from_path_prefix path_prefixes restrict_to = do
    tunnels ← tunnels_restrictions restrict_to
    restrictions ← prefix_restrictions path_prefixes tunnels
    some (record { restrictions = restrictions })
