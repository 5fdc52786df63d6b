-- ===== src/Tests/Access.antt =====
-- The access control at concrete rules and requests.
use wstunnel.Prelude.{
  ◌≡◌, refl, ◌↔◌, true, Option, none, some, [], ◌∷◌, Text, codes, is_some, split_once_char, Exists,
  lookup, nat_eq,
}
use wstunnel.Prelude.Results.{ok, err}
use wstunnel.Net.{IpAddr, RemoteAddr}
use wstunnel.Restrictions.{RestrictionsRules}
use wstunnel.Restrictions.Build.{from_path_prefix}
use wstunnel.Access.{validate_tunnel, find_mapped_port}
use wstunnel.Access.Laws.Chosen.{FirstAccepting, validate_tunnel_iff}
use wstunnel.Access.Destinations.{DestIs}
use wstunnel.Access.CommandLine.{PrefixIs, from_path_prefix-validate_tunnel}
use wstunnel.Access.Prefix.{
  bad_path_prefix, bad_upgrade_request, extract_path_prefix, IsUpgradePath, extract_path_prefix_iff,
}
use wstunnel.Tests.Instances.{test_regexes, test_nets, lawful_regexes, lawful_nets}
use wstunnel.Tests.Rules.{to_80, forward, backward, two_rules}

first_rule : validate_tunnel to_80 (codes "v2") none two_rules ≡ some forward
unfolding validate_tunnel
first_rule = refl

other_port : validate_tunnel (record to_80 { port = 81 }) (codes "v2") none two_rules ≡ none
unfolding validate_tunnel
other_port = refl

validate_tunnel_iff_example :
    (validate_tunnel to_80 (codes "v2") none two_rules ≡ some forward)
    ↔ FirstAccepting to_80 (codes "v2") none (backward ∷ forward ∷ []) forward
validate_tunnel_iff_example = validate_tunnel_iff to_80 (codes "v2") none two_rules forward

from_path_prefix-validate_tunnel_example :
    (rules : RestrictionsRules Text IpAddr) × (from_path_prefix
        (codes "v1" ∷ [])
        ((codes "127.0.0.1", 443) ∷ (codes "a.com", 80) ∷ [])
      ≡ some rules)
    × ((remote : RemoteAddr) (prefix : Text) (auth : Option Text)
        → (is_some (validate_tunnel remote prefix auth rules) ≡ true) ↔ (
            PrefixIs (codes "v1" ∷ []) prefix
            × Exists
                (DestIs test_nets remote)
                ((codes "127.0.0.1", 443) ∷ (codes "a.com", 80) ∷ [])))
from_path_prefix-validate_tunnel_example =
    from_path_prefix-validate_tunnel lawful_regexes lawful_nets (codes "v1" ∷ [])
      (codes "127.0.0.1", 443) ((codes "a.com", 80) ∷ [])

extract_path_prefix_iff_example :
    (extract_path_prefix (codes "/v1/events") ≡ ok (codes "v1"))
    ↔ IsUpgradePath (codes "/v1/events") (codes "v1")
extract_path_prefix_iff_example = extract_path_prefix_iff (codes "/v1/events") (codes "v1")

no_slash : extract_path_prefix (codes "v1/events") ≡ err bad_path_prefix
unfolding extract_path_prefix
no_slash = refl

no_events : extract_path_prefix (codes "/v1/event") ≡ err bad_upgrade_request
unfolding extract_path_prefix split_once_char
no_events = refl

mapped : find_mapped_port 1080 backward ≡ 9080
unfolding find_mapped_port lookup
mapped = refl
