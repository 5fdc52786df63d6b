-- ===== src/Access/CommandLine.antt =====
-- The rules that `RestrictionsRules::from_path_prefix` (wstunnel/src/restrictions/mod.rs) builds
-- from the command line, under `validate_tunnel`.
use wstunnel.Prelude.{
  ℕ, ◌≡◌, refl, ◌↔◌, inl, inr, true, Option, some, List, [], ◌∷◌, ◌++◌, Text, Exists, Exists-cons,
  is_some, codes,
}
use mathlib.Core.Path.{subst}
use mathlib.Core.List.{flatten}
use wstunnel.Net.{RemoteAddr}
use wstunnel.Deps.{Regexes, IpNets, RegexLaws, IpNetLaws}
use wstunnel.Restrictions.{AllowConfig, MatchConfig, RestrictionConfig, RestrictionsRules}
use wstunnel.Restrictions.Ports.{collect}
use wstunnel.Restrictions.Build.{prefix_restriction, prefix_restrictions, from_path_prefix}
use wstunnel.Access.{validate_tunnel}
use wstunnel.Access.Destinations.{DestIs, collect_tunnels}
use wstunnel.Access.Laws.Grants.{Granted}
use wstunnel.Access.Laws.Chosen.{Accepts, validate_tunnel-Accepts}

-- The path prefixes given, none meaning any.
abbrev pub PrefixIs : List Text → Text → Type 0
PrefixIs [] prefix = Unit
PrefixIs (p ∷ ps) prefix = Exists (λ q. q ≡ prefix) (p ∷ ps)

module _ {R N : Type 0} ⦃re : Regexes R⦄ ⦃nets : IpNets N⦄ (rl : RegexLaws re) where
  -- One restriction per path prefix, all with the same tunnels.
  collect_prefixes :
      (tunnels : List (AllowConfig R N)) (ps : List Text)
      → (rs : List (RestrictionConfig R N)) × (collect (prefix_restriction tunnels) ps ≡ some rs)
        × ((remote : RemoteAddr) (prefix : Text) (auth : Option Text)
            → Exists (Accepts remote prefix auth) rs
              ↔ Exists (λ p. (p ≡ prefix) × Exists (Granted remote) tunnels) ps)
  collect_prefixes tunnels [] =
      ([], refl, λ remote prefix auth. (λ (r, m, _). absurd m, λ (p, m, _). absurd m))
  collect_prefixes tunnels (p ∷ ps) =
      let (reg, made) = rl.escaped p in
      let (rs, rest, more) = collect_prefixes tunnels ps in
      let r : RestrictionConfig R N = record {
        name = codes "Allow path prefix " ++ p;
        matches = MatchConfig.path_prefix reg ∷ [];
        allow = tunnels;
      } in
      (
        r ∷ rs,
        rw (made, rest),
        λ remote prefix auth.
            let same = rl.escaped_iff p prefix reg made in
            let meant = λ (q : Text). (q ≡ prefix) × Exists (Granted remote) tunnels in
            (
              Exists-cons (Accepts remote prefix auth) meant rs ps (λ ((m, _), g). (same.0 m, g))
                  (more remote prefix auth).0,
              Exists-cons meant (Accepts remote prefix auth) ps rs (λ (e, g). ((same.1 e, tt), g))
                  (more remote prefix auth).1,
            ),
      )

  prefix_restrictions_lem :
      (tunnels : List (AllowConfig R N)) (ps : List Text)
      → (rs : List (RestrictionConfig R N)) × (prefix_restrictions ps tunnels ≡ some rs)
        × ((remote : RemoteAddr) (prefix : Text) (auth : Option Text)
            → Exists (Accepts remote prefix auth) rs
              ↔ (PrefixIs ps prefix × Exists (Granted remote) tunnels))
  unfolding prefix_restrictions
  prefix_restrictions_lem tunnels [] = (
    _,
    refl,
    λ remote prefix auth. (only remote prefix auth, λ (_, g). (_, inl refl, ((tt, tt), g))),
  )
    where
      all_rule : RestrictionConfig R N
      all_rule = record {
        name = codes "Allow All";
        matches = MatchConfig.any ∷ [];
        allow = tunnels;
      }

      only :
          (remote : RemoteAddr) (prefix : Text) (auth : Option Text)
          → Exists (Accepts remote prefix auth) (all_rule ∷ [])
          → Unit {0} × Exists (Granted remote) tunnels
      only remote prefix auth (r, inl e, a) = (tt, (subst (Accepts remote prefix auth) e a).1)
      only remote prefix auth (r, inr m, a) = absurd m
  prefix_restrictions_lem tunnels (p ∷ ps) =
      let (rs, made, means) = collect_prefixes tunnels (p ∷ ps) in
      (
        rs,
        made,
        λ remote prefix auth. (
          λ x. let (q, m, (e, g)) = (means remote prefix auth).0 x in ((q, m, e), g),
          λ ((q, m, e), g). (means remote prefix auth).1 (q, m, (e, g)),
        ),
      )

-- The rules built from path prefixes and at least one destination always exist. They accept exactly
-- the forward tunnels to one of the destinations, at its port, from a client whose path prefix is
-- one of those given, or any where none is given; no reverse tunnel and no `Authorization` matters.
-- A destination that is an address also takes the empty host name.
pub from_path_prefix-validate_tunnel :
    {R N : Type 0} ⦃re : Regexes R⦄ ⦃nets : IpNets N⦄ (rl : RegexLaws re) (nl : IpNetLaws nets)
    (path_prefixes : List Text) (t : Text × ℕ) (ts : List (Text × ℕ))
    → (rules : RestrictionsRules R N) × (from_path_prefix path_prefixes (t ∷ ts) ≡ some rules)
      × ((remote : RemoteAddr) (prefix : Text) (auth : Option Text)
          → (is_some (validate_tunnel remote prefix auth rules) ≡ true)
            ↔ (PrefixIs path_prefixes prefix × Exists (DestIs nets remote) (t ∷ ts)))
unfolding from_path_prefix
from_path_prefix-validate_tunnel rl nl path_prefixes t ts =
    let (css, made, dests) = collect_tunnels rl nl (t ∷ ts) in
    let (rs, built, means) = prefix_restrictions_lem rl (flatten css) path_prefixes in
    (
      record { restrictions = rs },
      rw (made, built),
      λ remote prefix auth.
          let ok = validate_tunnel-Accepts remote prefix auth (record { restrictions = rs }) in
          (
            λ e. let (p, g) = (means remote prefix auth).0 (ok.0 e) in (p, (dests remote).0 g),
            λ (p, d). ok.1 ((means remote prefix auth).1 (p, (dests remote).1 d)),
          ),
    )
