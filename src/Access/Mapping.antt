-- ===== src/Access/Mapping.antt =====
-- The port on which a reverse tunnel listens: `find_mapped_port` of
-- wstunnel/src/tunnel/server/utils.rs over the map that `deserialize_port_mapping` reads.
use wstunnel.Prelude.{
  ℕ, ◌≡◌, refl, ◌⊎◌, inl, inr, none, some, List, [], ◌∷◌, Option-cases, nat_eq, find_map, All,
}
use wstunnel.Restrictions.{AllowConfig, RestrictionConfig}
use wstunnel.Access.{mapped_by, find_mapped_port}

-- The first entry, in their order, that maps the port maps it to `target`.
abbrev pub MapsFirst : {R N : Type 0} → ℕ → List (AllowConfig R N) → ℕ → Type 0
MapsFirst port [] target = ⊥
MapsFirst port (c ∷ cs) target =
    (mapped_by port c ≡ some target) ⊎ ((mapped_by port c ≡ none) × MapsFirst port cs target)

-- No entry maps the port.
abbrev pub Unmapped : {R N : Type 0} → ℕ → List (AllowConfig R N) → Type 0
Unmapped port = All (λ c. mapped_by port c ≡ none)

module _ {R N : Type 0} (port : ℕ) where
  find_map_cases :
      (cs : List (AllowConfig R N))
      → ((target : ℕ) × MapsFirst port cs target × (find_map (mapped_by port) cs ≡ some target))
        ⊎ (Unmapped port cs × (find_map (mapped_by port) cs ≡ none))
  find_map_cases [] = inr (tt, refl)
  find_map_cases (c ∷ cs) = elim (Option-cases (mapped_by port c)) [
    | inr (target, e) ↦ inl (target, inl e, rw e)
    | inl e ↦ elim (find_map_cases cs) [
      | inl (target, first, found) ↦ inl (target, inr (e, first), rw e found)
      | inr (un, found) ↦ inr ((e, un), rw e found)
    ]
  ]

-- A reverse tunnel listens on the port to which the first entry of `allow` that maps the requested
-- port maps it, whether or not that entry is the one that allowed the tunnel; if no entry maps it, on
-- the requested port.
pub find_mapped_port_cases :
    {R N : Type 0} (port : ℕ) (r : RestrictionConfig R N)
    → MapsFirst port r.allow (find_mapped_port port r)
      ⊎ (Unmapped port r.allow × (find_mapped_port port r ≡ port))
unfolding find_mapped_port
find_mapped_port_cases port r = elim (find_map_cases port r.allow) [
  | inl (target, first, found) ↦ inl (rw found first)
  | inr (un, found) ↦ inr (un, rw found)
]
