-- ===== src/Access/Laws/Chosen.antt =====
-- `validate_tunnel` against its documentation: the first restriction that matches the request and
-- allows the tunnel, or none.
use wstunnel.Prelude.{
  ◌≡◌, refl, ap, sym, ◌∙◌, ◌↔◌, ◌⊎◌, inl, inr, Bool, true, false, Option, none, some, List, [], ◌∷◌,
  Text, In, All, any, all, find, filter_by, any_intro, any_elim, arith, Bool-cases, is_some,
  if◌then◌else◌,
}
use mathlib.Core.Bool.{Bool-set}
use mathlib.Core.Logic.{∥∥₁_elim}
use mathlib.Core.List.{Perm, Permᴰ}
use wstunnel.Net.{RemoteAddr}
use wstunnel.Deps.{Regexes, IpNets}
use wstunnel.Restrictions.{
  AllowConfig, MatchConfig, path_prefix, authorization, RestrictionConfig, RestrictionsRules,
}
use wstunnel.Access.{match_one, filter, allows, is_allowed, validate_tunnel}
use wstunnel.Access.Laws.Grants.{Granted, is_allowed_iff}

module _ {R : Type 0} ⦃re : Regexes R⦄ where
  -- What one `match` entry asks of the path prefix and of the `Authorization` header.
  abbrev pub Matched : Text → Option Text → MatchConfig R → Type 0
  Matched prefix auth MatchConfig.any = Unit
  Matched prefix auth (path_prefix path) = re.is_match path prefix ≡ true
  Matched prefix auth (authorization reg) =
      (val : Text) × (auth ≡ some val) × (re.is_match reg val ≡ true)

  match_one_iff :
      (prefix : Text) (auth : Option Text) (m : MatchConfig R)
      → (match_one prefix auth m ≡ true) ↔ Matched prefix auth m
  match_one_iff prefix auth MatchConfig.any = (λ _. tt, λ _. refl)
  match_one_iff prefix auth (path_prefix path) = (λ e. e, λ e. e)
  match_one_iff prefix none (authorization reg) = ground arith
  match_one_iff prefix (some val) (authorization reg) = ground arith

  all_match_iff :
      (prefix : Text) (auth : Option Text) (ms : List (MatchConfig R))
      → (all (match_one prefix auth) ms ≡ true) ↔ All (Matched prefix auth) ms
  all_match_iff prefix auth [] = (λ _. tt, λ _. refl)
  all_match_iff prefix auth (m ∷ ms) =
      ground (arith, match_one_iff prefix auth m, all_match_iff prefix auth ms)

module _ {R N : Type 0} ⦃re : Regexes R⦄ ⦃nets : IpNets N⦄ (remote : RemoteAddr) (prefix : Text)
    (auth : Option Text) where
  -- The request meets every `match` entry, and some `allow` entry grants the tunnel.
  abbrev pub Accepts : RestrictionConfig R N → Type 0
  Accepts r =
      All (Matched prefix auth) r.matches
      × ((c : AllowConfig R N) × In c r.allow × Granted remote c)

  -- `r` is the first of the restrictions that accepts.
  abbrev pub FirstAccepting : List (RestrictionConfig R N) → RestrictionConfig R N → Type 0
  FirstAccepting [] r = ⊥
  FirstAccepting (x ∷ xs) r = (Accepts x × (x ≡ r)) ⊎ ((¬ Accepts x) × FirstAccepting xs r)

  allows_iff :
      (r : RestrictionConfig R N)
      → (allows remote r ≡ true) ↔ ((c : AllowConfig R N) × In c r.allow × Granted remote c)
  unfolding allows
  allows_iff r = (
    λ e.
        let (c, m, g) = any_elim (is_allowed remote) r.allow e in
        (c, m, (is_allowed_iff remote c).0 g),
    λ (c, m, g). any_intro (is_allowed remote) r.allow c m ((is_allowed_iff remote c).1 g),
  )

  -- Both tests of `validate_tunnel` on one restriction.
  abbrev accepts : RestrictionConfig R N → Bool
  accepts r = if filter r prefix auth then allows remote r else false

  accepts_iff : (r : RestrictionConfig R N) → (accepts r ≡ true) ↔ Accepts r
  unfolding filter
  accepts_iff r = (
    λ e. ((all_match_iff prefix auth r.matches).0 (ground arith), (allows_iff r).0 (ground arith)),
    λ (m, g). rw ((all_match_iff prefix auth r.matches).1 m) ((allows_iff r).1 g),
  )

  chosen : List (RestrictionConfig R N) → Option (RestrictionConfig R N)
  chosen xs = find (allows remote) (filter_by (λ r. filter r prefix auth) xs)

  find-filter_by : (xs : List (RestrictionConfig R N)) → chosen xs ≡ find accepts xs
  unfolding chosen
  find-filter_by [] = refl
  find-filter_by (x ∷ xs) = ground (arith, find-filter_by xs)

  find_sound :
      (xs : List (RestrictionConfig R N)) (r : RestrictionConfig R N)
      → find accepts xs ≡ some r
      → FirstAccepting xs r
  find_sound [] r e = cc
  find_sound (x ∷ xs) r e = elim (Bool-cases (accepts x)) [
    | inl y ↦ inl ((accepts_iff x).0 y, ground arith)
    | inr n ↦ inr (λ a. cc ((accepts_iff x).1 a), find_sound xs r (ground arith))
  ]

  find_complete :
      (xs : List (RestrictionConfig R N)) (r : RestrictionConfig R N)
      → FirstAccepting xs r
      → find accepts xs ≡ some r
  find_complete [] r h = absurd h
  find_complete (x ∷ xs) r (inl (a, e)) = rw ((accepts_iff x).1 a) (ap some e)
  find_complete (x ∷ xs) r (inr (n, h)) = elim (Bool-cases (accepts x)) [
    | inl y ↦ absurd (n ((accepts_iff x).0 y))
    | inr no_x ↦ rw no_x (find_complete xs r h)
  ]

module _ {R N : Type 0} ⦃re : Regexes R⦄ ⦃nets : IpNets N⦄ where
  -- A tunnel is accepted by restriction `r` exactly when `r` is the first restriction, in their
  -- order, whose `match` entries all fit the request and one of whose `allow` entries grants it.
  pub validate_tunnel_iff :
      (remote : RemoteAddr) (prefix : Text) (auth : Option Text) (rules : RestrictionsRules R N)
      (r : RestrictionConfig R N)
      → (validate_tunnel remote prefix auth rules ≡ some r)
        ↔ FirstAccepting remote prefix auth rules.restrictions r
  unfolding validate_tunnel chosen
  validate_tunnel_iff remote prefix auth rules r =
      let same = find-filter_by remote prefix auth rules.restrictions in
      (
        λ e. find_sound remote prefix auth rules.restrictions r (sym same ∙ e),
        λ h. same ∙ find_complete remote prefix auth rules.restrictions r h,
      )

-- Whether some element passes a test does not depend on the order.
module _ {A : Type 0} (p : A → Bool) where
  is_some-find : (xs : List A) → is_some (find p xs) ≡ any p xs
  is_some-find [] = refl
  is_some-find (x ∷ xs) = ground (arith, is_some-find xs)

  any-Permᴰ : {xs ys : List A} → Permᴰ xs ys → any p xs ≡ any p ys
  any-Permᴰ Permᴰ.nil = refl
  any-Permᴰ (Permᴰ.cons e d) = ground (arith, ap p e, any-Permᴰ d)
  any-Permᴰ (Permᴰ.swap e e') = ground (arith, ap p e, ap p e')
  any-Permᴰ (Permᴰ.trans d d') = any-Permᴰ d ∙ any-Permᴰ d'

  is_some-find-Perm : (xs ys : List A) → Perm xs ys → is_some (find p xs) ≡ is_some (find p ys)
  is_some-find-Perm xs ys h =
      ∥∥₁_elim h (Bool-set _ _) λ d. is_some-find xs ∙ any-Permᴰ d ∙ sym (is_some-find ys)

module _ {R N : Type 0} ⦃re : Regexes R⦄ ⦃nets : IpNets N⦄ where
  -- Whether a tunnel is accepted does not depend on the order of the restrictions.
  pub validate_tunnel-Perm :
      (remote : RemoteAddr) (prefix : Text) (auth : Option Text)
      (rules rules' : RestrictionsRules R N)
      → Perm rules.restrictions rules'.restrictions
      → is_some (validate_tunnel remote prefix auth rules)
        ≡ is_some (validate_tunnel remote prefix auth rules')
  unfolding validate_tunnel chosen
  validate_tunnel-Perm remote prefix auth rules rules' h =
      ap is_some (find-filter_by remote prefix auth rules.restrictions)
      ∙ is_some-find-Perm (accepts remote prefix auth) _ _ h
      ∙ sym (ap is_some (find-filter_by remote prefix auth rules'.restrictions))

module _ {R N : Type 0} ⦃re : Regexes R⦄ ⦃nets : IpNets N⦄ (remote : RemoteAddr) (prefix : Text)
    (auth : Option Text) where
  -- A tunnel is accepted when some restriction accepts it.
  pub validate_tunnel-Accepts :
      (rules : RestrictionsRules R N)
      → (is_some (validate_tunnel remote prefix auth rules) ≡ true)
        ↔ ((r : RestrictionConfig R N) × In r rules.restrictions × Accepts remote prefix auth r)
  unfolding validate_tunnel chosen
  validate_tunnel-Accepts rules =
      let test = accepts remote prefix auth in
      let same : is_some (validate_tunnel remote prefix auth rules) ≡ any test rules.restrictions =
        ap is_some (find-filter_by remote prefix auth rules.restrictions)
        ∙ is_some-find test rules.restrictions in
      (
        λ e.
            let (r, m, a) = any_elim test rules.restrictions (sym same ∙ e) in
            (r, m, (accepts_iff remote prefix auth r).0 a),
        λ (r, m, a).
            same ∙ any_intro test rules.restrictions r m ((accepts_iff remote prefix auth r).1 a),
      )
