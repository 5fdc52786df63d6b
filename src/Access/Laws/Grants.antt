-- ===== src/Access/Laws/Grants.antt =====
-- The two `is_allowed` functions against their meaning.
use wstunnel.Prelude.{
  ℕ, ◌≤◌, ◌≡◌, refl, ◌↔◌, ◌⊎◌, inl, inr, Bool, true, false, not, ◌&&◌, none, some, List, [], ◌∷◌,
  codes, In, any, any_intro, any_elim, is_empty, unwrap_or, arith, Option-cases, if◌then◌else◌,
}
use wstunnel.Net.{v4, v6, Host, domain, ipv4, ipv6, RemoteAddr, is_reverse_tunnel, FilePath, to_str}
use wstunnel.Deps.{Regexes, IpNets}
use wstunnel.Restrictions.{
  PortRange, contains_port, AllowTunnelConfig, AllowReverseTunnelConfig, AllowConfig,
  reverse_tunnel, tunnel, TunnelConfigProtocol, ReverseTunnelConfigProtocol, of_protocol,
  reverse_of_protocol, same_protocol, same_reverse,
}
use wstunnel.Access.{
  reverse_unix_path, port_ok, bind_ok, dest_ok, reverse_is_allowed, tunnel_is_allowed, is_allowed,
}

-- No port range, or one that holds the port.
abbrev pub PortGranted : List PortRange → ℕ → Type 0
PortGranted ranges p =
    (ranges ≡ []) ⊎ ((r : PortRange) × In r ranges × (r.start ≤ p) × (p ≤ r.last))

-- No protocol, or this one among others.
abbrev pub Listed : {A : Type 0} → A → List A → Type 0
Listed a xs = (xs ≡ []) ⊎ In a xs

any_iff :
    {A : Type 0} (p : A → Bool) (xs : List A)
    → (any p xs ≡ true) ↔ ((a : A) × In a xs × (p a ≡ true))
any_iff p xs = (any_elim p xs, λ (a, m, e). any_intro p xs a m e)

port_ok_iff : (ranges : List PortRange) (p : ℕ) → (port_ok ranges p ≡ true) ↔ PortGranted ranges p
unfolding port_ok
port_ok_iff [] p = (λ _. inl refl, λ _. refl)
port_ok_iff (r ∷ rs) p = (to, from)
  where
    found : ((a : PortRange) × In a (r ∷ rs) × (contains_port a p ≡ true)) → PortGranted (r ∷ rs) p
    found (a, m, e) = inr (a, m, ground arith, ground arith)

    to : port_ok (r ∷ rs) p ≡ true → PortGranted (r ∷ rs) p
    to e = found (any_elim (λ x. contains_port x p) (r ∷ rs) (ground arith))

    from : PortGranted (r ∷ rs) p → port_ok (r ∷ rs) p ≡ true
    from (inl e) = cc
    from (inr (a, m, low, high)) =
        rw (any_intro (λ x. contains_port x p) (r ∷ rs) a m (ground arith))

same_protocol_iff : (a b : TunnelConfigProtocol) → (same_protocol a b ≡ true) ↔ (a ≡ b)
same_protocol_iff a b = ground arith

same_reverse_iff : (a b : ReverseTunnelConfigProtocol) → (same_reverse a b ≡ true) ↔ (a ≡ b)
same_reverse_iff a b = ground arith

-- A list of protocols with a sound test for equality.
module _ {A : Type 0} (same : A → A → Bool)
    (same_iff : (a b : A) → (same a b ≡ true) ↔ (a ≡ b)) where
  any_same_iff : (a : A) (xs : List A) → (any (same a) xs ≡ true) ↔ In a xs
  any_same_iff a [] = ground arith
  any_same_iff a (x ∷ xs) = ground (arith, same_iff a x, any_same_iff a xs)

  covered_iff :
      (a : A) (xs : List A) → ((not (is_empty xs) && not (any (same a) xs)) ≡ false) ↔ Listed a xs
  covered_iff a [] = (λ _. inl refl, λ _. refl)
  covered_iff a (x ∷ xs) = ground (arith, any_same_iff a (x ∷ xs))

-- The tests of both functions in a row, and the meaning of each.
ladder_true :
    (a b c d : Bool)
    → (if a then false else if not b then false else if c then false else d) ≡ true
    → (a ≡ false) × (b ≡ true) × (c ≡ false) × (d ≡ true)
ladder_true a b c d e = ground arith

module _ {P Q S : Type 0} (a b c d : Bool) where
  ladder_iff :
      (b ≡ true) ↔ P
      → (c ≡ false) ↔ Q
      → (d ≡ true) ↔ S
      → ((if a then false else if not b then false else if c then false else d) ≡ true)
        ↔ ((a ≡ false) × P × Q × S)
  ladder_iff p q s = (
    λ e. let (w, x, y, z) = ladder_true a b c d e in (w, p.0 x, q.0 y, s.0 z),
    λ (w, x, y, z). rw (w, p.1 x, q.1 y, s.1 z),
  )

module _ {N : Type 0} ⦃nets : IpNets N⦄ where
  -- The address to listen on lies in one of the ranges; a name is never granted.
  abbrev pub BindGranted : List N → Host → Type 0
  BindGranted cidr (domain _) = ⊥
  BindGranted cidr (ipv4 ip) = (n : N) × In n cidr × (nets.contains n (v4 ip) ≡ true)
  BindGranted cidr (ipv6 ip) = (n : N) × In n cidr × (nets.contains n (v6 ip) ≡ true)

  bind_ok_iff : (cidr : List N) (h : Host) → (bind_ok cidr h ≡ true) ↔ BindGranted cidr h
  bind_ok_iff cidr (domain _) = (λ e. cc, λ h. absurd h)
  bind_ok_iff cidr (ipv4 ip) = any_iff (λ c. nets.contains c (v4 ip)) cidr
  bind_ok_iff cidr (ipv6 ip) = any_iff (λ c. nets.contains c (v6 ip)) cidr

module _ {R N : Type 0} ⦃re : Regexes R⦄ ⦃nets : IpNets N⦄ where
  -- A name matches the expression, an address lies in one of the ranges.
  abbrev pub DestGranted : R → List N → Host → Type 0
  DestGranted host cidr (domain name) = re.is_match host name ≡ true
  DestGranted host cidr (ipv4 ip) = (n : N) × In n cidr × (nets.contains n (v4 ip) ≡ true)
  DestGranted host cidr (ipv6 ip) = (n : N) × In n cidr × (nets.contains n (v6 ip) ≡ true)

  dest_ok_iff :
      (host : R) (cidr : List N) (h : Host) → (dest_ok host cidr h ≡ true) ↔ DestGranted host cidr h
  dest_ok_iff host cidr (domain _) = (λ e. e, λ e. e)
  dest_ok_iff host cidr (ipv4 ip) = any_iff (λ c. nets.contains c (v4 ip)) cidr
  dest_ok_iff host cidr (ipv6 ip) = any_iff (λ c. nets.contains c (v6 ip)) cidr

  -- A forward tunnel with a port, a protocol and a destination of the rule.
  abbrev pub TunnelGranted : AllowTunnelConfig R N → RemoteAddr → Type 0
  TunnelGranted config remote =
      (is_reverse_tunnel remote.protocol ≡ false)
      × PortGranted config.port remote.port
      × Listed (of_protocol remote.protocol) config.protocol
      × DestGranted config.host config.cidr remote.host

  -- What a Unix socket needs: its path matches, one that is not UTF-8 as a fixed text.
  abbrev pub UnixGranted : AllowReverseTunnelConfig R N → FilePath → Type 0
  UnixGranted config path =
      re.is_match config.unix_path (unwrap_or (to_str path) (codes "####INVALID_UNIX_PATH####"))
      ≡ true

  -- A reverse tunnel: a Unix socket by its path alone, any other by port, protocol and address.
  abbrev pub ReverseGranted : AllowReverseTunnelConfig R N → RemoteAddr → Type 0
  ReverseGranted config remote =
      (is_reverse_tunnel remote.protocol ≡ true)
      × (((path : FilePath) × (reverse_unix_path remote.protocol ≡ some path)
            × UnixGranted config path)
          ⊎ ((reverse_unix_path remote.protocol ≡ none)
              × PortGranted config.port remote.port
              × Listed (reverse_of_protocol remote.protocol) config.protocol
              × BindGranted config.cidr remote.host))

  abbrev pub Granted : RemoteAddr → AllowConfig R N → Type 0
  Granted remote (reverse_tunnel config) = ReverseGranted config remote
  Granted remote (tunnel config) = TunnelGranted config remote

  tunnel_is_allowed_iff :
      (config : AllowTunnelConfig R N) (remote : RemoteAddr)
      → (tunnel_is_allowed config remote ≡ true) ↔ TunnelGranted config remote
  unfolding tunnel_is_allowed
  tunnel_is_allowed_iff config remote =
      ladder_iff (is_reverse_tunnel remote.protocol) (port_ok config.port remote.port)
        (not (is_empty config.protocol)
          && not (any (same_protocol (of_protocol remote.protocol)) config.protocol))
        (dest_ok config.host config.cidr remote.host) (port_ok_iff config.port remote.port)
        (covered_iff same_protocol same_protocol_iff (of_protocol remote.protocol) config.protocol)
        (dest_ok_iff config.host config.cidr remote.host)

  reverse_ladder_iff :
      (config : AllowReverseTunnelConfig R N) (remote : RemoteAddr)
      → ((if not (is_reverse_tunnel remote.protocol)
            then false
            else if not (port_ok config.port remote.port)
            then false
            else if not (is_empty config.protocol)
                && not (any (same_reverse (reverse_of_protocol remote.protocol)) config.protocol)
            then false
            else bind_ok config.cidr remote.host)
          ≡ true)
        ↔ ((not (is_reverse_tunnel remote.protocol) ≡ false)
            × PortGranted config.port remote.port
            × Listed (reverse_of_protocol remote.protocol) config.protocol
            × BindGranted config.cidr remote.host)
  reverse_ladder_iff config remote =
      ladder_iff (not (is_reverse_tunnel remote.protocol)) (port_ok config.port remote.port)
        (not (is_empty config.protocol)
          && not (any (same_reverse (reverse_of_protocol remote.protocol)) config.protocol))
        (bind_ok config.cidr remote.host) (port_ok_iff config.port remote.port)
        (covered_iff same_reverse same_reverse_iff (reverse_of_protocol remote.protocol)
          config.protocol)
        (bind_ok_iff config.cidr remote.host)

  reverse_sound :
      (config : AllowReverseTunnelConfig R N) (remote : RemoteAddr)
      → reverse_is_allowed config remote ≡ true
      → ReverseGranted config remote
  unfolding reverse_is_allowed
  reverse_sound config remote h = elim (Option-cases (reverse_unix_path remote.protocol)) [
    | inl e ↦
        let (kind, port, proto, bind) =
          (reverse_ladder_iff config remote).0 (rw (e, reverse_is_allowed) at h) in
        (ground arith, inr (e, port, proto, bind))
    | inr (path, e) ↦ (ground arith, inl (path, e, ground arith))
  ]

  reverse_complete :
      (config : AllowReverseTunnelConfig R N) (remote : RemoteAddr)
      → ReverseGranted config remote
      → reverse_is_allowed config remote ≡ true
  unfolding reverse_is_allowed
  reverse_complete config remote (kind, inl (path, e, matched)) = rw (kind, e, matched)
  reverse_complete config remote (kind, inr (e, port, proto, bind)) =
      rw (e, reverse_is_allowed)
        ((reverse_ladder_iff config remote).1 (ground arith, port, proto, bind))

  -- A rule admits a tunnel exactly when it grants it.
  pub is_allowed_iff :
      (remote : RemoteAddr) (config : AllowConfig R N)
      → (is_allowed remote config ≡ true) ↔ Granted remote config
  unfolding is_allowed
  is_allowed_iff remote (reverse_tunnel config) =
      (reverse_sound config remote, reverse_complete config remote)
  is_allowed_iff remote (tunnel config) = tunnel_is_allowed_iff config remote
