-- ===== src/Access/Destinations.antt =====
-- The destinations of the command line (wstunnel/src/restrictions/mod.rs), each a rule of its own.
use wstunnel.Prelude.{
  ℕ, ◌≡◌, ◌≢◌, refl, ap, ◌∙◌, ◌↔◌, ◌⊎◌, inl, inr, true, false, none, some, List, [], ◌∷◌, Text, In,
  Exists, Exists-cons, arith, Option-cases, codes,
}
use mathlib.Core.List.{flatten}
use wstunnel.Net.{IpAddr, v4, v6, Host, domain, ipv4, ipv6, RemoteAddr, is_reverse_tunnel}
use wstunnel.Deps.{Regexes, IpNets, RegexLaws, IpNetLaws, exactly, host_bits}
use wstunnel.Restrictions.{PortRange, AllowConfig, tunnel}
use wstunnel.Restrictions.Ports.{collect}
use wstunnel.Restrictions.Build.{single_port, restricted_tunnel}
use wstunnel.Access.Laws.Grants.{Granted, DestGranted, PortGranted}

-- The destination that `-r`/`--restrict-to` names: an address in any of its spellings, or a name.
abbrev pub HostIs : {N : Type 0} → IpNets N → Text → Host → Type 0
HostIs nets s (domain name) =
    ((nets.parse_ip s ≡ none) × (s ≡ name)) ⊎ ((nets.parse_ip s ≢ none) × (name ≡ []))
HostIs nets s (ipv4 ip) = nets.parse_ip s ≡ some (v4 ip)
HostIs nets s (ipv6 ip) = nets.parse_ip s ≡ some (v6 ip)

abbrev pub DestIs : {N : Type 0} → IpNets N → RemoteAddr → Text × ℕ → Type 0
DestIs nets remote (host, port) =
    (is_reverse_tunnel remote.protocol ≡ false)
    × (remote.port ≡ port)
    × HostIs nets host remote.host

port_iff : (port p : ℕ) → PortGranted (single_port port) p ↔ (p ≡ port)
port_iff port p =
    (to, λ e. inr (record { start = port; last = port }, inl refl, omega arith, omega arith))
  where
    to : PortGranted (single_port port) p → p ≡ port
    to (inl e) = cc
    to (inr (r, inl e, low, high)) =
        omega (arith, ap (λ (x : PortRange). x.start) e, ap (λ (x : PortRange). x.last) e)
    to (inr (r, inr m, low, high)) = absurd m

module _ {R N : Type 0} ⦃re : Regexes R⦄ ⦃nets : IpNets N⦄ (rl : RegexLaws re)
    (nl : IpNetLaws nets) where
  abbrev GrantsOne : Text × ℕ → AllowConfig R N → Type 0
  GrantsOne t c = (remote : RemoteAddr) → Granted remote c ↔ DestIs nets remote t

  -- A rule of one port and no protocol, whose destination test is `HostIs`.
  one_iff :
      (host : Text) (port : ℕ) (r : R) (cidr : List N)
      → ((h : Host) → DestGranted r cidr h ↔ HostIs nets host h)
      → GrantsOne
          (host, port)
          (tunnel (record { protocol = []; port = single_port port; host = r; cidr = cidr }))
  one_iff host port r cidr dest remote = (
    λ (kind, p, proto, d). (kind, (port_iff port remote.port).0 p, (dest remote.host).0 d),
    λ (kind, p, d). (kind, (port_iff port remote.port).1 p, inl refl, (dest remote.host).1 d),
  )

  name_host :
      (host : Text) (r : R)
      → nets.parse_ip host ≡ none
      → re.new (exactly re host) ≡ some r
      → (h : Host) → DestGranted {N = N} r [] h ↔ HostIs nets host h
  name_host host r e made (domain name) = (
    λ m. inl (e, (rl.escaped_iff host name r made).0 m),
    elim [ inl (_, same) ↦ (rl.escaped_iff host name r made).1 same | inr (n, _) ↦ absurd (n e) ],
  )
  name_host host r e made (ipv4 ip) = (λ (n, m, _). absurd m, λ same. cc)
  name_host host r e made (ipv6 ip) = (λ (n, m, _). absurd m, λ same. cc)

  -- The networks of one address, against an address.
  single_net :
      (ip other : IpAddr) (n : N)
      → nets.new_net ip (host_bits ip) ≡ some n
      → ((c : N) × In c (n ∷ []) × (nets.contains c other ≡ true)) ↔ (ip ≡ other)
  single_net ip other n made = (
    λ t. (nl.single_iff ip other n made).0 (head_of t),
    λ same. (n, inl refl, (nl.single_iff ip other n made).1 same),
  )
    where
      head_of :
          ((c : N) × In c (n ∷ []) × (nets.contains c other ≡ true)) → nets.contains n other ≡ true
      head_of (c, inl same, e) = rw (← same) e
      head_of (c, inr m, e) = absurd m

  ip_host :
      (host : Text) (ip : IpAddr) (r : R) (n : N)
      → nets.parse_ip host ≡ some ip
      → re.new (codes "^$") ≡ some r
      → nets.new_net ip (host_bits ip) ≡ some n
      → (h : Host) → DestGranted r (n ∷ []) h ↔ HostIs nets host h
  ip_host host ip r n e made net (domain name) = (
    λ m. inr (λ missing. cc, (rl.empty_line_iff name r made).0 m),
    elim [ inl (missing, _) ↦ cc | inr (_, empty) ↦ (rl.empty_line_iff name r made).1 empty ],
  )
  ip_host host ip r n e made net (ipv4 a) =
      let same = single_net ip (v4 a) n net in (λ g. e ∙ ap some (same.0 g), λ p. same.1 (cc))
  ip_host host ip r n e made net (ipv6 a) =
      let same = single_net ip (v6 a) n net in (λ g. e ∙ ap some (same.0 g), λ p. same.1 (cc))

  -- One destination makes one rule, which grants that destination and nothing else.
  restricted_lem :
      (host : Text) (port : ℕ)
      → (c : AllowConfig R N) × (restricted_tunnel (host, port) ≡ some (c ∷ []))
        × GrantsOne (host, port) c
  unfolding restricted_tunnel
  restricted_lem host port = elim (Option-cases (nets.parse_ip host)) [
    | inl e ↦
        let (r, made) = rl.escaped host in
        let c : AllowConfig R N =
          tunnel (record { protocol = []; port = single_port port; host = r; cidr = [] }) in
        (c, rw (e, restricted_tunnel, made), one_iff host port r [] (name_host host r e made))
    | inr (ip, e) ↦
        let (r, made) = rl.empty_line in
        let (n, net) = nl.single ip in
        let c : AllowConfig R N =
          tunnel (record { protocol = []; port = single_port port; host = r; cidr = n ∷ [] }) in
        (
          c,
          rw (e, restricted_tunnel, made, net),
          one_iff host port r (n ∷ []) (ip_host host ip r n e made net),
        )
  ]

  pub collect_tunnels :
      (ts : List (Text × ℕ))
      → (css : List (List (AllowConfig R N))) × (collect restricted_tunnel ts ≡ some css)
        × ((remote : RemoteAddr)
            → Exists (Granted remote) (flatten css) ↔ Exists (DestIs nets remote) ts)
  unfolding flatten
  collect_tunnels [] = ([], refl, λ remote. (λ (c, m, _). absurd m, λ (t, m, _). absurd m))
  collect_tunnels ((host, port) ∷ ts) =
      let (c, made, one) = restricted_lem host port in
      let (css, rest, more) = collect_tunnels ts in
      (
        (c ∷ []) ∷ css,
        rw (made, rest),
        λ remote. (
          Exists-cons (Granted remote) (DestIs nets remote) (flatten css) ts (one remote).0
              (more remote).0,
          Exists-cons (DestIs nets remote) (Granted remote) ts (flatten css) (one remote).1
              (more remote).1,
        ),
      )
