-- ===== src/Cli/Kinds.antt =====
-- The protocols that the tunnel arguments of the command line give.
use wstunnel.Prelude.{
  ◌≡◌, refl, ap, sym, ◌∙◌, true, false, some, Text, codes, text_eq, split_once, split_once_char,
  arith, Bool-cases, inl, inr, unwrap_or, trim, ◌++◌, [],
}
use mathlib.Core.Path.{subst}
use wstunnel.Prelude.Results.{
  ok, bind-eq-ok, ok_cancel, IfOk, IfOk-bind, IfOk-if, IfOk-err, IfOk-ok, ok_or,
}
use wstunnel.Net.{
  LocalProtocol, is_reverse_tunnel, tcp, udp, http_proxy, socks5, t_proxy_tcp, t_proxy_udp,
}
use wstunnel.Request.{sendable}
use wstunnel.Cli.{
  Urls, IpParsers, Options, LocalToRemote, parse_local_bind, parse_tunnel_dest, invalid_input,
}
use wstunnel.Cli.Args.{
  ArgParsers, bound, dynamic, unix_arg, stdio_arg, tunnel_id_arg, tunnel_of, parse_tunnel_arg,
  get_timeout, get_credentials, get_proxy_protocol, reverse_protocol, parse_reverse_tunnel_arg,
}

abbrev pub Local : LocalToRemote → Type 0
Local l = is_reverse_tunnel l.local_protocol ≡ false

abbrev NotReverse : (Options → LocalProtocol) → Type 0
NotReverse p = (o : Options) → is_reverse_tunnel (p o) ≡ false

module _ {U : Type 0} (ips : IpParsers) (urls : Urls U) (parsers : ArgParsers) where
  bound-Local :
      (p : Options → LocalProtocol) (info : Text)
      → NotReverse p
      → IfOk Local (bound ips urls parsers p info)
  unfolding bound IfOk
  bound-Local p info h =
      IfOk-bind Local (parse_local_bind ips info) _
        λ bind. IfOk-bind Local (parse_tunnel_dest urls bind.1) _ λ dest. h dest.2

  dynamic-Local :
      (p : Options → LocalProtocol) (info : Text)
      → NotReverse p
      → IfOk Local (dynamic ips urls parsers p info)
  unfolding dynamic IfOk
  dynamic-Local p info h = IfOk-bind Local (parse_local_bind ips info) _ λ bind.
      IfOk-bind Local (parse_tunnel_dest urls (codes "0.0.0.0:0?" ++ bind.1)) _ λ dest. h dest.2

  unix_arg-Local : (info : Text) → IfOk Local (unix_arg ips urls parsers info)
  unfolding IfOk unix_arg is_reverse_tunnel
  unix_arg-Local info =
      IfOk-bind Local (ok_or (split_once_char b':' info) invalid_input) _
        λ parts. IfOk-bind Local (parse_tunnel_dest urls parts.1) _ λ dest. refl

  stdio_arg-Local : (info : Text) → IfOk Local (stdio_arg ips urls parsers info)
  unfolding IfOk stdio_arg is_reverse_tunnel
  stdio_arg-Local info = IfOk-bind Local (parse_tunnel_dest urls info) _ λ dest. refl

  tunnel_id_arg-Local : (info : Text) → IfOk Local (tunnel_id_arg ips urls parsers info)
  unfolding tunnel_id_arg IfOk is_reverse_tunnel
  tunnel_id_arg-Local info =
      let parts = unwrap_or (split_once_char b'?' info) (info, []) in
      elim (Bool-cases (parsers.is_uuid (trim parts.0))) [ inl y ↦ rw y refl | inr n ↦ rw n tt ]

  tunnel_of-Local : (proto info : Text) → IfOk Local (tunnel_of ips urls parsers proto info)
  unfolding tunnel_of is_reverse_tunnel
  tunnel_of-Local proto info =
      IfOk-if Local (text_eq proto (codes "tcp")) _ _
        (bound-Local (λ o. tcp (get_proxy_protocol o)) info (λ o. refl))
        (IfOk-if Local (text_eq proto (codes "udp")) _ _
          (bound-Local (λ o. udp (get_timeout o)) info (λ o. refl))
          (IfOk-if Local (text_eq proto (codes "unix")) _ _ (unix_arg-Local info) (
            IfOk-if Local (text_eq proto (codes "http")) _ _
              (dynamic-Local
                (λ o. http_proxy (get_timeout o) (get_credentials o) (get_proxy_protocol o)) info
                (λ o. refl))
              (IfOk-if Local (text_eq proto (codes "socks5")) _ _
                (dynamic-Local (λ o. socks5 (get_timeout o) (get_credentials o)) info (λ o. refl))
                (IfOk-if Local (text_eq proto (codes "stdio")) _ _ (stdio_arg-Local info) (
                  IfOk-if Local (text_eq proto (codes "tunnel")) _ _ (tunnel_id_arg-Local info) (
                    IfOk-if Local (text_eq proto (codes "tproxy+tcp")) _ _
                      (dynamic-Local (λ o. t_proxy_tcp) info (λ o. refl))
                      (IfOk-if Local (text_eq proto (codes "tproxy+udp")) _ _
                        (dynamic-Local (λ o. t_proxy_udp (get_timeout o)) info (λ o. refl))
                        (IfOk-err Local invalid_input)))))))))

  pub parse_tunnel_arg-Local : (arg : Text) → IfOk Local (parse_tunnel_arg ips urls parsers arg)
  unfolding parse_tunnel_arg
  parse_tunnel_arg-Local arg =
      IfOk-bind Local (ok_or (split_once (codes "://") arg) invalid_input) _
        λ parts. tunnel_of-Local parts.0 parts.1

  -- A reverse protocol comes of a local one, and a token can carry it.
  reverse_protocol_kind :
      (p q : LocalProtocol)
      → reverse_protocol p ≡ ok q
      → (is_reverse_tunnel q ≡ true) × (sendable q ≡ some q)
  unfolding reverse_protocol is_reverse_tunnel
  reverse_protocol_kind p q e = ground arith

  -- An argument for a reverse tunnel that is accepted is also one for a local tunnel, which is not
  -- reverse, with the same addresses; its protocol is reverse, and one that a token can carry.
  pub parse_reverse_tunnel_arg-parse_tunnel_arg :
      (arg : Text) (r : LocalToRemote)
      → parse_reverse_tunnel_arg ips urls parsers arg ≡ ok r
      → (l : LocalToRemote) × (parse_tunnel_arg ips urls parsers arg ≡ ok l)
        × (is_reverse_tunnel l.local_protocol ≡ false)
        × (is_reverse_tunnel r.local_protocol ≡ true)
        × (sendable r.local_protocol ≡ some r.local_protocol)
        × (r.local ≡ l.local)
        × (r.remote ≡ l.remote)
  unfolding parse_reverse_tunnel_arg
  parse_reverse_tunnel_arg-parse_tunnel_arg arg r e =
      let (l, parsed, e1) = bind-eq-ok (parse_tunnel_arg ips urls parsers arg) _ e in
      let (q, turned, e2) = bind-eq-ok (reverse_protocol l.local_protocol) _ e1 in
      let (kind, carried) = reverse_protocol_kind l.local_protocol q turned in
      let same = ok_cancel e2 in
      (
        l,
        parsed,
        IfOk-ok Local (parse_tunnel_arg ips urls parsers arg) (parse_tunnel_arg-Local arg) parsed,
        ap (λ (x : LocalToRemote). is_reverse_tunnel x.local_protocol) (sym same) ∙ kind,
        subst (λ (x : LocalToRemote). sendable x.local_protocol ≡ some x.local_protocol) same
            carried,
        ap (λ (x : LocalToRemote). x.local) (sym same),
        ap (λ (x : LocalToRemote). x.remote) (sym same),
      )
