-- ===== src/Client/Cookie.antt =====
-- The cookie of a dynamic reverse tunnel, from the server's response to the client's connector.
use wstunnel.Prelude.{
  ◌≡◌, sym, ap, ◌∙◌, inl, inr, Option, some, Text, codes, Option-cases, map-eq-some, lookup-insert,
  lookup, insert, text_keys, and_then, unwrap_or, [],
}
use mathlib.Core.Path.{subst}
use wstunnel.Prelude.Results.{ok, ok_cancel}
use wstunnel.Net.{Host, RemoteAddr, LocalProtocol, domain}
use wstunnel.Request.{HeaderValue, header_text, JwtTunnelConfig, new_config, sendable}
use wstunnel.Request.Token.{sendable_same}
use wstunnel.Server.Upgrade.{Cookies, Response, tunnel_to_jwt_token, inject_cookie}
use wstunnel.Client.{remote_of}

inject_sound :
    (cookies : Cookies) (response r : Response) (remote : RemoteAddr)
    → inject_cookie cookies response remote ≡ ok r
    → (token : Text) × (value : HeaderValue) × (tunnel_to_jwt_token cookies cookies.nil_id remote
        ≡ some token)
      × (cookies.from_str token ≡ some value)
      × (insert (codes "cookie") value response.headers ≡ r.headers)
unfolding inject_cookie
inject_sound cookies response r remote e =
    elim (Option-cases (tunnel_to_jwt_token cookies cookies.nil_id remote)) [
      | inl n ↦ let e1 = rw (inject_cookie, n) at e in cc
      | inr (token, t) ↦ elim (Option-cases (cookies.from_str token)) [
        | inl n ↦ let e1 = rw (inject_cookie, t, n) at e in cc
        | inr (value, v) ↦ (
          token,
          value,
          t,
          v,
          ap (λ (x : Response). x.headers) (ok_cancel (rw (inject_cookie, t, v) at e)),
        )
      ]
    ]

-- The remote that the server puts in the cookie is the one that the client connects to, where its
-- token, its host and header values can be read back.
pub remote_of-inject_cookie :
    (cookies : Cookies) (decode : Text → Option JwtTunnelConfig) (host_parse : Text → Option Host)
    (response r : Response) (remote : RemoteAddr)
    → ((c : JwtTunnelConfig)
        → new_config cookies.show cookies.nil_id remote ≡ some c
        → decode (cookies.encode c) ≡ some c)
    → host_parse (cookies.show remote.host) ≡ some remote.host
    → ((t : Text) (v : HeaderValue) → cookies.from_str t ≡ some v → header_text v ≡ some t)
    → inject_cookie cookies response remote ≡ ok r
    → remote_of decode host_parse r.headers ≡ some remote
unfolding tunnel_to_jwt_token new_config remote_of
remote_of-inject_cookie cookies decode host_parse response r remote decodes parses reads e =
    let (token, value, made, put, stored) = inject_sound cookies response r remote e in
    let (claims, built, encoded) =
      map-eq-some cookies.encode (new_config cookies.show cookies.nil_id remote) made in
    let (p, sent, config) = map-eq-some _ (sendable remote.protocol) built in
    let found : lookup (codes "cookie") r.headers ≡ some value =
      ap (lookup (codes "cookie")) (sym stored)
      ∙ lookup-insert (codes "cookie") (codes "cookie") value response.headers in
    let read : and_then (and_then (lookup (codes "cookie") r.headers) header_text) decode
        ≡ some claims =
      rw (found, reads token value put) (ap decode (sym encoded) ∙ decodes claims built) in
    rw read (
      subst
        (λ (c : JwtTunnelConfig).
          ◌≡◌ {A = Option RemoteAddr}
            (some (record {
              protocol = c.p;
              host = unwrap_or (host_parse c.r) (domain []);
              port = c.rp;
            }))
            (some remote))
        config
        (rw parses (
          ap
            (λ (q : LocalProtocol).
              some (record { protocol = q; host = remote.host; port = remote.port }))
            (sendable_same remote.protocol p sent))))
