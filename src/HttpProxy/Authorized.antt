-- ===== src/HttpProxy/Authorized.antt =====
-- The credentials of the HTTP proxy.
use wstunnel.Prelude.{
  ℕ, ◌≡◌, refl, sym, ◌∙◌, ap, ◌⊎◌, inl, inr, ◌↔◌, true, ◌&&◌, not, Option, none, some, some_cancel,
  List, [], ◌∷◌, ◌++◌, Text, codes, text_eq, text_eq_iff, starts_with, drop, take, length, trim,
  and_then, unwrap_or, or_else, get_elem?, All, Exists, Bool-cases, Option-cases, and_then-eq-some,
  map-eq-some, arith, if-none-eq-some,
}
use wstunnel.Net.{Host}
use wstunnel.Request.{header_text}
use wstunnel.HttpProxy.{
  Destination, authorization_prefix, verify_credentials, ConnectRequest,
  handle_http_connect_request, ParsedRequest, ProxyUrls, authorization_of,
  handle_regular_http_request, Peer, stored, handle_new_connection, ProxyEvent, joined, lost,
  accepted, accept_error, ProxyServer, proxy_step, proxy_run, auth_header,
}

-- A text starts with another and goes on with a third when it is the two in a row.
after_prefix :
    (s pat t : Text)
    → ((starts_with s pat && text_eq (drop (length pat) s) t) ≡ true) ↔ (s ≡ pat ++ t)
after_prefix s [] t = text_eq_iff s t
after_prefix [] (p ∷ pat) t = ground arith
after_prefix (c ∷ s) (p ∷ pat) t = ground (arith, after_prefix s pat t)

or_else-eq-some :
    {A : Type 0} (o p : Option A) {a : A} → or_else o p ≡ some a → (o ≡ some a) ⊎ (p ≡ some a)
or_else-eq-some none p e = inr e
or_else-eq-some (some b) p e = inl e

-- The header is there, and is `Basic` and the token between white space.
abbrev pub Gives : Text → Option Text → Type 0
Gives token header =
    (value : Text) × (header ≡ some value) × (trim value ≡ authorization_prefix ++ token)

-- With a token configured, exactly the headers that give it are let through.
pub verify_credentials_iff :
    (token : Text) (header : Option Text)
    → (verify_credentials (some token) header ≡ true) ↔ Gives token header
unfolding verify_credentials
verify_credentials_iff token none = (λ e. cc, λ (v, e, t). cc)
verify_credentials_iff token (some header) = (
  λ e. (header, refl, (after_prefix (trim header) authorization_prefix token).0 e),
  λ (v, e, t).
      (after_prefix (trim header) authorization_prefix token).1 (ap trim (some_cancel e) ∙ t),
)

module _ {U : Type 0} (host_parse : Text → Option Host) (urls : ProxyUrls U)
    (http_parse : ℕ → Text → ParsedRequest) where
  -- A CONNECT request for the destination, with the token.
  abbrev pub Connects : Text → Destination → ConnectRequest → Type 0
  Connects token dest req =
      (req.is_connect ≡ true)
      × (host_parse (unwrap_or req.uri_host []) ≡ some dest.0)
      × (dest.1 ≡ unwrap_or req.uri_port 443)
      × Gives token (and_then req.proxy_authorization header_text)

  connect_sound :
      (token : Text) (req : ConnectRequest) (dest : Destination)
      → (handle_http_connect_request host_parse (some token) req).1 ≡ some dest
      → Connects token dest req
  unfolding handle_http_connect_request
  connect_sound token req dest e = elim (Bool-cases req.is_connect) [
    | inr n ↦ let e1 = rw (handle_http_connect_request, n) at e in cc
    | inl y ↦ elim (Option-cases (host_parse (unwrap_or req.uri_host []))) [
      | inl h ↦ let e1 = rw (handle_http_connect_request, y, h) at e in cc
      | inr (host, h) ↦
          elim (Bool-cases
            (verify_credentials (some token) (and_then req.proxy_authorization header_text))) [
              | inr n ↦ let e1 = rw (handle_http_connect_request, y, h, n) at e in cc
              | inl v ↦
                  let same = some_cancel (rw (handle_http_connect_request, y, h, v) at e) in
                  (
                    y,
                    h ∙ ap (λ (d : Destination). some d.0) same,
                    sym (ap (λ (d : Destination). d.1) same),
                    (verify_credentials_iff token _).0 v,
                  )
            ]
    ]
  ]

  stored_sound :
      (token : Text) (reqs : List ConnectRequest) (start : Option Destination) (dest : Destination)
      → stored host_parse (some token) reqs start ≡ some dest
      → (start ≡ some dest) ⊎ Exists (Connects token dest) reqs
  unfolding stored
  stored_sound token [] start dest e = inl e
  stored_sound token (req ∷ reqs) start dest e = elim (stored_sound token reqs _ dest e) [
    | inl now ↦
        elim (or_else-eq-some (handle_http_connect_request host_parse (some token) req).1 start
          now) [
            | inl here ↦ inr (req, inl refl, connect_sound token req dest here)
            | inr before ↦ inl before
          ]
    | inr (r, m, c) ↦ inr (r, inr m, c)
  ]

  -- A request of another method for the destination, with the token.
  abbrev pub Asks : Text → Destination → ParsedRequest → Type 0
  Asks token dest req =
      Gives token (authorization_of req)
      × ((url : U) × (urls.parse (unwrap_or req.path []) ≡ some url)
          × (urls.host url ≡ some dest.0)
          × (dest.1 ≡ unwrap_or (urls.port_or_known_default url) 80))

  regular_sound :
      (token : Text) (req : ParsedRequest) (dest : Destination)
      → handle_regular_http_request urls req (some token) ≡ some dest
      → Asks token dest req
  unfolding handle_regular_http_request
  regular_sound token req dest e =
      let (allowed, e1) =
        if-none-eq-some (not (verify_credentials (some token) (authorization_of req))) _ e in
      let (url, parsed, e2) = and_then-eq-some (urls.parse (unwrap_or req.path [])) _ e1 in
      let (host, named, same) = map-eq-some _ (urls.host url) e2 in
      (
        (verify_credentials_iff token (authorization_of req)).0 (ground arith),
        (
          url,
          parsed,
          named ∙ ap (λ (d : Destination). some d.0) same,
          sym (ap (λ (d : Destination). d.1) same),
        ),
      )

  -- The peer sent a request for the destination with the token.
  abbrev pub Presents : Text → Peer × Destination → Type 0
  Presents token (peer, dest) =
      Exists (Connects token dest) peer.requests
      ⊎ ((buf : Text) × (peer.peeked ≡ some buf) × Asks token dest (http_parse 32 buf))

  handle_new_connection-Presents :
      (token : Text) (peer : Peer) (dest : Destination)
      → handle_new_connection host_parse urls http_parse (some token) peer ≡ some dest
      → Presents token (peer, dest)
  unfolding handle_new_connection
  handle_new_connection-Presents token peer dest e =
      let (buf, there, e1) = and_then-eq-some peer.peeked _ e in
      elim (Bool-cases (text_eq (take 8 buf) (codes "CONNECT "))) [
        | inr n ↦ inr (buf, there, regular_sound token (http_parse 32 buf) dest (rw n at e1))
        | inl y ↦ elim (Bool-cases peer.served) [
          | inr n ↦ let e2 = rw (y, n) at e1 in cc
          | inl s ↦ elim (stored_sound token peer.requests none dest (rw (y, s) at e1)) [
            | inl c ↦ cc
            | inr found ↦ inl found
          ]
        ]
      ]

  proxy_step-Presents :
      (token : Text) (e : ProxyEvent) (server : ProxyServer)
      → All (Presents token) server.forwarded
      → All (Presents token) (proxy_step host_parse urls http_parse (some token) e server).forwarded
  unfolding proxy_step
  proxy_step-Presents token (accepted peer) server h = h
  proxy_step-Presents token accept_error server h = h
  proxy_step-Presents token (lost i) server h = h
  proxy_step-Presents token (joined i) server h = elim (Option-cases (get_elem? server.tasks i)) [
    | inl n ↦ rw (proxy_step, n) h
    | inr (peer, f) ↦
        elim (Option-cases (handle_new_connection host_parse urls http_parse (some token) peer)) [
          | inl n ↦ rw (proxy_step, f, n) h
          | inr (dest, d) ↦
              rw (proxy_step, f, d) (handle_new_connection-Presents token peer dest d, h)
        ]
  ]

  proxy_run-Presents_from :
      (token : Text) (es : List ProxyEvent) (server : ProxyServer)
      → All (Presents token) server.forwarded
      → All (Presents token) (proxy_run host_parse urls http_parse (some token) es server).forwarded
  unfolding proxy_run
  proxy_run-Presents_from token [] server h = h
  proxy_run-Presents_from token (e ∷ es) server h =
      proxy_run-Presents_from token es (proxy_step host_parse urls http_parse (some token) e server)
        (proxy_step-Presents token e server h)

  -- With credentials configured, whatever peers connect and in whatever order their tasks end, each
  -- connection that the proxy hands on has sent a request for the destination it is handed on to,
  -- with an authorization that is `Basic` and the encoding of the user, a colon and the password.
  pub proxy_run-Presents :
      (base64 : Text → Text) (user pass : Text) (es : List ProxyEvent)
      → All
          (Presents (base64 (user ++ (b':' ∷ pass))))
          (proxy_run host_parse urls http_parse
            (auth_header base64 (some (user, pass)))
            es
            (record { tasks = []; forwarded = [] })).forwarded
  unfolding auth_header
  proxy_run-Presents base64 user pass es =
      proxy_run-Presents_from (base64 (user ++ (b':' ∷ pass))) es
        (record { tasks = []; forwarded = [] }) tt
